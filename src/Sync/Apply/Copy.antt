-- ===== src/Sync/Apply/Copy.antt =====
-- `copyFile` replaces its destination in one step or leaves it alone.
use quadsyncd.Base.{
  ◌≡◌, refl, ◌∙◌, ◌≢◌, ◌⊎◌, inl, inr, Bool-cases, none, some, Option-cases, ok, err, Result-cases,
  if◌then◌else◌, ◌==◌, text_eq, arith,
}
use quadsyncd.Base.Text.{Text}
use quadsyncd.FilePath.{dir_of}
use quadsyncd.Base.Dict.{
  lookup, insert, erase, lookup-insert, lookup-erase, lookup-insert_same, lookup-insert_other,
  lookup-erase_same,
}
use quadsyncd.Os.{
  Io, rename_file, finally_remove, Env, Disk, File, OsError, open_source, remove_file, rename,
  copy_data, stat_open, chmod, close_temp, create_temp, mkdir_all, remove,
}
use quadsyncd.Sync.Apply.{fill_temp, through_temp, copy_file, temp_for}

-- The disk has the source's file at the destination, and is as it was everywhere else.
abbrev pub Copied : Text → Text → Disk → Disk → Type 0
Copied src dst disk d =
    (lookup src disk ≢ none)
    × ((p : Text) → lookup p d ≡ (if p == dst then lookup src disk else lookup p disk))

pub Copied-dest :
    (src dst : Text) (disk d : Disk) → Copied src dst disk d → lookup dst d ≡ lookup src disk
Copied-dest src dst disk d h = ground (arith, h.1 dst)

pub Copied-other :
    (src dst : Text) (disk d : Disk) (p : Text)
    → Copied src dst disk d
    → p ≢ dst
    → lookup p d ≡ lookup p disk
Copied-other src dst disk d p h n = ground (arith, h.1 p)

-- The disk is as it was but for a temporary file.
abbrev pub Untouched : Text → Disk → Disk → Type 0
Untouched tmp disk d = (p : Text) → p ≢ tmp → lookup p d ≡ lookup p disk

abbrev pub CopyLaw : Text → Text → Text → Disk → Io OsError → Type 0
CopyLaw tmp src dst disk (ok u, d) = Copied src dst disk d
CopyLaw tmp src dst disk (err x, d) = Untouched tmp disk d

-- Before the deferred removal.
abbrev TempLaw : Text → Text → File → Disk → Io OsError → Type 0
TempLaw tmp dst f disk (ok u, d) =
    (p : Text)
    → lookup p d ≡ (if p == dst then some f else if p == tmp then none else lookup p disk)
TempLaw tmp dst f disk (err x, d) = Untouched tmp disk d

module _ (e : Env) where
  pub remove_file-lookup :
      (p path : Text) (disk : Disk)
      → p ≢ path
      → lookup p (remove_file e path disk).1 ≡ lookup p disk
  unfolding remove_file
  remove_file-lookup p path disk n = ground (arith, lookup-erase p path disk)

  -- The path itself is gone afterwards, or it holds what it held.
  pub remove_file-same :
      (path : Text) (disk : Disk)
      → (lookup path (remove_file e path disk).1 ≡ lookup path disk)
        ⊎ (lookup path (remove_file e path disk).1 ≡ none)
  unfolding remove_file
  remove_file-same path disk = elim (Option-cases (lookup path disk)) [
    | inl h ↦ inl (ground arith)
    | inr (f, h) ↦ elim (Bool-cases (e.fails remove path)) [
      | inl k ↦ inl (ground arith)
      | inr k ↦ inr (ground (arith, lookup-erase_same path disk))
    ]
  ]

  remove_file-gone :
      (path : Text) (disk : Disk) → lookup path disk ≡ none → (remove_file e path disk).1 ≡ disk
  unfolding remove_file
  remove_file-gone path disk h = ground arith

  open_source-lookup :
      (src : Text) (disk : Disk) (f : File)
      → open_source e src disk ≡ ok f
      → lookup src disk ≡ some f
  unfolding open_source
  open_source-lookup src disk f h = ground arith

  rename_file-law :
      (tmp dst : Text) (f : File) (disk : Disk)
      → tmp ≢ dst
      → TempLaw tmp dst f disk (rename_file e tmp dst (insert tmp f disk))
  unfolding rename_file
  rename_file-law tmp dst f disk n = elim (Bool-cases (e.fails rename dst)) [
    | inl h ↦ rw (h, rename_file) λ p m. lookup-insert_other p tmp f disk m
    | inr h ↦
        rw (h, rename_file, lookup-insert_same tmp f disk)
          λ p. ground (
            arith,
            lookup-insert p dst f (erase tmp (insert tmp f disk)),
            lookup-erase p tmp (insert tmp f disk),
            lookup-insert p tmp f disk,
          )
  ]

  TempLaw-base :
      (tmp dst : Text) (f g : File) (disk : Disk) (r : Io OsError)
      → TempLaw tmp dst f (insert tmp g disk) r
      → TempLaw tmp dst f disk r
  TempLaw-base tmp dst f g disk (ok u, d) h = λ p. ground (arith, h p, lookup-insert p tmp g disk)
  TempLaw-base tmp dst f g disk (err x, d) h = λ p n. h p n ∙ lookup-insert_other p tmp g disk n

  twice-Untouched :
      (tmp : Text) (f g : File) (disk : Disk)
      → Untouched tmp disk (insert tmp f (insert tmp g disk))
  twice-Untouched tmp f g disk p n =
      lookup-insert_other p tmp f (insert tmp g disk) n ∙ lookup-insert_other p tmp g disk n

  fill_temp-law :
      (src tmp dst : Text) (f g : File) (disk : Disk)
      → tmp ≢ dst
      → TempLaw tmp dst f disk (fill_temp e src dst tmp f (insert tmp g disk))
  unfolding fill_temp
  fill_temp-law src tmp dst f g disk n = elim (Bool-cases (e.fails copy_data tmp)) [
    | inl h ↦ rw (h, fill_temp) (λ p m. lookup-insert_other p tmp g disk m)
    | inr h ↦ elim (Bool-cases (e.fails stat_open src)) [
      | inl k ↦ rw (h, k, fill_temp) (twice-Untouched tmp _ g disk)
      | inr k ↦ elim (Bool-cases (e.fails chmod tmp)) [
        | inl l ↦ rw (h, k, l, fill_temp) (twice-Untouched tmp _ g disk)
        | inr l ↦ elim (Bool-cases (e.fails close_temp tmp)) [
          | inl m ↦ rw (h, k, l, m, fill_temp) (twice-Untouched tmp _ g disk)
          | inr m ↦
              rw (h, k, l, m, fill_temp)
                (TempLaw-base tmp dst f g disk _ (rename_file-law tmp dst f (insert tmp g disk) n))
        ]
      ]
    ]
  ]

  finally_remove-law :
      (src tmp dst : Text) (f : File) (disk : Disk) (r : Io OsError)
      → lookup src disk ≡ some f
      → lookup tmp disk ≡ none
      → tmp ≢ dst
      → TempLaw tmp dst f disk r
      → CopyLaw tmp src dst disk (finally_remove e tmp r)
  finally_remove-law src tmp dst f disk (ok u, d) here free n h =
      rw (remove_file-gone tmp d (ground (arith, h tmp))) (ground arith, λ p. ground (arith, h p))
  finally_remove-law src tmp dst f disk (err x, d) here free n h =
      λ p m. remove_file-lookup p tmp d m ∙ h p m

  through_temp-law :
      (src tmp dst : Text) (f : File) (disk : Disk)
      → lookup src disk ≡ some f
      → tmp ≢ dst
      → CopyLaw tmp src dst disk (through_temp e src dst tmp f disk)
  unfolding through_temp
  through_temp-law src tmp dst f disk here n = elim (Bool-cases (e.fails create_temp tmp)) [
    | inl h ↦ rw (h, through_temp) λ p m. refl
    | inr h ↦ elim (Option-cases (lookup tmp disk)) [
      | inl free ↦
          rw (h, free, through_temp)
            (finally_remove-law src tmp dst f disk _ here free n
              (fill_temp-law src tmp dst f _ disk n))
      | inr (g, taken) ↦ rw (h, taken, through_temp) λ p m. refl
    ]
  ]

  -- Whatever call fails, `copyFile` changes no file but its destination and its temporary file,
  -- and an error leaves the destination too as it was: so the destination is the whole new
  -- file or the whole old one. An answer without error means that the source is there, that the
  -- destination is now a copy of it with its mode, and that no temporary file is left. The name of
  -- the temporary file is not that of the destination.
  pub copy_file-atomic :
      (src dst : Text) (disk : Disk)
      → temp_for e dst disk ≢ dst
      → CopyLaw (temp_for e dst disk) src dst disk (copy_file e src dst disk)
  unfolding copy_file
  copy_file-atomic src dst disk n = elim (Bool-cases (e.fails mkdir_all (dir_of dst))) [
    | inl h ↦ rw (h, copy_file) λ p m. refl
    | inr h ↦ elim (Result-cases (open_source e src disk)) [
      | inl (f, k) ↦
          rw (h, k, copy_file)
            (through_temp-law src (temp_for e dst disk) dst f disk (open_source-lookup src disk f k)
              n)
      | inr (x, k) ↦ rw (h, k, copy_file) λ p m. refl
    ]
  ]
