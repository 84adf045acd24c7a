-- ===== src/Sync/Apply/Atomic.antt =====
-- `applyPlan` as a whole: what the disk holds afterwards, with and without an error.
use mathlib.Core.List.{Memᴰ}
use mathlib.Core.List.Memᴰ
use quadsyncd.Base.{
  ◌≡◌, refl, sym, ap, ◌∙◌, ◌≢◌, ◌⊎◌, inl, inr, Bool-cases, Option, none, List, [], ◌∷◌, ◌++◌, ok,
  err, text_eq,
}
use quadsyncd.Base.Text.{Text}
use quadsyncd.Base.Dict.{lookup}
use quadsyncd.Os.{Io, Env, Disk, File, OsError, not_exist, failed, remove_file, mkdir_all}
use quadsyncd.Sync.{FileOp, Plan}
use quadsyncd.Sync.Apply.{
  ApplyError, temp_for, and_then, copy_all, delete_all, apply_plan, forgive, delete_failed,
  add_failed, update_failed,
}
use quadsyncd.Sync.Apply.Copy.{
  CopyLaw, Copied-dest, Copied-other, copy_file-atomic, remove_file-lookup, remove_file-same,
}

-- `os.CreateTemp` never picks the path.
abbrev pub IsApart : Env → Text → Type 0
IsApart e p = (disk : Disk) (dst : Text) → temp_for e dst disk ≢ p

-- What a path may hold after some of the operations: what it held, the file at the source of an
-- operation that copies to it, or nothing if an operation deletes it.
abbrev pub Settled : List FileOp → List FileOp → Disk → Text → Option File → Type 0
Settled copies deletes disk p x =
    (x ≡ lookup p disk)
    ⊎ (((op : FileOp) × Memᴰ op copies × (p ≡ op.dest_path) × (x ≡ lookup op.source_path disk))
        ⊎ ((op : FileOp) × Memᴰ op deletes × (p ≡ op.dest_path) × (x ≡ none)))

-- Every operation of the list is free of temporary names, and its source is no operation's
-- destination.
pub record IsSound (e : Env) (copies deletes : List FileOp) : Type 0 where
  pub source_apart : (op : FileOp) → Memᴰ op copies → IsApart e op.source_path
  pub dest_apart : (op : FileOp) → Memᴰ op copies → IsApart e op.dest_path
  pub source_kept :
      (op ot : FileOp) → Memᴰ op copies → Memᴰ ot copies → op.source_path ≢ ot.dest_path
  pub source_stays :
      (op ot : FileOp) → Memᴰ op copies → Memᴰ ot deletes → op.source_path ≢ ot.dest_path

module _ (e : Env) (copies deletes : List FileOp) (sound : IsSound e copies deletes)
    (start : Disk) where
  abbrev AllSettled : Disk → Type 0
  AllSettled d = (p : Text) → IsApart e p → Settled copies deletes start p (lookup p d)

  source-unchanged :
      (d : Disk)
      → AllSettled d
      → (op : FileOp) → Memᴰ op copies
      → lookup op.source_path d ≡ lookup op.source_path start
  source-unchanged d h op m = elim (h op.source_path (sound.source_apart op m)) [
    | inl same ↦ same
    | inr (inl (ot, n, at, x)) ↦ absurd (sound.source_kept op ot m n at)
    | inr (inr (ot, n, at, x)) ↦ absurd (sound.source_stays op ot m n at)
  ]

  copy-settled :
      (op : FileOp)
      → Memᴰ op copies
      → (d : Disk) (r : Io OsError) → AllSettled d
      → CopyLaw (temp_for e op.dest_path d) op.source_path op.dest_path d r
      → AllSettled r.1
  copy-settled op m d (ok u, d2) h law p apart = elim (text_eq.dec p op.dest_path) [
    | yes at ↦ inr (
        inl (
          op,
          m,
          at,
          ap (λ (x : Text). lookup x d2) at
              ∙ (Copied-dest op.source_path op.dest_path d d2 law ∙ source-unchanged d h op m),
        ))
    | no n ↦ rw (Copied-other op.source_path op.dest_path d d2 p law n) (h p apart)
  ]
  copy-settled op m d (err x, d2) h law p apart =
      rw (law p (λ same. apart d op.dest_path (sym same))) (h p apart)

  and_then-settled :
      {E F : Type 0} (wrap : E → F) (rest : Disk → Io F) (r : Io E)
      → AllSettled r.1
      → ((d : Disk) → AllSettled d → AllSettled (rest d).1)
      → AllSettled (and_then wrap rest r).1
  and_then-settled wrap rest (ok u, d) h k = k d h
  and_then-settled wrap rest (err x, d) h k = h

  copy_all-settled :
      (wrap : Text → OsError → ApplyError) (ops : List FileOp)
      → ((op : FileOp) → Memᴰ op ops → Memᴰ op copies)
      → (d : Disk) → AllSettled d
      → AllSettled (copy_all e wrap ops d).1
  unfolding copy_all
  copy_all-settled wrap [] sub d h = h
  copy_all-settled wrap (op ∷ ops) sub d h =
      let m = sub op (Memᴰ.head refl) in
      and_then-settled (wrap op.dest_path) (copy_all e wrap ops) _
        (copy-settled op m d _ h
          (copy_file-atomic e op.source_path op.dest_path d (sound.dest_apart op m d op.dest_path)))
        (copy_all-settled wrap ops (λ ot n. sub ot (Memᴰ.tail n)))

  forgive-settled : (r : Io OsError) → AllSettled r.1 → AllSettled (forgive e r).1
  forgive-settled (err not_exist, d) h = h
  forgive-settled (err failed, d) h = h
  forgive-settled (ok u, d) h = h

  delete-settled :
      (op : FileOp)
      → Memᴰ op deletes
      → (d : Disk) → AllSettled d
      → AllSettled (remove_file e op.dest_path d).1
  delete-settled op m d h p apart = elim (text_eq.dec p op.dest_path) [
    | yes at ↦ elim (remove_file-same e op.dest_path d) [
      | inl kept ↦
          rw
            (ap (λ (x : Text). lookup x (remove_file e op.dest_path d).1) at
              ∙ (kept ∙ ap (λ (x : Text). lookup x d) (sym at)))
            (h p apart)
      | inr gone ↦
          inr (
            inr (op, m, at, ap (λ (x : Text). lookup x (remove_file e op.dest_path d).1) at ∙ gone))
    ]
    | no n ↦ rw (remove_file-lookup e p op.dest_path d n) (h p apart)
  ]

  delete_all-settled :
      (ops : List FileOp)
      → ((op : FileOp) → Memᴰ op ops → Memᴰ op deletes)
      → (d : Disk) → AllSettled d
      → AllSettled (delete_all e ops d).1
  unfolding delete_all
  delete_all-settled [] sub d h = h
  delete_all-settled (op ∷ ops) sub d h =
      and_then-settled (delete_failed op.dest_path) (delete_all e ops) _
        (forgive-settled _ (delete-settled op (sub op (Memᴰ.head refl)) d h))
        (delete_all-settled ops (λ ot n. sub ot (Memᴰ.tail n)))

module _ (e : Env) (quadlet_dir : Text) (p : Plan) where
  abbrev copies : List FileOp
  copies = p.add ++ p.update

  abbrev update_and_delete : Disk → Io ApplyError
  update_and_delete d =
      and_then (λ x. x) (delete_all e p.delete) (copy_all e update_failed p.update d)

  -- However far `applyPlan` gets, every path that is no temporary file's name holds what it held
  -- before, or the whole file at the source of an operation that adds or updates it, or nothing
  -- when the plan deletes it. No source is a destination of the plan, and temporary names
  -- are neither sources nor destinations.
  pub apply_plan-atomic :
      (disk : Disk) (path : Text)
      → IsSound e (p.add ++ p.update) p.delete
      → IsApart e path
      → Settled
          (p.add ++ p.update)
          p.delete
          disk
          path
          (lookup path (apply_plan e quadlet_dir p disk).1)
  unfolding apply_plan
  apply_plan-atomic disk path sound apart = elim (Bool-cases (e.fails mkdir_all quadlet_dir)) [
    | inl h ↦ rw (h, apply_plan) (inl refl)
    | inr h ↦
        rw (h, apply_plan)
          (and_then-settled e copies p.delete sound disk (λ (x : ApplyError). x) update_and_delete
            (copy_all e add_failed p.add disk)
            (copy_all-settled e copies p.delete sound disk add_failed p.add
              (λ op m. Memᴰ.append_left p.update m) disk (λ q a. inl refl))
            (λ d settled.
              and_then-settled e copies p.delete sound disk (λ (x : ApplyError). x)
                (delete_all e p.delete) (copy_all e update_failed p.update d)
                (copy_all-settled e copies p.delete sound disk update_failed p.update
                  (λ op m. Memᴰ.append_right p.add m) d settled)
                (delete_all-settled e copies p.delete sound disk p.delete (λ op m. m)))
            path apart)
  ]
