-- ===== src/Runstore/Store/RoundTrip.antt =====
-- What `Create` and `Update` wrote is what `Get` reads.
use mathlib.Core.Logic.{if_pos, if_neg}
use quadsyncd.Base.{
  ◌≡◌, refl, sym, ap, ◌∙◌, ◌≢◌, inl, inr, false, Bool-cases, Option, some, Option-cases, [], ok,
  err, Result-cases, text_eq, contains, arith,
}
use quadsyncd.Base.Text.{Text}
use quadsyncd.Base.Dict.{lookup, insert, lookup-insert_same}
use quadsyncd.Os.{
  Env, Disk, File, Io, OsError, rename_file, finally_remove, open_source, read_file, open_file,
  read_data, write_data, close_temp, rename, create_temp, stat,
}
use quadsyncd.Sync.Apply.Copy.{remove_file-lookup}
use quadsyncd.Runstore.{RunMeta, StoreError, safe_run_dir, write_failed}
use quadsyncd.Runstore.Store.{
  Tree, Codec, Answer, write_through_temp, write_meta_atomic, write_answer, create, create_at,
  update, get, meta_path, decoded, make_dir,
}

abbrev pub holding : Text → File
holding text = record { content = text; mode = 0o600 }

-- The metadata decode from what they are encoded as.
abbrev pub Decodes : Codec → RunMeta → Type 0
Decodes h m = (text : Text) → h.marshal_meta m ≡ some text → h.unmarshal_meta text ≡ some m

module _ (e : Env) (h : Codec) (base_dir : Text) where
  -- The file can be read, and no temporary file takes its name.
  abbrev pub IsReadable : Text → Type 0
  IsReadable run_dir =
      (e.fails open_file (meta_path run_dir) ≡ false)
      × (e.fails read_data (meta_path run_dir) ≡ false)
      × ((disk : Disk) → meta_path run_dir ≢ e.temp_name disk run_dir)

  rename_file-ok :
      (tmp path : Text) (f : File) (disk : Disk)
      → (rename_file e tmp path (insert tmp f disk)).0 ≡ ok tt
      → lookup path (rename_file e tmp path (insert tmp f disk)).1 ≡ some f
  unfolding rename_file
  rename_file-ok tmp path f disk k = elim (Bool-cases (e.fails rename path)) [
    | inl bad ↦ cc
    | inr good ↦ rw (good, lookup-insert_same tmp f disk, rename_file) (lookup-insert_same path f _)
  ]

  write_through_temp-ok :
      (tmp path text : Text) (disk : Disk)
      → (write_through_temp e h base_dir tmp path text disk).0 ≡ ok tt
      → lookup path (write_through_temp e h base_dir tmp path text disk).1 ≡ some (holding text)
  unfolding write_through_temp
  write_through_temp-ok tmp path text disk k = elim (Bool-cases (e.fails write_data tmp)) [
    | inl bad ↦ cc
    | inr a ↦ elim (Bool-cases (e.fails close_temp tmp)) [
      | inl bad ↦ cc
      | inr b ↦
          rw (a, b, write_through_temp)
            (rename_file-ok tmp path (holding text) disk (rw (a, b, write_through_temp) at k))
    ]
  ]

  write_answer-ok :
      (t : Tree) (r : Io OsError)
      → (write_answer e h base_dir t r).0 ≡ ok tt
      → (r.0 ≡ ok tt) × ((write_answer e h base_dir t r).1.disk ≡ r.1)
  write_answer-ok t (ok u, disk) k = (refl, refl)
  write_answer-ok t (err x, disk) k = cc

  write_meta_atomic-ok :
      (run_dir : Text) (meta : RunMeta) (t : Tree)
      → ((disk : Disk) → meta_path run_dir ≢ e.temp_name disk run_dir)
      → (write_meta_atomic e h base_dir run_dir meta t).0 ≡ ok tt
      → (text : Text) × (h.marshal_meta meta ≡ some text)
        × (lookup (meta_path run_dir) (write_meta_atomic e h base_dir run_dir meta t).1.disk
            ≡ some (holding text))
  unfolding write_meta_atomic
  write_meta_atomic-ok run_dir meta t apart k = elim (Option-cases (h.marshal_meta meta)) [
    | inl bad ↦ cc
    | inr (text, a) ↦ elim (Bool-cases (e.fails create_temp (e.temp_name t.disk run_dir))) [
      | inl bad ↦ cc
      | inr b ↦ elim (Bool-cases (contains t.dirs run_dir)) [
        | inr bad ↦ cc
        | inl c ↦ elim (Option-cases (lookup (e.temp_name t.disk run_dir) t.disk)) [
          | inr (f, bad) ↦ cc
          | inl d ↦
              let tmp = e.temp_name t.disk run_dir in
              let disk = insert tmp (holding []) t.disk in
              let r = write_through_temp e h base_dir tmp (meta_path run_dir) text disk in
              let path : write_meta_atomic e h base_dir run_dir meta t
                  ≡ write_answer e h base_dir t (finally_remove e tmp r) =
                rw (a, b, c, d, write_meta_atomic) refl in
              let (done, same) =
                write_answer-ok t (finally_remove e tmp r)
                  (sym (ap (λ (x : Answer (Unit {0})). x.0) path) ∙ k) in
              (
                text,
                a,
                ap (λ (x : Answer (Unit {0})). lookup (meta_path run_dir) x.1.disk) path
                    ∙ (ap (λ (x : Disk). lookup (meta_path run_dir) x) same
                        ∙ (remove_file-lookup e (meta_path run_dir) tmp r.1 (apart t.disk)
                            ∙ write_through_temp-ok tmp (meta_path run_dir) text disk done)),
              )
        ]
      ]
    ]
  ]

  read_file-holding :
      (path text : Text) (disk : Disk)
      → e.fails open_file path ≡ false
      → e.fails read_data path ≡ false
      → lookup path disk ≡ some (holding text)
      → read_file e path disk ≡ ok text
  unfolding read_file open_source
  read_file-holding path text disk a b there = ground arith

  get-holding :
      (id run_dir text : Text) (meta : RunMeta) (t : Tree)
      → Decodes h meta
      → IsReadable run_dir
      → safe_run_dir base_dir id ≡ ok run_dir
      → h.marshal_meta meta ≡ some text
      → lookup (meta_path run_dir) t.disk ≡ some (holding text)
      → get e h base_dir id t ≡ ok meta
  unfolding get
  get-holding id run_dir text meta t codec readable safe a there =
      rw (safe, read_file-holding (meta_path run_dir) text t.disk readable.0 readable.1 there, get)
        (ap (λ (x : Option RunMeta). decoded x) (codec text a))

  -- When `Update` answers without an error, `Get` reads the metadata that it was given: the metadata
  -- decode to what was encoded, the file can be read, and no temporary file takes its name.
  pub get-update :
      (meta : RunMeta) (run_dir : Text) (t : Tree)
      → Decodes h meta
      → IsReadable run_dir
      → safe_run_dir base_dir meta.id ≡ ok run_dir
      → (update e h base_dir meta t).0 ≡ ok tt
      → get e h base_dir meta.id (update e h base_dir meta t).1 ≡ ok meta
  unfolding update
  get-update meta run_dir t codec readable safe k =
      elim (Bool-cases (e.fails stat (meta_path run_dir))) [
        | inl bad ↦ cc
        | inr a ↦ elim (Option-cases (lookup (meta_path run_dir) t.disk)) [
          | inl bad ↦ cc
          | inr (f, b) ↦
              let path : update e h base_dir meta t
                  ≡ write_meta_atomic e h base_dir run_dir meta t =
                rw (safe, a, b, update) refl in
              let (text, made, there) =
                write_meta_atomic-ok run_dir meta t readable.2
                  (sym (ap (λ (x : Answer (Unit {0})). x.0) path) ∙ k) in
              rw path (get-holding meta.id run_dir text meta _ codec readable safe made there)
        ]
      ]

  create_at-same :
      (meta made : RunMeta) (t : Tree) → (create_at e h base_dir meta t).0 ≡ ok made → meta ≡ made
  unfolding create_at
  create_at-same meta made t k = elim (Result-cases (safe_run_dir base_dir meta.id)) [
    | inr (x, bad) ↦ cc
    | inl (run_dir, safe) ↦ elim (Result-cases (make_dir e h base_dir run_dir t).0) [
      | inr (x, bad) ↦ cc
      | inl (u, a) ↦
          elim (Result-cases
            (write_meta_atomic e h base_dir run_dir meta (make_dir e h base_dir run_dir t).1).0) [
              | inr (x, bad) ↦ cc
              | inl (v, b) ↦ cc
            ]
    ]
  ]

  create_at-get :
      (meta made : RunMeta) (run_dir : Text) (t : Tree)
      → Decodes h meta
      → IsReadable run_dir
      → safe_run_dir base_dir meta.id ≡ ok run_dir
      → (create_at e h base_dir meta t).0 ≡ ok made
      → get e h base_dir meta.id (create_at e h base_dir meta t).1 ≡ ok meta
  unfolding create_at
  create_at-get meta made run_dir t codec readable safe k =
      elim (Result-cases (make_dir e h base_dir run_dir t).0) [
        | inr (x, bad) ↦ cc
        | inl (u, a) ↦
            let t2 = (make_dir e h base_dir run_dir t).1 in
            elim (Result-cases (write_meta_atomic e h base_dir run_dir meta t2).0) [
              | inr (x, bad) ↦ cc
              | inl (v, b) ↦
                  let path : create_at e h base_dir meta t
                      ≡ (ok meta, (write_meta_atomic e h base_dir run_dir meta t2).1) =
                    rw (safe, a, b, create_at) refl in
                  let (text, encoded, there) = write_meta_atomic-ok run_dir meta t2 readable.2 b in
                  rw path
                    (get-holding meta.id run_dir text meta _ codec readable safe encoded there)
            ]
      ]

  -- When `Create` answers without an error, `Get` reads under the identifier in the answer, which is
  -- a generated one if none was given, the metadata in the answer: the metadata decode to what was
  -- encoded, the file can be read, and no temporary file takes its name.
  pub get-create :
      (meta made : RunMeta) (run_dir : Text) (t : Tree)
      → Decodes h made
      → IsReadable run_dir
      → safe_run_dir base_dir made.id ≡ ok run_dir
      → (create e h base_dir meta t).0 ≡ ok made
      → get e h base_dir made.id (create e h base_dir meta t).1 ≡ ok made
  unfolding create create_at make_dir write_meta_atomic write_through_temp
  get-create meta made run_dir t codec readable safe k = elim (text_eq.dec meta.id []) [
    | yes none_given ↦ elim (Option-cases h.generate_run_id) [
      | inl bad ↦
          let path : create e h base_dir meta t ≡ (err write_failed, t) =
            rw (if_pos _ none_given, bad, create) refl in
          absurd (clash _ (sym (ap (λ (x : Answer RunMeta). x.0) path) ∙ k))
      | inr (id, a) ↦
          let path : create e h base_dir meta t
              ≡ create_at e h base_dir (record meta { id = id }) t =
            rw (if_pos _ none_given, a, create) refl in
          rw path (
            of_create_at (record meta { id = id })
              (sym (ap (λ (x : Answer RunMeta). x.0) path) ∙ k))
    ]
    | no given ↦
        let path : create e h base_dir meta t ≡ create_at e h base_dir meta t =
          rw (if_neg _ given, create) refl in
        rw path (of_create_at meta (sym (ap (λ (x : Answer RunMeta). x.0) path) ∙ k))
  ]
    where
      clash : (x : StoreError) → err x ≢ ok made
      clash x c = cc

      of_create_at :
          (m : RunMeta)
          → (create_at e h base_dir m t).0 ≡ ok made
          → get e h base_dir made.id (create_at e h base_dir m t).1 ≡ ok made
      of_create_at m l =
          let same = create_at-same m made t l in
          rw (sym same) (create_at-get m made run_dir t (rw same codec) readable (rw same safe) l)
