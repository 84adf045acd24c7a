-- ===== src/Runstore/Store.antt =====
-- The operations of the store in internal/runstore/runstore.go, on a disk with directories.
pub mod RoundTrip
use quadsyncd.Base.{
  ℕ, ◌+◌, Bool, true, false, not, Option, none, some, List, [], ◌∷◌, ◌++◌, keep, length, map,
  Result, ok, err, contains, ltb, leb, ◌==◌, if◌then◌else◌, text_eq,
}
use quadsyncd.Base.Text.{Text, str, split, trim_suffix, has_prefix}
use quadsyncd.Base.Dict.{Dict, lookup, insert, erase}
use quadsyncd.Base.Sort.{sort_by}
use quadsyncd.FilePath.{base, dir_of, join, slash}
use quadsyncd.Os
use quadsyncd.Os.{
  Env, Disk, File, OsError, not_exist, failed, mkdir_all, create_temp, write_data, close_temp, stat,
  remove, open_write, Io, read_file, write_file, rename_file, finally_remove,
}
use quadsyncd.Runstore.{
  RunMeta, RunPlan, StoreError, safe_run_dir, validate_artifact_name, parse_run_id_timestamp,
  run_not_found, plan_not_found, artifact_not_found, encode_failed, decode_failed, read_failed,
  write_failed, mkdir_failed, log_line_too_long,
}

-- The directories that exist and the files. A file is made only in a directory that exists.
pub record Tree : Type 0 where
  pub dirs : List Text
  pub disk : Disk

-- The JSON library, `time.Parse`, the modification times and the random part of identifiers.
pub record Codec : Type 1 where
  pub LogRecord : Type 0
  pub marshal_meta : RunMeta → Option Text
  pub unmarshal_meta : Text → Option RunMeta
  pub marshal_plan : RunPlan → Option Text
  pub unmarshal_plan : Text → Option RunPlan
  pub unmarshal_record : Text → Option LogRecord
  pub parse_time : Text → Option ℕ
  pub mod_time : Text → Option ℕ
  pub generate_run_id : Option Text

-- The answer of an operation and the tree that it leaves.
abbrev pub Answer {ℓ} : Type ℓ → Type ℓ
Answer A = Result StoreError A × Tree

abbrev pub meta_path : Text → Text
meta_path run_dir = join run_dir (str "meta.json")

abbrev pub log_path : Text → Text
log_path run_dir = join run_dir (str "log.ndjson")

abbrev pub plan_path : Text → Text
plan_path run_dir = join run_dir (str "plan.json")

abbrev pub artifacts_dir : Text → Text
artifacts_dir run_dir = join run_dir (str "artifacts")

-- The error of a read, by whether the file is there.
abbrev pub read_error : StoreError → OsError → StoreError
read_error missing not_exist = missing
read_error missing failed = read_failed

abbrev pub decoded {ℓ} : {A : Type ℓ} → Option A → Result StoreError A
decoded none = err decode_failed
decoded (some a) = ok a

module _ (e : Env) (h : Codec) (base_dir : Text) where
  -- `os.MkdirAll`
  unfoldable pub make_dir : Text → Tree → Answer (Unit {0})
  make_dir path t =
      if e.fails mkdir_all path
      then (err mkdir_failed, t)
      else (ok tt, if contains t.dirs path then t else record t { dirs = path ∷ t.dirs })

  -- From the creation of the temporary file in a directory that exists.
  unfoldable pub write_through_temp : Text → Text → Text → Disk → Io OsError
  write_through_temp tmp path content disk =
      if e.fails write_data tmp
      then (err failed, disk)
      else if e.fails close_temp tmp
      then (err failed, insert tmp (record { content = content; mode = 0o600 }) disk)
      else rename_file e tmp path (insert tmp (record { content = content; mode = 0o600 }) disk)

  abbrev pub write_answer : Tree → Io OsError → Answer (Unit {0})
  write_answer t (ok u, disk) = (ok tt, record t { disk = disk })
  write_answer t (err x, disk) = (err write_failed, record t { disk = disk })

  unfoldable pub write_meta_atomic : Text → RunMeta → Tree → Answer (Unit {0})
  write_meta_atomic run_dir meta t =
      let tmp = e.temp_name t.disk run_dir in
      elim (h.marshal_meta meta) [
        | none ↦ (err encode_failed, t)
        | some text ↦
            if e.fails create_temp tmp
            then (err write_failed, t)
            else if not (contains t.dirs run_dir)
            then (err write_failed, t)
            else elim (lookup tmp t.disk) [
              | some f ↦ (err write_failed, t)
              | none ↦ write_answer t (
                  finally_remove e tmp (
                    write_through_temp tmp (meta_path run_dir) text
                      (insert tmp (record { content = []; mode = 0o600 }) t.disk)))
            ]
      ]

  -- `os.WriteFile` in a directory that must exist
  unfoldable pub write_in : Text → Text → Text → Tree → Answer (Unit {0})
  write_in dir path content t =
      if contains t.dirs dir
      then write_answer t (write_file e path content t.disk)
      else (err write_failed, t)

  unfoldable pub create_at : RunMeta → Tree → Answer RunMeta
  create_at meta t = elim (safe_run_dir base_dir meta.id) [
    | err x ↦ (err x, t)
    | ok run_dir ↦
        let made = make_dir run_dir t in
        elim made.0 [
          | err x ↦ (err x, made.1)
          | ok u ↦
              let written = write_meta_atomic run_dir meta made.1 in
              elim written.0 [ err x ↦ (err x, written.1) | ok v ↦ (ok meta, written.1) ]
        ]
  ]

  -- `Create` fills in an identifier that is empty, in the caller's value: the answer.
  unfoldable pub create : RunMeta → Tree → Answer RunMeta
  create meta t =
      if meta.id == []
      then elim h.generate_run_id [
        | none ↦ (err write_failed, t)
        | some id ↦ create_at (record meta { id = id }) t
      ]
      else create_at meta t

  unfoldable pub update : RunMeta → Tree → Answer (Unit {0})
  update meta t = elim (safe_run_dir base_dir meta.id) [
    | err x ↦ (err x, t)
    | ok run_dir ↦
        if e.fails stat (meta_path run_dir)
        then (err read_failed, t)
        else elim (lookup (meta_path run_dir) t.disk) [
          | none ↦ (err run_not_found, t)
          | some f ↦ write_meta_atomic run_dir meta t
        ]
  ]

  unfoldable pub get : Text → Tree → Result StoreError RunMeta
  get id t = elim (safe_run_dir base_dir id) [
    | err x ↦ err x
    | ok run_dir ↦ elim (read_file e (meta_path run_dir) t.disk) [
      | err x ↦ err (read_error run_not_found x)
      | ok text ↦ decoded (h.unmarshal_meta text)
    ]
  ]

  -- The names of the directories in the base directory.
  unfoldable pub run_names : List Text → List Text
  run_names dirs = map base (keep (λ d. dir_of d == base_dir) dirs)

  unfoldable pub load_runs : List Text → Tree → List RunMeta
  load_runs [] t = []
  load_runs (id ∷ ids) t =
      let rest = load_runs ids t in elim (get id t) [ err x ↦ rest | ok meta ↦ meta ∷ rest ]

  abbrev pub newer : RunMeta → RunMeta → Bool
  newer a b = ltb b.started_at a.started_at

  unfoldable pub list : Tree → Result StoreError (List RunMeta)
  list t =
      if e.fails mkdir_all base_dir
      then err mkdir_failed
      else ok (sort_by newer (load_runs (run_names t.dirs) t))

  abbrev pub content_of : Option File → Text
  content_of none = []
  content_of (some f) = f.content

  unfoldable pub append_log : Text → Text → Tree → Answer (Unit {0})
  append_log id line t = elim (safe_run_dir base_dir id) [
    | err x ↦ (err x, t)
    | ok run_dir ↦
        let old = content_of (lookup (log_path run_dir) t.disk) in
        write_in run_dir (log_path run_dir) (old ++ line ++ b'\n' ∷ []) t
  ]

  -- The lines of `bufio.Scanner`, which gives up at 64 KiB.
  unfoldable pub scan_lines : List Text → Result StoreError (List h.LogRecord)
  scan_lines [] = ok []
  scan_lines (given ∷ lines) =
      let line = trim_suffix given (b'\r' ∷ []) in
      let rest = scan_lines lines in
      if leb 65536 (length given) then err log_line_too_long else elim rest [
        | err x ↦ err x
        | ok records ↦
            if line == []
            then ok records
            else elim (h.unmarshal_record line) [ none ↦ ok records | some r ↦ ok (r ∷ records) ]
      ]

  unfoldable pub read_log : Text → Tree → Result StoreError (List h.LogRecord)
  read_log id t = elim (safe_run_dir base_dir id) [
    | err x ↦ err x
    | ok run_dir ↦ elim (read_file e (log_path run_dir) t.disk) [
      | err not_exist ↦ ok []
      | err failed ↦ err read_failed
      | ok text ↦ scan_lines (split b'\n' text)
    ]
  ]

  unfoldable pub write_plan : Text → RunPlan → Tree → Answer (Unit {0})
  write_plan id p t = elim (safe_run_dir base_dir id) [
    | err x ↦ (err x, t)
    | ok run_dir ↦ elim (h.marshal_plan p) [
      | none ↦ (err encode_failed, t)
      | some text ↦ write_in run_dir (plan_path run_dir) text t
    ]
  ]

  unfoldable pub read_plan : Text → Tree → Result StoreError RunPlan
  read_plan id t = elim (safe_run_dir base_dir id) [
    | err x ↦ err x
    | ok run_dir ↦ elim (read_file e (plan_path run_dir) t.disk) [
      | err x ↦ err (read_error plan_not_found x)
      | ok text ↦ decoded (h.unmarshal_plan text)
    ]
  ]

  unfoldable pub write_artifact : Text → Text → Text → Tree → Answer (Unit {0})
  write_artifact id name content t = elim (validate_artifact_name name) [
    | err x ↦ (err x, t)
    | ok u ↦ elim (safe_run_dir base_dir id) [
      | err x ↦ (err x, t)
      | ok run_dir ↦
          let dir = artifacts_dir run_dir in
          let made = make_dir dir t in
          elim made.0 [
            | err x ↦ (err x, made.1)
            | ok v ↦ write_in dir (join dir name) content made.1
          ]
    ]
  ]

  unfoldable pub read_artifact : Text → Text → Tree → Result StoreError Text
  read_artifact id name t = elim (validate_artifact_name name) [
    | err x ↦ err x
    | ok u ↦ elim (safe_run_dir base_dir id) [
      | err x ↦ err x
      | ok run_dir ↦ elim (read_file e (join (artifacts_dir run_dir) name) t.disk) [
        | err x ↦ err (read_error artifact_not_found x)
        | ok text ↦ ok text
      ]
    ]
  ]
