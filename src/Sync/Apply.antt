-- ===== src/Sync/Apply.antt =====
-- `applyPlan` and `copyFile` of internal/sync/sync.go, every call of `os` that can fail included.
pub mod Copy
pub mod Atomic
pub mod Complete
use quadsyncd.Base.{
  ℕ, Bool, true, false, Option, none, some, List, [], ◌∷◌, ◌++◌, Result, ok, err, if◌then◌else◌,
  contains, nat_eq, text_eq,
}
use quadsyncd.Base.Text.{Text}
use quadsyncd.Base.Dict.{lookup, insert, erase}
use quadsyncd.FilePath.{dir_of}
use quadsyncd.Os.{
  Env, Disk, File, OsError, not_exist, failed, open_source, remove_file, mkdir_all, create_temp,
  copy_data, stat_open, chmod, close_temp, Io, rename_file, finally_remove,
}
use quadsyncd.Sync.{FileOp, Plan}

pub data ApplyError : Type 0 where
  no_quadlet_dir : ApplyError
  add_failed update_failed delete_failed : Text → OsError → ApplyError

-- `if err := ...; err != nil { return ... }` and what follows it
abbrev pub and_then : {E F : Type 0} → (E → F) → (Disk → Io F) → Io E → Io F
and_then wrap rest (ok u, disk) = rest disk
and_then wrap rest (err x, disk) = (err (wrap x), disk)

module _ (e : Env) where
  abbrev pub temp_for : Text → Disk → Text
  temp_for dst disk = e.temp_name disk (dir_of dst)

  -- From `io.Copy` to `os.Rename`, with the empty temporary file on the disk.
  unfoldable pub fill_temp : Text → Text → Text → File → Disk → Io OsError
  fill_temp src dst tmp f disk =
      if e.fails copy_data tmp
      then (err failed, disk)
      else if e.fails stat_open src
      then (err failed, insert tmp (record { content = f.content; mode = 0o600 }) disk)
      else if e.fails chmod tmp
      then (err failed, insert tmp (record { content = f.content; mode = 0o600 }) disk)
      else if e.fails close_temp tmp
      then (err failed, insert tmp (record { content = f.content; mode = f.mode }) disk)
      else rename_file e tmp dst (insert tmp (record { content = f.content; mode = f.mode }) disk)

  -- `os.CreateTemp` opens a new file: a name that is taken is an error.
  unfoldable pub through_temp : Text → Text → Text → File → Disk → Io OsError
  through_temp src dst tmp f disk =
      if e.fails create_temp tmp then (err failed, disk) else elim (lookup tmp disk) [
        | some g ↦ (err failed, disk)
        | none ↦
            finally_remove e tmp
              (fill_temp src dst tmp f (insert tmp (record { content = []; mode = 0o600 }) disk))
      ]

  unfoldable pub copy_file : Text → Text → Disk → Io OsError
  copy_file src dst disk =
      if e.fails mkdir_all (dir_of dst) then (err failed, disk) else elim (open_source e src disk) [
        | err x ↦ (err x, disk)
        | ok f ↦ through_temp src dst (temp_for dst disk) f disk
      ]

  unfoldable pub copy_all : (Text → OsError → ApplyError) → List FileOp → Disk → Io ApplyError
  copy_all wrap [] disk = (ok tt, disk)
  copy_all wrap (op ∷ ops) disk =
      and_then (wrap op.dest_path) (copy_all wrap ops) (copy_file op.source_path op.dest_path disk)

  -- A file that is gone already is no error.
  abbrev pub forgive : Io OsError → Io OsError
  forgive (err not_exist, disk) = (ok tt, disk)
  forgive (err failed, disk) = (err failed, disk)
  forgive (ok u, disk) = (ok u, disk)

  unfoldable pub delete_all : List FileOp → Disk → Io ApplyError
  delete_all [] disk = (ok tt, disk)
  delete_all (op ∷ ops) disk =
      and_then (delete_failed op.dest_path) (delete_all ops)
        (forgive (remove_file e op.dest_path disk))

  unfoldable pub apply_plan : Text → Plan → Disk → Io ApplyError
  apply_plan quadlet_dir p disk =
      if e.fails mkdir_all quadlet_dir
      then (err no_quadlet_dir, disk)
      else and_then (λ x. x)
          (λ d. and_then (λ x. x) (delete_all p.delete) (copy_all update_failed p.update d))
          (copy_all add_failed p.add disk)
