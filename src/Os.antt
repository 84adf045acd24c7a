-- ===== src/Os.antt =====
-- What the source uses of the package `os`: plain files under their absolute paths, with an
-- environment that may fail any call. Directories hold nothing here but the files below them.
use quadsyncd.Base.{ℕ, Bool, none, some, [], Result, ok, err, if◌then◌else◌, text_eq}
use quadsyncd.Base.Text.{Text}
use quadsyncd.Base.Dict.{Dict, lookup, insert, erase}

pub record File : Type 0 where
  pub content : Text
  pub mode : ℕ

abbrev pub Disk : Type 0
Disk = Dict Text File

pub data Call : Type 0 where
  mkdir_all open_file read_data create_temp copy_data stat_open chmod close_temp rename : Call
  remove open_write write_data stat : Call

-- `os.IsNotExist`, or any other error
pub data OsError : Type 0 where
  not_exist failed : OsError

-- Which calls fail on which path, the name that `os.CreateTemp` picks in a directory, and the
-- SHA-256 of a content in hexadecimal.
pub record Env : Type 0 where
  pub fails : Call → Text → Bool
  pub temp_name : Disk → Text → Text
  pub sha256 : Text → Text

-- The answer of a call and the disk that it leaves.
abbrev pub Io : Type 0 → Type 0
Io E = Result E (Unit {0}) × Disk

module _ (e : Env) where
  -- `os.Open` of a file that is read to its end
  unfoldable pub open_source : Text → Disk → Result OsError File
  open_source path disk =
      if e.fails open_file path
      then err failed
      else elim (lookup path disk) [ none ↦ err not_exist | some f ↦ ok f ]

  unfoldable pub read_file : Text → Disk → Result OsError Text
  read_file path disk = elim (open_source path disk) [
    | err x ↦ err x
    | ok f ↦ if e.fails read_data path then err failed else ok f.content
  ]

  -- `os.WriteFile` truncates first, so an error while writing leaves an empty file.
  unfoldable pub write_file : Text → Text → Disk → Result OsError (Unit {0}) × Disk
  write_file path content disk =
      if e.fails open_write path
      then (err failed, disk)
      else if e.fails write_data path
      then (err failed, insert path (record { content = []; mode = 0o644 }) disk)
      else (ok tt, insert path (record { content = content; mode = 0o644 }) disk)

  -- `os.Remove`
  unfoldable pub remove_file : Text → Disk → Result OsError (Unit {0}) × Disk
  remove_file path disk = elim (lookup path disk) [
    | none ↦ (err not_exist, disk)
    | some f ↦ if e.fails remove path then (err failed, disk) else (ok tt, erase path disk)
  ]

  -- `os.Rename`
  unfoldable pub rename_file : Text → Text → Disk → Io OsError
  rename_file from to disk =
      if e.fails rename to then (err failed, disk) else elim (lookup from disk) [
        | none ↦ (err not_exist, disk)
        | some f ↦ (ok tt, insert to f (erase from disk))
      ]

  -- The deferred `os.Remove` of the temporary file, its error ignored.
  abbrev pub finally_remove : Text → Io OsError → Io OsError
  finally_remove tmp (answer, disk) = (answer, (remove_file tmp disk).1)
