-- ===== src/Runstore/Prune.antt =====
-- `Prune` of internal/runstore/runstore.go.
use quadsyncd.Base.{
  ℕ, ◌+◌, Bool, false, not, ◌||◌, Option, none, some, List, [], ◌∷◌, ◌++◌, keep, ok, err, ltb, ◌==◌,
  if◌then◌else◌, text_eq,
}
use quadsyncd.Base.Text.{Text, has_prefix}
use quadsyncd.Base.Dict.{Dict}
use quadsyncd.FilePath.{join, slash}
use quadsyncd.Os.{Env, File, remove}
use quadsyncd.Runstore.{parse_run_id_timestamp}
use quadsyncd.Runstore.Store.{Tree, Codec, get, run_names}

-- The path itself, or a path below it.
unfoldable pub is_under : Text → Text → Bool
is_under dir path = path == dir || has_prefix path (dir ++ slash ∷ [])

unfoldable pub drop_under : Text → Dict Text File → Dict Text File
drop_under dir [] = []
drop_under dir ((path, f) ∷ disk) =
    let rest = drop_under dir disk in if is_under dir path then rest else (path, f) ∷ rest

module _ (e : Env) (h : Codec) (base_dir : Text) where
  -- The start in the metadata, or else the time in the identifier, or else that of the directory.
  unfoldable pub ref_time : Text → Tree → Option ℕ
  ref_time id t = elim (get e h base_dir id t) [
    | ok meta ↦ some meta.started_at
    | err x ↦ elim (parse_run_id_timestamp h.parse_time id) [
      | some at ↦ some at
      | none ↦ h.mod_time (join base_dir id)
    ]
  ]

  -- `os.RemoveAll`; an error is only a warning and removes nothing here.
  unfoldable pub remove_run : Text → Tree → Tree
  remove_run run_dir t = if e.fails remove run_dir then t else record {
    dirs = keep (λ d. not (is_under run_dir d)) t.dirs;
    disk = drop_under run_dir t.disk;
  }

  -- The test is that of `refTime.Before(now.Add(-maxAge))`, without a subtraction.
  abbrev pub is_old : ℕ → ℕ → Option ℕ → Bool
  is_old now max_age none = false
  is_old now max_age (some at) = ltb (at + max_age) now

  unfoldable pub prune_runs : ℕ → ℕ → List Text → Tree → Tree
  prune_runs now max_age [] t = t
  prune_runs now max_age (id ∷ ids) t =
      prune_runs now max_age ids
        (if is_old now max_age (ref_time id t) then remove_run (join base_dir id) t else t)

  unfoldable pub prune : ℕ → ℕ → Tree → Tree
  prune now max_age t = prune_runs now max_age (run_names e h base_dir t.dirs) t
