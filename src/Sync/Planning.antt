-- ===== src/Sync/Planning.antt =====
-- `buildPlanFromEffective` and `fileHash`.
pub mod Diff
pub mod Ops
pub mod Wanted
pub mod Exact
use quadsyncd.Base.{
  ℕ, Bool, true, false, Option, none, some, List, [], ◌∷◌, ◌++◌, Result, ok, err, ◌>>=◌, ◌>>◌,
  wrap_err, if◌then◌else◌, ◌==◌, text_eq,
}
use quadsyncd.Base.Text.{Text}
use quadsyncd.Base.Text.Order.{text_lt}
use quadsyncd.Base.Dict.{Dict, lookup, insert}
use quadsyncd.Base.Sort.{sort_by}
use quadsyncd.FilePath.{join}
use quadsyncd.Os.{Env, Disk, OsError, not_exist, failed, stat, read_file}
use quadsyncd.Multirepo.{EffectiveItem}
use quadsyncd.Sync.{ManagedFile, State, FileOp, Plan, empty_plan}

pub data PlanError : Type 0 where
  hash_failed : Text → OsError → PlanError
  disk_hash_failed : Text → PlanError

-- What is to be done with one desired file.
pub data Change : Type 0 where
  to_add to_update up_to_date : Change

abbrev pub Desired : Type 0
Desired = Dict Text EffectiveItem

-- The map from destinations to items.
unfoldable pub desired_files : Text → List EffectiveItem → Desired → Desired
desired_files quadlet_dir [] d = d
desired_files quadlet_dir (item ∷ items) d =
    desired_files quadlet_dir items (insert (join quadlet_dir item.merge_key) item d)

unfoldable pub op_for : Text → EffectiveItem → Text → FileOp
op_for dest_path item hash = record {
  source_path = item.abs_path;
  dest_path = dest_path;
  hash = hash;
  source_repo = item.source_repo;
  source_ref = item.source_ref;
  source_sha = item.source_sha;
}

unfoldable pub delete_op : Text → FileOp
delete_op dest_path = record {
  source_path = [];
  dest_path = dest_path;
  hash = [];
  source_repo = [];
  source_ref = [];
  source_sha = [];
}

unfoldable pub record_change : Change → FileOp → Plan → Plan
record_change to_add op p = record p { add = p.add ++ op ∷ [] }
record_change to_update op p = record p { update = p.update ++ op ∷ [] }
record_change up_to_date op p = p

module _ (e : Env) (dry_run prune : Bool) (disk : Disk) where
  unfoldable pub file_hash : Text → Result OsError Text
  file_hash path = elim (read_file e path disk) [ err x ↦ err x | ok c ↦ ok (e.sha256 c) ]

  -- A dry run compares with the file on disk, a real one with the managed state.
  unfoldable pub change_on_disk : Text → Text → Result PlanError Change
  change_on_disk dest_path hash = elim (file_hash dest_path) [
    | err not_exist ↦ ok to_add
    | err failed ↦ err (disk_hash_failed dest_path)
    | ok disk_hash ↦ if disk_hash == hash then ok up_to_date else ok to_update
  ]

  unfoldable pub change_in_state : Option ManagedFile → Text → Change
  change_in_state none hash = to_add
  change_in_state (some m) hash = if m.hash == hash then up_to_date else to_update

  unfoldable pub change_for : State → Text → Text → Result PlanError Change
  change_for prev dest_path hash =
      if dry_run
      then change_on_disk dest_path hash
      else ok (change_in_state (lookup dest_path prev.managed_files) hash)

  unfoldable pub plan_items : State → Desired → Plan → Result PlanError Plan
  plan_items prev [] p = ok p
  plan_items prev ((dest_path, item) ∷ d) p = do
    hash ← wrap_err (hash_failed item.abs_path) (file_hash item.abs_path)
    change ← change_for prev dest_path hash
    plan_items prev d (record_change change (op_for dest_path item hash) p)

  -- `os.Stat` and `os.IsNotExist`
  unfoldable pub is_gone : Text → Bool
  is_gone path =
      if e.fails stat path then false else elim (lookup path disk) [ none ↦ true | some f ↦ false ]

  abbrev pub stays : Option EffectiveItem → Bool → Bool
  stays (some item) gone = true
  stays none gone = if dry_run then gone else false

  unfoldable pub plan_deletes : Desired → Dict Text ManagedFile → Plan → Plan
  plan_deletes desired [] p = p
  plan_deletes desired ((dest_path, m) ∷ ms) p = plan_deletes desired ms (
      if stays (lookup dest_path desired) (is_gone dest_path)
      then p
      else record p { delete = p.delete ++ delete_op dest_path ∷ [] })

  abbrev pub by_dest : FileOp → FileOp → Bool
  by_dest a b = text_lt a.dest_path b.dest_path

  unfoldable pub sort_plan : Plan → Plan
  sort_plan p = record {
    add = sort_by by_dest p.add;
    update = sort_by by_dest p.update;
    delete = sort_by by_dest p.delete;
  }

  unfoldable pub build_plan_from_effective :
      Text → State → List EffectiveItem → Result PlanError Plan
  build_plan_from_effective quadlet_dir prev items = do
    let desired = desired_files quadlet_dir items []
    p ← plan_items prev desired empty_plan
    ok (sort_plan (if prune then plan_deletes desired prev.managed_files p else p))
