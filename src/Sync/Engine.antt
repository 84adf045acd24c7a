-- ===== src/Sync/Engine.antt =====
-- `Run`, `loadAllRepoStates`, `loadState` and `saveState` of internal/sync/sync.go, with
-- `LoadRepoState` of internal/multirepo/multirepo.go.
pub mod Order
pub mod Checkouts
pub mod DryRun
mod Tests
use mathlib.Core.Option
use quadsyncd.Base.{
  Bool, true, not, Option, none, some, List, [], ◌∷◌, map, contains, Result, ok, err, wrap_err,
  ◌==◌, if◌then◌else◌, text_eq,
}
use quadsyncd.Base.Text.{Text, str}
use quadsyncd.Base.Dict.{Dict, lookup}
use quadsyncd.FilePath.{join}
use quadsyncd.Os.{Env, Disk, OsError, not_exist, failed, mkdir_all, read_file, write_file}
use quadsyncd.Quadlet.Walk.{Node}
use quadsyncd.Config.{
  Config, AuthConfig, RepoSpec, ConflictMode, conflict_unset, prefer_highest_priority,
  auth_for_spec, repo_dir_for_spec, quadlet_source_dir_for_spec, state_file_path,
}
use quadsyncd.Multirepo.{
  RepoState, LoadError, EffectiveItem, Conflict, MergeError, MergeResult, load_repo_files, merge,
  checkout_failed,
}
use quadsyncd.Sync.{State, Plan, empty_state}
use quadsyncd.Sync.Planning.{PlanError, build_plan_from_effective}
use quadsyncd.Sync.Apply.{ApplyError, apply_plan}
use quadsyncd.Sync.NewState.{build_state_from_effective, revisions_of}
use quadsyncd.Sync.Restart.{handle_restarts, Restart, no_restart, restart_units, unknown_policy}
use quadsyncd.Sync.Filter.{select_repos}

-- What the engine asks of other programs: a git client for an authentication, the tree of files
-- below a directory, systemd, and the JSON library.
pub record Host : Type 0 where
  pub env : Env
  pub ensure_checkout : AuthConfig → Text → Text → Text → Disk → Option Text × Disk
  pub tree_at : Text → Disk → Node
  pub repo_id : Text → Text
  pub is_available : Disk → Bool
  pub validate_quadlets : Text → Disk → Bool
  pub daemon_reload : Disk → Bool
  pub marshal : State → Option Text
  pub unmarshal : Text → Option State

pub record SpecOverride : Type 0 where
  pub ref : Text
  pub commit : Text

pub record Engine : Type 0 where
  pub dry_run : Bool
  pub work_dir_override : Text
  pub spec_overrides : Dict Text SpecOverride
  pub repo_filter : Text

-- `NewEngineWithFactory`
abbrev pub new_engine_with_factory : Bool → Engine
new_engine_with_factory dry_run = record {
  dry_run = dry_run;
  work_dir_override = [];
  spec_overrides = [];
  repo_filter = [];
}

-- `NewEngineWithPlanOptions`
abbrev pub new_engine_with_plan_options : Text → Dict Text SpecOverride → Text → Engine
new_engine_with_plan_options work_dir overrides repo_filter = record {
  dry_run = true;
  work_dir_override = work_dir;
  spec_overrides = overrides;
  repo_filter = repo_filter;
}

-- What was done to systemd: a reload that succeeded, or restarts that were asked for.
pub data Event : Type 0 where
  reloaded : Event
  restarted : List Text → Event

-- What a run shares with the rest of the process: the disk, the configuration that the engine
-- points to, and what was done to systemd, the last first. `dirs` are the directories that are there
-- whether or not a file is below them; those of copied files and of checkouts are there with their
-- files and are not listed.
pub record World : Type 0 where
  pub disk : Disk
  pub dirs : List Text
  pub cfg : Config
  pub journal : List Event

-- `os.MkdirAll` that succeeds, of a directory with those above it
abbrev pub add_dir : Text → List Text → List Text
add_dir path dirs = if contains dirs path then dirs else path ∷ dirs

pub data RunError : Type 0 where
  no_repository_matches no_state_dir : RunError
  load_failed : LoadError → RunError
  merge_failed : MergeError → RunError
  plan_failed : PlanError → RunError
  systemd_unavailable : RunError
  apply_failed : ApplyError → RunError
  validation_failed encode_failed : RunError
  save_failed : OsError → RunError
  reload_failed : RunError

pub record Loser : Type 0 where
  pub repo : Text
  pub ref : Text
  pub sha : Text

pub record ReportedConflict : Type 0 where
  pub merge_key : Text
  pub winner_repo : Text
  pub winner_ref : Text
  pub winner_sha : Text
  pub losers : List Loser

pub record RunResult : Type 0 where
  pub revisions : Dict Text Text
  pub conflicts : List ReportedConflict
  pub plan : Plan

unfoldable pub loser_of : EffectiveItem → Loser
loser_of item = record { repo = item.source_repo; ref = item.source_ref; sha = item.source_sha }

unfoldable pub report_conflict : Conflict → ReportedConflict
report_conflict c = record {
  merge_key = c.merge_key;
  winner_repo = c.winner.source_repo;
  winner_ref = c.winner.source_ref;
  winner_sha = c.winner.source_sha;
  losers = map loser_of c.losers;
}

-- A commit takes precedence over a reference.
abbrev ref_of_override : Option SpecOverride → Text → Text
ref_of_override none ref = ref
ref_of_override (some o) ref =
    if o.commit == [] then (if o.ref == [] then ref else o.ref) else o.commit

unfoldable pub override_spec : Dict Text SpecOverride → RepoSpec → RepoSpec
override_spec overrides spec = record spec {
  ref = ref_of_override (lookup spec.url overrides) spec.ref;
}

abbrev pub default_mode : ConflictMode → ConflictMode
default_mode conflict_unset = prefer_highest_priority
default_mode m = m

module _ (h : Host) where
  -- `LoadRepoState`
  unfoldable pub load_repo_state :
      AuthConfig → RepoSpec → Text → Text → Disk → Result LoadError RepoState × Disk
  load_repo_state auth spec repo_dir src_dir disk =
      let r = h.ensure_checkout auth spec.url spec.ref repo_dir disk in
      elim r.0 [
        | none ↦ (err (checkout_failed spec.url), r.1)
        | some commit ↦ elim (load_repo_files src_dir (h.tree_at src_dir r.1)) [
          | err x ↦ (err x, r.1)
          | ok files ↦ (ok (record { spec = spec; commit = commit; files = files }), r.1)
        ]
      ]

  -- The checkout and the directory of the quadlets in it.
  unfoldable pub dirs_for : Engine → Config → RepoSpec → Text × Text
  dirs_for eng cfg spec =
      if eng.work_dir_override == []
      then (repo_dir_for_spec h.repo_id cfg spec, quadlet_source_dir_for_spec h.repo_id cfg spec)
      else let repo_dir = join (join eng.work_dir_override (str "repos")) (h.repo_id spec.url) in
        (repo_dir, if spec.subdir == [] then repo_dir else join repo_dir spec.subdir)

  unfoldable pub load_all_repo_states :
      Engine → Config → List RepoSpec → Disk → Result LoadError (List RepoState) × Disk
  load_all_repo_states eng cfg [] disk = (ok [], disk)
  load_all_repo_states eng cfg (given ∷ specs) disk =
      let spec = override_spec eng.spec_overrides given in
      let dirs = dirs_for eng cfg spec in
      let r = load_repo_state (auth_for_spec cfg spec) spec dirs.0 dirs.1 disk in
      let rest = load_all_repo_states eng cfg specs r.1 in
      elim r.0 [
        | err x ↦ (err x, r.1)
        | ok rs ↦ elim rest.0 [ err x ↦ (err x, rest.1) | ok states ↦ (ok (rs ∷ states), rest.1) ]
      ]

  -- No state file is no error; `none` is any other failure.
  unfoldable pub load_state : Config → Disk → Option State
  load_state cfg disk = elim (read_file h.env (state_file_path cfg) disk) [
    | err not_exist ↦ some empty_state
    | err failed ↦ none
    | ok text ↦ h.unmarshal text
  ]

  unfoldable pub save_state : Config → State → Disk → Result RunError (Unit {0}) × Disk
  save_state cfg s disk = elim (h.marshal s) [
    | none ↦ (err encode_failed, disk)
    | some text ↦
        let r = write_file h.env (state_file_path cfg) text disk in (wrap_err save_failed r.0, r.1)
  ]

  -- An error of the restarts is only a warning.
  abbrev pub journal_restart : Restart → List Event → List Event
  journal_restart no_restart journal = journal
  journal_restart (restart_units units) journal = restarted units ∷ journal
  journal_restart unknown_policy journal = journal

  -- From the reload on.
  unfoldable pub reload_and_restart :
      Config → Plan → State → World → Result RunError (Unit {0}) × World
  reload_and_restart cfg p s w =
      if h.daemon_reload w.disk
      then (
        ok tt,
        record w {
          journal = journal_restart (handle_restarts cfg.sync.restart p s) (reloaded ∷ w.journal);
        },
      )
      else (err reload_failed, w)

  unfoldable pub save_and_reload : Plan → State → World → Result RunError (Unit {0}) × World
  save_and_reload p s w =
      let r = save_state w.cfg s w.disk in
      elim r.0 [
        | err x ↦ (err x, record w { disk = r.1 })
        | ok u ↦ reload_and_restart w.cfg p s (record w { disk = r.1 })
      ]

  -- The world that `applyPlan` leaves: it makes the quadlet directory first.
  abbrev pub apply_world : World → Disk → World
  apply_world w disk = record w {
    disk = disk;
    dirs =
        if h.env.fails mkdir_all w.cfg.paths.quadlet_dir
        then w.dirs
        else add_dir w.cfg.paths.quadlet_dir w.dirs;
  }

  -- What a run does that is not dry, once there is a plan.
  unfoldable pub execute_plan :
      State → Plan → List RepoState → World → Result RunError (Unit {0}) × World
  execute_plan prev p states w =
      let quadlet_dir = w.cfg.paths.quadlet_dir in
      let applied = apply_plan h.env quadlet_dir p w.disk in
      if not (h.is_available w.disk) then (err systemd_unavailable, w) else elim applied.0 [
        | err x ↦ (err (apply_failed x), apply_world w applied.1)
        | ok u ↦
            if h.validate_quadlets quadlet_dir applied.1
            then save_and_reload p (build_state_from_effective quadlet_dir prev p states)
                (apply_world w applied.1)
            else (err validation_failed, apply_world w applied.1)
      ]

  unfoldable pub plan_of : Engine → Config → Disk → MergeResult → Result RunError Plan
  plan_of eng cfg disk m = wrap_err plan_failed (
      build_plan_from_effective h.env eng.dry_run cfg.sync.prune disk cfg.paths.quadlet_dir
        (Option.get_or (load_state cfg disk) empty_state) m.items)

  unfoldable pub result_of : List RepoState → MergeResult → Plan → RunResult
  result_of states m p = record {
    revisions = revisions_of states [];
    conflicts = map report_conflict m.conflicts;
    plan = p;
  }

  -- From the merge on.
  unfoldable pub merge_and_plan :
      Engine → List RepoState → World → Result RunError RunResult × World
  merge_and_plan eng states w = elim (merge states (default_mode w.cfg.sync.conflict_handling)) [
    | err x ↦ (err (merge_failed x), w)
    | ok m ↦ elim (plan_of eng w.cfg w.disk m) [
      | err x ↦ (err x, w)
      | ok p ↦
          if eng.dry_run
          then (ok (result_of states m p), w)
          else let prev = Option.get_or (load_state w.cfg w.disk) empty_state in
            let r = execute_plan prev p states w in
            elim r.0 [ err x ↦ (err x, r.1) | ok u ↦ (ok (result_of states m p), r.1) ]
    ]
  ]

  -- The world with the state directory, which a dry run makes too.
  abbrev pub with_state_dir : World → World
  with_state_dir w = record w { dirs = add_dir w.cfg.paths.state_dir w.dirs }

  unfoldable pub load_and_merge : Engine → List RepoSpec → World → Result RunError RunResult × World
  load_and_merge eng repos w =
      if h.env.fails mkdir_all w.cfg.paths.state_dir
      then (err no_state_dir, w)
      else let r = load_all_repo_states eng w.cfg repos w.disk in
        elim r.0 [
          | err x ↦ (err (load_failed x), record (with_state_dir w) { disk = r.1 })
          | ok states ↦ merge_and_plan eng states (record (with_state_dir w) { disk = r.1 })
        ]

  abbrev pub run_selected : Engine → List RepoSpec → World → Result RunError RunResult × World
  run_selected eng [] w =
      if eng.repo_filter == [] then load_and_merge eng [] w else (err no_repository_matches, w)
  run_selected eng (r ∷ rs) w = load_and_merge eng (r ∷ rs) w

  unfoldable pub run : Engine → World → Result RunError RunResult × World
  run eng w =
      let chosen = select_repos eng.repo_filter w.cfg in
      run_selected eng chosen.0 (record w { cfg = chosen.1 })
