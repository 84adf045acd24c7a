-- ===== src/Cmd.antt =====
-- cmd/quadsyncd/main.go: the command `sync`.
pub mod Recorded
mod Tests
use quadsyncd.Base.{
  ℕ, Bool, Option, none, some, List, [], ◌∷◌, map, Result, ok, err, ◌==◌, ◌/=◌, if◌then◌else◌,
  text_eq,
}
use quadsyncd.Base.Text.{Text, str}
use quadsyncd.FilePath.{join}
use quadsyncd.Config.{Config, ConfigError}
use quadsyncd.Runstore.{
  RunMeta, StoreError, TriggerSource, timer, cli, sync_run, success, failure, runs_dir,
}
use quadsyncd.Runstore.Store.{Codec, Tree, create, update, append_log}
use quadsyncd.Sync.Engine.{Host, Event, RunError, RunResult, new_engine_with_factory, run}
use quadsyncd.Service.Recorded.{
  Shared, engine_world, after_engine, starting, conflict_summary_from_sync,
}

pub data CmdError : Type 0 where
  no_home : CmdError
  config_failed : ConfigError → CmdError
  no_record : StoreError → CmdError
  sync_failed : RunError → CmdError

-- The path of the configuration: the flag, or else the place in the home directory.
abbrev pub default_path : Option Text → Result CmdError Text
default_path none = err no_home
default_path (some home) =
    ok (join (join (join home (str ".config")) (str "quadsyncd")) (str "config.yaml"))

unfoldable pub config_path : Text → Option Text → Result CmdError Text
config_path cfg_file user_home = if cfg_file == [] then default_path user_home else ok cfg_file

abbrev pub loaded : Result ConfigError Config → Result CmdError Config
loaded (err x) = err (config_failed x)
loaded (ok cfg) = ok cfg

abbrev pub load_at :
    (Text → Result ConfigError Config) → Result CmdError Text → Result CmdError Config
load_at load (err x) = err x
load_at load (ok path) = loaded (load path)

-- `load` is `Load` of internal/config.
unfoldable pub load_config :
    (Text → Result ConfigError Config) → Text → Option Text → Result CmdError Config
load_config load cfg_file user_home = load_at load (config_path cfg_file user_home)

-- systemd sets `INVOCATION_ID`.
unfoldable pub trigger_of : Text → TriggerSource
trigger_of invocation_id = if invocation_id /= [] then timer else cli

abbrev pub sync_answer : Result RunError RunResult → Result CmdError (Unit {0})
sync_answer (err x) = err (sync_failed x)
sync_answer (ok result) = ok tt

-- The metadata of the run with the error of the engine, or its success.
unfoldable pub with_status : (RunError → Text) → Result RunError RunResult → RunMeta → RunMeta
with_status error_text (err x) meta = record meta { status = failure; error = error_text x }
with_status error_text (ok result) meta = record meta { status = success }

-- The metadata with what the result names, where there is one.
unfoldable pub with_result : Result RunError RunResult → RunMeta → RunMeta
with_result (err x) meta = meta
with_result (ok result) meta = record meta {
  revisions = result.revisions;
  conflicts = map conflict_summary_from_sync result.conflicts;
}

unfoldable pub finalize : (RunError → Text) → ℕ → Result RunError RunResult → RunMeta → RunMeta
finalize error_text ended_at answer meta =
    with_result answer (with_status error_text answer (record meta { ended_at = some ended_at }))

-- `lines` are those that the tee writes to the log of the run, as the NDJSON handler encodes them.
module _ (h : Host) (c : Codec) (error_text : RunError → Text)
    (lines : Result RunError RunResult → List Text) (dry_run : Bool) (ended_at : ℕ) where
  -- An error of a write to the log is the logger's.
  unfoldable pub append_lines : Text → Text → List Text → Tree → Tree
  append_lines base_dir id [] t = t
  append_lines base_dir id (line ∷ rest) t =
      append_lines base_dir id rest (append_log h.env c base_dir id line t).1

  -- An error of the last update is only logged.
  unfoldable pub update_record : Text → Result RunError RunResult → RunMeta → Tree → Tree
  update_record base_dir answer meta t =
      (update h.env c base_dir (finalize error_text ended_at answer meta)
        (append_lines base_dir meta.id (lines answer) t)).1

  -- Behind the creation of the record.
  unfoldable pub run_recorded :
      Result StoreError RunMeta → Shared → Result CmdError (Unit {0}) × Shared
  run_recorded (err x) s = (err (no_record x), s)
  run_recorded (ok meta) s =
      let answer = run h (new_engine_with_factory dry_run) (engine_world s) in
      let after = after_engine s answer.1 in
      (
        sync_answer answer.0,
        record after {
          tree = update_record (runs_dir s.cfg.paths.state_dir) answer.0 meta after.tree;
        },
      )

  unfoldable pub run_configured : Text → ℕ → Shared → Result CmdError (Unit {0}) × Shared
  run_configured invocation_id started_at s =
      let created =
        create h.env c (runs_dir s.cfg.paths.state_dir)
          (starting sync_run (trigger_of invocation_id) dry_run started_at) s.tree in
      run_recorded created.0 (record s { tree = created.1 })

  -- The command, from what `loadConfig` answers on; `journal` is what was done to systemd.
  unfoldable pub run_sync :
      Result CmdError Config
      → Text
      → ℕ
      → Tree
      → List Event
      → Result CmdError (Unit {0}) × (Tree × List Event)
  run_sync (err x) invocation_id started_at tree journal = (err x, (tree, journal))
  run_sync (ok cfg) invocation_id started_at tree journal =
      let r =
        run_configured invocation_id started_at
          (record { tree = tree; cfg = cfg; journal = journal }) in
      (r.0, (r.1.tree, r.1.journal))
