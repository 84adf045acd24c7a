-- ===== src/Service/Recorded.antt =====
-- internal/service/convert.go and `executeSync` of internal/service/sync.go: a sync that the run
-- store records.
pub mod Convert
pub mod Outcome
use quadsyncd.Base.{ℕ, Bool, true, false, Option, none, some, List, [], ◌∷◌, map, Result, ok, err}
use quadsyncd.Base.Text.{Text}
use quadsyncd.Config.{Config}
use quadsyncd.Runstore.{
  RunKind, sync_run, RunStatus, running, success, failure, TriggerSource, EffectiveItemSummary,
  ConflictSummary, RunMeta, StoreError,
}
use quadsyncd.Runstore.Store.{Tree, Codec, create, update}
use quadsyncd.Sync.Engine.{
  Host, Engine, World, Event, Loser, ReportedConflict, RunError, RunResult, new_engine_with_factory,
  run,
}

unfoldable pub loser_summary : Text → Loser → EffectiveItemSummary
loser_summary merge_key l = record {
  merge_key = merge_key;
  source_repo = l.repo;
  source_ref = l.ref;
  source_sha = l.sha;
}

unfoldable pub conflict_summary_from_sync : ReportedConflict → ConflictSummary
unfolding loser_summary
conflict_summary_from_sync c = record {
  merge_key = c.merge_key;
  winner = record {
    merge_key = c.merge_key;
    source_repo = c.winner_repo;
    source_ref = c.winner_ref;
    source_sha = c.winner_sha;
  };
  losers = map (loser_summary c.merge_key) c.losers;
}

-- What the services share: the disk with its directories, the configuration, and what was done to
-- systemd.
pub record Shared : Type 0 where
  pub tree : Tree
  pub cfg : Config
  pub journal : List Event

abbrev pub engine_world : Shared → World
engine_world s = record { disk = s.tree.disk; dirs = s.tree.dirs; cfg = s.cfg; journal = s.journal }

abbrev pub after_engine : Shared → World → Shared
after_engine s w = record {
  tree = record { dirs = w.dirs; disk = w.disk };
  cfg = w.cfg;
  journal = w.journal;
}

-- The fields that a run record starts with; `Create` fills in the identifier.
abbrev pub starting : RunKind → TriggerSource → Bool → ℕ → RunMeta
starting kind trigger dry_run started_at = record {
  id = [];
  kind = kind;
  trigger = trigger;
  started_at = started_at;
  ended_at = none;
  status = running;
  dry_run = dry_run;
  revisions = [];
  conflicts = [];
  summary = [];
  error = [];
}

-- The record of a run that ended with an answer of the engine.
unfoldable pub finish_meta : (RunError → Text) → ℕ → Result RunError RunResult → RunMeta → RunMeta
finish_meta error_text ended_at (err x) meta = record meta {
  ended_at = some ended_at;
  status = failure;
  error = error_text x;
}
finish_meta error_text ended_at (ok result) meta = record meta {
  ended_at = some ended_at;
  status = success;
  revisions = result.revisions;
  conflicts = map conflict_summary_from_sync result.conflicts;
}

module _ (h : Host) (c : Codec) (base_dir : Text) (error_text : RunError → Text) where
  -- An error of the last update is only logged.
  unfoldable pub record_outcome :
      ℕ → Result RunError RunResult → Result StoreError RunMeta → Shared → Shared
  record_outcome ended_at answer (err x) s = s
  record_outcome ended_at answer (ok meta) s =
      let finished = finish_meta error_text ended_at answer meta in
      let updated = update h.env c base_dir finished s.tree in record s { tree = updated.1 }

  -- The times are those at which the run starts and ends. A record that cannot be created does not
  -- stop the sync.
  unfoldable pub execute_sync : TriggerSource → ℕ → ℕ → Shared → Shared
  execute_sync trigger started_at ended_at s =
      let engine = new_engine_with_factory false in
      let created = create h.env c base_dir (starting sync_run trigger false started_at) s.tree in
      let begun = record s { tree = created.1 } in
      let answer = run h engine (engine_world begun) in
      record_outcome ended_at answer.0 created.0 (after_engine begun answer.1)
