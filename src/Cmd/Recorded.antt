-- ===== src/Cmd/Recorded.antt =====
-- The record of a run of the command `sync`: runSync of cmd/quadsyncd/main.go.
use quadsyncd.Base.{ℕ, ◌≡◌, refl, sym, ap, ◌∙◌, ◌↔◌, Bool, some, List, map, Result, ok, err}
use quadsyncd.Base.Text.{Text}
use quadsyncd.Config.{Config}
use quadsyncd.Runstore.{RunMeta, StoreError, sync_run, success, runs_dir, safe_run_dir}
use quadsyncd.Runstore.Store.{Codec, Tree, create, update, get}
use quadsyncd.Runstore.Store.RoundTrip.{Decodes, IsReadable, get-update}
use quadsyncd.Sync.Engine.{Host, World, Event, RunError, RunResult, new_engine_with_factory, run}
use quadsyncd.Service.Recorded.{
  Shared, engine_world, after_engine, starting, conflict_summary_from_sync,
}
use quadsyncd.Cmd.{
  CmdError, trigger_of, sync_answer, with_status, with_result, finalize, append_lines,
  update_record, run_recorded, run_configured, run_sync,
}

module _ (h : Host) (c : Codec) (error_text : RunError → Text)
    (lines : Result RunError RunResult → List Text) (dry_run : Bool) (ended_at started_at : ℕ)
    (cfg : Config) (invocation_id : Text) (tree : Tree) (journal : List Event) where
  abbrev pub base_dir : Text
  base_dir = runs_dir cfg.paths.state_dir

  abbrev pub creation : Result StoreError RunMeta × Tree
  creation =
      create h.env c base_dir (starting sync_run (trigger_of invocation_id) dry_run started_at) tree

  abbrev pub begun : Shared
  begun = record { tree = creation.1; cfg = cfg; journal = journal }

  abbrev pub answer : Result RunError RunResult × World
  answer = run h (new_engine_with_factory dry_run) (engine_world begun)

  abbrev pub outcome : RunMeta → RunMeta
  outcome meta = finalize error_text ended_at answer.0 meta

  -- The store behind the engine and the log.
  abbrev pub logged : RunMeta → Tree
  logged meta =
      append_lines h c error_text lines dry_run ended_at base_dir meta.id (lines answer.0)
        (after_engine begun answer.1).tree

  abbrev pub command : Result CmdError (Unit {0}) × (Tree × List Event)
  command =
      run_sync h c error_text lines dry_run ended_at (ok cfg) invocation_id started_at tree journal

  -- The record has what the engine answered.
  abbrev pub Names : Result RunError RunResult → RunMeta → Type 0
  Names (err x) final = final.error ≡ error_text x
  Names (ok result) final =
      (final.revisions ≡ result.revisions)
      × (final.conflicts ≡ map conflict_summary_from_sync result.conflicts)

  -- The record says how the run ended, as the command's answer does, and keeps how it began.
  abbrev pub Tells : RunMeta → RunMeta → Type 0
  Tells meta final =
      ((final.status ≡ success) ↔ (command.0 ≡ ok tt))
      × (final.id ≡ meta.id)
      × (final.trigger ≡ meta.trigger)
      × (final.dry_run ≡ meta.dry_run)
      × (final.ended_at ≡ some ended_at)
      × Names answer.0 final

  command_path :
      (meta : RunMeta)
      → creation.0 ≡ ok meta
      → command ≡ (
        sync_answer answer.0,
        (
          (update h.env c base_dir (outcome meta) (logged meta)).1,
          (after_engine begun answer.1).journal,
        ),
      )
  unfolding run_sync run_configured run_recorded update_record
  command_path meta e = rw e refl

  outcome-Tells :
      (r : Result RunError RunResult) (meta : RunMeta)
      → let final = finalize error_text ended_at r meta in
        ((final.status ≡ success) ↔ (sync_answer r ≡ ok tt))
        × (final.id ≡ meta.id)
        × (final.trigger ≡ meta.trigger)
        × (final.dry_run ≡ meta.dry_run)
        × (final.ended_at ≡ some ended_at)
        × Names r final
  unfolding finalize with_status with_result
  outcome-Tells (ok result) meta = ((λ x. refl, λ x. refl), refl, refl, refl, refl, (refl, refl))
  outcome-Tells (err e) meta = ((λ x. cc, λ x. cc), refl, refl, refl, refl, refl)

  -- When the command could create its record and its last update succeeded, the store answers for
  -- the run with a record that is a success exactly when the command ends well, and that keeps
  -- its identifier, trigger and dry-run flag and has the time at which it ended and the revisions and
  -- conflicts, or the error, of the engine, whatever lines were logged in between; if the metadata decode from what they are encoded as and the file can be
  -- read.
  pub run_sync_recorded :
      (meta : RunMeta) (run_dir : Text)
      → creation.0 ≡ ok meta
      → (update h.env c base_dir (outcome meta) (logged meta)).0 ≡ ok tt
      → Decodes c (outcome meta)
      → IsReadable h.env c base_dir run_dir
      → safe_run_dir base_dir (outcome meta).id ≡ ok run_dir
      → (final : RunMeta) × (get h.env c base_dir meta.id command.1.0 ≡ ok final) × Tells meta final
  run_sync_recorded meta run_dir e u codec readable safe =
      let path = command_path meta e in
      let (status, id, trigger, dry, ended, named) = outcome-Tells answer.0 meta in
      let read =
        get-update h.env c base_dir (outcome meta) run_dir (logged meta) codec readable safe u in
      (
        outcome meta,
        ap (λ (k : Text). get h.env c base_dir k command.1.0) (sym id)
            ∙ (ap
                  (λ (x : Result CmdError (Unit {0}) × (Tree × List Event)).
                    get h.env c base_dir (outcome meta).id x.1.0)
                  path
                ∙ read),
        (
          (
            λ s.
                ap (λ (x : Result CmdError (Unit {0}) × (Tree × List Event)). x.0) path
                ∙ status.0 s,
            λ a.
                status.1 (
                  sym (ap (λ (x : Result CmdError (Unit {0}) × (Tree × List Event)). x.0) path)
                  ∙ a),
          ),
          id,
          trigger,
          dry,
          ended,
          named,
        ),
      )
