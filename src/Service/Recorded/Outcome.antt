-- ===== src/Service/Recorded/Outcome.antt =====
-- A sync is recorded with its outcome, and runs whether or not it can be recorded.
use quadsyncd.Base.{ℕ, ◌≡◌, refl, ap, ◌∙◌, ◌↔◌, false, Result, ok, err}
use quadsyncd.Base.Text.{Text}
use quadsyncd.Runstore.{RunMeta, StoreError, TriggerSource, sync_run, success, safe_run_dir}
use quadsyncd.Runstore.Store.{Tree, Codec, create, update, get}
use quadsyncd.Runstore.Store.RoundTrip.{Decodes, IsReadable, get-update}
use quadsyncd.Sync.Engine.{Host, World, RunError, RunResult, new_engine_with_factory, run}
use quadsyncd.Service.Recorded.{
  Shared, engine_world, after_engine, starting, finish_meta, record_outcome, execute_sync,
}

-- The status of a record that is finished says how the run ended.
finish_meta_status :
    (error_text : RunError → Text) (ended_at : ℕ) (r : Result RunError RunResult) (meta : RunMeta)
    → ((finish_meta error_text ended_at r meta).status ≡ success)
      ↔ ((result : RunResult) × (r ≡ ok result))
unfolding finish_meta
finish_meta_status error_text ended_at (ok result) meta = (λ x. (result, refl), λ x. refl)
finish_meta_status error_text ended_at (err e) meta = (λ x. cc, λ (result, x). cc)

module _ (h : Host) (c : Codec) (base_dir : Text) (error_text : RunError → Text)
    (trigger : TriggerSource) (started_at ended_at : ℕ) (s : Shared) where
  abbrev pub creation : Result StoreError RunMeta × Tree
  creation = create h.env c base_dir (starting sync_run trigger false started_at) s.tree

  abbrev pub begun : Shared
  begun = record s { tree = creation.1 }

  abbrev pub answer : Result RunError RunResult × World
  answer = run h (new_engine_with_factory false) (engine_world begun)

  abbrev pub outcome : RunMeta → RunMeta
  outcome meta = finish_meta error_text ended_at answer.0 meta

  abbrev pub ended : Shared
  ended = after_engine begun answer.1

  abbrev pub synced : Shared
  synced = execute_sync h c base_dir error_text trigger started_at ended_at s

  record_outcome-journal :
      (r : Result StoreError RunMeta)
      → (record_outcome h c base_dir error_text ended_at answer.0 r ended).journal
        ≡ answer.1.journal
  unfolding record_outcome
  record_outcome-journal (err x) = refl
  record_outcome-journal (ok meta) = refl

  recorded_path :
      (meta : RunMeta)
      → creation.0 ≡ ok meta
      → synced.tree ≡ (update h.env c base_dir (outcome meta) ended.tree).1
  unfolding execute_sync record_outcome
  recorded_path meta e =
      ap
        (λ (r : Result StoreError RunMeta).
          (record_outcome h c base_dir error_text ended_at answer.0 r ended).tree)
        e

  -- When the record of a sync was created and its last update succeeded, the store answers for its
  -- identifier with the record of the outcome, which is a success exactly when the engine answered
  -- without an error, and what was done to systemd is what the engine did: the metadata decode from
  -- what they are encoded as, the file can be read, and no temporary file takes its name.
  pub execute_sync_recorded :
      (meta : RunMeta) (run_dir : Text)
      → creation.0 ≡ ok meta
      → (update h.env c base_dir (outcome meta) ended.tree).0 ≡ ok tt
      → Decodes c (outcome meta)
      → IsReadable h.env c base_dir run_dir
      → safe_run_dir base_dir (outcome meta).id ≡ ok run_dir
      → (get h.env c base_dir (outcome meta).id synced.tree ≡ ok (outcome meta))
        × (((outcome meta).status ≡ success) ↔ ((r : RunResult) × (answer.0 ≡ ok r)))
        × (synced.journal ≡ answer.1.journal)
  unfolding execute_sync
  execute_sync_recorded meta run_dir e u codec readable safe = (
    ap (get h.env c base_dir (outcome meta).id) (recorded_path meta e)
        ∙ get-update h.env c base_dir (outcome meta) run_dir ended.tree codec readable safe u,
    finish_meta_status error_text ended_at answer.0 meta,
    record_outcome-journal creation.0,
  )
