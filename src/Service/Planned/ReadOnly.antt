-- ===== src/Service/Planned/ReadOnly.antt =====
-- A plan request leaves systemd alone.
use quadsyncd.Base.{ℕ, ◌≡◌, refl, ap, ◌∙◌, inl, inr, Result, ok, err}
use quadsyncd.Base.Text.{Text}
use quadsyncd.Runstore.{RunMeta, PlanRequest, StoreError, work_dir_for_run}
use quadsyncd.Runstore.Store.{Codec}
use quadsyncd.Sync.Engine.{Host, World, RunError, RunResult, new_engine_with_plan_options, run}
use quadsyncd.Sync.Engine.DryRun.{run-OnlyCheckouts}
use quadsyncd.Service.Recorded.{Shared, engine_world, after_engine}
use quadsyncd.Service.Planned.{
  overrides_of, store_plan, save_meta, execute_in, execute_at, execute_created, execute,
}

module _ (h : Host) (c : Codec) (base_dir : Text) (error_text : RunError → Text) where
  store_plan-journal :
      (req : PlanRequest) (meta : RunMeta) (r : Result RunError RunResult) (s : Shared)
      → (store_plan h c base_dir error_text req meta r s).journal ≡ s.journal
  unfolding store_plan
  store_plan-journal req meta (err x) s = refl
  store_plan-journal req meta (ok result) s = refl

  execute_in-journal :
      (work_dir : Text) (req : PlanRequest) (ended_at : ℕ) (meta : RunMeta) (s : Shared)
      → (execute_in h c base_dir error_text work_dir req ended_at meta s).1.journal ≡ s.journal
  unfolding execute_in save_meta
  execute_in-journal work_dir req ended_at meta s =
      let engine = new_engine_with_plan_options work_dir (overrides_of req) req.repo_url in
      let answer = run h engine (engine_world s) in
      store_plan-journal req _ answer.0 (after_engine s answer.1)
      ∙ elim (run-OnlyCheckouts h engine (engine_world s) refl) [
        | inl e ↦ ap (λ (w : World). w.journal) e
        | inr (root, disk, is_root, made, e) ↦ ap (λ (w : World). w.journal) e
      ]

  execute_at-journal :
      (work_dir_text : StoreError → Text) (req : PlanRequest) (ended_at : ℕ) (meta : RunMeta)
      → (r : Result StoreError Text) (s : Shared)
      → (execute_at h c base_dir error_text work_dir_text req ended_at meta r s).1.journal
        ≡ s.journal
  unfolding execute_at save_meta
  execute_at-journal work_dir_text req ended_at meta (ok work_dir) s =
      execute_in-journal work_dir req ended_at meta s
  execute_at-journal work_dir_text req ended_at meta (err x) s = refl

  execute_created-journal :
      (work_dir_text : StoreError → Text) (req : PlanRequest) (ended_at : ℕ)
      → (r : Result StoreError RunMeta) (s : Shared)
      → (execute_created h c base_dir error_text work_dir_text req ended_at r s).1.journal
        ≡ s.journal
  execute_created-journal work_dir_text req ended_at (err x) s = refl
  execute_created-journal work_dir_text req ended_at (ok meta) s =
      execute_at-journal work_dir_text req ended_at meta (work_dir_for_run base_dir meta.id) s

  -- Whatever a plan request asks for and however it ends, it neither reloads systemd nor restarts
  -- a unit.
  pub execute-journal :
      (work_dir_text : StoreError → Text) (req : PlanRequest) (started_at ended_at : ℕ) (s : Shared)
      → (execute h c base_dir error_text work_dir_text req started_at ended_at s).1.journal
        ≡ s.journal
  unfolding execute
  execute-journal work_dir_text req started_at ended_at s =
      execute_created-journal work_dir_text req ended_at _ (record s { tree = _ })
