-- ===== src/Service/Planned.antt =====
-- internal/service/plan.go: a dry run that is recorded with its plan and its artifacts.
pub mod Artifacts
pub mod ReadOnly
use mathlib.Core.Option
use quadsyncd.Base.{
  ℕ, zero, suc, ◌+◌, ◌-◌, ◌&&◌, ◌||◌, Bool, true, false, Option, none, some, List, [], ◌∷◌, ◌++◌,
  map, length, Result, ok, err, ◌/=◌, ◌==◌, if◌then◌else◌, text_eq,
}
use quadsyncd.Base.Text.{Text, str}
use quadsyncd.Base.Decimal.{itoa}
use quadsyncd.Base.Dict.{Dict}
use quadsyncd.FilePath.{rel, ext}
use quadsyncd.Os.{read_file}
use quadsyncd.Quadlet.{is_quadlet_file, unit_name_from_quadlet}
use quadsyncd.Runstore.{
  plan_run, ui, ConflictSummary, RunMeta, PlanRequest, PlanOp, RunPlan, StoreError, failure,
  work_dir_for_run,
}
use quadsyncd.Runstore.Store.{Tree, Codec, create, update, write_plan, write_artifact}
use quadsyncd.Sync.{FileOp, Plan}
use quadsyncd.Sync.Engine.{
  Host, Engine, World, SpecOverride, RunError, RunResult, new_engine_with_plan_options, run,
}
use quadsyncd.Service.Recorded.{Shared, engine_world, after_engine, starting, finish_meta}

abbrev pub zeros : ℕ → Text
zeros zero = []
zeros (suc n) = b'0' ∷ zeros n

-- `%04d` of a number that is not negative
unfoldable pub four_digits : ℕ → Text
four_digits n = zeros (4 - length (itoa n)) ++ itoa n

unfoldable pub artifact_name : ℕ → Text → Text → Text
artifact_name idx infix_text dest_path = four_digits idx ++ (infix_text ++ ext dest_path)

-- The path below the directory, or the path itself where there is none.
unfoldable pub rel_path : Text → Text → Text
rel_path quadlet_dir abs = Option.get_or (rel quadlet_dir abs) abs

-- The overrides of a request that names a reference or a commit.
unfoldable pub overrides_of : PlanRequest → Dict Text SpecOverride
overrides_of req =
    if req.repo_url /= [] && (req.ref /= [] || req.commit /= [])
    then (req.repo_url, record { ref = req.ref; commit = req.commit }) ∷ []
    else []

-- Why a plan failed.
pub data PlanFailure : Type 0 where
  no_record : StoreError → PlanFailure
  no_work_dir : StoreError → PlanFailure
  plan_failed : RunError → PlanFailure

module _ (h : Host) (c : Codec) (base_dir : Text) (error_text : RunError → Text) where
  -- The name under which a file was stored, or nothing where it could not be.
  unfoldable pub write_artifact_of : Text → Text → Text → Tree → Text × Tree
  write_artifact_of run_id name path t = elim (read_file h.env path t.disk) [
    | err x ↦ ([], t)
    | ok content ↦
        let r = write_artifact h.env c base_dir run_id name content t in
        elim r.0 [ err x ↦ ([], r.1) | ok u ↦ (name, r.1) ]
  ]

  module _ (run_id quadlet_dir : Text) where
    -- A quadlet's unit and what is stored of it; nothing of any other file.
    abbrev pub unit_of : FileOp → Text
    unit_of op = if is_quadlet_file op.dest_path then unit_name_from_quadlet op.dest_path else []

    abbrev pub artifact_of : ℕ → Text → Text → FileOp → Tree → Text × Tree
    artifact_of idx infix_text path op t =
        if is_quadlet_file op.dest_path
        then write_artifact_of run_id (artifact_name idx infix_text op.dest_path) path t
        else ([], t)

    unfoldable pub add_op : ℕ → FileOp → Tree → PlanOp × Tree
    add_op idx op t =
        let after = artifact_of idx (str "-after") op.source_path op t in
        (
          record {
            op = str "add";
            path = rel_path quadlet_dir op.dest_path;
            unit = unit_of op;
            source_repo = op.source_repo;
            source_ref = op.source_ref;
            source_sha = op.source_sha;
            before_path = [];
            after_path = after.0;
          },
          after.1,
        )

    unfoldable pub update_op : ℕ → FileOp → Tree → PlanOp × Tree
    update_op idx op t =
        let before = artifact_of idx (str "-before") op.dest_path op t in
        let after = artifact_of idx (str "-after") op.source_path op before.1 in
        (
          record {
            op = str "update";
            path = rel_path quadlet_dir op.dest_path;
            unit = unit_of op;
            source_repo = op.source_repo;
            source_ref = op.source_ref;
            source_sha = op.source_sha;
            before_path = before.0;
            after_path = after.0;
          },
          after.1,
        )

    unfoldable pub delete_op : ℕ → FileOp → Tree → PlanOp × Tree
    delete_op idx op t =
        let before = artifact_of idx (str "-before") op.dest_path op t in
        (
          record {
            op = str "delete";
            path = rel_path quadlet_dir op.dest_path;
            unit = unit_of op;
            source_repo = [];
            source_ref = [];
            source_sha = [];
            before_path = before.0;
            after_path = [];
          },
          before.1,
        )

    -- One of the three loops, from an index on.
    unfoldable pub plan_ops :
        (ℕ → FileOp → Tree → PlanOp × Tree) → ℕ → List FileOp → Tree → List PlanOp × Tree
    plan_ops one idx [] t = ([], t)
    plan_ops one idx (op ∷ ops) t =
        let first = one idx op t in
        let rest = plan_ops one (idx + 1) ops first.1 in (first.0 ∷ rest.0, rest.1)

    unfoldable pub write_plan_with_artifacts :
        Plan → List ConflictSummary → PlanRequest → Tree → RunPlan × Tree
    write_plan_with_artifacts p conflicts requested t =
        let added = plan_ops add_op 0 p.add t in
        let updated = plan_ops update_op (length p.add) p.update added.1 in
        let deleted = plan_ops delete_op (length p.add + length p.update) p.delete updated.1 in
        (
          record {
            requested = requested;
            conflicts = conflicts;
            ops = added.0 ++ (updated.0 ++ deleted.0);
          },
          deleted.1,
        )

  -- The plan of a run that succeeded is stored; errors are only logged.
  unfoldable pub store_plan : PlanRequest → RunMeta → Result RunError RunResult → Shared → Shared
  store_plan req meta (err x) s = s
  store_plan req meta (ok result) s =
      let written =
        write_plan_with_artifacts meta.id s.cfg.paths.quadlet_dir result.plan meta.conflicts req
          s.tree in
      let stored = write_plan h.env c base_dir meta.id written.0 written.1 in
      record s { tree = stored.1 }

  unfoldable pub save_meta : RunMeta → Shared → Shared
  save_meta meta s = let r = update h.env c base_dir meta s.tree in record s { tree = r.1 }

  abbrev pub engine_answer : Result RunError RunResult → Option RunError
  engine_answer (ok r) = none
  engine_answer (err x) = some x

  abbrev pub plan_failure : Option RunError → Option PlanFailure
  plan_failure none = none
  plan_failure (some x) = some (plan_failed x)

  -- From the engine on, in a directory of the run's own.
  unfoldable pub execute_in :
      Text → PlanRequest → ℕ → RunMeta → Shared → (Text × Option PlanFailure) × Shared
  execute_in work_dir req ended_at meta s =
      let engine = new_engine_with_plan_options work_dir (overrides_of req) req.repo_url in
      let answer = run h engine (engine_world s) in
      let finished = finish_meta error_text ended_at answer.0 meta in
      let stored = store_plan req finished answer.0 (after_engine s answer.1) in
      ((meta.id, plan_failure (engine_answer answer.0)), save_meta finished stored)

  -- In the directory of the run, or with a record of why it has none, whose text is `work_dir_text`.
  unfoldable pub execute_at :
      (StoreError → Text)
      → PlanRequest
      → ℕ
      → RunMeta
      → Result StoreError Text
      → Shared
      → (Text × Option PlanFailure) × Shared
  execute_at work_dir_text req ended_at meta (ok work_dir) s =
      execute_in work_dir req ended_at meta s
  execute_at work_dir_text req ended_at meta (err x) s =
      let failed = record meta {
        ended_at = some ended_at;
        status = failure;
        error = work_dir_text x;
      } in
      ((meta.id, some (no_work_dir x)), save_meta failed s)

  abbrev pub execute_created :
      (StoreError → Text)
      → PlanRequest
      → ℕ
      → Result StoreError RunMeta
      → Shared
      → (Text × Option PlanFailure) × Shared
  execute_created work_dir_text req ended_at (err x) s = (([], some (no_record x)), s)
  execute_created work_dir_text req ended_at (ok meta) s =
      execute_at work_dir_text req ended_at meta (work_dir_for_run base_dir meta.id) s

  -- The identifier of the run, empty where it has none, and the error.
  unfoldable pub execute :
      (StoreError → Text) → PlanRequest → ℕ → ℕ → Shared → (Text × Option PlanFailure) × Shared
  execute work_dir_text req started_at ended_at s =
      let created = create h.env c base_dir (starting plan_run ui true started_at) s.tree in
      execute_created work_dir_text req ended_at created.0 (record s { tree = created.1 })
