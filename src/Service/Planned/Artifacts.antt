-- ===== src/Service/Planned/Artifacts.antt =====
-- The operations of a stored plan, and what the store gets for them.
use mathlib.Core.Path.{subst}
use quadsyncd.Base.{
  ℕ, ◌+◌, ◌≡◌, refl, sym, ◌⊎◌, inl, inr, Bool-cases, true, false, List, [], ◌∷◌, ◌++◌, length, ok,
  err, Result-cases, text_eq,
}
use quadsyncd.Base.Text.{Text, str}
use quadsyncd.FilePath.{ext}
use quadsyncd.Os.{OsError, read_file}
use quadsyncd.Quadlet.{is_quadlet_file, unit_name_from_quadlet}
use quadsyncd.Runstore.{ConflictSummary, PlanRequest, PlanOp, StoreError}
use quadsyncd.Runstore.Store.{Tree, Codec, write_artifact}
use quadsyncd.Sync.{FileOp, Plan}
use quadsyncd.Sync.Engine.{Host, RunError}
use quadsyncd.Service.Planned.{
  rel_path, four_digits, artifact_name, write_artifact_of, add_op, update_op, delete_op, plan_ops,
  write_plan_with_artifacts,
}

module _ (h : Host) (c : Codec) (base_dir : Text) (error_text : RunError → Text)
    (run_id quadlet_dir : Text) where
  -- What comes of storing a file under a name: the name that is reported, and the store. It is
  -- reported exactly when the file was read and its content written.
  pub data Stores (name path : Text) (t : Tree) : Text → Tree → Type 0 where
    unreadable : (x : OsError) → read_file h.env path t.disk ≡ err x → Stores name path t [] t
    unwritten :
        (content : Text) (x : StoreError)
        → read_file h.env path t.disk ≡ ok content
        → (write_artifact h.env c base_dir run_id name content t).0 ≡ err x
        → Stores name path t [] (write_artifact h.env c base_dir run_id name content t).1
    stored :
        (content : Text)
        → read_file h.env path t.disk ≡ ok content
        → (write_artifact h.env c base_dir run_id name content t).0 ≡ ok tt
        → Stores name path t name (write_artifact h.env c base_dir run_id name content t).1

  -- The name of an artifact: four digits, what it is, and the extension of the quadlet.
  abbrev pub named : ℕ → Text → FileOp → Text
  named idx what op = four_digits idx ++ (what ++ ext op.dest_path)

  -- The three kinds of operation, by the text that stands for them.
  pub data OpKind : Type 0 where
    addition change deletion : OpKind

  abbrev pub word : OpKind → Text
  word addition = str "add"
  word change = str "update"
  word deletion = str "delete"

  -- Of a quadlet, the incoming file is stored for an addition, the present one for a deletion, and
  -- for an update first the present one and then the incoming one.
  abbrev pub Artifacts : OpKind → ℕ → FileOp → Tree → PlanOp → Tree → Type 0
  Artifacts addition idx op t p after =
      (p.before_path ≡ [])
      × Stores (named idx (str "-after") op) op.source_path t p.after_path after
  Artifacts change idx op t p after =
      (between : Tree) × Stores (named idx (str "-before") op) op.dest_path t p.before_path between
      × Stores (named idx (str "-after") op) op.source_path between p.after_path after
  Artifacts deletion idx op t p after =
      (p.after_path ≡ []) × Stores (named idx (str "-before") op) op.dest_path t p.before_path after

  -- A quadlet has its unit and its artifacts. Any other file has neither, and nothing is stored.
  abbrev pub OfFile : OpKind → ℕ → FileOp → Tree → PlanOp → Tree → Type 0
  OfFile kind idx op t p after =
      ((is_quadlet_file op.dest_path ≡ true)
        × (p.unit ≡ unit_name_from_quadlet op.dest_path)
        × Artifacts kind idx op t p after)
      ⊎ ((is_quadlet_file op.dest_path ≡ false)
          × (p.unit ≡ [])
          × (p.before_path ≡ [])
          × (p.after_path ≡ [])
          × (after ≡ t))

  -- Where a file is from is told of additions and updates.
  abbrev pub FromSource : OpKind → FileOp → PlanOp → Type 0
  FromSource deletion op p = (p.source_repo ≡ []) × (p.source_ref ≡ []) × (p.source_sha ≡ [])
  FromSource kind op p =
      (p.source_repo ≡ op.source_repo)
      × (p.source_ref ≡ op.source_ref)
      × (p.source_sha ≡ op.source_sha)

  -- A stored operation tells one of the plan, and takes the store from one tree to the next.
  abbrev pub Tells : OpKind → ℕ → FileOp → Tree → PlanOp → Tree → Type 0
  Tells kind idx op t p after =
      (p.op ≡ word kind)
      × (p.path ≡ rel_path quadlet_dir op.dest_path)
      × FromSource kind op p
      × OfFile kind idx op t p after

  -- One stored operation for each of the plan, in order and numbered from `idx` on.
  abbrev pub TellAll : OpKind → ℕ → List FileOp → Tree → List PlanOp → Tree → Type 0
  TellAll kind idx [] t [] after = after ≡ t
  TellAll kind idx [] t (p ∷ ps) after = ⊥
  TellAll kind idx (op ∷ ops) t [] after = ⊥
  TellAll kind idx (op ∷ ops) t (p ∷ ps) after =
      (next : Tree) × Tells kind idx op t p next × TellAll kind (idx + 1) ops next ps after

  abbrev StoresAs : Text → Text → Tree → Text × Tree → Type 0
  StoresAs name path t r = Stores name path t r.0 r.1

  write_artifact_of-Stores :
      (name path : Text) (t : Tree)
      → StoresAs name path t (write_artifact_of h c base_dir error_text run_id name path t)
  unfolding write_artifact_of
  write_artifact_of-Stores name path t = elim (Result-cases (read_file h.env path t.disk)) [
    | inr (x, e) ↦
        subst (StoresAs name path t) (sym (rw (write_artifact_of, e) refl)) (unreadable x e)
    | inl (content, e) ↦
        let w = write_artifact h.env c base_dir run_id name content t in
        elim (Result-cases w.0) [
          | inr (x, f) ↦
              let path_of : write_artifact_of h c base_dir error_text run_id name path t
                  ≡ ([], w.1) =
                rw (write_artifact_of, e, f) refl in
              subst (StoresAs name path t) (sym path_of) (unwritten content x e f)
          | inl (u, f) ↦
              let path_of : write_artifact_of h c base_dir error_text run_id name path t
                  ≡ (name, w.1) =
                rw (write_artifact_of, e, f) refl in
              subst (StoresAs name path t) (sym path_of) (stored content e f)
        ]
  ]

  abbrev Maker : Type 0
  Maker = ℕ → FileOp → Tree → PlanOp × Tree

  -- What is asked of one of the three kinds of operation.
  abbrev Makes : OpKind → Maker → Type 0
  Makes kind one =
      (idx : ℕ) (op : FileOp) (t : Tree) → Tells kind idx op t (one idx op t).0 (one idx op t).1

  add_op-Makes : Makes addition (add_op h c base_dir error_text run_id quadlet_dir)
  unfolding add_op artifact_name
  add_op-Makes idx op t = (
    refl,
    refl,
    (refl, refl, refl),
    elim (Bool-cases (is_quadlet_file op.dest_path)) [
      | inr n ↦ rw n (inr (refl, refl, refl, refl, refl))
      | inl q ↦ rw q (inl (refl, refl, (refl, write_artifact_of-Stores _ op.source_path t)))
    ],
  )

  update_op-Makes : Makes change (update_op h c base_dir error_text run_id quadlet_dir)
  unfolding update_op artifact_name
  update_op-Makes idx op t = (
    refl,
    refl,
    (refl, refl, refl),
    elim (Bool-cases (is_quadlet_file op.dest_path)) [
      | inr n ↦ rw n (inr (refl, refl, refl, refl, refl))
      | inl q ↦ rw q (
          inl (
            refl,
            refl,
            (
              _,
              write_artifact_of-Stores _ op.dest_path t,
              write_artifact_of-Stores _ op.source_path _,
            ),
          ))
    ],
  )

  delete_op-Makes : Makes deletion (delete_op h c base_dir error_text run_id quadlet_dir)
  unfolding delete_op artifact_name
  delete_op-Makes idx op t = (
    refl,
    refl,
    (refl, refl, refl),
    elim (Bool-cases (is_quadlet_file op.dest_path)) [
      | inr n ↦ rw n (inr (refl, refl, refl, refl, refl))
      | inl q ↦ rw q (inl (refl, refl, (refl, write_artifact_of-Stores _ op.dest_path t)))
    ],
  )

  abbrev loop : Maker → ℕ → List FileOp → Tree → List PlanOp × Tree
  loop one idx ops t = plan_ops h c base_dir error_text run_id quadlet_dir one idx ops t

  plan_ops-TellAll :
      (kind : OpKind) (one : Maker)
      → Makes kind one
      → (idx : ℕ) (ops : List FileOp) (t : Tree)
      → TellAll kind idx ops t (loop one idx ops t).0 (loop one idx ops t).1
  unfolding plan_ops
  plan_ops-TellAll kind one m idx [] t = refl
  plan_ops-TellAll kind one m idx (op ∷ ops) t =
      (_, m idx op t, plan_ops-TellAll kind one m (idx + 1) ops (one idx op t).1)

  -- The additions of a plan, then its updates, then its deletions, numbered throughout.
  abbrev pub TellsPlan : Plan → Tree → List PlanOp → Tree → Type 0
  TellsPlan p t ops after =
      (added updated deleted : List PlanOp) × (t1 t2 : Tree) × (ops ≡ added ++ (updated ++ deleted))
      × TellAll addition 0 p.add t added t1
      × TellAll change (length p.add) p.update t1 updated t2
      × TellAll deletion (length p.add + length p.update) p.delete t2 deleted after

  -- The plan that is stored has one operation for each addition, then each update, then each deletion
  -- of the engine's plan, in their order, with the path relative to the quadlet directory and, but for
  -- deletions, with where the file is from. A quadlet has its unit, and an artifact is reported exactly
  -- when its file could be read and stored under its name: the incoming file, the present one, or
  -- both. For any other file there is no unit, no artifact is reported, and the store stays as it is.
  pub write_plan_with_artifacts_lem :
      (p : Plan) (conflicts : List ConflictSummary) (req : PlanRequest) (t : Tree)
      → let written =
          write_plan_with_artifacts h c base_dir error_text run_id quadlet_dir p conflicts req t in
        TellsPlan p t written.0.ops written.1
  unfolding write_plan_with_artifacts
  write_plan_with_artifacts_lem p conflicts req t =
      let added = loop (add_op h c base_dir error_text run_id quadlet_dir) 0 p.add t in
      let updated =
        loop (update_op h c base_dir error_text run_id quadlet_dir) (length p.add) p.update
          added.1 in
      (
        _,
        _,
        _,
        added.1,
        updated.1,
        refl,
        plan_ops-TellAll addition _ add_op-Makes 0 p.add t,
        plan_ops-TellAll change _ update_op-Makes (length p.add) p.update added.1,
        plan_ops-TellAll deletion _ delete_op-Makes (length p.add + length p.update) p.delete
            updated.1,
      )
