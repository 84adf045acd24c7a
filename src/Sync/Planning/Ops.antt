-- ===== src/Sync/Planning/Ops.antt =====
-- The operations of `buildPlanFromEffective` by the steps that make them.
use mathlib.Core.Path.{subst}
use mathlib.Core.List.{Memᴰ}
use mathlib.Core.List.Memᴰ
use quadsyncd.Base.{
  ◌≡◌, refl, sym, ap, ◌∙◌, ◌≢◌, ◌↔◌, ◌⊎◌, inl, inr, Bool, true, false, Bool-cases, List, [], ◌∷◌,
  ◌++◌, ok, Result-cases, if◌then◌else◌, text_eq,
}
use quadsyncd.Base.Text.{Text}
use quadsyncd.Base.Dict.{Dict, lookup}
use quadsyncd.Base.Sort.{mem-sort_by, sort_by-mem}
use quadsyncd.Os.{Env, Disk}
use quadsyncd.Multirepo.{EffectiveItem}
use quadsyncd.Sync.{ManagedFile, State, FileOp, Plan, empty_plan}
use quadsyncd.Sync.Planning.{
  Change, to_add, to_update, up_to_date, Desired, delete_op, op_for, record_change, plan_items,
  plan_deletes, stays, is_gone, sort_plan, by_dest, desired_files, build_plan_from_effective,
}
use quadsyncd.Sync.Planning.Diff.{
  Asks, plan_items-step, ops_of, last_mem, planned-Asks, asks-planned,
}

module _ (e : Env) (dry_run prune : Bool) (disk : Disk) where
  -- The file is managed, not desired, and not gone already in a dry run.
  pub record IsStale (desired : Desired) (managed : Dict Text ManagedFile) (op : FileOp)
      : Type 0 where
    pub dest_path : Text
    pub file : ManagedFile
    pub listed : Memᴰ (dest_path, file) managed
    pub leaves :
        stays e dry_run prune disk
          (lookup dest_path desired)
          (is_gone e dry_run prune disk dest_path)
        ≡ false
    pub made : op ≡ delete_op dest_path

  abbrev stays_at : Desired → Text → Bool
  stays_at desired dest_path =
      stays e dry_run prune disk (lookup dest_path desired) (is_gone e dry_run prune disk dest_path)

  ops_of-delete :
      (c : Change) (p : Plan) (ops : List FileOp)
      → ops_of c (record p { delete = ops }) ≡ ops_of c p
  ops_of-delete to_add p ops = refl
  ops_of-delete to_update p ops = refl
  ops_of-delete up_to_date p ops = refl

  plan_deletes-ops :
      (c : Change) (desired : Desired) (ms : Dict Text ManagedFile) (p : Plan)
      → ops_of c (plan_deletes e dry_run prune disk desired ms p) ≡ ops_of c p
  unfolding plan_deletes
  plan_deletes-ops c desired [] p = refl
  plan_deletes-ops c desired ((dest_path, m) ∷ ms) p =
      elim (Bool-cases (stays_at desired dest_path)) [
        | inl h ↦ rw (h, plan_deletes) (plan_deletes-ops c desired ms p)
        | inr h ↦ rw (h, plan_deletes) (plan_deletes-ops c desired ms _ ∙ ops_of-delete c p _)
      ]

  IsStale-later :
      (desired : Desired) (x : Text × ManagedFile) (ms : Dict Text ManagedFile) (op : FileOp)
      → IsStale desired ms op
      → IsStale desired (x ∷ ms) op
  IsStale-later desired x ms op s = record {
    dest_path = s.dest_path;
    file = s.file;
    listed = Memᴰ.tail s.listed;
    leaves = s.leaves;
    made = s.made;
  }

  plan_deletes-IsStale :
      (desired : Desired) (ms : Dict Text ManagedFile) (p : Plan) (op : FileOp)
      → Memᴰ op (plan_deletes e dry_run prune disk desired ms p).delete
      → Memᴰ op p.delete ⊎ IsStale desired ms op
  unfolding plan_deletes
  plan_deletes-IsStale desired [] p op m = inl m
  plan_deletes-IsStale desired ((dest_path, f) ∷ ms) p op m =
      elim (Bool-cases (stays_at desired dest_path)) [
        | inl h ↦ elim (plan_deletes-IsStale desired ms p op (rw (h, plan_deletes) at m)) [
          | inl old ↦ inl old
          | inr s ↦ inr (IsStale-later desired (dest_path, f) ms op s)
        ]
        | inr h ↦
            elim (plan_deletes-IsStale desired ms
              (record p { delete = p.delete ++ delete_op dest_path ∷ [] }) op
              (rw (h, plan_deletes) at m)) [
                | inr s ↦ inr (IsStale-later desired (dest_path, f) ms op s)
                | inl n ↦ elim (last_mem {b = true} p.delete n) [
                  | inl old ↦ inl old
                  | inr (same, is_op) ↦ inr (record {
                    dest_path = dest_path;
                    file = f;
                    listed = Memᴰ.head refl;
                    leaves = h;
                    made = is_op;
                  })
                ]
              ]
      ]

  mem-plan_deletes :
      (desired : Desired) (ms : Dict Text ManagedFile) (p : Plan) (op : FileOp)
      → Memᴰ op p.delete ⊎ IsStale desired ms op
      → Memᴰ op (plan_deletes e dry_run prune disk desired ms p).delete
  unfolding plan_deletes
  mem-plan_deletes desired [] p op (inl m) = m
  mem-plan_deletes desired [] p op (inr s) = absurd (Memᴰ.not-nil s.listed)
  mem-plan_deletes desired ((dest_path, f) ∷ ms) p op (inl m) =
      elim (Bool-cases (stays_at desired dest_path)) [
        | inl h ↦ rw (h, plan_deletes) (mem-plan_deletes desired ms p op (inl m))
        | inr h ↦
            rw (h, plan_deletes)
              (mem-plan_deletes desired ms _ op
                (inl (Memᴰ.append_left (delete_op dest_path ∷ []) m)))
      ]
  mem-plan_deletes desired ((dest_path, f) ∷ ms) p op (inr s) =
      elim (Bool-cases (stays_at desired dest_path)) [
        | inl h ↦
            rw (h, plan_deletes)
              (mem-plan_deletes desired ms p op (elim (Memᴰ.cases_cons s.listed) [
                | inl same ↦
                    let no : stays_at desired dest_path ≡ false =
                      subst (λ (x : Text). stays_at desired x ≡ false)
                        (ap (λ (x : Text × ManagedFile). x.0) same) s.leaves in
                    cc
                | inr m ↦ inr (record {
                  dest_path = s.dest_path;
                  file = s.file;
                  listed = m;
                  leaves = s.leaves;
                  made = s.made;
                })
              ]))
        | inr h ↦
            rw (h, plan_deletes)
              (mem-plan_deletes desired ms _ op (elim (Memᴰ.cases_cons s.listed) [
                | inl same ↦
                    let at = ap (λ (x : Text × ManagedFile). delete_op x.0) same in
                    inl (Memᴰ.append_right p.delete (Memᴰ.head (s.made ∙ at)))
                | inr m ↦ inr (record {
                  dest_path = s.dest_path;
                  file = s.file;
                  listed = m;
                  leaves = s.leaves;
                  made = s.made;
                })
              ]))
      ]

  -- sorting keeps the operations
  sort_plan-mem :
      (c : Change) (p : Plan) (op : FileOp)
      → Memᴰ op (ops_of c (sort_plan e dry_run prune disk p)) ↔ Memᴰ op (ops_of c p)
  unfolding sort_plan
  sort_plan-mem to_add p op = (
    λ m. mem-sort_by (by_dest e dry_run prune disk) op p.add m,
    λ m. sort_by-mem (by_dest e dry_run prune disk) op p.add m,
  )
  sort_plan-mem to_update p op = (
    λ m. mem-sort_by (by_dest e dry_run prune disk) op p.update m,
    λ m. sort_by-mem (by_dest e dry_run prune disk) op p.update m,
  )
  sort_plan-mem up_to_date p op = (λ m. m, λ m. m)

  abbrev deletes_if : Bool → Desired → State → Plan → Plan
  deletes_if b desired prev p =
      if b then plan_deletes e dry_run prune disk desired prev.managed_files p else p

  deletes_if-ops :
      (b : Bool) (c : Change) (desired : Desired) (prev : State) (p : Plan)
      → ops_of c (deletes_if b desired prev p) ≡ ops_of c p
  deletes_if-ops true c desired prev p = plan_deletes-ops c desired prev.managed_files p
  deletes_if-ops false c desired prev p = refl

  deletes_if-delete :
      (b : Bool) (desired : Desired) (prev : State) (p : Plan) (op : FileOp)
      → p.delete ≡ []
      → Memᴰ op (deletes_if b desired prev p).delete
        ↔ ((b ≡ true) × IsStale desired prev.managed_files op)
  deletes_if-delete true desired prev p op h = (
    λ m. elim (plan_deletes-IsStale desired prev.managed_files p op m) [
      | inl old ↦ absurd (Memᴰ.not-nil (subst (λ (x : List FileOp). Memᴰ op x) h old))
      | inr s ↦ (refl, s)
    ],
    λ s. mem-plan_deletes desired prev.managed_files p op (inr s.1),
  )
  deletes_if-delete false desired prev p op h =
      (λ m. absurd (Memᴰ.not-nil (subst (λ (x : List FileOp). Memᴰ op x) h m)), λ s. cc)

  pub build-step :
      (quadlet_dir : Text) (prev : State) (items : List EffectiveItem) (q : Plan)
      → build_plan_from_effective e dry_run prune disk quadlet_dir prev items ≡ ok q
      → (p : Plan) × (plan_items e dry_run prune disk prev
            (desired_files quadlet_dir items [])
            empty_plan
          ≡ ok p)
        × (q
            ≡ sort_plan e dry_run prune disk
                (deletes_if prune (desired_files quadlet_dir items []) prev p))
  unfolding build_plan_from_effective
  build-step quadlet_dir prev items q h =
      elim (Result-cases
        (plan_items e dry_run prune disk prev (desired_files quadlet_dir items []) empty_plan)) [
          | inr (x, bad) ↦ cc
          | inl (p, a) ↦ (p, a, cc)
        ]

  nothing_planned : (c : Change) (op : FileOp) → Memᴰ op (ops_of c empty_plan) → ⊥
  nothing_planned to_add op m = Memᴰ.not-nil m
  nothing_planned to_update op m = Memᴰ.not-nil m
  nothing_planned up_to_date op m = Memᴰ.not-nil m

  sort_plan-delete :
      (p : Plan) (op : FileOp)
      → Memᴰ op (sort_plan e dry_run prune disk p).delete ↔ Memᴰ op p.delete
  unfolding sort_plan
  sort_plan-delete p op = (mem-sort_by by op p.delete, sort_by-mem by op p.delete)
    where
      by : FileOp → FileOp → Bool
      by = by_dest e dry_run prune disk

  record_change-delete :
      (c : Change) (op : FileOp) (p : Plan) → (record_change c op p).delete ≡ p.delete
  unfolding record_change
  record_change-delete to_add op p = refl
  record_change-delete to_update op p = refl
  record_change-delete up_to_date op p = refl

  plan_items-delete :
      (d : Desired) (prev : State) (p q : Plan)
      → plan_items e dry_run prune disk prev d p ≡ ok q
      → p.delete ≡ []
      → q.delete ≡ []
  unfolding plan_items
  plan_items-delete [] prev p q h n = cc
  plan_items-delete ((dest_path, item) ∷ d) prev p q h n =
      let (hash, k, hashed, decided, rest) =
        plan_items-step e dry_run prune disk prev dest_path item d p q h in
      plan_items-delete d prev _ q rest (record_change-delete k (op_for dest_path item hash) p ∙ n)

  planned_iff :
      (c : Change) (quadlet_dir : Text) (prev : State) (items : List EffectiveItem) (q : Plan)
      → c ≢ up_to_date
      → build_plan_from_effective e dry_run prune disk quadlet_dir prev items ≡ ok q
      → (op : FileOp)
      → Memᴰ op (ops_of c q)
        ↔ Asks e dry_run prune disk prev c (desired_files quadlet_dir items []) op
  planned_iff c quadlet_dir prev items q n h op =
      let desired = desired_files quadlet_dir items [] in
      let (p, a, same) = build-step quadlet_dir prev items q h in
      let d = deletes_if prune desired prev p in
      let ops = deletes_if-ops prune c desired prev p in
      (
        λ m.
            elim (planned-Asks e dry_run prune disk prev c desired empty_plan p op a (
              subst (λ (x : List FileOp). Memᴰ op x) ops
                ((sort_plan-mem c d op).0 (subst (λ (x : Plan). Memᴰ op (ops_of c x)) same m)))) [
                  | inl old ↦ absurd (nothing_planned c op old)
                  | inr asked ↦ asked
                ],
        λ asked.
            subst (λ (x : Plan). Memᴰ op (ops_of c x)) (sym same)
              ((sort_plan-mem c d op).1 (
                subst (λ (x : List FileOp). Memᴰ op x) (sym ops)
                  (asks-planned e dry_run prune disk prev c desired empty_plan p op n a asked))),
      )

  -- A plan that is built has exactly these operations: an addition or an update for each desired
  -- file whose hash asks for it, by the managed state or in a dry run by the disk, with the
  -- file's hash and where it is from; and, if pruning is on, a deletion for each managed file that
  -- is not desired and, in a dry run, still on the disk.
  pub build_plan_from_effective-ops :
      (quadlet_dir : Text) (prev : State) (items : List EffectiveItem) (q : Plan)
      → build_plan_from_effective e dry_run prune disk quadlet_dir prev items ≡ ok q
      → (op : FileOp)
      → (Memᴰ op q.add
          ↔ Asks e dry_run prune disk prev to_add (desired_files quadlet_dir items []) op)
        × (Memᴰ op q.update
            ↔ Asks e dry_run prune disk prev to_update (desired_files quadlet_dir items []) op)
        × (Memᴰ op q.delete
            ↔ ((prune ≡ true) × IsStale (desired_files quadlet_dir items []) prev.managed_files op))
  build_plan_from_effective-ops quadlet_dir prev items q h op =
      let desired = desired_files quadlet_dir items [] in
      let (p, a, same) = build-step quadlet_dir prev items q h in
      let d = deletes_if prune desired prev p in
      let stale =
        deletes_if-delete prune desired prev p op
          (plan_items-delete desired prev empty_plan p a refl) in
      (
        planned_iff to_add quadlet_dir prev items q (λ x. cc) h op,
        planned_iff to_update quadlet_dir prev items q (λ x. cc) h op,
        (
          λ m. stale.0 ((sort_plan-delete d op).0 (subst (λ (x : Plan). Memᴰ op x.delete) same m)),
          λ s.
              subst (λ (x : Plan). Memᴰ op x.delete) (sym same)
                ((sort_plan-delete d op).1 (stale.1 s)),
        ),
      )
