-- ===== src/Sync/NewState/Converge.antt =====
-- A second run finds nothing to do: planning from the state that a run leaves.
use mathlib.Core.Path.{subst}
use mathlib.Core.List.{Memᴰ}
use mathlib.Core.List.Memᴰ
use quadsyncd.Base.{
  ◌≡◌, refl, sym, ap, ◌∙◌, ◌≢◌, ◌⊎◌, inl, inr, Bool, true, false, Option, none, some, Option-cases,
  List, [], ◌++◌, ok, if◌then◌else◌, text_eq, arith,
}
use quadsyncd.Base.Text.{Text}
use quadsyncd.Base.Dict.{lookup, mem-lookup, lookup-mem, mem-lookup_some}
use quadsyncd.Base.Sort.{sort_by}
use quadsyncd.Os.{Env, Disk}
use quadsyncd.Multirepo.{EffectiveItem, RepoState}
use quadsyncd.Sync.{ManagedFile, State, FileOp, Plan, empty_plan}
use quadsyncd.Sync.Planning.{
  Change, to_add, to_update, up_to_date, Desired, delete_op, op_for, plan_deletes, stays, is_gone,
  sort_plan, desired_files, build_plan_from_effective, file_hash, change_for, change_in_state,
}
use quadsyncd.Sync.Planning.Diff.{Asks, plan_items-Judged}
use quadsyncd.Sync.Planning.Ops.{IsStale, build_plan_from_effective-ops, build-step}
use quadsyncd.Sync.NewState.{managed_of, forget_all, build_state_from_effective}
use quadsyncd.Sync.NewState.Lookup.{
  Change-cases, NotFor, Settled, Settled-plan_items, change_in_state-disk, delete_op-dest,
  desired-plan_deletes, desired_files-Nodup, forget_all-lookup, manage_all-lookup, op_for-dest,
}

module _ (e : Env) (prune : Bool) (disk : Disk) (quadlet_dir : Text) (prev : State)
    (items : List EffectiveItem) (p : Plan) (states : List RepoState)
    (built : build_plan_from_effective e false prune disk quadlet_dir prev items ≡ ok p) where
  abbrev desired : Desired
  desired = desired_files quadlet_dir items []

  abbrev next : State
  next = build_state_from_effective quadlet_dir prev p states

  desired-lookup :
      (dest_path : Text) (item : EffectiveItem)
      → Memᴰ (dest_path, item) desired
      → lookup dest_path desired ≡ some item
  desired-lookup dest_path item m =
      mem-lookup dest_path item desired (desired_files-Nodup quadlet_dir items [] tt) m

  -- An addition or an update is asked for.
  abbrev Asked : FileOp → Type 0
  Asked op = (c : Change) × Asks e false prune disk prev c desired op

  copy-Asked : (op : FileOp) → Memᴰ op (p.add ++ p.update) → Asked op
  copy-Asked op m =
      let exact =
        build_plan_from_effective-ops e false prune disk quadlet_dir prev items p built op in
      elim (Memᴰ.append_cases p.add m) [
        | inl a ↦ (to_add, exact.0.0 a)
        | inr u ↦ (to_update, exact.1.0 u)
      ]

  -- The managed state of a path that is not copied to is the one before, less the deletions.
  next-lookup :
      (dest_path : Text)
      → ((op : FileOp) × Memᴰ op (p.add ++ p.update)
          × (dest_path ≡ op.dest_path)
          × (lookup dest_path next.managed_files ≡ some (managed_of quadlet_dir op)))
        ⊎ (NotFor dest_path (p.add ++ p.update)
            × (lookup dest_path next.managed_files
                ≡ lookup dest_path (forget_all p.delete prev.managed_files)))
  unfolding build_state_from_effective
  next-lookup dest_path =
      manage_all-lookup quadlet_dir dest_path (p.add ++ p.update)
        (forget_all p.delete prev.managed_files)

  copied-settled :
      (dest_path : Text) (item : EffectiveItem) (hash : Text) (op : FileOp)
      → Memᴰ (dest_path, item) desired
      → file_hash e false prune disk item.abs_path ≡ ok hash
      → Asked op
      → dest_path ≡ op.dest_path
      → change_in_state e false prune disk (some (managed_of quadlet_dir op)) hash ≡ up_to_date
  unfolding change_in_state managed_of op_for
  copied-settled dest_path item hash op m hashed (c, a) at =
      let dest : op.dest_path ≡ a.dest_path = ap (λ (x : FileOp). x.dest_path) a.made in
      let here : Memᴰ (dest_path, a.item) desired =
        subst (λ (x : Text). Memᴰ (x, a.item) desired) (sym (at ∙ dest)) a.wanted in
      let some_same =
        sym (desired-lookup dest_path a.item here) ∙ desired-lookup dest_path item m in
      let same_item : a.item ≡ item = cc in
      let same_hash : a.hash ≡ hash = cc in
      let op_hash : op.hash ≡ hash = ap (λ (x : FileOp). x.hash) a.made ∙ same_hash in
      ground (arith, op_hash)

  desired_not_deleted :
      (dest_path : Text) (item : EffectiveItem)
      → lookup dest_path desired ≡ some item
      → NotFor dest_path p.delete
  desired_not_deleted dest_path item there op m at =
      let exact =
        build_plan_from_effective-ops e false prune disk quadlet_dir prev items p built op in
      let s = (exact.2.0 m).1 in
      let same : dest_path ≡ s.dest_path =
        at ∙ (ap (λ (x : FileOp). x.dest_path) s.made ∙ delete_op-dest s.dest_path) in
      let leaves : stays e false prune disk (some item) (is_gone e false prune disk s.dest_path)
          ≡ false =
        subst
          (λ (x : Option EffectiveItem).
            stays e false prune disk x (is_gone e false prune disk s.dest_path) ≡ false)
          (ap (λ (x : Text). lookup x desired) (sym same) ∙ there) s.leaves in
      cc

  forget-desired :
      (dest_path : Text) (item : EffectiveItem)
      → lookup dest_path desired ≡ some item
      → lookup dest_path (forget_all p.delete prev.managed_files)
        ≡ lookup dest_path prev.managed_files
  forget-desired dest_path item there =
      elim (forget_all-lookup quadlet_dir dest_path p.delete prev.managed_files) [
        | inl ((op, m, at), gone) ↦ absurd (desired_not_deleted dest_path item there op m at)
        | inr (n, same) ↦ same
      ]

  not_asked :
      (c : Change) (dest_path : Text) (item : EffectiveItem) (hash : Text)
      → c ≢ up_to_date
      → NotFor dest_path (p.add ++ p.update)
      → Memᴰ (dest_path, item) desired
      → file_hash e false prune disk item.abs_path ≡ ok hash
      → change_for e false prune disk prev dest_path hash ≢ ok c
  not_asked c dest_path item hash n none_for m hashed decided =
      let op = op_for dest_path item hash in
      let exact =
        build_plan_from_effective-ops e false prune disk quadlet_dir prev items p built op in
      let asks : Asks e false prune disk prev c desired op = record {
        dest_path = dest_path;
        item = item;
        wanted = m;
        hash = hash;
        hashed = hashed;
        decided = decided;
        made = refl;
      } in
      elim (Change-cases c) [
        | inl a ↦
            none_for op
              (Memᴰ.append_left p.update (
                exact.0.1
                  (subst (λ (x : Change). Asks e false prune disk prev x desired op) a asks)))
              (op_for-dest dest_path item hash)
        | inr (inl u) ↦
            none_for op
              (Memᴰ.append_right p.add (
                exact.1.1
                  (subst (λ (x : Change). Asks e false prune disk prev x desired op) u asks)))
              (op_for-dest dest_path item hash)
        | inr (inr k) ↦ n k
      ]

  kept-settled :
      (dest_path : Text) (item : EffectiveItem) (hash : Text)
      → NotFor dest_path (p.add ++ p.update)
      → Memᴰ (dest_path, item) desired
      → file_hash e false prune disk item.abs_path ≡ ok hash
      → change_in_state e false prune disk (lookup dest_path prev.managed_files) hash ≡ up_to_date
  unfolding change_for
  kept-settled dest_path item hash n m hashed =
      elim (Change-cases
        (change_in_state e false prune disk (lookup dest_path prev.managed_files) hash)) [
          | inl a ↦ absurd (not_asked to_add dest_path item hash (λ x. cc) n m hashed (ap ok a))
          | inr (inl u) ↦
              absurd (not_asked to_update dest_path item hash (λ x. cc) n m hashed (ap ok u))
          | inr (inr k) ↦ k
        ]

  next-settled :
      (dest_path : Text) (item : EffectiveItem) (hash : Text)
      → Memᴰ (dest_path, item) desired
      → file_hash e false prune disk item.abs_path ≡ ok hash
      → change_in_state e false prune disk (lookup dest_path next.managed_files) hash ≡ up_to_date
  next-settled dest_path item hash m hashed = elim (next-lookup dest_path) [
    | inl (op, n, at, there) ↦
        rw there (copied-settled dest_path item hash op m hashed (copy-Asked op n) at)
    | inr (n, same) ↦
        rw (same ∙ forget-desired dest_path item (desired-lookup dest_path item m))
          (kept-settled dest_path item hash n m hashed)
  ]

  next-desired :
      prune ≡ true
      → (dest_path : Text) (f : ManagedFile) → Memᴰ (dest_path, f) next.managed_files
      → lookup dest_path desired ≢ none
  next-desired pruned dest_path f m gone = elim (next-lookup dest_path) [
    | inl (op, n, at, there) ↦
        let (c, a) = copy-Asked op n in
        let same : dest_path ≡ a.dest_path =
          at
          ∙ (ap (λ (x : FileOp). x.dest_path) a.made
              ∙ sym (op_for-dest a.dest_path a.item a.hash)) in
        mem-lookup_some a.dest_path a.item desired a.wanted
          (ap (λ (x : Text). lookup x desired) (sym same) ∙ gone)
    | inr (n, same) ↦
        still_managed (λ x. mem-lookup_some dest_path f next.managed_files m (same ∙ x))
  ]
    where
      stale :
          (g : ManagedFile)
          → lookup dest_path prev.managed_files ≡ some g
          → IsStale e false prune disk desired prev.managed_files (delete_op dest_path)
      stale g there = record {
        dest_path = dest_path;
        file = g;
        listed = lookup-mem dest_path g prev.managed_files there;
        leaves = rw gone refl;
        made = refl;
      }

      still_managed : lookup dest_path (forget_all p.delete prev.managed_files) ≢ none → ⊥
      still_managed kept =
          elim (forget_all-lookup quadlet_dir dest_path p.delete prev.managed_files) [
            | inl (at, absent) ↦ kept absent
            | inr (n, same) ↦ elim (Option-cases (lookup dest_path prev.managed_files)) [
              | inl absent ↦ kept (same ∙ absent)
              | inr (g, there) ↦
                  n (delete_op dest_path)
                    ((build_plan_from_effective-ops e false prune disk quadlet_dir prev items p
                        built (delete_op dest_path)).2.1
                      (pruned, stale g there))
                    (sym (delete_op-dest dest_path))
            ]
          ]

  Settled-later :
      (later_disk : Disk)
      → ((dest_path : Text) (item : EffectiveItem)
          → Memᴰ (dest_path, item) desired
          → file_hash e false prune later_disk item.abs_path
            ≡ file_hash e false prune disk item.abs_path)
      → (dest_path : Text) (item : EffectiveItem) → Memᴰ (dest_path, item) desired
      → Settled e prune later_disk next dest_path item
  Settled-later later_disk same dest_path item m =
      let (first, a, eq) = build-step e false prune disk quadlet_dir prev items p built in
      let j =
        plan_items-Judged e false prune disk prev desired empty_plan first dest_path item a m in
      (
        j.hash,
        same dest_path item m ∙ j.hashed,
        change_in_state-disk e prune later_disk disk (lookup dest_path next.managed_files) j.hash
            ∙ next-settled dest_path item j.hash m j.hashed,
      )

  no_deletes :
      (later_disk : Disk) (b : Bool)
      → (b ≡ true → prune ≡ true)
      → sort_plan e false prune later_disk (
          if b
          then plan_deletes e false prune later_disk desired next.managed_files empty_plan
          else empty_plan)
        ≡ empty_plan
  unfolding sort_plan sort_by
  no_deletes later_disk true h =
      rw
        (desired-plan_deletes e prune later_disk next desired next.managed_files empty_plan
          (next-desired (h refl)))
        refl
  no_deletes later_disk false h = refl

  -- After a real run whose plan was built, planning again from the state that the run saves, for the
  -- same files, plans nothing, with or without pruning: the sources hash as they did when
  -- the first plan was built.
  pub replan-nothing :
      (later_disk : Disk)
      → ((dest_path : Text) (item : EffectiveItem)
          → Memᴰ (dest_path, item) desired
          → file_hash e false prune later_disk item.abs_path
            ≡ file_hash e false prune disk item.abs_path)
      → build_plan_from_effective e false prune later_disk quadlet_dir next items ≡ ok empty_plan
  unfolding build_plan_from_effective
  replan-nothing later_disk same =
      rw
        (Settled-plan_items e prune later_disk next desired empty_plan
          (Settled-later later_disk same))
        (ap ok (no_deletes later_disk prune (λ h. h)))
