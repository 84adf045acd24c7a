-- ===== src/Sync/Engine/DryRun.antt =====
-- Dry runs of the engine: Run of internal/sync/sync.go, where dryRun is set.
use quadsyncd.Base.{
  ◌≡◌, refl, ap, ◌∙◌, ◌⊎◌, inl, inr, true, Bool-cases, List, [], ◌∷◌, Result, Result-cases, ◌==◌,
  text_eq,
}
use quadsyncd.Base.Text.{Text}
use quadsyncd.Os.{Disk, mkdir_all}
use quadsyncd.Config.{RepoSpec}
use quadsyncd.Multirepo.{RepoState, merge}
use quadsyncd.Sync.Filter.{select_repos}
use quadsyncd.Sync.Engine.{
  Host, Engine, World, RunError, RunResult, plan_of, merge_and_plan, load_and_merge, run_selected,
  run, load_all_repo_states, with_state_dir, add_dir, default_mode,
}
use quadsyncd.Sync.Engine.Checkouts.{IsRoot, has-IsRoot, Checkouts, load_all_repo_states-Checkouts}

module _ (h : Host) where
  merge_and_plan-dry :
      (eng : Engine) (states : List RepoState) (w : World)
      → eng.dry_run ≡ true
      → (merge_and_plan h eng states w).1 ≡ w
  unfolding merge_and_plan
  merge_and_plan-dry eng states w dry =
      elim (Result-cases (merge states (default_mode w.cfg.sync.conflict_handling))) [
        | inr (x, bad) ↦ rw (bad, merge_and_plan) refl
        | inl (m, a) ↦ elim (Result-cases (plan_of h eng w.cfg w.disk m)) [
          | inr (x, bad) ↦ rw (a, bad, merge_and_plan) refl
          | inl (p, b) ↦ rw (a, b, dry, merge_and_plan) refl
        ]
      ]

  -- The world as it was, or with the state directory and what checkouts below the root do to the disk.
  abbrev pub OnlyCheckouts : Engine → List RepoSpec → World → World → Type 0
  OnlyCheckouts eng repos w v =
      (v ≡ w)
      ⊎ ((root : Text) × (after : Disk) × IsRoot h eng w.cfg root
          × Checkouts h eng w.cfg root repos w.disk after
          × (v ≡ record w { disk = after; dirs = add_dir w.cfg.paths.state_dir w.dirs }))

  load_and_merge-dry :
      (eng : Engine) (repos : List RepoSpec) (w : World)
      → eng.dry_run ≡ true
      → OnlyCheckouts eng repos w (load_and_merge h eng repos w).1
  unfolding load_and_merge
  load_and_merge-dry eng repos w dry =
      elim (Bool-cases (h.env.fails mkdir_all w.cfg.paths.state_dir)) [
        | inl bad ↦ inl (rw (bad, load_and_merge) refl)
        | inr a ↦
            let r = load_all_repo_states h eng w.cfg repos w.disk in
            let (root, is_root) = has-IsRoot h eng w.cfg in
            let made = load_all_repo_states-Checkouts h eng w.cfg root repos w.disk is_root in
            elim (Result-cases r.0) [
              | inr (x, bad) ↦ inr (root, r.1, is_root, made, rw (a, bad, load_and_merge) refl)
              | inl (states, b) ↦
                  let path : load_and_merge h eng repos w
                      ≡ merge_and_plan h eng states (record (with_state_dir h w) { disk = r.1 }) =
                    rw (a, b, load_and_merge) refl in
                  inr (
                    root,
                    r.1,
                    is_root,
                    made,
                    ap (λ (x : Result RunError RunResult × World). x.1) path
                        ∙ merge_and_plan-dry eng states (record (with_state_dir h w) { disk = r.1 })
                            dry,
                  )
            ]
      ]

  run_selected-dry :
      (eng : Engine) (repos : List RepoSpec) (w : World)
      → eng.dry_run ≡ true
      → OnlyCheckouts eng repos w (run_selected h eng repos w).1
  run_selected-dry eng [] w dry = elim (Bool-cases (eng.repo_filter == [])) [
    | inl none_set ↦ rw none_set (load_and_merge-dry eng [] w dry)
    | inr set ↦ rw set (inl refl)
  ]
  run_selected-dry eng (r ∷ rs) w dry = load_and_merge-dry eng (r ∷ rs) w dry

  -- A dry run, with any answer, leaves systemd alone, and either nothing is changed, or the state
  -- directory is there and checkouts have changed the disk, and nothing else: of some of the first
  -- selected repositories, in order, each into its directory below `repos` in the plan's work
  -- directory, or in the state directory when there is none. The shared configuration is that of the
  -- repository filter.
  pub run-OnlyCheckouts :
      (eng : Engine) (w : World)
      → eng.dry_run ≡ true
      → OnlyCheckouts eng
          (select_repos eng.repo_filter w.cfg).0
          (record w { cfg = (select_repos eng.repo_filter w.cfg).1 })
          (run h eng w).1
  unfolding run
  run-OnlyCheckouts eng w dry =
      let chosen = select_repos eng.repo_filter w.cfg in
      run_selected-dry eng chosen.0 (record w { cfg = chosen.1 }) dry
