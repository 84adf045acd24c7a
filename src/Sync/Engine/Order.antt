-- ===== src/Sync/Engine/Order.antt =====
-- The order of the steps of a run: what is done before the state is saved and systemd is called.
use mathlib.Core.Option
use mathlib.Core.Path.{subst}
use quadsyncd.Base.{
  ◌≡◌, refl, sym, ◌∙◌, ◌≢◌, ◌⊎◌, inl, inr, true, false, Bool-cases, some, Option-cases, List, [],
  ◌∷◌, Result, ok, err, Result-cases, ◌==◌, text_eq, wrap_err,
}
use quadsyncd.Base.Text.{Text}
use quadsyncd.Base.Dict.{lookup, lookup-insert_same}
use quadsyncd.Os.{Disk, mkdir_all, write_file, open_write, write_data}
use quadsyncd.Config.{Config, RepoSpec, state_file_path}
use quadsyncd.Multirepo.{RepoState, MergeResult, merge}
use quadsyncd.Sync.{State, Plan, empty_state}
use quadsyncd.Sync.Apply.{apply_plan}
use quadsyncd.Sync.NewState.{build_state_from_effective}
use quadsyncd.Sync.Filter.{select_repos}
use quadsyncd.Sync.Engine.{
  Host, Engine, World, RunError, RunResult, save_state, reload_and_restart, save_and_reload,
  execute_plan, plan_of, reload_failed, systemd_unavailable, merge_failed, load_failed,
  no_state_dir, no_repository_matches, default_mode, load_state, result_of, apply_failed,
  validation_failed, merge_and_plan, load_and_merge, run_selected, run, load_all_repo_states,
  with_state_dir, apply_world,
}

-- A plan was applied without an error, the quadlets then passed the validation, and the state file
-- holds the state of that plan.
pub record Saved (h : Host) (cfg : Config) (disk : Disk) (p : Plan) : Type 0 where
  pub prev : State
  pub states : List RepoState
  pub before : Disk
  pub after : Disk
  pub applied : apply_plan h.env cfg.paths.quadlet_dir p before ≡ (ok tt, after)
  pub validated : h.validate_quadlets cfg.paths.quadlet_dir after ≡ true
  pub text : Text
  pub encoded :
      h.marshal (build_state_from_effective cfg.paths.quadlet_dir prev p states) ≡ some text
  pub stored : lookup (state_file_path cfg) disk ≡ some (record { content = text; mode = 0o644 })

unit_path :
    {E : Type 0} (r : Result E (Unit {0}) × Disk) {u : Unit {0}}
    → r.0 ≡ ok u
    → ◌≡◌ {A = Result E (Unit {0}) × Disk} r (ok tt, r.1)
unit_path (ok u, d) k = refl
unit_path (err x, d) k = cc

module _ (h : Host) where
  write_file-ok :
      (path text : Text) (disk : Disk)
      → (write_file h.env path text disk).0 ≡ ok tt
      → lookup path (write_file h.env path text disk).1
        ≡ some (record { content = text; mode = 0o644 })
  unfolding write_file
  write_file-ok path text disk k = elim (Bool-cases (h.env.fails open_write path)) [
    | inl bad ↦ cc
    | inr a ↦ elim (Bool-cases (h.env.fails write_data path)) [
      | inl bad ↦ cc
      | inr b ↦ rw (a, b, write_file) (lookup-insert_same path _ disk)
    ]
  ]

  wrap_err-ok :
      {E F : Type 0} (f : E → F) (r : Result E (Unit {0})) → wrap_err f r ≡ ok tt → r ≡ ok tt
  wrap_err-ok f (ok u) k = refl
  wrap_err-ok f (err x) k = cc

  save_state-ok :
      (cfg : Config) (s : State) (disk : Disk)
      → (save_state h cfg s disk).0 ≡ ok tt
      → (text : Text) × (h.marshal s ≡ some text)
        × (lookup (state_file_path cfg) (save_state h cfg s disk).1
            ≡ some (record { content = text; mode = 0o644 }))
  unfolding save_state
  save_state-ok cfg s disk k = elim (Option-cases (h.marshal s)) [
    | inl bad ↦ cc
    | inr (text, a) ↦ (
      text,
      a,
      rw (a, save_state)
          (write_file-ok (state_file_path cfg) text disk (
            wrap_err-ok _ (write_file h.env (state_file_path cfg) text disk).0
              (rw (a, save_state) at k))),
    )
  ]

  -- systemd is as it was and there is an error.
  abbrev pub Quiet {ℓ} : {A : Type ℓ} → World → Result RunError A × World → Type ℓ
  Quiet {A} w r = (r.1.journal ≡ w.journal) × ((a : A) → r.0 ≢ ok a)

  -- The state is in the state file.
  abbrev Stored : State → World → Result RunError (Unit {0}) × World → Type 0
  Stored s w r =
      (text : Text) × (h.marshal s ≡ some text)
      × (lookup (state_file_path w.cfg) r.1.disk ≡ some (record { content = text; mode = 0o644 }))

  save_and_reload-law :
      (p : Plan) (s : State) (w : World)
      → Quiet w (save_and_reload h p s w) ⊎ Stored s w (save_and_reload h p s w)
  unfolding save_and_reload reload_and_restart
  save_and_reload-law p s w = elim (Result-cases (save_state h w.cfg s w.disk).0) [
    | inr (x, bad) ↦
        let path : save_and_reload h p s w
            ≡ (err x, record w { disk = (save_state h w.cfg s w.disk).1 }) =
          rw (bad, save_and_reload) refl in
        inl (
          subst (λ (r : Result RunError (Unit {0}) × World). Quiet w r) (sym path)
            (refl, λ a k. cc))
    | inl (u, a) ↦
        let next = record w { disk = (save_state h w.cfg s w.disk).1 } in
        let path : save_and_reload h p s w ≡ reload_and_restart h w.cfg p s next =
          rw (a, save_and_reload) refl in
        let (text, encoded, there) = save_state-ok w.cfg s w.disk a in
        elim (Bool-cases (h.daemon_reload (save_state h w.cfg s w.disk).1)) [
          | inr bad ↦
              let failed : reload_and_restart h w.cfg p s next ≡ (err reload_failed, next) =
                rw (bad, reload_and_restart) refl in
              inl (
                subst (λ (r : Result RunError (Unit {0}) × World). Quiet w r) (sym (path ∙ failed))
                  (refl, λ b k. cc))
          | inl good ↦
              inr (rw (a, good, save_and_reload, reload_and_restart) (text, encoded, there))
        ]
  ]

  execute_plan-law :
      (prev : State) (p : Plan) (states : List RepoState) (w : World)
      → Quiet w (execute_plan h prev p states w)
        ⊎ Saved h w.cfg (execute_plan h prev p states w).1.disk p
  unfolding execute_plan
  execute_plan-law prev p states w =
      let dir = w.cfg.paths.quadlet_dir in
      let applied = apply_plan h.env dir p w.disk in
      let after = apply_world h w applied.1 in
      elim (Bool-cases (h.is_available w.disk)) [
        | inr bad ↦
            let path : execute_plan h prev p states w ≡ (err systemd_unavailable, w) =
              rw (bad, execute_plan) refl in
            inl (
              subst (λ (r : Result RunError (Unit {0}) × World). Quiet w r) (sym path)
                (refl, λ b k. cc))
        | inl a ↦ elim (Result-cases applied.0) [
          | inr (x, bad) ↦
              let path : execute_plan h prev p states w ≡ (err (apply_failed x), after) =
                rw (a, bad, execute_plan) refl in
              inl (
                subst (λ (r : Result RunError (Unit {0}) × World). Quiet w r) (sym path)
                  (refl, λ b k. cc))
          | inl (u, b) ↦ elim (Bool-cases (h.validate_quadlets dir applied.1)) [
            | inr bad ↦
                let path : execute_plan h prev p states w ≡ (err validation_failed, after) =
                  rw (a, b, bad, execute_plan) refl in
                inl (
                  subst (λ (r : Result RunError (Unit {0}) × World). Quiet w r) (sym path)
                    (refl, λ b k. cc))
            | inl c ↦
                let s = build_state_from_effective dir prev p states in
                let path : execute_plan h prev p states w ≡ save_and_reload h p s after =
                  rw (a, b, c, execute_plan) refl in
                subst
                  (λ (r : Result RunError (Unit {0}) × World). Quiet w r ⊎ Saved h w.cfg r.1.disk p)
                  (sym path)
                  (elim (save_and_reload-law p s after) [
                    | inl quiet ↦ inl quiet
                    | inr (text, encoded, there) ↦ inr (record {
                      prev = prev;
                      states = states;
                      before = w.disk;
                      after = applied.1;
                      applied = unit_path applied b;
                      validated = c;
                      text = text;
                      encoded = encoded;
                      stored = there;
                    })
                  ])
          ]
        ]
      ]

  -- Systemd is as it was and there is an error, or the state of a plan is saved, which is the
  -- plan in the result if there is one.
  abbrev pub QuietOrSaved : Config → World → Result RunError RunResult × World → Type 0
  QuietOrSaved cfg w r =
      Quiet w r
      ⊎ ((p : Plan) × Saved h cfg r.1.disk p × ((res : RunResult) → r.0 ≡ ok res → res.plan ≡ p))

  result_of-plan :
      (states : List RepoState) (m : MergeResult) (p : Plan) (res : RunResult)
      → ◌≡◌ {A = Result RunError RunResult} (ok (result_of h states m p)) (ok res)
      → res.plan ≡ p
  unfolding result_of
  result_of-plan states m p res k = cc

  ended_early :
      (cfg : Config) (w : World) (x : RunError) (v : World)
      → v.journal ≡ w.journal
      → QuietOrSaved cfg w (err x, v)
  ended_early cfg w x v same = inl (same, λ a k. cc)

  merge_and_plan-law :
      (eng : Engine) (states : List RepoState) (w : World)
      → eng.dry_run ≡ false
      → QuietOrSaved w.cfg w (merge_and_plan h eng states w)
  unfolding merge_and_plan
  merge_and_plan-law eng states w real =
      elim (Result-cases (merge states (default_mode w.cfg.sync.conflict_handling))) [
        | inr (x, bad) ↦
            let path : merge_and_plan h eng states w ≡ (err (merge_failed x), w) =
              rw (bad, merge_and_plan) refl in
            subst (QuietOrSaved w.cfg w) (sym path) (ended_early w.cfg w (merge_failed x) w refl)
        | inl (m, a) ↦ elim (Result-cases (plan_of h eng w.cfg w.disk m)) [
          | inr (x, bad) ↦
              let path : merge_and_plan h eng states w ≡ (err x, w) =
                rw (a, bad, merge_and_plan) refl in
              subst (QuietOrSaved w.cfg w) (sym path) (ended_early w.cfg w x w refl)
          | inl (p, b) ↦
              let prev = Option.get_or (load_state h w.cfg w.disk) empty_state in
              let r = execute_plan h prev p states w in
              elim (Result-cases r.0) [
                | inr (x, bad) ↦
                    let path : merge_and_plan h eng states w ≡ (err x, r.1) =
                      rw (a, b, real, bad, merge_and_plan) refl in
                    subst (QuietOrSaved w.cfg w) (sym path)
                      (elim (execute_plan-law prev p states w) [
                        | inl quiet ↦ inl (quiet.0, λ c k. cc)
                        | inr saved ↦ inr (p, saved, λ res k. cc)
                      ])
                | inl (u, c) ↦
                    let path : merge_and_plan h eng states w ≡ (ok (result_of h states m p), r.1) =
                      rw (a, b, real, c, merge_and_plan) refl in
                    subst (QuietOrSaved w.cfg w) (sym path)
                      (elim (execute_plan-law prev p states w) [
                        | inl quiet ↦ absurd (quiet.1 u c)
                        | inr saved ↦ inr (p, saved, λ res k. result_of-plan states m p res k)
                      ])
              ]
        ]
      ]

  load_and_merge-law :
      (eng : Engine) (repos : List RepoSpec) (w : World)
      → eng.dry_run ≡ false
      → QuietOrSaved w.cfg w (load_and_merge h eng repos w)
  unfolding load_and_merge
  load_and_merge-law eng repos w real =
      elim (Bool-cases (h.env.fails mkdir_all w.cfg.paths.state_dir)) [
        | inl bad ↦
            let path : load_and_merge h eng repos w ≡ (err no_state_dir, w) =
              rw (bad, load_and_merge) refl in
            subst (QuietOrSaved w.cfg w) (sym path) (ended_early w.cfg w no_state_dir w refl)
        | inr a ↦
            let r = load_all_repo_states h eng w.cfg repos w.disk in
            let next = record (with_state_dir h w) { disk = r.1 } in
            elim (Result-cases r.0) [
              | inr (x, bad) ↦
                  let path : load_and_merge h eng repos w ≡ (err (load_failed x), next) =
                    rw (a, bad, load_and_merge) refl in
                  subst (QuietOrSaved w.cfg w) (sym path)
                    (ended_early w.cfg w (load_failed x) next refl)
              | inl (states, b) ↦
                  let path : load_and_merge h eng repos w ≡ merge_and_plan h eng states next =
                    rw (a, b, load_and_merge) refl in
                  subst (QuietOrSaved w.cfg w) (sym path) (merge_and_plan-law eng states next real)
            ]
      ]

  run_selected-law :
      (eng : Engine) (repos : List RepoSpec) (w : World)
      → eng.dry_run ≡ false
      → QuietOrSaved w.cfg w (run_selected h eng repos w)
  run_selected-law eng [] w real = elim (Bool-cases (eng.repo_filter == [])) [
    | inl none_set ↦ rw none_set (load_and_merge-law eng [] w real)
    | inr set ↦ rw set (ended_early w.cfg w no_repository_matches w refl)
  ]
  run_selected-law eng (r ∷ rs) w real = load_and_merge-law eng (r ∷ rs) w real

  -- A run that is not dry either ends with an error and has neither reloaded systemd nor asked for
  -- a restart, or it has applied a plan without an error, the quadlets then passed the
  -- validation, and the state file holds the state of that plan. So systemd is reloaded only once
  -- the state is saved, and a run that answers without an error has saved the state of the
  -- plan in its answer.
  pub run-QuietOrSaved :
      (eng : Engine) (w : World)
      → eng.dry_run ≡ false
      → QuietOrSaved (select_repos eng.repo_filter w.cfg).1 w (run h eng w)
  unfolding run
  run-QuietOrSaved eng w real =
      let chosen = select_repos eng.repo_filter w.cfg in
      run_selected-law eng chosen.0 (record w { cfg = chosen.1 }) real
