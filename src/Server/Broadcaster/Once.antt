-- ===== src/Server/Broadcaster/Once.antt =====
-- Over all polls a run is announced once, first, and its plan at most once.
use mathlib.Core.Path.{subst}
use quadsyncd.Base.{
  ℕ, ◌+◌, ◌≤◌, ◌≡◌, refl, sym, ap, Bool, true, false, Bool-cases, inl, inr, Option, none, some,
  Option-cases, List, [], ◌∷◌, ◌++◌, ◌==◌, text_eq, arith,
}
use quadsyncd.Base.Text.{Text}
use quadsyncd.Base.Dict.{lookup}
use quadsyncd.Os.{Env, Disk, stat}
use quadsyncd.Runstore.{RunMeta}
use quadsyncd.Runstore.Store.{Codec, log_path, plan_path}
use quadsyncd.Server.Broadcaster.{
  EventKind, run_started, run_updated, log_appended, plan_ready, SseEvent, RunTrackState, status_eq,
  read_run_meta, read_new_log_lines, observe_meta, log_seen, observe_log, plan_seen, observe_plan,
  observe_run,
}

abbrev is_start : EventKind → ℕ
is_start run_started = 1
is_start run_updated = 0
is_start log_appended = 0
is_start plan_ready = 0

abbrev is_plan : EventKind → ℕ
is_plan run_started = 0
is_plan run_updated = 0
is_plan log_appended = 0
is_plan plan_ready = 1

module _ {L : Type 0} where
  abbrev pub starts : List (SseEvent L) → ℕ
  starts [] = 0
  starts (ev ∷ evs) = is_start ev.kind + starts evs

  abbrev pub plans : List (SseEvent L) → ℕ
  plans [] = 0
  plans (ev ∷ evs) = is_plan ev.kind + plans evs

  starts-append : (xs ys : List (SseEvent L)) → starts (xs ++ ys) ≡ starts xs + starts ys
  starts-append [] ys = omega arith
  starts-append (x ∷ xs) ys = omega (arith, starts-append xs ys)

  plans-append : (xs ys : List (SseEvent L)) → plans (xs ++ ys) ≡ plans xs + plans ys
  plans-append [] ys = omega arith
  plans-append (x ∷ xs) ys = omega (arith, plans-append xs ys)

  -- The first event, where there is one, announces the run.
  abbrev pub StartsFirst : List (SseEvent L) → Type 0
  StartsFirst [] = Unit
  StartsFirst (ev ∷ evs) = ev.kind ≡ run_started

abbrev flag_of : Bool → ℕ
flag_of true = 1
flag_of false = 0

flag_bound : (b : Bool) → 0 + flag_of b ≤ 1
flag_bound true = omega arith
flag_bound false = omega arith

abbrev flag : RunTrackState → ℕ
flag s = flag_of s.plan_ready

module _ (e : Env) (h : Codec) (run_id run_dir : Text) where
  -- The events of one run over successive polls, on what the disk holds at each.
  unfoldable pub observed : List Disk → Option RunTrackState → List (SseEvent h.LogRecord)
  observed [] known = []
  observed (disk ∷ disks) known =
      let seen = observe_run e h run_id run_dir disk known in seen.1 ++ observed disks seen.0

  -- A step that announces nothing, and a plan only when it sets the flag.
  abbrev Quiet : RunTrackState → RunTrackState × List (SseEvent h.LogRecord) → Type 0
  Quiet s r = (starts r.1 ≡ 0) × (plans r.1 + flag s ≡ flag r.0)

  observe_meta-Quiet :
      (meta : RunMeta) (s : RunTrackState) → Quiet s (observe_meta e h run_id meta (some s))
  unfolding observe_meta
  observe_meta-Quiet meta s = elim (Bool-cases (s.status == meta.status)) [
    | inl c ↦ rw c (refl, omega arith)
    | inr c ↦ rw c (refl, omega arith)
  ]

  log_seen-Quiet :
      (s : RunTrackState) (r : List h.LogRecord × ℕ) → Quiet s (log_seen e h run_id s r)
  log_seen-Quiet s ([], n) = (refl, omega arith)
  log_seen-Quiet s (r ∷ rs, n) = (refl, omega arith)

  observe_plan-Quiet :
      (meta : RunMeta) (disk : Disk) (s : RunTrackState)
      → Quiet s (observe_plan e h run_id run_dir meta disk s)
  unfolding observe_plan
  observe_plan-Quiet meta disk s = elim (Bool-cases s.plan_ready) [
    | inl c ↦ unchanged (simp (observe_plan, c) refl)
    | inr c ↦ elim (Bool-cases (e.fails stat (plan_path run_dir))) [
      | inl f ↦ unchanged (simp (observe_plan, c, f) refl)
      | inr f ↦ elim (Option-cases (lookup (plan_path run_dir) disk)) [
        | inl n ↦ unchanged (simp (observe_plan, c, f) (ap (plan_seen e h run_id meta s) n))
        | inr (g, n) ↦
            let path : observe_plan e h run_id run_dir meta disk s
                ≡ plan_seen e h run_id meta s (some g) =
              simp (observe_plan, c, f) (ap (plan_seen e h run_id meta s) n) in
            subst (Quiet s) (sym path) (refl, omega (arith, ap flag_of c))
      ]
    ]
  ]
    where
      unchanged :
          observe_plan e h run_id run_dir meta disk s ≡ (s, [])
          → Quiet s (observe_plan e h run_id run_dir meta disk s)
      unchanged path = subst (Quiet s) (sym path) (refl, omega arith)

  abbrev Observation : Type 0
  Observation = Option RunTrackState × List (SseEvent h.LogRecord)

  abbrev KeepsQuiet : RunTrackState → Observation → Type 0
  KeepsQuiet s o =
      (next : RunTrackState) × (o.0 ≡ some next)
      × (starts o.1 ≡ 0)
      × (plans o.1 + flag s ≡ flag next)

  -- The log and the plan behind the metadata.
  tail_of : RunMeta → Disk → RunTrackState → RunTrackState × List (SseEvent h.LogRecord)
  tail_of meta disk s =
      let b = observe_log e h run_id run_dir disk s in
      let c = observe_plan e h run_id run_dir meta disk b.0 in (c.0, b.1 ++ c.1)

  tail_of-Quiet : (meta : RunMeta) (disk : Disk) (s : RunTrackState) → Quiet s (tail_of meta disk s)
  unfolding tail_of observe_log
  tail_of-Quiet meta disk s =
      let b = observe_log e h run_id run_dir disk s in
      let c = observe_plan e h run_id run_dir meta disk b.0 in
      let (b1, b2) =
        log_seen-Quiet s (read_new_log_lines e h (log_path run_dir) s.log_offset disk) in
      let (c1, c2) = observe_plan-Quiet meta disk b.0 in
      (omega (arith, starts-append b.1 c.1, b1, c1), omega (arith, plans-append b.1 c.1, b2, c2))

  observe_run-meta :
      (disk : Disk) (known : Option RunTrackState) (meta : RunMeta)
      → read_run_meta e h run_dir disk ≡ some meta
      → let a = observe_meta e h run_id meta known in
        observe_run e h run_id run_dir disk known
        ≡ (some (tail_of meta disk a.0).0, a.1 ++ (tail_of meta disk a.0).1)
  unfolding observe_run tail_of
  observe_run-meta disk known meta m = rw (observe_run, m) refl

  observe_run-no_meta :
      (disk : Disk) (known : Option RunTrackState)
      → read_run_meta e h run_dir disk ≡ none
      → observe_run e h run_id run_dir disk known ≡ (known, [])
  unfolding observe_run
  observe_run-no_meta disk known m = rw (observe_run, m) refl

  observe_run-KeepsQuiet :
      (disk : Disk) (s : RunTrackState)
      → KeepsQuiet s (observe_run e h run_id run_dir disk (some s))
  observe_run-KeepsQuiet disk s = elim (Option-cases (read_run_meta e h run_dir disk)) [
    | inl n ↦
        subst (KeepsQuiet s) (sym (observe_run-no_meta disk (some s) n))
          (s, refl, refl, omega arith)
    | inr (meta, m) ↦
        let a = observe_meta e h run_id meta (some s) in
        let t = tail_of meta disk a.0 in
        let (a1, a2) = observe_meta-Quiet meta s in
        let (t1, t2) = tail_of-Quiet meta disk a.0 in
        subst (KeepsQuiet s) (sym (observe_run-meta disk (some s) meta m)) (
          t.0,
          refl,
          omega (arith, starts-append a.1 t.1, a1, t1),
          omega (arith, plans-append a.1 t.1, a2, t2),
        )
  ]

  observed-quiet :
      (disks : List Disk) (s : RunTrackState)
      → (starts (observed disks (some s)) ≡ 0) × (plans (observed disks (some s)) + flag s ≤ 1)
  unfolding observed
  observed-quiet [] s = (refl, flag_bound s.plan_ready)
  observed-quiet (disk ∷ disks) s =
      let o = observe_run e h run_id run_dir disk (some s) in
      let (next, at, no_start, sets) = observe_run-KeepsQuiet disk s in
      let (r1, r2) = observed-quiet disks next in
      let rest : observed disks o.0 ≡ observed disks (some next) = ap (observed disks) at in
      (
        omega (arith, starts-append o.1 (observed disks o.0), ap starts rest, no_start, r1),
        omega (arith, plans-append o.1 (observed disks o.0), ap plans rest, sets, r2),
      )

  -- Over any polls of a run that was not known before, the first event announces it, no other
  -- event does, and at most one event says that its plan is ready.
  pub observed_once :
      (disks : List Disk)
      → StartsFirst (observed disks none)
        × (starts (observed disks none) ≤ 1)
        × (plans (observed disks none) ≤ 1)
  unfolding observed observe_meta
  observed_once [] = (tt, omega arith, omega arith)
  observed_once (disk ∷ disks) = elim (Option-cases (read_run_meta e h run_dir disk)) [
    | inl n ↦ rw (observe_run-no_meta disk none n) (observed_once disks)
    | inr (meta, m) ↦
        let a = observe_meta e h run_id meta none in
        let t = tail_of meta disk a.0 in
        let (t1, t2) = tail_of-Quiet meta disk a.0 in
        let (r1, r2) = observed-quiet disks t.0 in
        rw (observe_run-meta disk none meta m) (
          refl,
          omega (arith, starts-append t.1 (observed disks (some t.0)), t1, r1),
          omega (arith, plans-append t.1 (observed disks (some t.0)), t2, r2),
        )
  ]
