-- ===== src/Service/SingleFlight.antt =====
-- One sync at a time, and no request is lost.
use mathlib.Core.List.{Memᴰ}
use quadsyncd.Base.{
  ℕ, suc, ◌≤◌, ◌≡◌, refl, sym, ap, ◌∙◌, ◌⊎◌, inl, inr, Bool, true, false, Bool-cases, List, [], ◌∷◌,
  ◌++◌, arith,
}
use quadsyncd.Service.{
  enter_trigger, after_sync, FlightEvent, started, queued, System, triggered, finished, trigger,
  finish, Reachable, start, later,
}

-- The last event is a request that was left.
abbrev pub awaits : List FlightEvent → Bool
awaits [] = false
awaits (queued ∷ h) = true
awaits (started ∷ h) = false

-- A sync runs, alone, or none does and none is asked for; and `pending` says whether a request
-- came after the last start.
record Invariant (s : System) : Type 0 where
  flight :
      ((s.service.running ≡ true) × (s.syncing ≡ 1))
      ⊎ ((s.service.running ≡ false) × (s.syncing ≡ 0) × (s.service.pending ≡ false))
  queue : s.service.pending ≡ awaits s.history

triggered-Invariant : (s : System) → Invariant s → Invariant (triggered s)
unfolding triggered enter_trigger
triggered-Invariant s v = elim v.flight [
  | inl (a, b) ↦ rw (a, triggered, enter_trigger) (record { flight = inl (refl, b); queue = refl })
  | inr (a, b, c) ↦
      rw (a, triggered, enter_trigger) (record { flight = inl (refl, ap suc b); queue = c })
]

finished-Invariant :
    (s : System) (others : ℕ) → s.syncing ≡ suc others → Invariant s → Invariant (finished s others)
unfolding finished after_sync
finished-Invariant s others n v = elim v.flight [
  | inr (a, b, c) ↦ absurd (omega (arith, n, b))
  | inl (a, b) ↦ elim (Bool-cases s.service.pending) [
    | inl c ↦ rw (c, finished, after_sync) (record { flight = inl (a, b); queue = refl })
    | inr c ↦
        rw (c, finished, after_sync)
          (record { flight = inr (refl, omega (arith, n, b), refl); queue = sym c ∙ v.queue })
  ]
]

Reachable-Invariant : {s : System} → Reachable s → Invariant s
Reachable-Invariant start = record { flight = inr (refl, refl, refl); queue = refl }
Reachable-Invariant (later {s} r trigger) = triggered-Invariant s (Reachable-Invariant r)
Reachable-Invariant (later {s} r (finish others n)) =
    finished-Invariant s others n (Reachable-Invariant r)

-- After every request that was left, a sync began.
abbrev pub Served : List FlightEvent → Type 0
Served history =
    (after before : List FlightEvent) → history ≡ after ++ queued ∷ before → Memᴰ started after

not_awaiting-Served : (history : List FlightEvent) → awaits history ≡ false → Served history
not_awaiting-Served [] h [] before e = cc
not_awaiting-Served [] h (x ∷ after) before e = cc
not_awaiting-Served (queued ∷ history) h after before e = cc
not_awaiting-Served (started ∷ history) h [] before e = cc
not_awaiting-Served (started ∷ history) h (x ∷ after) before e = Memᴰ.head cc

-- However the calls of `TriggerSync` and the ends of syncs interleave, at most one sync runs at a
-- time; and whenever the service is not running, no sync is left and after every request that was
-- left to a running sync another sync began.
pub single_flight :
    {s : System}
    → Reachable s
    → (s.syncing ≤ 1) × (s.service.running ≡ false → (s.syncing ≡ 0) × Served s.history)
single_flight {s} r =
    let v = Reachable-Invariant r in
    elim v.flight [
      | inl (a, b) ↦ (omega (arith, b), λ idle. cc)
      | inr (a, b, c) ↦
          (omega (arith, b), λ idle. (b, not_awaiting-Served s.history (sym v.queue ∙ c)))
    ]
