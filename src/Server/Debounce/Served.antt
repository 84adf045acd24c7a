-- ===== src/Server/Debounce/Served.antt =====
-- Every request is followed by a call, and there are no more calls than requests.
use mathlib.Core.List.{Memᴰ}
use mathlib.Core.Path.{subst}
use quadsyncd.Base.{
  ℕ, suc, ◌+◌, ◌≤◌, ◌≡◌, refl, sym, Option, none, some, Option-cases, inl, inr, List, [], ◌∷◌, ◌++◌,
  arith,
}
use quadsyncd.Server.Debounce.{
  DebounceEvent, requested, called, Clockwork, debounce, request, expire, call_back, arrive, pass,
  ring, act, Ticks, begin, tick,
}

abbrev armed : Option ℕ → ℕ
armed none = 0
armed (some t) = 1

module _ {C : Type 0} where
  abbrev pub requests : List (DebounceEvent C) → ℕ
  requests [] = 0
  requests (requested c ∷ h) = suc (requests h)
  requests (called c ∷ h) = requests h

  abbrev pub calls : List (DebounceEvent C) → ℕ
  calls [] = 0
  calls (requested c ∷ h) = calls h
  calls (called c ∷ h) = suc (calls h)

  -- After every request there was a call.
  abbrev pub Answered : List (DebounceEvent C) → Type 0
  Answered history =
      (after before : List (DebounceEvent C)) (c : C)
      → history ≡ after ++ requested c ∷ before
      → (k : C) × Memᴰ (called k) after

  -- The last event is a request.
  abbrev unanswered : List (DebounceEvent C) → ℕ
  unanswered [] = 0
  unanswered (requested c ∷ h) = 1
  unanswered (called c ∷ h) = 0

  record IsFair (s : Clockwork C) : Type 0 where
    bounded : calls s.history + s.waiting + armed s.debouncer.timer ≤ requests s.history
    owed : unanswered s.history ≤ s.waiting + armed s.debouncer.timer
    loaded : s.debouncer.callback ≡ none → s.history ≡ []

  Ticks-IsFair : (delay : ℕ) {s : Clockwork C} → Ticks delay s → IsFair s
  unfolding request expire call_back debounce
  Ticks-IsFair delay begin = record {
    bounded = omega arith;
    owed = omega arith;
    loaded = λ h. refl;
  }
  Ticks-IsFair delay (tick {s} r (arrive c)) =
      let v = Ticks-IsFair delay r in
      record { bounded = omega (arith, v.bounded); owed = omega arith; loaded = λ h. cc }
  Ticks-IsFair delay (tick {s} r (pass d)) =
      let v = Ticks-IsFair delay r in
      record { bounded = v.bounded; owed = v.owed; loaded = v.loaded }
  Ticks-IsFair delay (tick {s} r (ring t e le)) =
      let v = Ticks-IsFair delay r in
      let one : armed s.debouncer.timer ≡ 1 = rw e refl in
      record { bounded = omega (arith, v.bounded); owed = omega (arith, v.owed); loaded = v.loaded }
  Ticks-IsFair delay (tick {s} r (act others e)) =
      let v = Ticks-IsFair delay r in
      elim (Option-cases s.debouncer.callback) [
        | inl c ↦
            let idle : requests s.history ≡ 0 = rw (v.loaded c) refl in
            absurd (omega (arith, v.bounded, idle, e))
        | inr (k, c) ↦
            let path : call_back s others
                ≡ record s { waiting = others; history = called k ∷ s.history } =
              simp (call_back, c) refl in
            subst IsFair (sym path) (record {
              bounded = omega (arith, v.bounded, e);
              owed = omega arith;
              loaded = λ h. cc;
            })
      ]

  answered : (history : List (DebounceEvent C)) → unanswered history ≡ 0 → Answered history
  answered [] h [] before c e = cc
  answered [] h (x ∷ after) before c e = cc
  answered (requested k ∷ history) h after before c e = absurd (omega (arith, h))
  answered (called k ∷ history) h [] before c e = cc
  answered (called k ∷ history) h (x ∷ after) before c e = (k, Memᴰ.head cc)

  -- However requests, the clock, expiring timers and their functions interleave, there are never
  -- more calls than requests; and whenever no timer runs and no function waits, every request was
  -- followed by a call.
  pub debounce_serves :
      (delay : ℕ) (s : Clockwork C)
      → Ticks delay s
      → (calls s.history ≤ requests s.history)
        × (s.debouncer.timer ≡ none → s.waiting ≡ 0 → Answered s.history)
  debounce_serves delay s r =
      let v = Ticks-IsFair delay r in
      (
        omega (arith, v.bounded),
        λ t w.
            (let off : armed s.debouncer.timer ≡ 0 = rw t refl in
              answered s.history (omega (arith, v.owed))),
      )
