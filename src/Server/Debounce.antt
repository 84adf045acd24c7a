-- ===== src/Server/Debounce.antt =====
-- The debouncer of internal/server/webhook.go: requests, a timer, and the goroutines of timers that
-- expired.
pub mod Served
use quadsyncd.Base.{
  ℕ, zero, suc, ◌+◌, ◌≤◌, ◌≡◌, Option, none, some, List, [], ◌∷◌, Bool, true, false,
}

-- `timer` is the time at which a timer that runs will expire.
pub record Debouncer (C : Type 0) : Type 0 where
  pub callback : Option C
  pub timer : Option ℕ

-- A request set its callback; a callback was called.
pub data DebounceEvent (C : Type 0) : Type 0 where
  requested called : C → DebounceEvent C

-- The debouncer, the clock, the functions of expired timers that wait for the mutex, and what
-- happened, the last event first.
pub record Clockwork (C : Type 0) : Type 0 where
  pub debouncer : Debouncer C
  pub now : ℕ
  pub waiting : ℕ
  pub history : List (DebounceEvent C)

module _ {C : Type 0} where
  -- `trigger` at a time: a timer that runs is stopped, and a new one is started.
  unfoldable pub debounce : ℕ → ℕ → C → Debouncer C
  debounce delay now callback = record { callback = some callback; timer = some (now + delay) }

  unfoldable pub request : ℕ → C → Clockwork C → Clockwork C
  request delay callback s = record s {
    debouncer = debounce delay s.now callback;
    history = requested callback ∷ s.history;
  }

  -- The timer expires: its function starts.
  unfoldable pub expire : Clockwork C → Clockwork C
  expire s = record s { debouncer = record s.debouncer { timer = none }; waiting = suc s.waiting }

  -- One of the functions takes the callback under the mutex, and calls it; `others` wait on.
  unfoldable pub call_back : Clockwork C → ℕ → Clockwork C
  call_back s others = elim s.debouncer.callback [
    | none ↦ record s { waiting = others }
    | some c ↦ record s { waiting = others; history = called c ∷ s.history }
  ]

  -- Requests come at any time, a timer expires at its time or later, and functions run when they may.
  pub data Tick (delay : ℕ) (s : Clockwork C) : Clockwork C → Type 0 where
    arrive : (c : C) → Tick delay s (request delay c s)
    pass : (d : ℕ) → Tick delay s (record s { now = s.now + d })
    ring : (t : ℕ) → s.debouncer.timer ≡ some t → t ≤ s.now → Tick delay s (expire s)
    act : (others : ℕ) → s.waiting ≡ suc others → Tick delay s (call_back s others)

  abbrev pub unused : Clockwork C
  unused = record {
    debouncer = record { callback = none; timer = none };
    now = 0;
    waiting = 0;
    history = [];
  }

  pub data Ticks (delay : ℕ) : Clockwork C → Type 0 where
    begin : Ticks delay unused
    tick : {s t : Clockwork C} → Ticks delay s → Tick delay s t → Ticks delay t
