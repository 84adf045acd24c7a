-- ===== src/Service.antt =====
-- `TriggerSync` of internal/service/sync.go: goroutines that share `running` and `pending`.
pub mod SingleFlight
pub mod Recorded
pub mod Planned
mod Tests
use quadsyncd.Base.{ℕ, zero, suc, ◌≡◌, Bool, true, false, List, [], ◌∷◌, if◌then◌else◌}

-- What the mutex guards.
pub record SyncService : Type 0 where
  pub running : Bool
  pub pending : Bool

-- The critical section at the start of `TriggerSync`: does the caller go on to run a sync?
unfoldable pub enter_trigger : SyncService → Bool × SyncService
enter_trigger s =
    if s.running then (false, record s { pending = true }) else (true, record s { running = true })

-- The critical section behind a sync: does the loop run another one?
unfoldable pub after_sync : SyncService → Bool × SyncService
after_sync s =
    if s.pending
    then (true, record s { pending = false })
    else (false, record s { running = false })

-- A sync began, or a call left its request to the one that runs.
pub data FlightEvent : Type 0 where
  started queued : FlightEvent

-- The service, the number of goroutines in the loop of `TriggerSync`, and what happened, the last
-- event first.
pub record System : Type 0 where
  pub service : SyncService
  pub syncing : ℕ
  pub history : List FlightEvent

unfoldable pub triggered : System → System
triggered s =
    let r = enter_trigger s.service in
    if r.0
    then record { service = r.1; syncing = suc s.syncing; history = started ∷ s.history }
    else record s { service = r.1; history = queued ∷ s.history }

-- One of the goroutines ends its sync; `others` are the rest of them.
unfoldable pub finished : System → ℕ → System
finished s others =
    let r = after_sync s.service in
    if r.0
    then record s { service = r.1; history = started ∷ s.history }
    else record s { service = r.1; syncing = others }

-- Any goroutine may call `TriggerSync`, and any sync that runs may end.
pub data Step (s : System) : System → Type 0 where
  trigger : Step s (triggered s)
  finish : (others : ℕ) → s.syncing ≡ suc others → Step s (finished s others)

abbrev pub initial : System
initial = record {
  service = record { running = false; pending = false };
  syncing = 0;
  history = [];
}

pub data Reachable : System → Type 0 where
  start : Reachable initial
  later : {s t : System} → Reachable s → Step s t → Reachable t
