-- ===== src/Queue/Scheduler.antt =====
-- internal/queue/scheduler.go: timers that submit a job. A timer of the library is pending until it
-- fires or is stopped; its callback, which runs in a goroutine of its own, submits the job first and
-- deletes the entry of its key later, under the lock.
pub mod Rescheduling
use orbit_telemetry_orchestr.Prelude.{
  ℕ, ◌+◌, String, Bool, true, false, Option, none, some, List, [], ◌∷◌, ◌++◌, ◌==◌, string_eq,
  if◌then◌else◌, eqb, ◌||◌, ◌&&◌, not, Dict, lookup, insert, remove, keep, Time,
}
use orbit_telemetry_orchestr.Queue.{Queue, Payload, submit}

pub record Timer : Type 0 where
  pub id : ℕ
  pub key : String
  pub job_type : String
  pub payload : Payload

-- `timers` is the map; `pending` are the timers that have not fired nor been stopped; `firing` those
-- whose callbacks have submitted their job and not yet deleted their entry.
pub record Scheduler : Type 0 where
  pub queue : Queue
  pub timers : Dict ℕ
  pub next_timer : ℕ
  pub pending : List Timer
  pub firing : List Timer

abbrev pub has_timer : ℕ → List Timer → Bool
has_timer id [] = false
has_timer id (t ∷ ts) = eqb t.id id || has_timer id ts

-- `timer.Stop()`: whether the timer was pending, and the timers that still are.
unfoldable pub stop_timer : ℕ → List Timer → Bool × List Timer
stop_timer id ts = (has_timer id ts, keep (λ t. not (eqb t.id id)) ts)

-- `if timer := s.timers[key]; timer != nil { timer.Stop() }`
abbrev pub stop_old : Option ℕ → List Timer → List Timer
stop_old none ts = ts
stop_old (some id) ts = (stop_timer id ts).1

unfoldable pub new_scheduler : Queue → Scheduler
new_scheduler q = record { queue = q; timers = []; next_timer = 0; pending = []; firing = [] }

unfoldable pub schedule : Scheduler → String → String → Payload → Scheduler
schedule s key job_type payload = record s {
  timers = insert key s.next_timer s.timers;
  next_timer = s.next_timer + 1;
  pending =
      stop_old (lookup key s.timers) s.pending
      ++ record { id = s.next_timer; key = key; job_type = job_type; payload = payload } ∷ [];
}

unfoldable pub cancel : Scheduler → String → Bool × Scheduler
cancel s key = elim (lookup key s.timers) [
  | none ↦ (false, s)
  | some id ↦ (
    (stop_timer id s.pending).0,
    record s { timers = remove key s.timers; pending = (stop_timer id s.pending).1 },
  )
]

-- The timer at the head of `pending` fires: its callback calls `Submit`, whose result it ignores.
unfoldable pub fire : Scheduler → Time → Scheduler
fire s now = elim s.pending [
  | [] ↦ s
  | t ∷ rest ↦ record s {
    queue = (submit s.queue t.job_type t.payload now).1;
    pending = rest;
    firing = s.firing ++ t ∷ [];
  }
]

-- The oldest callback that still runs takes the lock and calls `delete(s.timers, key)`.
unfoldable pub settle : Scheduler → Scheduler
settle s = elim s.firing [
  | [] ↦ s
  | t ∷ rest ↦ record s { timers = remove t.key s.timers; firing = rest }
]

-- The test of the loop of `Drain`.
unfoldable pub is_drained : Scheduler → Bool
is_drained s = elim s.timers [ [] ↦ true | t ∷ ts ↦ false ]
