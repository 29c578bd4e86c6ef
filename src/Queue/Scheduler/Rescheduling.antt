-- ===== src/Queue/Scheduler/Rescheduling.antt =====
-- `Schedule` of scheduler.go for a key whose timer has fired, before its callback takes the lock.
use orbit_telemetry_orchestr.Prelude.{
  ℕ, ◌<◌, String, ◌≡◌, refl, ◌∙◌, false, Option, none, some, List, [], ◌∷◌, ◌++◌, arith, eqb, not,
  keep, keep-All_items, append-All, All-imp, Option-cases, inl, inr, Time, eq_refl, lookup, insert,
  remove, lookup-remove, All, Dict, string_eq,
}
use orbit_telemetry_orchestr.Queue.{Queue, Payload}
use orbit_telemetry_orchestr.Queue.Scheduler.{
  fire, new_scheduler, Scheduler, Timer, schedule, cancel, settle, stop_timer, stop_old,
}

-- The timer that `Schedule` starts.
abbrev pub started : Scheduler → String → String → Payload → Timer
started s key type payload = record {
  id = s.next_timer;
  key = key;
  job_type = type;
  payload = payload;
}

remove-insert : (key : String) (v : ℕ) (d : Dict ℕ) → remove key (insert key v d) ≡ remove key d
unfolding remove insert
remove-insert key v [] = ground (arith, eq_refl key)
remove-insert key v ((own, old) ∷ rest) = ground (arith, remove-insert key v rest)

-- The number of the next timer is a new one.
fresh-keep :
    (n : ℕ) (ts : List Timer)
    → All (λ (t : Timer). t.id < n) ts
    → keep (λ (t : Timer). eqb t.id n) ts ≡ []
fresh-keep n [] fresh = refl
fresh-keep n (t ∷ ts) fresh = ground (arith, fresh.0, fresh-keep n ts fresh.1)

cancel_missing :
    (s : Scheduler) (key : String) → lookup key s.timers ≡ none → cancel s key ≡ (false, s)
unfolding cancel
cancel_missing s key e = rw (e, cancel) refl

stop_old-fresh :
    (n : ℕ) (o : Option ℕ) (ts : List Timer)
    → All (λ (t : Timer). t.id < n) ts
    → All (λ (t : Timer). t.id < n) (stop_old o ts)
unfolding stop_timer
stop_old-fresh n none ts fresh = fresh
stop_old-fresh n (some id) ts fresh = keep-All_items _ (λ t. not (eqb t.id id)) ts fresh

keep-append_new :
    (n : ℕ) (ts : List Timer) (new : Timer)
    → new.id ≡ n
    → All (λ (t : Timer). t.id < n) ts
    → keep (λ (t : Timer). eqb t.id n) (ts ++ new ∷ []) ≡ new ∷ []
keep-append_new n [] new own fresh = ground arith
keep-append_new n (t ∷ ts) new own fresh =
    ground (arith, fresh.0, keep-append_new n ts new own fresh.1)

-- Where a key is scheduled while the callback of an earlier timer of it, which has fired, is the next to
-- take the lock, and the pending timers have numbers below the next one: once that callback has ended,
-- the timer of the new call is pending, but `Cancel` of the key returns false and changes nothing; and
-- the map, which `Drain` tests, is the old one without the key.
pub rescheduled_lost :
    (s : Scheduler) (t : Timer) (others : List Timer) (type : String) (payload : Payload)
    → s.firing ≡ t ∷ others
    → All (λ (u : Timer). u.id < s.next_timer) s.pending
    → let s' = settle (schedule s t.key type payload) in
      (keep (λ (u : Timer). eqb u.id s.next_timer) s'.pending ≡ started s t.key type payload ∷ [])
      × (cancel s' t.key ≡ (false, s'))
      × (s'.timers ≡ remove t.key s.timers)
unfolding schedule settle
rescheduled_lost s t others type payload waits fresh =
    let new = started s t.key type payload in
    let gone = remove-insert t.key s.next_timer s.timers in
    let missing : lookup t.key (remove t.key (insert t.key s.next_timer s.timers)) ≡ none =
      lookup-remove t.key t.key (insert t.key s.next_timer s.timers)
      ∙ ground (arith, eq_refl t.key) in
    rw waits (
      keep-append_new s.next_timer (stop_old (lookup t.key s.timers) s.pending) new refl
          (stop_old-fresh s.next_timer (lookup t.key s.timers) s.pending fresh),
      cancel_missing _ t.key missing,
      gone,
    )

-- The numbers of the pending timers are below the next one, whatever is called and whatever fires.
HasNumbers : Scheduler → Type 0
HasNumbers s = All (λ (u : Timer). u.id < s.next_timer) s.pending

new_scheduler-HasNumbers : (q : Queue) → HasNumbers (new_scheduler q)
unfolding HasNumbers new_scheduler
new_scheduler-HasNumbers q = tt

schedule-HasNumbers :
    (s : Scheduler) (key type : String) (payload : Payload)
    → HasNumbers s
    → HasNumbers (schedule s key type payload)
unfolding HasNumbers schedule
schedule-HasNumbers s key type payload h =
    append-All _ (stop_old (lookup key s.timers) s.pending) _
      (All-imp (λ u below. omega (arith, below)) _
        (stop_old-fresh s.next_timer (lookup key s.timers) s.pending h))
      (omega arith, tt)

cancel-HasNumbers : (s : Scheduler) (key : String) → HasNumbers s → HasNumbers (cancel s key).1
unfolding HasNumbers cancel
cancel-HasNumbers s key h = elim (Option-cases (lookup key s.timers)) [
  | inl missing ↦ rw (missing, cancel) h
  | inr (id, found) ↦ rw (found, cancel) (stop_old-fresh s.next_timer (some id) s.pending h)
]

fire-HasNumbers : (s : Scheduler) (now : Time) → HasNumbers s → HasNumbers (fire s now)
unfolding HasNumbers fire
fire-HasNumbers s now h = by_pending s.pending refl
  where
    by_pending : (ts : List Timer) → s.pending ≡ ts → HasNumbers (fire s now)
    by_pending [] e = rw (e, fire) h
    by_pending (t ∷ rest) e = rw (e, fire) (rw e at h).1

settle-HasNumbers : (s : Scheduler) → HasNumbers s → HasNumbers (settle s)
unfolding HasNumbers settle
settle-HasNumbers s h = by_firing s.firing refl
  where
    by_firing : (ts : List Timer) → s.firing ≡ ts → HasNumbers (settle s)
    by_firing [] e = rw (e, settle) h
    by_firing (t ∷ rest) e = rw (e, settle) h
