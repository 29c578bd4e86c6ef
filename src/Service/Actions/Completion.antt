-- ===== src/Service/Actions/Completion.antt =====
-- Repeated calls of `ExecuteAction` of actions.go on a queued action.
use orbit_telemetry_orchestr.Prelude.{
  String, ◌≡◌, refl, ◌≢◌, ◌⊎◌, inl, inr, true, false, some, arith, lookup, ok, ◌+◌, ℤ, pos, ◌<ℤ◌,
  Time, ◌==◌, string_eq,
}
use orbit_telemetry_orchestr.Domain.Action.{
  ActionType, notify, isolate, throttle, collect, restart, ResponseAction, queued, running,
  succeeded, failed, action_status_eq, is_known_type, start, finish,
}
use orbit_telemetry_orchestr.Store.Actions.{get_action}
use orbit_telemetry_orchestr.Service.{App, live, ensure_context}
use orbit_telemetry_orchestr.Service.Actions.{execute_action, simulate_action, simulate_type}
use orbit_telemetry_orchestr.Service.Actions.Execution.{run_action_lem, execute_action_done}

start_first :
    (x : ResponseAction) (t : Time)
    → x.status ≡ queued
    → x.attempt ≡ pos 0
    → (pos 1 <ℤ x.max_attempts) ≡ true
    → start x t ≡ ok (record x { attempt = pos 1; status = running; updated_at = t })
unfolding start
start_first x t fresh unused more = ground (arith, fresh, unused, more)

start_second :
    (x : ResponseAction) (t : Time)
    → x.status ≡ failed
    → x.attempt ≡ pos 1
    → (pos 1 <ℤ x.max_attempts) ≡ true
    → start x t ≡ ok (record x { attempt = pos 2; status = running; updated_at = t })
unfolding start
start_second x t broken used more = ground (arith, broken, used, more)

-- The simulation lets each type succeed, but for the first restart.
simulate_first :
    (s : ResponseAction)
    → is_known_type s.type ≡ true
    → s.type ≢ restart
    → (simulate_action s).0 ≡ true
unfolding simulate_action simulate_type is_known_type
simulate_first s known other = simulated s.type s.attempt known other
  where
    simulated :
        (k : ActionType) (n : ℤ)
        → is_known_type k ≡ true
        → k ≢ restart
        → (simulate_type k n).0 ≡ true
    simulated notify n known other = refl
    simulated isolate n known other = refl
    simulated throttle n known other = refl
    simulated collect n known other = refl
    simulated restart n known other = absurd (other refl)
    simulated (ActionType.other s) n known other = absurd (ground (arith, known))

is_restart : (k : ActionType) → (k ≡ restart) ⊎ (k ≢ restart)
is_restart restart = inl refl
is_restart notify = inr (λ e. ground arith)
is_restart isolate = inr (λ e. ground arith)
is_restart throttle = inr (λ e. ground arith)
is_restart collect = inr (λ e. ground arith)
is_restart (ActionType.other s) = inr (λ e. ground arith)

module _ {F : Type 0} where
  -- The action that a round leaves.
  abbrev finished : App F → ResponseAction → ResponseAction
  finished a s = finish s (simulate_action s).0 (simulate_action s).1 (a.clock (a.reads + 1))

  execute_action_round :
      (a : App F) (x s : ResponseAction)
      → lookup x.id a.repository.actions ≡ some x
      → (x.status == succeeded) ≡ false
      → start x (a.clock a.reads) ≡ ok s
      → lookup x.id (execute_action live x.id a).1.repository.actions ≡ some (finished a s)
  unfolding execute_action ensure_context get_action
  execute_action_round a x s found pending h = rw (found, pending) (run_action_lem a x s found h).1

  -- A round that succeeds at once, and one more.
  then_done :
      (a : App F) (id : String) (y : ResponseAction)
      → lookup id a.repository.actions ≡ some y
      → y.status ≡ succeeded
      → lookup id (execute_action live id a).1.repository.actions ≡ some y
  then_done a id y found done =
      let same = execute_action_done a id y (unfold get_action in rw found refl) done in
      rw same found

  -- A stored action that is queued, of a known type, with no attempt used and more than one allowed, has
  -- succeeded after two executions, and stands in the repository as such.
  pub execute_action_twice :
      (a : App F) (x : ResponseAction)
      → lookup x.id a.repository.actions ≡ some x
      → x.status ≡ queued
      → x.attempt ≡ pos 0
      → (pos 1 <ℤ x.max_attempts) ≡ true
      → is_known_type x.type ≡ true
      → (y : ResponseAction) × (lookup x.id
            (execute_action live x.id (execute_action live x.id a).1).1.repository.actions
          ≡ some y)
        × (y.status ≡ succeeded)
  execute_action_twice a x found fresh unused more known =
      let s : ResponseAction = record x {
        attempt = pos 1;
        status = running;
        updated_at = a.clock a.reads;
      } in
      let y = finished a s in
      let b = (execute_action live x.id a).1 in
      let first =
        execute_action_round a x s found (ground (arith, fresh))
          (start_first x (a.clock a.reads) fresh unused more) in
      elim (is_restart x.type) [
        | inr other ↦
            let done : y.status ≡ succeeded =
              unfold finish in rw (simulate_first s known other) refl in
            (y, then_done b x.id y first done, done)
        | inl again ↦
            let s' : ResponseAction = record y {
              attempt = pos 2;
              status = running;
              updated_at = b.clock b.reads;
            } in
            let broken : y.status ≡ failed =
              unfold finish simulate_action simulate_type in rw again refl in
            let next =
              start_second y (b.clock b.reads) broken (unfold finish in refl)
                (unfold finish in more) in
            let second =
              execute_action_round b y s' (unfold finish in first) (ground (arith, broken)) next in
            (
              finished b s',
              unfold finish in second,
              unfold finish simulate_action simulate_type in rw again refl,
            )
      ]
