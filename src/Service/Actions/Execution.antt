-- ===== src/Service/Actions/Execution.antt =====
-- What `ExecuteAction` of actions.go does to the stored action.
use orbit_telemetry_orchestr.Prelude.{
  String, Bool, Time, string_eq, ◌≡◌, refl, ◌∙◌, ap, inl, inr, true, Bool-cases, some, arith,
  lookup, insert, lookup-insert, is_some, eq_iff, eq_refl, ok, ◌&&◌, not, ◌+◌,
}
use orbit_telemetry_orchestr.Domain.Action.{
  ResponseAction, succeeded, action_status_eq, start, finish, can_retry,
}
use orbit_telemetry_orchestr.Prelude.Exec.{◌>>=◌, return}
use orbit_telemetry_orchestr.Store.{Memory}
use orbit_telemetry_orchestr.Store.Actions.{get_action, update_action}
use orbit_telemetry_orchestr.Service.{
  App, live, ensure_context, now, record_audit, inc_metric, submit_job,
}
use orbit_telemetry_orchestr.Service.Actions.{execute_action, run_action, simulate_action, retry}

start_keeps : (y : ResponseAction) (t : Time) {s : ResponseAction} → start y t ≡ ok s → s.id ≡ y.id
unfolding start
start_keeps y t h = ground arith

module _ {F : Type 0} where
  -- An action that has succeeded is returned as it is, and nothing changes.
  pub execute_action_done :
      (a : App F) (id : String) (x : ResponseAction)
      → get_action a.repository id ≡ ok x
      → x.status ≡ succeeded
      → execute_action live id a ≡ (ok x, a)
  unfolding execute_action ensure_context
  execute_action_done a id x got done = rw (got, done) refl

  retry-return :
      (success : Bool) (x : ResponseAction) (a : App F)
      → let (r, a') = (retry success x >>= λ u. return x) a in
        (r ≡ ok x) × (a'.repository ≡ a.repository)
  unfolding retry submit_job
  retry-return success x a = elim (Bool-cases (not success && can_retry x)) [
    | inl again ↦ rw again (refl, refl)
    | inr over ↦ rw over (refl, refl)
  ]

  updated :
      (x : ResponseAction) (m : Memory F)
      → is_some (lookup x.id m.actions) ≡ true
      → update_action x m ≡ (ok tt, record m { actions = insert x.id x m.actions })
  unfolding update_action
  updated x m there = ground arith

  -- A stored action that can be started runs to its end: the started action, finished with the
  -- outcome of the simulation at the second reading of the clock, is returned, and is stored under
  -- the action's id from then on.
  pub run_action_lem :
      (a : App F) (y s : ResponseAction)
      → lookup y.id a.repository.actions ≡ some y
      → start y (a.clock a.reads) ≡ ok s
      → let x = finish s (simulate_action s).0 (simulate_action s).1 (a.clock (a.reads + 1)) in
        let (r, a') = run_action y a in (r ≡ ok x) × (lookup y.id a'.repository.actions ≡ some x)
  unfolding run_action now record_audit inc_metric finish
  run_action_lem a y s found started =
      let own = start_keeps y (a.clock a.reads) started in
      let first = updated s a.repository (rw (own, found) refl) in
      let m : Memory F = record a.repository { actions = insert s.id s a.repository.actions } in
      let x = finish s (simulate_action s).0 (simulate_action s).1 (a.clock (a.reads + 1)) in
      let second =
        updated x m (rw (lookup-insert s.id s.id s a.repository.actions, eq_refl s.id) refl) in
      rw (started, first, second)
        (let q = retry-return _ x _ in
          (
            q.0,
            ap (λ (n : Memory F). lookup y.id n.actions) q.1
                ∙ lookup-insert s.id y.id x m.actions
                ∙ ground (arith, eq_iff s.id y.id),
          ))
