-- ===== src/Service/Actions.antt =====
-- internal/service/actions.go
pub mod Execution
pub mod Completion
use orbit_telemetry_orchestr.Prelude.{
  String, ◌&&◌, Bool, true, false, not, Option, List, [], ◌∷◌, ◌==◌, ◌!=◌, if◌then◌else◌, ℤ, pos,
  int_eq, Result, ok, err,
}
use orbit_telemetry_orchestr.Prelude.Errors.{refuse_if, only_queued}
use orbit_telemetry_orchestr.Prelude.Exec.{Exec, ◌>>=◌, ◌>>◌, return, lift, ignore}
use orbit_telemetry_orchestr.Domain.Incident.{Incident, attach_action}
use orbit_telemetry_orchestr.Domain.Action.{
  ActionType, ActionStatus, notify, isolate, throttle, collect, restart, queued, succeeded, skipped,
  ResponseAction, new_action, start, finish, can_retry, action_status_eq,
}
use orbit_telemetry_orchestr.Store.Incidents.{get_incident, update_incident}
use orbit_telemetry_orchestr.Store.Actions.{put_action, get_action, update_action, list_actions}
use orbit_telemetry_orchestr.Queue.{Payload}
use orbit_telemetry_orchestr.Service.{
  App, Context, now, ensure_context, query, update, record_audit, submit_job, inc_metric,
}

pub record ActionInput : Type 0 where
  pub id : String
  pub incident_id : String
  pub type : ActionType
  pub max_attempts : ℤ
  pub idempotency : String
  pub reason : String

-- `string(action.Status)`
abbrev pub action_status_text : ActionStatus → String
action_status_text ActionStatus.queued = "queued"
action_status_text ActionStatus.running = "running"
action_status_text ActionStatus.succeeded = "succeeded"
action_status_text ActionStatus.failed = "failed"
action_status_text ActionStatus.skipped = "skipped"
action_status_text (ActionStatus.other s) = s

unfoldable pub simulate_type : ActionType → ℤ → Bool × String
simulate_type notify attempt = (true, "notification delivered")
simulate_type collect attempt = (true, "diagnostic collection requested")
simulate_type throttle attempt = (true, "device telemetry rate reduced")
simulate_type isolate attempt = (true, "device isolated from production traffic")
simulate_type restart attempt =
    if attempt == pos 1 then (false, "restart request timed out") else (true, "agent restarted")
simulate_type (ActionType.other s) attempt = (false, "unsupported action")

unfoldable pub simulate_action : ResponseAction → Bool × String
unfolding simulate_type
simulate_action a = simulate_type a.type a.attempt

-- The incident that an ignored `AttachAction` leaves.
abbrev pub attached : Result Incident → Incident → Incident
attached (ok i') i = i'
attached (err e) i = i

module _ {F : Type 0} where
  unfoldable pub create_action : Context → String → ActionInput → Exec (App F) ResponseAction
  create_action ctx actor input = do
    ensure_context ctx
    incident ← query (λ m. get_incident m input.incident_id)
    t ← now
    action ← lift (
        new_action input.id input.incident_id incident.device_id input.type input.max_attempts
          input.idempotency input.reason t)
    update (put_action action)
    t' ← now
    ignore (update (update_incident (attached (attach_action incident action.id t') incident)))
    record_audit actor "create" "action" action.id "response action queued" []
    submit_job "response-action" (Payload.response_action action.id)
    return action

  unfoldable pub get_action_by_id : Context → String → Exec (App F) ResponseAction
  get_action_by_id ctx id = do ensure_context ctx; query (λ m. get_action m id)

  unfoldable pub actions_listed :
      Context → String → Option ActionStatus → ℤ → Exec (App F) (List ResponseAction)
  actions_listed ctx incident_id status limit = do
    ensure_context ctx
    query (λ m. ok (list_actions m incident_id status limit))

  -- `if !success && action.CanRetry() { a.submit(…) }`
  unfoldable pub retry : Bool → ResponseAction → Exec (App F) (Unit {0})
  retry success action =
      if not success && can_retry action
      then submit_job "response-action" (Payload.response_action action.id)
      else return tt

  -- `ExecuteAction` from the test of the status on.
  unfoldable pub run_action : ResponseAction → Exec (App F) ResponseAction
  unfolding retry
  run_action action = do
    t ← now
    started ← lift (start action t)
    update (update_action started)
    t' ← now
    let outcome = simulate_action started
    let finished = finish started outcome.0 outcome.1 t'
    update (update_action finished)
    record_audit "system" "execute" "action" finished.id outcome.1 []
    inc_metric "orbit_actions_finished_total" (("status", action_status_text finished.status) ∷ [])
    retry outcome.0 finished
    return finished

  unfoldable pub execute_action : Context → String → Exec (App F) ResponseAction
  execute_action ctx id = do
    ensure_context ctx
    action ← query (λ m. get_action m id)
    if action.status == succeeded then return action else run_action action

  unfoldable pub cancel_action : Context → String → String → Exec (App F) ResponseAction
  unfolding get_action_by_id
  cancel_action ctx actor id = do
    action ← get_action_by_id ctx id
    lift (refuse_if (action.status != queued) only_queued)
    t ← now
    let cancelled = record action {
      status = skipped;
      result = "cancelled by operator";
      updated_at = t;
    }
    update (update_action cancelled)
    record_audit actor "cancel" "action" id "response action cancelled" []
    return cancelled
