-- ===== src/Domain/Action.antt =====
-- internal/domain/action.go
pub mod Attempts
use orbit_telemetry_orchestr.Prelude.{
  String, ◌≡◌, Bool, true, false, ◌&&◌, ◌||◌, Option, none, some, ◌↔◌, arith, eq_iff, Eq, ◌==◌,
  ◌!=◌, not, string_eq, if◌then◌else◌, ℤ, pos, inc64, ◌<ℤ◌, ◌≤ℤ◌, Time, Error, Result, ok, err,
}
use orbit_telemetry_orchestr.Prelude.Errors.{
  ◌>>=◌, ◌>>◌, refuse_if, action_fields_required, unknown_action_type, action_not_ready,
  action_exhausted,
}

-- `other s` is a text that is none of the constants.
pub data ActionType : Type 0 where
  notify isolate throttle collect restart : ActionType
  other : String → ActionType

pub data ActionStatus : Type 0 where
  queued running succeeded failed skipped : ActionStatus
  other : String → ActionStatus

abbrev pub same_status : ActionStatus → ActionStatus → Bool
same_status queued queued = true
same_status running running = true
same_status succeeded succeeded = true
same_status failed failed = true
same_status skipped skipped = true
same_status (ActionStatus.other s) (ActionStatus.other t) = s == t
same_status _ _ = false

pub same_status_iff : (a b : ActionStatus) → (same_status a b ≡ true) ↔ (a ≡ b)
same_status_iff (ActionStatus.other s) (ActionStatus.other t) = ground (arith, eq_iff s t)
same_status_iff queued b = ground arith
same_status_iff running b = ground arith
same_status_iff succeeded b = ground arith
same_status_iff failed b = ground arith
same_status_iff skipped b = ground arith
same_status_iff (ActionStatus.other s) b = ground arith

instance abbrev pub action_status_eq : Eq ActionStatus
action_status_eq = record { beq = same_status; beq_iff = same_status_iff }

pub record ResponseAction : Type 0 where
  pub id : String
  pub incident_id : String
  pub device_id : String
  pub type : ActionType
  pub status : ActionStatus
  pub attempt : ℤ
  pub max_attempts : ℤ
  pub idempotency : String
  pub reason : String
  pub result : String
  pub created_at : Time
  pub updated_at : Time
  pub finished_at : Option Time

-- The `switch` of `NewAction`.
unfoldable pub is_known_type : ActionType → Bool
is_known_type (ActionType.other s) = false
is_known_type _ = true

unfoldable pub new_action :
    String → String → String → ActionType → ℤ → String → String → Time → Result ResponseAction
unfolding is_known_type
new_action id incident_id device_id type max_attempts key reason now = do
  refuse_if (id == "" || incident_id == "" || device_id == "" || key == "") action_fields_required
  refuse_if (not (is_known_type type)) unknown_action_type
  ok (record {
    id = id;
    incident_id = incident_id;
    device_id = device_id;
    type = type;
    status = queued;
    attempt = pos 0;
    max_attempts = if max_attempts <ℤ pos 1 then pos 1 else max_attempts;
    idempotency = key;
    reason = reason;
    result = "";
    created_at = now;
    updated_at = now;
    finished_at = none;
  })

unfoldable pub start : ResponseAction → Time → Result ResponseAction
start a now = do
  refuse_if (a.status != queued && a.status != failed) action_not_ready
  refuse_if (a.max_attempts ≤ℤ a.attempt) action_exhausted
  ok (record a { attempt = inc64 a.attempt; status = running; updated_at = now })

unfoldable pub finish : ResponseAction → Bool → String → Time → ResponseAction
finish a success result now = record a {
  result = result;
  updated_at = now;
  finished_at = some now;
  status = if success then succeeded else failed;
}

unfoldable pub can_retry : ResponseAction → Bool
can_retry a = a.status == failed && a.attempt <ℤ a.max_attempts
