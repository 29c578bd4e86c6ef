-- ===== src/Domain/Incident.antt =====
-- internal/domain/incident.go
pub mod Lifecycle
pub mod Invariant
pub mod History
use orbit_telemetry_orchestr.Prelude.{
  String, ◌≡◌, Bool, true, false, ◌&&◌, ◌||◌, Option, none, some, List, [], ◌∷◌, ◌++◌, ◌↔◌, arith,
  Eq, ◌==◌, string_eq, if◌then◌else◌, ℤ, pos, inc64, ◌<ℤ◌, Time, trim_space, is_blank, contains,
  ltb, length, Error, Result, ok, err,
}
use orbit_telemetry_orchestr.Prelude.Errors.{
  ◌>>=◌, ◌>>◌, refuse_if, incident_fields_required, incident_severity_range, closed_anomalies,
  unknown_incident_status, invalid_incident_transition, closed_actions, closed_evidence,
}
use orbit_telemetry_orchestr.Prelude.{eq_iff}

-- `other s` is a text that is none of the five constants.
pub data IncidentStatus : Type 0 where
  open_ investigating contained resolved closed : IncidentStatus
  other : String → IncidentStatus

abbrev pub same_status : IncidentStatus → IncidentStatus → Bool
same_status open_ open_ = true
same_status investigating investigating = true
same_status contained contained = true
same_status resolved resolved = true
same_status closed closed = true
same_status (other s) (other t) = s == t
same_status _ _ = false

pub same_status_iff : (a b : IncidentStatus) → (same_status a b ≡ true) ↔ (a ≡ b)
same_status_iff (other s) (other t) = ground (arith, eq_iff s t)
same_status_iff open_ b = ground arith
same_status_iff investigating b = ground arith
same_status_iff contained b = ground arith
same_status_iff resolved b = ground arith
same_status_iff closed b = ground arith
same_status_iff (other s) b = ground arith

instance abbrev pub incident_status_eq : Eq IncidentStatus
incident_status_eq = record { beq = same_status; beq_iff = same_status_iff }

pub record Incident : Type 0 where
  pub id : String
  pub device_id : String
  pub title : String
  pub severity : ℤ
  pub status : IncidentStatus
  pub anomaly_ids : List String
  pub action_ids : List String
  pub evidence_ids : List String
  pub opened_at : Time
  pub updated_at : Time
  pub resolved_at : Option Time
  pub closed_at : Option Time
  pub version : ℤ

unfoldable pub new_incident : String → String → String → ℤ → String → Time → Result Incident
new_incident id device_id title severity anomaly_id now = do
  refuse_if (is_blank id || is_blank device_id || is_blank title) incident_fields_required
  refuse_if (severity <ℤ pos 1 || pos 5 <ℤ severity) incident_severity_range
  ok (record {
    id = id;
    device_id = device_id;
    title = trim_space title;
    severity = severity;
    status = open_;
    anomaly_ids = anomaly_id ∷ [];
    action_ids = [];
    evidence_ids = [];
    opened_at = now;
    updated_at = now;
    resolved_at = none;
    closed_at = none;
    version = pos 1;
  })

unfoldable pub add_anomaly : Incident → String → ℤ → Time → Result Incident
add_anomaly i anomaly_id severity now =
    if i.status == closed
    then err closed_anomalies
    else if contains anomaly_id i.anomaly_ids
    then ok i
    else ok (record i {
      anomaly_ids = i.anomaly_ids ++ anomaly_id ∷ [];
      severity = if i.severity <ℤ severity then severity else i.severity;
      version = inc64 i.version;
      updated_at = now;
    })

-- The map `allowed` of `Transition`; `none` is a status that is no key of it.
allowed : IncidentStatus → Option (List IncidentStatus)
allowed open_ = some (investigating ∷ contained ∷ resolved ∷ [])
allowed investigating = some (contained ∷ resolved ∷ [])
allowed contained = some (investigating ∷ resolved ∷ [])
allowed resolved = some (closed ∷ investigating ∷ [])
allowed closed = some []
allowed (other s) = none

-- The body of the loop of `Transition` once the option is found.
enter : Incident → IncidentStatus → Time → Incident
enter i status now = record i {
  status = status;
  version = inc64 i.version;
  updated_at = now;
  resolved_at = if status == resolved then some now else i.resolved_at;
  closed_at = if status == closed then some now else i.closed_at;
}

enter_if_allowed : Incident → IncidentStatus → Time → Option (List IncidentStatus) → Result Incident
unfolding enter
enter_if_allowed i status now none = err unknown_incident_status
enter_if_allowed i status now (some next) =
    if contains status next then ok (enter i status now) else err invalid_incident_transition

unfoldable pub transition : Incident → IncidentStatus → Time → Result Incident
unfolding allowed enter_if_allowed
transition i status now =
    if status == i.status then ok i else enter_if_allowed i status now (allowed i.status)

unfoldable pub append_unique : List String → String → List String
append_unique values value = if contains value values then values else values ++ value ∷ []

unfoldable pub attach_action : Incident → String → Time → Result Incident
unfolding append_unique
attach_action i action_id now =
    if i.status == closed
    then err closed_actions
    else ok (record i {
      action_ids = append_unique i.action_ids action_id;
      version = inc64 i.version;
      updated_at = now;
    })

unfoldable pub attach_evidence : Incident → String → Time → Result Incident
unfolding append_unique
attach_evidence i evidence_id now =
    if i.status == closed
    then err closed_evidence
    else ok (record i {
      evidence_ids = append_unique i.evidence_ids evidence_id;
      version = inc64 i.version;
      updated_at = now;
    })

unfoldable pub ready_to_close : Incident → Bool
ready_to_close i = i.status == resolved && ltb 0 (length i.evidence_ids)
