-- ===== src/Domain/Incident/Invariant.antt =====
-- The invariant of incidents, and the operations of incident.go.
use orbit_telemetry_orchestr.Prelude.{
  ◌<◌, String, ◌≡◌, ◌≢◌, inl, inr, Bool, true, false, none, List, [], ◌∷◌, arith, string_eq, ℤ, pos,
  ◌<ℤ◌, Time, contains, Distinct, length, length-append, Bool-cases, Result, ok,
}
use orbit_telemetry_orchestr.Domain.Incident.{
  IncidentStatus, resolved, closed, other, Incident, new_incident, add_anomaly, transition,
  attach_action, attach_evidence, append_unique, same_status_iff, incident_status_eq,
}
use orbit_telemetry_orchestr.Prelude.{Distinct-snoc}

-- 1 to 5, as `NewIncident` demands.
abbrev pub IsSeverity : ℤ → Type 0
IsSeverity s = ((s <ℤ pos 1) ≡ false) × ((pos 5 <ℤ s) ≡ false)

abbrev pub is_known : IncidentStatus → Bool
is_known (other s) = false
is_known _ = true

pub record Inv (i : Incident) : Type 0 where
  pub severe : IsSeverity i.severity
  pub known : is_known i.status ≡ true
  pub anomalous : 0 < length i.anomaly_ids
  pub anomalies_distinct : Distinct i.anomaly_ids
  pub actions_distinct : Distinct i.action_ids
  pub evidence_distinct : Distinct i.evidence_ids
  pub resolved_stamped : i.status ≡ resolved → i.resolved_at ≢ none
  pub closed_stamped : i.status ≡ closed → (i.resolved_at ≢ none) × (i.closed_at ≢ none)
  pub stamp_closed : i.closed_at ≢ none → i.status ≡ closed

-- The operations on an incident, with their arguments.
pub data Op : Type 0 where
  anomaly : String → ℤ → Time → Op
  move : IncidentStatus → Time → Op
  action : String → Time → Op
  evidence : String → Time → Op

unfoldable pub apply : Incident → Op → Result Incident
apply i (anomaly id severity now) = add_anomaly i id severity now
apply i (move status now) = transition i status now
apply i (action id now) = attach_action i id now
apply i (evidence id now) = attach_evidence i id now

-- An anomaly has a severity of a rule, which is 1 to 5.
abbrev pub IsSound : Op → Type 0
IsSound (anomaly id severity now) = IsSeverity severity
IsSound _ = Unit

-- A new incident has the invariant.
pub new_incident-Inv :
    (id device_id title : String) (severity : ℤ) (anomaly_id : String) (now : Time) {i : Incident}
    → new_incident id device_id title severity anomaly_id now ≡ ok i
    → Inv i
unfolding new_incident
new_incident-Inv id device_id title severity anomaly_id now h = ground arith

append_unique-Distinct :
    (xs : List String) (a : String) → Distinct xs → Distinct (append_unique xs a)
unfolding append_unique
append_unique-Distinct xs a d = elim (Bool-cases (contains a xs)) [
  | inl old ↦ rw old d
  | inr new ↦ rw new (Distinct-snoc a xs new d)
]

pub add_anomaly-Inv :
    (i : Incident) (id : String) (severity : ℤ) (now : Time) {i' : Incident}
    → IsSeverity severity
    → Inv i
    → add_anomaly i id severity now ≡ ok i'
    → Inv i'
unfolding add_anomaly
add_anomaly-Inv i id severity now s v h = elim (Bool-cases (contains id i.anomaly_ids)) [
  | inl old ↦ ground arith
  | inr new ↦ ground (
    arith,
    Distinct-snoc id i.anomaly_ids new v.anomalies_distinct,
    length-append i.anomaly_ids (id ∷ []),
  )
]

pub transition-Inv :
    (i : Incident) (status : IncidentStatus) (now : Time) {i' : Incident}
    → Inv i
    → transition i status now ≡ ok i'
    → Inv i'
unfolding transition
transition-Inv i status now v h = ground (arith, same_status_iff status i.status)

pub attach_action-Inv :
    (i : Incident) (id : String) (now : Time) {i' : Incident}
    → Inv i
    → attach_action i id now ≡ ok i'
    → Inv i'
unfolding attach_action
attach_action-Inv i id now v h =
    ground (arith, append_unique-Distinct i.action_ids id v.actions_distinct)

pub attach_evidence-Inv :
    (i : Incident) (id : String) (now : Time) {i' : Incident}
    → Inv i
    → attach_evidence i id now ≡ ok i'
    → Inv i'
unfolding attach_evidence
attach_evidence-Inv i id now v h =
    ground (arith, append_unique-Distinct i.evidence_ids id v.evidence_distinct)

-- Every operation that succeeds, an anomaly's severity being 1 to 5, keeps the invariant.
pub apply-Inv :
    (i : Incident) (op : Op) {i' : Incident} → IsSound op → Inv i → apply i op ≡ ok i' → Inv i'
unfolding apply
apply-Inv i (anomaly id severity now) s v h = add_anomaly-Inv i id severity now s v h
apply-Inv i (move status now) s v h = transition-Inv i status now v h
apply-Inv i (action id now) s v h = attach_action-Inv i id now v h
apply-Inv i (evidence id now) s v h = attach_evidence-Inv i id now v h
