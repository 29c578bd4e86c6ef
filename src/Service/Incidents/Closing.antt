-- ===== src/Service/Incidents/Closing.antt =====
-- When `TransitionIncident` of incidents.go closes an incident.
use orbit_telemetry_orchestr.Prelude.{
  ◌<◌, String, ◌≡◌, inl, inr, true, Bool-cases, arith, length, ok, Result-cases,
}
use orbit_telemetry_orchestr.Domain.Incident
use orbit_telemetry_orchestr.Domain.Incident.{
  Incident, IncidentStatus, resolved, closed, ready_to_close, incident_status_eq, same_status_iff,
}
use orbit_telemetry_orchestr.Domain.Incident.Lifecycle.{moved}
use orbit_telemetry_orchestr.Store.Incidents.{get_incident}
use orbit_telemetry_orchestr.Service.{App, live, ensure_context, now}
use orbit_telemetry_orchestr.Service.Incidents.{transition_incident}

ready_parts :
    (i : Incident) → ready_to_close i ≡ true → (i.status ≡ resolved) × (0 < length i.evidence_ids)
unfolding ready_to_close
ready_parts i h = ground (arith, same_status_iff i.status resolved)

module _ {F : Type 0} where
  -- A request to close an incident succeeds only if the stored incident is resolved and has some
  -- evidence; the incident that is returned is the stored one, closed at the time of the request.
  pub transition_incident_closes :
      (a : App F) (actor id : String) {i : Incident}
      → (transition_incident live actor id closed a).0 ≡ ok i
      → (before : Incident) × (get_incident a.repository id ≡ ok before)
        × (before.status ≡ resolved)
        × (0 < length before.evidence_ids)
        × (i ≡ moved before closed (a.clock a.reads))
  unfolding transition_incident ensure_context now
  transition_incident_closes a actor id {i} h = elim (Result-cases (get_incident a.repository id)) [
    | inr (e, got) ↦ absurd (ground arith)
    | inl (b, got) ↦ elim (Bool-cases (ready_to_close b)) [
      | inr unready ↦ absurd (ground arith)
      | inl ready ↦
          let parts = ready_parts b ready in
          let same : i ≡ moved b closed (a.clock a.reads) =
            unfold Incident.transition in ground arith in
          (b, got, parts.0, parts.1, same)
    ]
  ]
