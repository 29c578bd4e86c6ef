-- ===== src/Domain/Incident/Lifecycle.antt =====
-- The transition diagram of incident.go.
use orbit_telemetry_orchestr.Prelude.{
  ◌≡◌, refl, ◌⊎◌, arith, ◌==◌, if◌then◌else◌, inc64, Time, ok, some,
}
use orbit_telemetry_orchestr.Domain.Incident.{
  IncidentStatus, open_, investigating, contained, resolved, closed, Incident, transition,
  same_status_iff, incident_status_eq,
}

-- The moves of the map `allowed`.
pub data Move : IncidentStatus → IncidentStatus → Type 0 where
  investigate : Move open_ investigating
  contain_at_once : Move open_ contained
  resolve_at_once : Move open_ resolved
  contain : Move investigating contained
  resolve : Move investigating resolved
  reinvestigate : Move contained investigating
  resolve_contained : Move contained resolved
  close : Move resolved closed
  reopen : Move resolved investigating

ruleset edges = (
  investigate, contain_at_once, resolve_at_once, contain, resolve, reinvestigate, resolve_contained,
  close, reopen,
)

-- The incident after a move: entering `resolved` and `closed` is stamped.
abbrev pub moved : Incident → IncidentStatus → Time → Incident
moved i status now = record i {
  status = status;
  version = inc64 i.version;
  updated_at = now;
  resolved_at = if status == resolved then some now else i.resolved_at;
  closed_at = if status == closed then some now else i.closed_at;
}

-- A request that succeeds either names the present status and changes nothing, or moves the
-- incident along an edge, stamping `resolved_at` or `closed_at` where it enters those states.
pub transition-Move :
    (i : Incident) (status : IncidentStatus) (now : Time) {i' : Incident}
    → transition i status now ≡ ok i'
    → ((status ≡ i.status) × (i' ≡ i)) ⊎ (Move i.status status × (i' ≡ moved i status now))
unfolding transition
transition-Move i status now h = grind (arith, edges, same_status_iff status i.status)

transition_along :
    {from to : IncidentStatus}
    → Move from to
    → (i : Incident) (now : Time) → i.status ≡ from
    → transition i to now ≡ ok (moved i to now)
unfolding transition
transition_along investigate i now e = ground arith
transition_along contain_at_once i now e = ground arith
transition_along resolve_at_once i now e = ground arith
transition_along contain i now e = ground arith
transition_along resolve i now e = ground arith
transition_along reinvestigate i now e = ground arith
transition_along resolve_contained i now e = ground arith
transition_along close i now e = ground arith
transition_along reopen i now e = ground arith

-- Every edge of the diagram is accepted, and moves the incident along it.
transition_of_Move :
    (i : Incident) {status : IncidentStatus} (now : Time)
    → Move i.status status
    → transition i status now ≡ ok (moved i status now)
transition_of_Move i now e = transition_along e i now refl
