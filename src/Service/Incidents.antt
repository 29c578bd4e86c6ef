-- ===== src/Service/Incidents.antt =====
-- internal/service/incidents.go; `F` is `float64`.
pub mod Closing
use orbit_telemetry_orchestr.Prelude.{
  String, Bool, ◌&&◌, ◌||◌, not, Option, none, some, List, [], ◌∷◌, ◌==◌, string_eq, if◌then◌else◌,
  ltb, ℤ, pos, ◌<ℤ◌, pos_part, Time, add, minute, ◌+s◌, length, take, keep, trim_space, Result, ok,
  err, ◌*◌,
}
use text.Mathlib.Text.{starts_with}
use orbit_telemetry_orchestr.Prelude.Errors.{refuse_if, closed_needs_evidence}
use orbit_telemetry_orchestr.Prelude.Exec.{Exec, ◌>>=◌, ◌>>◌, return, lift, ignore, catch}
use orbit_telemetry_orchestr.Domain.Anomaly.{Anomaly, AnomalyStatus}
use orbit_telemetry_orchestr.Domain.Incident.{
  Incident, IncidentStatus, open_, investigating, closed, new_incident, add_anomaly, transition,
  ready_to_close, incident_status_eq,
}
use orbit_telemetry_orchestr.Store.Incidents.{
  put_incident, get_incident, update_incident, list_incidents, find_open_incident, list_anomalies,
}
use orbit_telemetry_orchestr.Aggregate.{neg}
use orbit_telemetry_orchestr.Queue.{Payload}
use orbit_telemetry_orchestr.Events.{Value}
use orbit_telemetry_orchestr.Service.{
  App, Context, now, ensure_context, query, update, emit, record_audit, submit_job, next_id,
}

-- `string(status)`
abbrev pub incident_status_text : IncidentStatus → String
incident_status_text IncidentStatus.open_ = "open"
incident_status_text IncidentStatus.investigating = "investigating"
incident_status_text IncidentStatus.contained = "contained"
incident_status_text IncidentStatus.resolved = "resolved"
incident_status_text IncidentStatus.closed = "closed"
incident_status_text (IncidentStatus.other s) = s

-- `strings.Contains`
contains_text : String → String → Bool
contains_text String.[] part = part == ""
contains_text (String.◌∷◌ c s) part = starts_with (String.◌∷◌ c s) part || contains_text s part

-- The incident that an ignored `AddAnomaly` leaves.
abbrev pub joined : Result Incident → Incident → Incident
joined (ok i') i = i'
joined (err e) i = i

-- The test of the loop of `SearchIncidents`.
found_by : (String → String) → String → Incident → Bool
unfolding contains_text
found_by to_lower text i = contains_text (to_lower i.title) text || contains_text i.device_id text

module _ {F : Type 0} where
  unfoldable pub join_incident : Anomaly F → Incident → Exec (App F) (Option Incident)
  join_incident anomaly existing = do
    t ← now
    let grown = joined (add_anomaly existing anomaly.id anomaly.severity t) existing
    ignore (update (update_incident grown))
    return (some grown)

  -- What follows once a new incident is stored, or could not be.
  unfoldable pub announce : Result Incident → Exec (App F) (Option Incident)
  announce (err e) = return none
  announce (ok i) = do
    record_audit "system" "open" "incident" i.id "incident opened from anomaly" []
    emit "incident.opened" i.id "system"
        (("device_id", Value.text i.device_id) ∷ ("severity", Value.number i.severity) ∷ [])
    submit_job "evidence-rollup" (Payload.evidence_rollup i.id)
    return (some i)

  unfoldable pub create_incident : Anomaly F → String → Time → Exec (App F) Incident
  create_incident anomaly id t = do
    i ← lift (
        new_incident id anomaly.device_id ("Telemetry anomaly: " +s anomaly.signal) anomaly.severity
          anomaly.id t)
    update (put_incident i)
    return i

  unfoldable pub open_incident : Anomaly F → Exec (App F) (Option Incident)
  unfolding create_incident announce
  open_incident anomaly = do
    id ← next_id "incident"
    t ← now
    created ← catch (create_incident anomaly id t)
    announce created

  unfoldable pub join_or_open : Anomaly F → Option Incident → Exec (App F) (Option Incident)
  unfolding join_incident open_incident
  join_or_open anomaly (some existing) = join_incident anomaly existing
  join_or_open anomaly none = open_incident anomaly

  -- `FindOpenIncident`, whose answer may be any match.
  unfoldable pub find_existing : Anomaly F → Time → Exec (App F) (Option Incident)
  find_existing anomaly since a =
      let from = a.range_from a.reads in
      query (λ m. ok (find_open_incident from m anomaly.device_id anomaly.signal since)) a

  unfoldable pub after_context : Anomaly F → Result (Unit {0}) → Exec (App F) (Option Incident)
  unfolding join_or_open find_existing
  after_context anomaly (err e) = return none
  after_context anomaly (ok u) = do
    t ← now
    let since = add t (neg (pos (10 * minute)))
    existing ← find_existing anomaly since
    join_or_open anomaly existing

  -- `none` is the source's `false`.
  unfoldable pub correlate_incident : Context → Anomaly F → Exec (App F) (Option Incident)
  unfolding after_context
  correlate_incident ctx anomaly = do
    alive ← catch (ensure_context ctx)
    after_context anomaly alive

  unfoldable pub anomalies_listed :
      Context → String → Option AnomalyStatus → ℤ → Exec (App F) (List (Anomaly F))
  anomalies_listed ctx device_id status limit = do
    ensure_context ctx
    query (λ m. ok (list_anomalies m device_id status limit))

  unfoldable pub get_incident_by_id : Context → String → Exec (App F) Incident
  get_incident_by_id ctx id = do ensure_context ctx; query (λ m. get_incident m id)

  unfoldable pub incidents_listed :
      Context → String → Option IncidentStatus → ℤ → Exec (App F) (List Incident)
  incidents_listed ctx device_id status limit = do
    ensure_context ctx
    query (λ m. ok (list_incidents m device_id status limit))

  unfoldable pub transition_incident :
      Context → String → String → IncidentStatus → Exec (App F) Incident
  transition_incident ctx actor id status = do
    ensure_context ctx
    before ← query (λ m. get_incident m id)
    lift (refuse_if (status == closed && not (ready_to_close before)) closed_needs_evidence)
    t ← now
    incident ← lift (transition before status t)
    update (update_incident incident)
    record_audit actor "transition" "incident" id "incident status changed"
        (("status", incident_status_text status) ∷ [])
    emit "incident.status_changed" id actor
        (("status", Value.text (incident_status_text status)) ∷ [])
    return incident

  unfoldable pub evaluate_incident : Context → String → Exec (App F) Incident
  unfolding get_incident_by_id
  evaluate_incident ctx id = do
    incident ← get_incident_by_id ctx id
    if incident.status == open_
        then transition_incident ctx "system" id investigating
        else return incident

  unfoldable pub search_incidents : Context → String → ℤ → Exec (App F) (List Incident)
  unfolding found_by
  search_incidents ctx text limit = do
    ensure_context ctx
    λ a.
        let incidents = list_incidents a.repository "" none (pos 0) in
        let wanted = a.to_lower (trim_space text) in
        let result = keep (found_by a.to_lower wanted) incidents in
        (
          ok (
              if wanted == ""
              then incidents
              else if (pos 0 <ℤ limit) && ltb (pos_part limit) (length result)
              then take (pos_part limit) result
              else result),
          a,
        )
