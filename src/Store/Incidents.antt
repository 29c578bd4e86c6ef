-- ===== src/Store/Incidents.antt =====
-- The anomalies and incidents of internal/store/memory.go and internal/store/queries.go.
use orbit_telemetry_orchestr.Prelude.{
  String, Bool, false, ◌&&◌, ◌||◌, not, Option, none, some, List, [], ◌∷◌, if◌then◌else◌, ◌==◌,
  ◌!=◌, string_eq, ℤ, is_some, or_not_found, lookup, insert, values, keep, sort_slice, find_first,
  rotated, ℕ, Time, before, Result, ok, err,
}
use orbit_telemetry_orchestr.Prelude.Errors.{not_found, exists}
use orbit_telemetry_orchestr.Domain.Anomaly.{Anomaly, AnomalyStatus, anomaly_status_eq}
use orbit_telemetry_orchestr.Domain.Incident.{Incident, IncidentStatus, incident_status_eq, closed}
use orbit_telemetry_orchestr.Store.{Memory, Update, matches_id, cap_list}

-- `status` is `none` where the filter is the empty text.
abbrev pub incident_matches : String → Option IncidentStatus → Incident → Bool
incident_matches device_id none i = matches_id device_id i.device_id
incident_matches device_id (some status) i = matches_id device_id i.device_id && i.status == status

-- The latest update first.
abbrev pub incident_less : Incident → Incident → Bool
incident_less a b = before b.updated_at a.updated_at

module _ {F : Type 0} where
  unfoldable pub put_anomaly : Anomaly F → Update F
  put_anomaly a m =
      if is_some (lookup a.id m.anomalies)
      then (err exists, m)
      else (ok tt, record m { anomalies = insert a.id a m.anomalies })

  unfoldable pub get_anomaly : Memory F → String → Result (Anomaly F)
  get_anomaly m id = or_not_found (lookup id m.anomalies)

  unfoldable pub update_anomaly : Anomaly F → Update F
  update_anomaly a m =
      if is_some (lookup a.id m.anomalies)
      then (ok tt, record m { anomalies = insert a.id a m.anomalies })
      else (err not_found, m)

  abbrev pub anomaly_matches : String → Option AnomalyStatus → Anomaly F → Bool
  anomaly_matches device_id none a = matches_id device_id a.device_id
  anomaly_matches device_id (some status) a = matches_id device_id a.device_id && a.status == status

  -- The latest first.
  abbrev pub anomaly_less : Anomaly F → Anomaly F → Bool
  anomaly_less a b = before b.created_at a.created_at

  unfoldable pub list_anomalies : Memory F → String → Option AnomalyStatus → ℤ → List (Anomaly F)
  list_anomalies m device_id status limit =
      cap_list
        (sort_slice anomaly_less (keep (anomaly_matches device_id status) (values m.anomalies)))
        limit

  unfoldable pub put_incident : Incident → Update F
  put_incident i m =
      if is_some (lookup i.id m.incidents)
      then (err exists, m)
      else (ok tt, record m { incidents = insert i.id i m.incidents })

  unfoldable pub get_incident : Memory F → String → Result Incident
  get_incident m id = or_not_found (lookup id m.incidents)

  unfoldable pub update_incident : Incident → Update F
  update_incident i m =
      if is_some (lookup i.id m.incidents)
      then (ok tt, record m { incidents = insert i.id i m.incidents })
      else (err not_found, m)

  unfoldable pub list_incidents : Memory F → String → Option IncidentStatus → ℤ → List Incident
  list_incidents m device_id status limit =
      cap_list
        (sort_slice incident_less (keep (incident_matches device_id status) (values m.incidents)))
        limit

  -- The signal of `m.anomalies[id]`, which is the zero Anomaly for a missing key.
  signal_or_empty : Option (Anomaly F) → String
  signal_or_empty none = ""
  signal_or_empty (some a) = a.signal

  -- The inner loop of `FindOpenIncident`.
  has_signal : Memory F → String → List String → Bool
  unfolding signal_or_empty
  has_signal m signal [] = false
  has_signal m signal (id ∷ ids) =
      signal_or_empty (lookup id m.anomalies) == signal || has_signal m signal ids

  -- The tests of its outer loop.
  unfoldable pub is_open_match : Memory F → String → String → Time → Incident → Bool
  unfolding has_signal
  is_open_match m device_id signal since i =
      not (i.device_id != device_id || i.status == closed)
      && not (before i.opened_at since)
      && has_signal m signal i.anomaly_ids

  -- `FindOpenIncident`; the `range` over the map begins at the entry `from`, so that any match may be the first one met.
  unfoldable pub find_open_incident : ℕ → Memory F → String → String → Time → Option Incident
  find_open_incident from m device_id signal since =
      find_first (is_open_match m device_id signal since) (rotated from (values m.incidents))
