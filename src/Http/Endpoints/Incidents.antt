-- ===== src/Http/Endpoints/Incidents.antt =====
-- The handlers of internal/httpapi/telemetry.go, incidents.go, actions.go and evidence.go, but for
-- those of samples.
use orbit_telemetry_orchestr.Prelude.{◌==◌, string_eq, if◌then◌else◌, Float}
use orbit_telemetry_orchestr.Service.Telemetry.{ingest_telemetry}
use orbit_telemetry_orchestr.Service.Incidents.{
  anomalies_listed, incidents_listed, search_incidents, get_incident_by_id, transition_incident,
}
use orbit_telemetry_orchestr.Service.Actions.{
  create_action, get_action_by_id, actions_listed, execute_action, cancel_action,
}
use orbit_telemetry_orchestr.Service.Evidence.{add_evidence, evidence_listed}
use orbit_telemetry_orchestr.Service.Report.{timeline}
use orbit_telemetry_orchestr.Http.{Value, Decoders, actor, write_value, write_items}
use orbit_telemetry_orchestr.Http.Statuses.{
  anomaly_status_of, incident_status_of, action_status_of, filter_of,
}
use orbit_telemetry_orchestr.Http.Endpoints.{
  Endpoint, query_text, query_limit, answered, with_id, with_body,
}

module _ {F : Type 0} where
  unfoldable pub list_anomalies : Endpoint F
  list_anomalies id r =
      answered
        (anomalies_listed r.context (query_text r "device_id")
          (filter_of anomaly_status_of (query_text r "status")) (query_limit r))
        (write_items Value.anomaly)

  unfoldable pub list_incidents : Endpoint F
  list_incidents id r =
      answered
        (if query_text r "q" == ""
          then incidents_listed r.context (query_text r "device_id")
              (filter_of incident_status_of (query_text r "status")) (query_limit r)
          else search_incidents r.context (query_text r "q") (query_limit r))
        (write_items Value.incident)

  unfoldable pub get_incident : Endpoint F
  get_incident given r =
      with_id given
        λ id. answered (get_incident_by_id r.context id) (λ v. write_value 200 (Value.incident v))

  unfoldable pub move_incident : Decoders F → Endpoint F
  move_incident d given r = with_id given λ id. with_body d.incident_status r λ status.
      answered (transition_incident r.context (actor r) id status)
        (λ v. write_value 200 (Value.incident v))

  unfoldable pub get_timeline : Endpoint F
  get_timeline given r =
      with_id given λ id. answered (timeline r.context id) (write_items Value.moment)

  unfoldable pub list_actions : Endpoint F
  list_actions given r = with_id given λ id.
      answered
        (actions_listed r.context id (filter_of action_status_of (query_text r "status"))
          (query_limit r))
        (write_items Value.action)

  unfoldable pub post_action : Decoders F → Endpoint F
  post_action d given r = with_id given λ id. with_body d.action_input r λ input.
      answered (create_action r.context (actor r) (record input { incident_id = id }))
        (λ v. write_value 202 (Value.action v))

  unfoldable pub get_action : Endpoint F
  get_action given r =
      with_id given
        λ id. answered (get_action_by_id r.context id) (λ v. write_value 200 (Value.action v))

  unfoldable pub post_execute : Endpoint F
  post_execute given r =
      with_id given
        λ id. answered (execute_action r.context id) (λ v. write_value 200 (Value.action v))

  unfoldable pub post_cancel : Endpoint F
  post_cancel given r =
      with_id given λ id.
        answered (cancel_action r.context (actor r) id) (λ v. write_value 200 (Value.action v))

  unfoldable pub list_evidence : Endpoint F
  list_evidence given r =
      with_id given
        λ id. answered (evidence_listed r.context id (query_limit r)) (write_items Value.evidence)

  unfoldable pub post_evidence : Decoders F → Endpoint F
  post_evidence d given r = with_id given λ id. with_body d.evidence_input r λ input.
      answered (add_evidence r.context (actor r) id input) (λ v. write_value 201 (Value.evidence v))

module _ {F : Type 0} ⦃fl : Float F⦄ where
  unfoldable pub post_telemetry : Decoders F → Endpoint F
  post_telemetry d id r = with_body d.telemetry_batch r λ batch.
      answered (ingest_telemetry r.context (actor r) batch)
        (λ n. write_value 202 (Value.accepted n))
