-- ===== src/Http/Endpoints.antt =====
-- The handlers of internal/httpapi: devices.go, streams.go, policies.go and server.go. `id` is the segment of the path that `{id}` matched. The App,
-- the audit log, the metrics and the bus of the server's Config are those of `main`, which are set.
pub mod Incidents
use orbit_telemetry_orchestr.Prelude.{
  ℕ, String, Option, List, ◌==◌, string_eq, if◌then◌else◌, ℤ, pos, lookup, Float, ok, err,
}
use orbit_telemetry_orchestr.Prelude.Exec.{Exec}
use orbit_telemetry_orchestr.Audit.{list_entries}
use orbit_telemetry_orchestr.Events.{subscribe}
use orbit_telemetry_orchestr.Metrics.{prometheus}
use orbit_telemetry_orchestr.Service.{App, now}
use orbit_telemetry_orchestr.Service.Devices.{
  create_device, get_device_by_id, devices_listed, transition_device,
}
use orbit_telemetry_orchestr.Service.Streams.{
  create_stream, get_stream_by_id, streams_listed, transition_stream,
}
use orbit_telemetry_orchestr.Service.Policies.{
  create_policy, get_policy_by_id, policies_listed, publish_policy, lock_policy,
}
use orbit_telemetry_orchestr.Service.Telemetry.{ingest_telemetry, samples_of}
use orbit_telemetry_orchestr.Service.Incidents.{
  anomalies_listed, incidents_listed, search_incidents, get_incident_by_id, transition_incident,
}
use orbit_telemetry_orchestr.Service.Actions.{
  create_action, get_action_by_id, actions_listed, execute_action, cancel_action,
}
use orbit_telemetry_orchestr.Service.Evidence.{add_evidence, evidence_listed}
use orbit_telemetry_orchestr.Service.Report
use orbit_telemetry_orchestr.Service.Report.{timeline}
use orbit_telemetry_orchestr.Service.Jobs.{stats}
use orbit_telemetry_orchestr.Http.{
  Request, Response, Value, Decoders, streaming, text_or_empty, decode, service_limit, path_id,
  actor, write_value, write_items, write_error, write_app_error,
}
use orbit_telemetry_orchestr.Http.Statuses.{
  device_status_of, policy_status_of, anomaly_status_of, incident_status_of, action_status_of,
  filter_of,
}

-- A handler, given the segment of the path for `{id}`, the empty text where the pattern has none.
abbrev pub Endpoint : Type 0 → Type 0
Endpoint F = String → Request → App F → Response F × App F

abbrev pub query_text : Request → String → String
query_text r name = text_or_empty (lookup name r.query)

abbrev pub query_limit : Request → ℤ
query_limit r = service_limit (query_text r "limit") (pos 100)

module _ {F : Type 0} where
  -- `value, err := m(); if err != nil { writeAppError(w, err); return }; …`
  abbrev pub answered :
      {A : Type 0} → Exec (App F) A → (A → Response F) → App F → Response F × App F
  answered m f a = elim (m a).0 [ ok x ↦ (f x, (m a).1) | err e ↦ (write_app_error e, (m a).1) ]

  -- `id, err := pathID(r); if err != nil { writeError(w, http.StatusBadRequest, err); return }; …`
  abbrev pub with_id : String → (String → App F → Response F × App F) → App F → Response F × App F
  with_id given next a = elim (path_id given) [ ok id ↦ next id a | err e ↦ (write_error 400 e, a) ]

  -- `var input T; if !decode(w, r, &input) { return }; …`
  abbrev pub with_body :
      {A : Type 0}
      → (List ℕ → Option A)
      → Request
      → (A → App F → Response F × App F)
      → App F
      → Response F × App F
  with_body decoder r next a = elim (decode decoder r) [
    | ok input ↦ next input a
    | err e ↦ (write_error 400 e, a)
  ]

  unfoldable pub health : Endpoint F
  health id r = answered now (λ t. write_value 200 (Value.healthy t))

  unfoldable pub ready : Endpoint F
  ready id r a = (write_value 200 Value.prepared, a)

  unfoldable pub get_stats : Endpoint F
  get_stats id r = answered (stats r.context) (λ c. write_value 200 (Value.totals c))

  unfoldable pub list_audit : Endpoint F
  list_audit id r a = (
    write_items Value.entry (
        list_entries a.audit (record {
          actor = query_text r "actor";
          action = query_text r "action";
          resource = query_text r "resource";
          limit = query_limit r;
        })),
    a,
  )

  -- The stream lasts until its client leaves, when the subscription is closed.
  unfoldable pub events_stream : Endpoint F
  events_stream id r a = (streaming, record a { bus = subscribe a.bus (query_text r "topic") })

  unfoldable pub list_devices : Endpoint F
  list_devices id r =
      answered
        (devices_listed r.context (filter_of device_status_of (query_text r "status"))
          (query_limit r))
        (write_items Value.device)

  unfoldable pub post_device : Decoders F → Endpoint F
  post_device d id r = with_body d.device_input r λ input.
      answered (create_device r.context (actor r) input) (λ v. write_value 201 (Value.device v))

  unfoldable pub get_device : Endpoint F
  get_device given r =
      with_id given
        λ id. answered (get_device_by_id r.context id) (λ v. write_value 200 (Value.device v))

  unfoldable pub move_device : Decoders F → Endpoint F
  move_device d given r = with_id given λ id. with_body d.device_status r λ status.
      answered (transition_device r.context (actor r) id status)
        (λ v. write_value 200 (Value.device v))

  unfoldable pub list_streams : Endpoint F
  list_streams id r =
      answered (streams_listed r.context (query_text r "device_id") (query_limit r))
        (write_items Value.stream)

  unfoldable pub post_stream : Decoders F → Endpoint F
  post_stream d id r = with_body d.stream_input r λ input.
      answered (create_stream r.context (actor r) input) (λ v. write_value 201 (Value.stream v))

  unfoldable pub get_stream : Endpoint F
  get_stream given r =
      with_id given
        λ id. answered (get_stream_by_id r.context id) (λ v. write_value 200 (Value.stream v))

  unfoldable pub move_stream : Decoders F → Endpoint F
  move_stream d given r = with_id given λ id. with_body d.stream_status r λ status.
      answered (transition_stream r.context (actor r) id status)
        (λ v. write_value 200 (Value.stream v))

  unfoldable pub list_policies : Endpoint F
  list_policies id r =
      answered
        (policies_listed r.context (query_text r "device_id")
          (filter_of policy_status_of (query_text r "status")) (query_limit r))
        (write_items Value.policy)

  unfoldable pub get_policy : Endpoint F
  get_policy given r =
      with_id given
        λ id. answered (get_policy_by_id r.context id) (λ v. write_value 200 (Value.policy v))

  unfoldable pub post_publish : Endpoint F
  post_publish given r =
      with_id given λ id.
        answered (publish_policy r.context (actor r) id) (λ v. write_value 200 (Value.policy v))

  unfoldable pub post_lock : Endpoint F
  post_lock given r =
      with_id given
        λ id. answered (lock_policy r.context (actor r) id) (λ v. write_value 200 (Value.policy v))

module _ {F : Type 0} ⦃fl : Float F⦄ where
  unfoldable pub metrics : Endpoint F
  metrics id r a = (write_value 200 (Value.text (prometheus a.metrics)), a)

  unfoldable pub get_report : Endpoint F
  get_report id r = answered (Report.report r.context) (λ v. write_value 200 (Value.report v))

  unfoldable pub post_policy : Decoders F → Endpoint F
  post_policy d id r = with_body d.policy_input r λ input.
      answered (create_policy r.context (actor r) input) (λ v. write_value 201 (Value.policy v))

  unfoldable pub list_samples : Endpoint F
  list_samples given r =
      with_id given
        λ id. answered (samples_of r.context id (query_limit r)) (write_items Value.sample)
