-- ===== src/Http/Reads.antt =====
-- The endpoints of `GET`, as steps that read the clock or subscribe to the bus.
use orbit_telemetry_orchestr.Prelude.{ℕ, ◌+◌, String, Float, Result, string_eq}
use orbit_telemetry_orchestr.Prelude.Exec.{Exec}
use orbit_telemetry_orchestr.Events.{Bus}
use orbit_telemetry_orchestr.Store.{Memory}
use orbit_telemetry_orchestr.Service.{App, Context, nil, live, done, ensure_context, now, query}
use orbit_telemetry_orchestr.Service.Devices.{get_device_by_id, devices_listed}
use orbit_telemetry_orchestr.Service.Streams.{get_stream_by_id, streams_listed}
use orbit_telemetry_orchestr.Service.Policies.{get_policy_by_id, policies_listed}
use orbit_telemetry_orchestr.Service.Telemetry.{samples_of}
use orbit_telemetry_orchestr.Service.Incidents.{
  anomalies_listed, incidents_listed, search_incidents, get_incident_by_id,
}
use orbit_telemetry_orchestr.Service.Actions.{get_action_by_id, actions_listed}
use orbit_telemetry_orchestr.Service.Evidence.{evidence_listed}
use orbit_telemetry_orchestr.Service.Report
use orbit_telemetry_orchestr.Service.Report.{timeline}
use orbit_telemetry_orchestr.Service.Jobs.{stats}
use orbit_telemetry_orchestr.Service.Contracts.{
  Meets, Anything, then-Meets, if-Meets, any_return-Meets, any_lift-Meets, any_reads-Meets,
}
use orbit_telemetry_orchestr.Http.{Request}
use orbit_telemetry_orchestr.Http.Endpoints
use orbit_telemetry_orchestr.Http.Endpoints.Incidents
use orbit_telemetry_orchestr.Http.Endpoints.{Endpoint}
use orbit_telemetry_orchestr.Http.Serving.{Holding, answered-Holding, with_id-Holding}

-- The property does not look at the readings of the clock nor at the bus.
abbrev pub Blind : {F : Type 0} → (App F → Type 0) → Type 0
Blind {F} P = (a : App F) (n : ℕ) (b : Bus) → P a → P (record a { reads = n; bus = b })

module _ {F : Type 0} (P : App F → Type 0) (blind : Blind P) where
  abbrev pub Quiet : {A : Type 0} → Exec (App F) A → Type 0
  Quiet m = Meets P Anything m

  ensure_context-Quiet : (ctx : Context) → Quiet (ensure_context ctx)
  unfolding ensure_context
  ensure_context-Quiet nil = any_lift-Meets _
  ensure_context-Quiet live = any_return-Meets _
  ensure_context-Quiet done = any_lift-Meets _

  now-Quiet : Quiet now
  unfolding now
  now-Quiet = record { keeps = λ a p. blind a (a.reads + 1) a.bus p; gives = λ a p x e. tt }

  query-Quiet : {A : Type 0} (f : Memory F → Result A) → Quiet (query f)
  query-Quiet f = any_reads-Meets (λ a. f a.repository)

ruleset reading_rules = (
  answered-Holding, with_id-Holding, then-Meets, if-Meets, ensure_context-Quiet, now-Quiet,
  query-Quiet, any_return-Meets, any_reads-Meets,
)

module _ {F : Type 0} (P : App F → Type 0) where
  -- The endpoint keeps the property.
  abbrev pub Read : Endpoint F → Type 0
  Read e = (given : String) (r : Request) → Holding P (e given r)

module _ {F : Type 0} (P : App F → Type 0) (blind : Blind P) where
  pub health-Read : Read P Endpoints.health
  unfolding Endpoints.health
  health-Read given r = search (reading_rules) depth 12

  pub get_stats-Read : Read P Endpoints.get_stats
  unfolding Endpoints.get_stats stats
  get_stats-Read given r = search (reading_rules) depth 12

  pub list_devices-Read : Read P Endpoints.list_devices
  unfolding Endpoints.list_devices devices_listed
  list_devices-Read given r = search (reading_rules) depth 12

  pub get_device-Read : Read P Endpoints.get_device
  unfolding Endpoints.get_device get_device_by_id
  get_device-Read given r = search (reading_rules) depth 12

  pub list_streams-Read : Read P Endpoints.list_streams
  unfolding Endpoints.list_streams streams_listed
  list_streams-Read given r = search (reading_rules) depth 12

  pub get_stream-Read : Read P Endpoints.get_stream
  unfolding Endpoints.get_stream get_stream_by_id
  get_stream-Read given r = search (reading_rules) depth 12

  pub list_policies-Read : Read P Endpoints.list_policies
  unfolding Endpoints.list_policies policies_listed
  list_policies-Read given r = search (reading_rules) depth 12

  pub get_policy-Read : Read P Endpoints.get_policy
  unfolding Endpoints.get_policy get_policy_by_id
  get_policy-Read given r = search (reading_rules) depth 12

  pub list_anomalies-Read : Read P Incidents.list_anomalies
  unfolding Incidents.list_anomalies anomalies_listed
  list_anomalies-Read given r = search (reading_rules) depth 12

  pub list_incidents-Read : Read P Incidents.list_incidents
  unfolding Incidents.list_incidents incidents_listed search_incidents
  list_incidents-Read given r = search (reading_rules) depth 12

  pub get_incident-Read : Read P Incidents.get_incident
  unfolding Incidents.get_incident get_incident_by_id
  get_incident-Read given r = search (reading_rules) depth 12

  pub get_timeline-Read : Read P Incidents.get_timeline
  unfolding Incidents.get_timeline timeline get_incident_by_id evidence_listed actions_listed
  get_timeline-Read given r = search (reading_rules) depth 12

  pub list_actions-Read : Read P Incidents.list_actions
  unfolding Incidents.list_actions actions_listed
  list_actions-Read given r = search (reading_rules) depth 12

  pub get_action-Read : Read P Incidents.get_action
  unfolding Incidents.get_action get_action_by_id
  get_action-Read given r = search (reading_rules) depth 12

  pub list_evidence-Read : Read P Incidents.list_evidence
  unfolding Incidents.list_evidence evidence_listed
  list_evidence-Read given r = search (reading_rules) depth 12

  pub ready-Read : Read P Endpoints.ready
  unfolding Endpoints.ready
  ready-Read given r a p = p

  pub list_audit-Read : Read P Endpoints.list_audit
  unfolding Endpoints.list_audit
  list_audit-Read given r a p = p

  pub events_stream-Read : Read P Endpoints.events_stream
  unfolding Endpoints.events_stream
  events_stream-Read given r a p = blind a a.reads _ p

module _ {F : Type 0} ⦃fl : Float F⦄ (P : App F → Type 0) (blind : Blind P) where
  pub metrics-Read : Read P Endpoints.metrics
  unfolding Endpoints.metrics
  metrics-Read given r a p = p

  pub get_report-Read : Read P Endpoints.get_report
  unfolding Endpoints.get_report Report.report
  get_report-Read given r = search (reading_rules) depth 12

  pub list_samples-Read : Read P Endpoints.list_samples
  unfolding Endpoints.list_samples samples_of
  list_samples-Read given r = search (reading_rules) depth 12
