-- ===== src/Http/Posting.antt =====
-- The endpoints that write, against the invariant of the repository.
use orbit_telemetry_orchestr.Prelude.{String, Float}
use orbit_telemetry_orchestr.Service.Contracts.{Stored}
use orbit_telemetry_orchestr.Store.Sound.{Sound}
use orbit_telemetry_orchestr.Service.Soundness.Devices.{
  create_device-Keeps, transition_device-Keeps, create_stream-Keeps, transition_stream-Keeps,
}
use orbit_telemetry_orchestr.Service.Soundness.Policies.{
  create_policy-Keeps, publish_policy-Keeps, lock_policy-Keeps,
}
use orbit_telemetry_orchestr.Service.Soundness.Actions.{
  create_action-Keeps, execute_action-Keeps, cancel_action-Keeps,
}
use orbit_telemetry_orchestr.Service.Soundness.Incidents.{
  transition_incident-Keeps, add_evidence-Keeps,
}
use orbit_telemetry_orchestr.Service.Soundness.Telemetry.{ingest_telemetry-Keeps}
use orbit_telemetry_orchestr.Http.{Request, Decoders}
use orbit_telemetry_orchestr.Http.Endpoints
use orbit_telemetry_orchestr.Http.Endpoints.Incidents
use orbit_telemetry_orchestr.Http.Endpoints.{Endpoint}
use orbit_telemetry_orchestr.Http.Serving.{
  Holding, answered-Holding, with_id-Holding, with_body-Holding,
}

ruleset serving_rules = (answered-Holding, with_id-Holding, with_body-Holding)

module _ {F : Type 0} ⦃fl : Float F⦄ where
  abbrev Held : Endpoint F → Type 0
  Held e = (given : String) (r : Request) → Holding (Stored Sound) (e given r)

  pub post_device-Held : (d : Decoders F) → Held (Endpoints.post_device d)
  unfolding Endpoints.post_device
  post_device-Held d given r = search (serving_rules, create_device-Keeps) depth 9

  pub move_device-Held : (d : Decoders F) → Held (Endpoints.move_device d)
  unfolding Endpoints.move_device
  move_device-Held d given r = search (serving_rules, transition_device-Keeps) depth 9

  pub post_stream-Held : (d : Decoders F) → Held (Endpoints.post_stream d)
  unfolding Endpoints.post_stream
  post_stream-Held d given r = search (serving_rules, create_stream-Keeps) depth 9

  pub move_stream-Held : (d : Decoders F) → Held (Endpoints.move_stream d)
  unfolding Endpoints.move_stream
  move_stream-Held d given r = search (serving_rules, transition_stream-Keeps) depth 9

  pub post_policy-Held : (d : Decoders F) → Held (Endpoints.post_policy d)
  unfolding Endpoints.post_policy
  post_policy-Held d given r = search (serving_rules, create_policy-Keeps) depth 9

  pub post_publish-Held : Held Endpoints.post_publish
  unfolding Endpoints.post_publish
  post_publish-Held given r = search (serving_rules, publish_policy-Keeps) depth 9

  pub post_lock-Held : Held Endpoints.post_lock
  unfolding Endpoints.post_lock
  post_lock-Held given r = search (serving_rules, lock_policy-Keeps) depth 9

  pub post_telemetry-Held : (d : Decoders F) → Held (Incidents.post_telemetry d)
  unfolding Incidents.post_telemetry
  post_telemetry-Held d given r = search (serving_rules, ingest_telemetry-Keeps) depth 9

  pub move_incident-Held : (d : Decoders F) → Held (Incidents.move_incident d)
  unfolding Incidents.move_incident
  move_incident-Held d given r = search (serving_rules, transition_incident-Keeps) depth 9

  pub post_action-Held : (d : Decoders F) → Held (Incidents.post_action d)
  unfolding Incidents.post_action
  post_action-Held d given r = search (serving_rules, create_action-Keeps) depth 9

  pub post_evidence-Held : (d : Decoders F) → Held (Incidents.post_evidence d)
  unfolding Incidents.post_evidence
  post_evidence-Held d given r = search (serving_rules, add_evidence-Keeps) depth 9

  pub post_execute-Held : Held Incidents.post_execute
  unfolding Incidents.post_execute
  post_execute-Held given r = search (serving_rules, execute_action-Keeps) depth 9

  pub post_cancel-Held : Held Incidents.post_cancel
  unfolding Incidents.post_cancel
  post_cancel-Held given r = search (serving_rules, cancel_action-Keeps) depth 9
