-- ===== src/Tests/Flows.antt =====
-- Calls of the service over the test data.
use orbit_telemetry_orchestr.Prelude.{
  ℕ, ◌<◌, String, ◌≡◌, refl, ◌⊎◌, true, some, [], ◌∷◌, List, arith, pos, ◌<ℤ◌, ok, err, lookup,
  ◌==◌, string_eq, if◌then◌else◌, length, eq_iff, trim_space, values, insert, sort_slice,
}
use orbit_telemetry_orchestr.Prelude.Errors.{conflict, not_found, publish_blocks}
use orbit_telemetry_orchestr.Domain.Device.{ready, degraded, can_receive_telemetry}
use orbit_telemetry_orchestr.Domain.Device.Lifecycle.{moved, degrade}
use orbit_telemetry_orchestr.Domain.Policy.{CollectionPolicy, published, active_at}
use orbit_telemetry_orchestr.Domain.Telemetry.{Sample, new_sample}
use orbit_telemetry_orchestr.Domain.Incident
use orbit_telemetry_orchestr.Domain.Incident.{Incident, closed}
use orbit_telemetry_orchestr.Domain.Incident.Lifecycle
use orbit_telemetry_orchestr.Domain.Action.{start, finish}
use orbit_telemetry_orchestr.Domain.Action
use orbit_telemetry_orchestr.Store.Incidents.{get_incident, update_incident}
use orbit_telemetry_orchestr.Store.Samples.{add_samples}
use orbit_telemetry_orchestr.Service.{
  live, ensure_context, now, submit_job, record_audit, add_metric, emit,
}
use orbit_telemetry_orchestr.Events.{publish, new_event}
use orbit_telemetry_orchestr.Domain.Stream.{accepts_samples}
use orbit_telemetry_orchestr.Store.Devices.{get_stream, get_device}
use orbit_telemetry_orchestr.Store.Policies.{
  get_policy, active_policy, list_policies, update_policy,
}
use orbit_telemetry_orchestr.Store.{cap_list}
use orbit_telemetry_orchestr.Domain.Policy
use orbit_telemetry_orchestr.Service.Devices.{transition_device}
use orbit_telemetry_orchestr.Service.Devices.Moves.{transition_device_same, transition_device_moves}
use orbit_telemetry_orchestr.Service.Policies.{publish_policy}
use orbit_telemetry_orchestr.Service.Policies.Publishing.{publish_policy_newest}
use orbit_telemetry_orchestr.Service.Incidents.{transition_incident}
use orbit_telemetry_orchestr.Service.Incidents.Closing.{transition_incident_closes}
use orbit_telemetry_orchestr.Service.Actions.{run_action, simulate_action}
use orbit_telemetry_orchestr.Service.Actions.Execution.{run_action_lem}
use orbit_telemetry_orchestr.Service.Telemetry.{TelemetryInput, ingest_telemetry, accept_input}
use orbit_telemetry_orchestr.Service.Telemetry.Ingest.{
  ingest_telemetry_refused, ingest_telemetry_stores, FromBatch,
}
use orbit_telemetry_orchestr.Tests.{
  nat_float, orbit, fleet, probe, first_policy, second_policy, resolved_incident, queued_action,
  reading,
}

transition_device_same_example :
    ((transition_device live "ann" "d1" ready orbit).0 ≡ err conflict)
    × ((transition_device live "ann" "d1" ready orbit).1.repository ≡ fleet)
unfolding lookup
transition_device_same_example = transition_device_same orbit "ann" probe 0 refl refl

transition_device_moves_example :
    let d = moved probe degraded 10 in
    let (r, a) = transition_device live "ann" "d1" degraded orbit in
    ((r ≡ ok d) ⊎ (r ≡ err publish_blocks))
    × ((id : String)
        → lookup id a.repository.devices ≡ (if "d1" == id then some d else lookup id fleet.devices))
unfolding lookup
transition_device_moves_example =
    transition_device_moves orbit "ann" probe degraded refl (omega arith) degrade

-- A reading of a stream that is not stored, behind one that is accepted.
abbrev stray : TelemetryInput ℕ
stray = record reading { stream_id = "s9" }

ingest_telemetry_refused_example :
    (ingest_telemetry live "ann" (reading ∷ stray ∷ []) orbit).1.repository ≡ fleet
unfolding ingest_telemetry ensure_context accept_input lookup get_stream get_device accepts_samples
    can_receive_telemetry new_sample trim_space insert now
ingest_telemetry_refused_example =
    ingest_telemetry_refused live "ann" (reading ∷ stray ∷ []) orbit {e = not_found} refl

ingest_telemetry_stores_example :
    (1 ≡ length (reading ∷ []))
    × ((new : List (Sample ℕ)) × FromBatch fleet (reading ∷ []) new
        × ((ingest_telemetry live "ann" (reading ∷ []) orbit).1.repository.samples
            ≡ (add_samples new fleet).samples))
unfolding ingest_telemetry ensure_context now accept_input lookup get_stream get_device
    accepts_samples can_receive_telemetry new_sample trim_space values insert submit_job
    record_audit add_metric
ingest_telemetry_stores_example = ingest_telemetry_stores "ann" (reading ∷ []) orbit {n = 1} refl

publish_policy_newest_example : (pos 1 <ℤ pos 2) ≡ true
unfolding publish_policy ensure_context get_policy now active_policy list_policies cap_list values
    lookup sort_slice active_at Policy.publish update_policy record_audit emit publish new_event
    insert
publish_policy_newest_example =
    publish_policy_newest orbit "ann" "p2"
      {p = record second_policy { status = published; updated_at = 11 }}
      (λ e. ground (arith, (eq_iff "d1" "").1 e)) refl "p1" first_policy refl refl refl

transition_incident_closes_example :
    (before : Incident) × (get_incident fleet "i1" ≡ ok before)
    × (before.status ≡ Incident.resolved)
    × (0 < length before.evidence_ids)
    × (Lifecycle.moved resolved_incident closed 10 ≡ Lifecycle.moved before closed 10)
unfolding transition_incident ensure_context get_incident lookup Incident.ready_to_close now
    Incident.transition update_incident record_audit emit publish new_event
transition_incident_closes_example =
    transition_incident_closes orbit "ann" "i1" {i = Lifecycle.moved resolved_incident closed 10}
      refl

run_action_lem_example :
    let s = record queued_action { attempt = pos 1; status = Action.running; updated_at = 10 } in
    let x = finish s (simulate_action s).0 (simulate_action s).1 11 in
    let (r, a) = run_action queued_action orbit in
    (r ≡ ok x) × (lookup "r1" a.repository.actions ≡ some x)
unfolding lookup start
run_action_lem_example =
    run_action_lem orbit queued_action
      (record queued_action { attempt = pos 1; status = Action.running; updated_at = 10 }) refl refl
