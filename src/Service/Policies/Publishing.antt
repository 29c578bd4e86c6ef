-- ===== src/Service/Policies/Publishing.antt =====
-- The version that `PublishPolicy` of policies.go demands.
use orbit_telemetry_orchestr.Prelude.{
  String, ◌≡◌, ◌≢◌, inl, inr, true, false, Bool-cases, some, arith, ◌<ℤ◌, lookup, ok, Result-cases,
  Time, ◌+◌,
}
use orbit_telemetry_orchestr.Domain.Policy.{CollectionPolicy, active_at, publish, policy_status_eq}
use orbit_telemetry_orchestr.Store.Policies.{get_policy, active_policy}
use orbit_telemetry_orchestr.Store.Policies.Newest.{
  active_policy_newest, active_policy_none, active_policy_cases,
}
use orbit_telemetry_orchestr.Service.{App, live, ensure_context, now}
use orbit_telemetry_orchestr.Service.Policies.{publish_policy, is_superseded}

module _ {F : Type 0} where
  publish_keeps :
      (d : CollectionPolicy F) (t : Time) {p : CollectionPolicy F}
      → publish d t ≡ ok p
      → (p.device_id ≡ d.device_id) × (p.version ≡ d.version)
  unfolding publish
  publish_keeps d t h = ground arith

  published_lem :
      (a : App F) (actor id : String) {p : CollectionPolicy F}
      → (publish_policy live actor id a).0 ≡ ok p
      → (is_superseded (active_policy a.repository p.device_id (a.clock a.reads)) p.version ≡ false)
  unfolding publish_policy ensure_context now
  published_lem a actor id {p} h = elim (Result-cases (get_policy a.repository id)) [
    | inr (e, got) ↦ absurd (ground arith)
    | inl (d, got) ↦
        elim (Bool-cases
          (is_superseded (active_policy a.repository d.device_id (a.clock a.reads)) d.version)) [
            | inl old ↦ absurd (ground arith)
            | inr newer ↦ elim (Result-cases (publish d (a.clock (a.reads + 1)))) [
              | inr (e, refused) ↦ absurd (ground arith)
              | inl (q, made) ↦ ground (arith, publish_keeps d _ made)
            ]
          ]
  ]

  -- A policy of a device with an id is published only if its version is above that of every stored
  -- policy of the device that is in force at the time of the request.
  pub publish_policy_newest :
      (a : App F) (actor id : String) {p : CollectionPolicy F}
      → p.device_id ≢ ""
      → (publish_policy live actor id a).0 ≡ ok p
      → (other : String) (q : CollectionPolicy F) → lookup other a.repository.policies ≡ some q
      → q.device_id ≡ p.device_id
      → active_at q (a.clock a.reads) ≡ true
      → (q.version <ℤ p.version) ≡ true
  publish_policy_newest a actor id {p} named h other q stored same force =
      let m = a.repository in
      let t = a.clock a.reads in
      elim (active_policy_cases m p.device_id t) [
        | inr none_found ↦
            absurd
              (ground (arith, active_policy_none m p.device_id t none_found other q stored same))
        | inl (current, found) ↦
            let newest =
              (active_policy_newest m p.device_id t {p = current} named found).2 other q stored same
                force in
            ground (arith, published_lem a actor id {p = p} h)
      ]
