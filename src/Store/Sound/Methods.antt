-- ===== src/Store/Sound/Methods.antt =====
-- The methods of memory.go that write, against the invariant of the repository.
use orbit_telemetry_orchestr.Prelude.{
  ◌≡◌, refl, inl, inr, some, List, arith, string_eq, ℤ, All, Float, lookup, is_some, Option-cases,
  Bool-cases,
}
use orbit_telemetry_orchestr.Domain.Device.{Device}
use orbit_telemetry_orchestr.Domain.Stream.{TelemetryStream}
use orbit_telemetry_orchestr.Domain.Policy.{CollectionPolicy}
use orbit_telemetry_orchestr.Domain.Policy.Rules.{IsSound}
use orbit_telemetry_orchestr.Domain.Telemetry.{Sample}
use orbit_telemetry_orchestr.Domain.Anomaly.{Anomaly}
use orbit_telemetry_orchestr.Domain.Incident.{Incident}
use orbit_telemetry_orchestr.Domain.Incident.Invariant
use orbit_telemetry_orchestr.Domain.Incident.Invariant.{IsSeverity}
use orbit_telemetry_orchestr.Domain.Action.{ResponseAction}
use orbit_telemetry_orchestr.Domain.Evidence.{Evidence}
use orbit_telemetry_orchestr.Store.{Memory, is_stale}
use orbit_telemetry_orchestr.Store.Devices.{put_device, update_device, put_stream, update_stream}
use orbit_telemetry_orchestr.Store.Policies.{put_policy, update_policy}
use orbit_telemetry_orchestr.Store.Samples.{add_samples}
use orbit_telemetry_orchestr.Store.Samples.Bounds.{add_samples_lem}
use orbit_telemetry_orchestr.Store.Incidents.{
  put_anomaly, update_anomaly, put_incident, update_incident,
}
use orbit_telemetry_orchestr.Store.Actions.{put_action, update_action, put_evidence}
use orbit_telemetry_orchestr.Store.Actions.Idempotency.{
  put_action_ok, inserted-Inv, update_action-Inv,
}
use orbit_telemetry_orchestr.Store.Sound.{insert-Holds, Bounded, Sound}
use orbit_telemetry_orchestr.Store.Sound.Changes.{
  with_device, with_stream, with_policy, with_anomaly, with_incident, with_evidence, with_samples,
  with_actions,
}

module _ {F : Type 0} ⦃fl : Float F⦄ where
  pub put_device-Sound : (d : Device) (m : Memory F) → Sound m → Sound (put_device d m).1
  unfolding put_device
  put_device-Sound d m s = elim (Bool-cases (is_some (lookup d.id m.devices))) [
    | inl old ↦ rw old s
    | inr new ↦ rw new (with_device d m s)
  ]

  pub update_device-Sound :
      (d : Device) (expected : ℤ) (m : Memory F) → Sound m → Sound (update_device d expected m).1
  unfolding update_device
  update_device-Sound d expected m s = elim (Option-cases (lookup d.id m.devices)) [
    | inl missing ↦ rw (missing, update_device) s
    | inr (current, found) ↦ elim (Bool-cases (is_stale current.version expected)) [
      | inl stale ↦ rw (found, update_device) (rw stale s)
      | inr fresh ↦ rw (found, update_device) (rw fresh (with_device d m s))
    ]
  ]

  pub put_stream-Sound : (t : TelemetryStream) (m : Memory F) → Sound m → Sound (put_stream t m).1
  unfolding put_stream
  put_stream-Sound t m s = elim (Bool-cases (is_some (lookup t.id m.streams))) [
    | inl old ↦ rw old s
    | inr new ↦ rw new (with_stream t m s)
  ]

  pub update_stream-Sound :
      (t : TelemetryStream) (expected : ℤ) (m : Memory F)
      → Sound m
      → Sound (update_stream t expected m).1
  unfolding update_stream
  update_stream-Sound t expected m s = elim (Option-cases (lookup t.id m.streams)) [
    | inl missing ↦ rw (missing, update_stream) s
    | inr (current, found) ↦ elim (Bool-cases (is_stale current.version expected)) [
      | inl stale ↦ rw (found, update_stream) (rw stale s)
      | inr fresh ↦ rw (found, update_stream) (rw fresh (with_stream t m s))
    ]
  ]

  pub put_policy-Sound :
      (p : CollectionPolicy F) (m : Memory F)
      → All IsSound p.rules
      → Sound m
      → Sound (put_policy p m).1
  unfolding put_policy
  put_policy-Sound p m h s = elim (Bool-cases (is_some (lookup p.id m.policies))) [
    | inl old ↦ rw old s
    | inr new ↦ rw new (with_policy p m h s)
  ]

  pub update_policy-Sound :
      (p : CollectionPolicy F) (expected : ℤ) (m : Memory F)
      → All IsSound p.rules
      → Sound m
      → Sound (update_policy p expected m).1
  unfolding update_policy
  update_policy-Sound p expected m h s = elim (Option-cases (lookup p.id m.policies)) [
    | inl missing ↦ rw (missing, update_policy) s
    | inr (current, found) ↦ elim (Bool-cases (is_stale current.version expected)) [
      | inl stale ↦ rw (found, update_policy) (rw stale s)
      | inr fresh ↦ rw (found, update_policy) (rw fresh (with_policy p m h s))
    ]
  ]

  pub put_anomaly-Sound :
      (x : Anomaly F) (m : Memory F) → IsSeverity x.severity → Sound m → Sound (put_anomaly x m).1
  unfolding put_anomaly
  put_anomaly-Sound x m h s = elim (Bool-cases (is_some (lookup x.id m.anomalies))) [
    | inl old ↦ rw old s
    | inr new ↦ rw new (with_anomaly x m h s)
  ]

  pub update_anomaly-Sound :
      (x : Anomaly F) (m : Memory F)
      → IsSeverity x.severity
      → Sound m
      → Sound (update_anomaly x m).1
  unfolding update_anomaly
  update_anomaly-Sound x m h s = elim (Bool-cases (is_some (lookup x.id m.anomalies))) [
    | inl there ↦ rw there (with_anomaly x m h s)
    | inr missing ↦ rw missing s
  ]

  pub put_incident-Sound :
      (i : Incident) (m : Memory F) → Invariant.Inv i → Sound m → Sound (put_incident i m).1
  unfolding put_incident
  put_incident-Sound i m h s = elim (Bool-cases (is_some (lookup i.id m.incidents))) [
    | inl old ↦ rw old s
    | inr new ↦ rw new (with_incident i m h s)
  ]

  pub update_incident-Sound :
      (i : Incident) (m : Memory F) → Invariant.Inv i → Sound m → Sound (update_incident i m).1
  unfolding update_incident
  update_incident-Sound i m h s = elim (Bool-cases (is_some (lookup i.id m.incidents))) [
    | inl there ↦ rw there (with_incident i m h s)
    | inr missing ↦ rw missing s
  ]

  pub put_evidence-Sound : (e : Evidence) (m : Memory F) → Sound m → Sound (put_evidence e m).1
  unfolding put_evidence
  put_evidence-Sound e m s = elim (Bool-cases (is_some (lookup e.id m.evidence))) [
    | inl old ↦ rw old s
    | inr new ↦ rw new (with_evidence e m s)
  ]

  pub add_samples-Sound : (xs : List (Sample F)) (m : Memory F) → Sound m → Sound (add_samples xs m)
  unfolding add_samples
  add_samples-Sound xs m s = with_samples _ m (omega (arith, (add_samples_lem m xs).0)) s

  pub put_action-Sound :
      (a : ResponseAction) (m : Memory F) → Bounded a → Sound m → Sound (put_action a m).1
  put_action-Sound a m b s = elim (put_action_ok a m) [
    | inr same ↦ rw same s
    | inl (fresh, free, stored) ↦ rw stored (
        with_actions m _ refl (insert-Holds _ a.id a m.actions b s.actions_bounded)
          (inserted-Inv a m s.actions_indexed fresh free) s)
  ]

  pub update_action-Sound :
      (a : ResponseAction) (m : Memory F)
      → Bounded a
      → ((old : ResponseAction)
          → lookup a.id m.actions ≡ some old
          → a.idempotency ≡ old.idempotency)
      → Sound m
      → Sound (update_action a m).1
  update_action-Sound a m b same s = elim (Bool-cases (is_some (lookup a.id m.actions))) [
    | inr missing ↦ unfold update_action in rw missing s
    | inl there ↦
        with_actions m (update_action a m).1 (unfold update_action in rw there refl)
          (unfold update_action in rw there (insert-Holds _ a.id a m.actions b s.actions_bounded))
          (update_action-Inv a m s.actions_indexed same) s
  ]
