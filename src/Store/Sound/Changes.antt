-- ===== src/Store/Sound/Changes.antt =====
-- One entry of the repository replaced or added, and what stays sound.
use orbit_telemetry_orchestr.Prelude.{
  ◌≡◌, refl, List, All, Float, insert, insert-HasKeys, ◌≤◌, length,
}
use orbit_telemetry_orchestr.Domain.Device.{Device}
use orbit_telemetry_orchestr.Domain.Stream.{TelemetryStream}
use orbit_telemetry_orchestr.Domain.Policy.{CollectionPolicy}
use orbit_telemetry_orchestr.Domain.Policy.Rules.{IsSound}
use orbit_telemetry_orchestr.Domain.Telemetry.{Sample}
use orbit_telemetry_orchestr.Domain.Anomaly.{Anomaly}
use orbit_telemetry_orchestr.Domain.Incident.{Incident}
use orbit_telemetry_orchestr.Domain.Incident.Invariant
use orbit_telemetry_orchestr.Domain.Incident.Invariant.{IsSeverity}
use orbit_telemetry_orchestr.Domain.Action.{ResponseAction}
use orbit_telemetry_orchestr.Domain.Evidence.{Evidence}
use orbit_telemetry_orchestr.Store.{Memory}
use orbit_telemetry_orchestr.Store.Samples.{max_samples}
use orbit_telemetry_orchestr.Store.Actions.Idempotency.{Inv}
use orbit_telemetry_orchestr.Store.Sound.{Holds, insert-Holds, Bounded, Sound, Inv-same}

module _ {F : Type 0} ⦃fl : Float F⦄ where
  pub with_device :
      (d : Device) (m : Memory F) → Sound m → Sound (record m { devices = insert d.id d m.devices })
  with_device d m s = record {
    devices_sound = insert-Holds _ d.id d m.devices refl s.devices_sound;
    streams_sound = s.streams_sound;
    policies_sound = s.policies_sound;
    policies_keyed = s.policies_keyed;
    samples_bounded = s.samples_bounded;
    anomalies_sound = s.anomalies_sound;
    incidents_sound = s.incidents_sound;
    incidents_keyed = s.incidents_keyed;
    actions_bounded = s.actions_bounded;
    actions_indexed = Inv-same m _ refl refl s.actions_indexed;
    evidence_sound = s.evidence_sound;
  }

  pub with_stream :
      (t : TelemetryStream) (m : Memory F)
      → Sound m
      → Sound (record m { streams = insert t.id t m.streams })
  with_stream t m s = record {
    devices_sound = s.devices_sound;
    streams_sound = insert-Holds _ t.id t m.streams refl s.streams_sound;
    policies_sound = s.policies_sound;
    policies_keyed = s.policies_keyed;
    samples_bounded = s.samples_bounded;
    anomalies_sound = s.anomalies_sound;
    incidents_sound = s.incidents_sound;
    incidents_keyed = s.incidents_keyed;
    actions_bounded = s.actions_bounded;
    actions_indexed = Inv-same m _ refl refl s.actions_indexed;
    evidence_sound = s.evidence_sound;
  }

  pub with_policy :
      (p : CollectionPolicy F) (m : Memory F)
      → All IsSound p.rules
      → Sound m
      → Sound (record m { policies = insert p.id p m.policies })
  with_policy p m h s = record {
    devices_sound = s.devices_sound;
    streams_sound = s.streams_sound;
    policies_sound = insert-Holds _ p.id p m.policies (refl, h) s.policies_sound;
    policies_keyed = insert-HasKeys p.id p m.policies s.policies_keyed;
    samples_bounded = s.samples_bounded;
    anomalies_sound = s.anomalies_sound;
    incidents_sound = s.incidents_sound;
    incidents_keyed = s.incidents_keyed;
    actions_bounded = s.actions_bounded;
    actions_indexed = Inv-same m _ refl refl s.actions_indexed;
    evidence_sound = s.evidence_sound;
  }

  pub with_anomaly :
      (x : Anomaly F) (m : Memory F)
      → IsSeverity x.severity
      → Sound m
      → Sound (record m { anomalies = insert x.id x m.anomalies })
  with_anomaly x m h s = record {
    devices_sound = s.devices_sound;
    streams_sound = s.streams_sound;
    policies_sound = s.policies_sound;
    policies_keyed = s.policies_keyed;
    samples_bounded = s.samples_bounded;
    anomalies_sound = insert-Holds _ x.id x m.anomalies (refl, h) s.anomalies_sound;
    incidents_sound = s.incidents_sound;
    incidents_keyed = s.incidents_keyed;
    actions_bounded = s.actions_bounded;
    actions_indexed = Inv-same m _ refl refl s.actions_indexed;
    evidence_sound = s.evidence_sound;
  }

  pub with_incident :
      (i : Incident) (m : Memory F)
      → Invariant.Inv i
      → Sound m
      → Sound (record m { incidents = insert i.id i m.incidents })
  with_incident i m h s = record {
    devices_sound = s.devices_sound;
    streams_sound = s.streams_sound;
    policies_sound = s.policies_sound;
    policies_keyed = s.policies_keyed;
    samples_bounded = s.samples_bounded;
    anomalies_sound = s.anomalies_sound;
    incidents_sound = insert-Holds _ i.id i m.incidents (refl, h) s.incidents_sound;
    incidents_keyed = insert-HasKeys i.id i m.incidents s.incidents_keyed;
    actions_bounded = s.actions_bounded;
    actions_indexed = Inv-same m _ refl refl s.actions_indexed;
    evidence_sound = s.evidence_sound;
  }

  pub with_evidence :
      (e : Evidence) (m : Memory F)
      → Sound m
      → Sound (record m { evidence = insert e.id e m.evidence })
  with_evidence e m s = record {
    devices_sound = s.devices_sound;
    streams_sound = s.streams_sound;
    policies_sound = s.policies_sound;
    policies_keyed = s.policies_keyed;
    samples_bounded = s.samples_bounded;
    anomalies_sound = s.anomalies_sound;
    incidents_sound = s.incidents_sound;
    incidents_keyed = s.incidents_keyed;
    actions_bounded = s.actions_bounded;
    actions_indexed = Inv-same m _ refl refl s.actions_indexed;
    evidence_sound = insert-Holds _ e.id e m.evidence refl s.evidence_sound;
  }

  pub with_samples :
      (samples : List (Sample F)) (m : Memory F)
      → length samples ≤ max_samples
      → Sound m
      → Sound (record m { samples = samples })
  with_samples samples m h s = record {
    devices_sound = s.devices_sound;
    streams_sound = s.streams_sound;
    policies_sound = s.policies_sound;
    policies_keyed = s.policies_keyed;
    samples_bounded = h;
    anomalies_sound = s.anomalies_sound;
    incidents_sound = s.incidents_sound;
    incidents_keyed = s.incidents_keyed;
    actions_bounded = s.actions_bounded;
    actions_indexed = Inv-same m _ refl refl s.actions_indexed;
    evidence_sound = s.evidence_sound;
  }

  -- The actions change with their index.
  pub with_actions :
      (m m' : Memory F)
      → m' ≡ record m { actions = m'.actions; idempotency = m'.idempotency }
      → Holds (λ id (a : ResponseAction). Bounded a) m'.actions
      → Inv m'
      → Sound m
      → Sound m'
  with_actions m m' same bounded indexed s =
      rw same (rebuilt bounded (Inv-same m' _ refl refl indexed))
    where
      rebuilt :
          Holds (λ id (a : ResponseAction). Bounded a) m'.actions
          → Inv (record m { actions = m'.actions; idempotency = m'.idempotency })
          → Sound (record m { actions = m'.actions; idempotency = m'.idempotency })
      rebuilt b v = record {
        devices_sound = s.devices_sound;
        streams_sound = s.streams_sound;
        policies_sound = s.policies_sound;
        policies_keyed = s.policies_keyed;
        samples_bounded = s.samples_bounded;
        anomalies_sound = s.anomalies_sound;
        incidents_sound = s.incidents_sound;
        incidents_keyed = s.incidents_keyed;
        actions_bounded = b;
        actions_indexed = v;
        evidence_sound = s.evidence_sound;
      }
