-- ===== src/Store/Sound.antt =====
-- The invariant of the repository of memory.go.
pub mod Changes
pub mod Methods
use orbit_telemetry_orchestr.Prelude.{
  ℕ, ◌≤◌, String, ◌≡◌, refl, sym, ◌∙◌, ◌⊎◌, inl, inr, Bool, true, false, Option, none, some, List,
  [], ◌∷◌, arith, eq_iff, ◌==◌, string_eq, if◌then◌else◌, ℤ, ◌<ℤ◌, Dict, lookup, insert,
  lookup-insert, is_some, All, HasKeys, length, Float, Option-cases, Bool-cases, Result, ok, err,
  subst,
}
use orbit_telemetry_orchestr.Domain.Device.{Device}
use orbit_telemetry_orchestr.Domain.Stream.{TelemetryStream}
use orbit_telemetry_orchestr.Domain.Policy.{CollectionPolicy}
use orbit_telemetry_orchestr.Domain.Policy.Rules.{IsSound}
use orbit_telemetry_orchestr.Domain.Telemetry.{Sample}
use orbit_telemetry_orchestr.Domain.Anomaly.{Anomaly}
use orbit_telemetry_orchestr.Domain.Incident.{Incident}
use orbit_telemetry_orchestr.Domain.Incident.Invariant
use orbit_telemetry_orchestr.Domain.Incident.Invariant.{IsSeverity}
use orbit_telemetry_orchestr.Domain.Action.{ResponseAction}
use orbit_telemetry_orchestr.Domain.Evidence.{Evidence}
use orbit_telemetry_orchestr.Store.{Memory, new_memory, is_stale}
use orbit_telemetry_orchestr.Store.Devices.{put_device, update_device, put_stream, update_stream}
use orbit_telemetry_orchestr.Store.Policies.{put_policy, update_policy}
use orbit_telemetry_orchestr.Store.Samples.{max_samples, add_samples}
use orbit_telemetry_orchestr.Store.Samples.Bounds.{add_samples_lem}
use orbit_telemetry_orchestr.Store.Incidents.{
  put_anomaly, update_anomaly, put_incident, update_incident,
}
use orbit_telemetry_orchestr.Store.Actions.{put_action, update_action, put_evidence}
use orbit_telemetry_orchestr.Store.Actions.Idempotency.{
  Inv, new_memory-Inv, put_action-Inv, update_action-Inv,
}

-- Every value that the map leads to has the property, which may name its key.
abbrev pub Holds : {V : Type 0} → (String → V → Type 0) → Dict V → Type 0
Holds {V} P d = (id : String) (v : V) → lookup id d ≡ some v → P id v

module _ {V : Type 0} (P : String → V → Type 0) where
  pub insert-Holds :
      (key : String) (value : V) (d : Dict V)
      → P key value
      → Holds P d
      → Holds P (insert key value d)
  insert-Holds key value d p h id v found = elim (Bool-cases (key == id)) [
    | inl own ↦
        let same : value ≡ v = ground (arith, lookup-insert key id value d) in
        subst (λ w. P id w) same (subst (λ k. P k value) ((eq_iff key id).0 own) p)
    | inr other ↦ h id v (ground (arith, lookup-insert key id value d))
  ]

-- No attempt beyond the maximum.
abbrev pub Bounded : ResponseAction → Type 0
Bounded a = (a.max_attempts <ℤ a.attempt) ≡ false

module _ {F : Type 0} ⦃fl : Float F⦄ where
  -- Every entry stands under its own id; the rules of a policy validate; an anomaly's severity is 1
  -- to 5; an incident has the invariant of its operations; an action has made no more attempts than
  -- it may; each key of the policies and of the incidents stands once; one action stands for each idempotency key; and at most 10000 samples are kept.
  pub record Sound (m : Memory F) : Type 0 where
    pub devices_sound : Holds (λ id (d : Device). d.id ≡ id) m.devices
    pub streams_sound : Holds (λ id (s : TelemetryStream). s.id ≡ id) m.streams
    pub policies_sound :
        Holds (λ id (p : CollectionPolicy F). (p.id ≡ id) × All IsSound p.rules) m.policies
    pub policies_keyed : HasKeys m.policies
    pub samples_bounded : length m.samples ≤ max_samples
    pub anomalies_sound :
        Holds (λ id (a : Anomaly F). (a.id ≡ id) × IsSeverity a.severity) m.anomalies
    pub incidents_sound : Holds (λ id (i : Incident). (i.id ≡ id) × Invariant.Inv i) m.incidents
    pub incidents_keyed : HasKeys m.incidents
    pub actions_bounded : Holds (λ id (a : ResponseAction). Bounded a) m.actions
    pub actions_indexed : Inv m
    pub evidence_sound : Holds (λ id (e : Evidence). e.id ≡ id) m.evidence

  pub new_memory-Sound : Sound (new_memory {F = F})
  unfolding new_memory lookup
  new_memory-Sound = record {
    devices_sound = λ id d h. ground arith;
    streams_sound = λ id s h. ground arith;
    policies_sound = λ id p h. absurd (ground arith);
    policies_keyed = tt;
    samples_bounded = ground arith;
    anomalies_sound = λ id a h. absurd (ground arith);
    incidents_sound = λ id i h. absurd (ground arith);
    incidents_keyed = tt;
    actions_bounded = λ id a h. ground arith;
    actions_indexed = new_memory-Inv;
    evidence_sound = λ id e h. ground arith;
  }

  -- The index of the actions reads nothing else.
  pub Inv-same :
      (m m' : Memory F) → m'.actions ≡ m.actions → m'.idempotency ≡ m.idempotency → Inv m → Inv m'
  Inv-same m m' same_actions same_index v = record {
    keyed = rw (same_actions) v.keyed;
    indexed = rw (same_actions, same_index) v.indexed;
    backed = rw (same_actions, same_index) v.backed;
  }
