-- ===== src/Store.antt =====
-- internal/store/memory.go: the repository. Every method holds the lock for its whole body, so each
-- is one step on the state; `F` is `float64`.
pub mod Sound
pub mod Devices
pub mod Policies
pub mod Samples
pub mod Incidents
pub mod Actions
use orbit_telemetry_orchestr.Prelude.{
  String, List, [], Dict, ℕ, ℤ, pos, ltb, ◌<ℤ◌, ◌&&◌, ◌||◌, ◌==◌, ◌!=◌, string_eq, int_eq, Bool,
  if◌then◌else◌, length, take, Result, pos_part,
}
use orbit_telemetry_orchestr.Domain.Device.{Device}
use orbit_telemetry_orchestr.Domain.Stream.{TelemetryStream}
use orbit_telemetry_orchestr.Domain.Policy.{CollectionPolicy}
use orbit_telemetry_orchestr.Domain.Telemetry.{Sample}
use orbit_telemetry_orchestr.Domain.Anomaly.{Anomaly}
use orbit_telemetry_orchestr.Domain.Incident.{Incident}
use orbit_telemetry_orchestr.Domain.Action.{ResponseAction}
use orbit_telemetry_orchestr.Domain.Evidence.{Evidence}

pub record Memory (F : Type 0) : Type 0 where
  pub devices : Dict Device
  pub streams : Dict TelemetryStream
  pub policies : Dict (CollectionPolicy F)
  pub samples : List (Sample F)
  pub anomalies : Dict (Anomaly F)
  pub incidents : Dict Incident
  pub actions : Dict ResponseAction
  pub evidence : Dict Evidence
  pub idempotency : Dict String

unfoldable pub new_memory : {F : Type 0} → Memory F
new_memory = record {
  devices = [];
  streams = [];
  policies = [];
  samples = [];
  anomalies = [];
  incidents = [];
  actions = [];
  evidence = [];
  idempotency = [];
}

-- A method that changes the repository: its error or success, and the repository after it.
abbrev pub Update : Type 0 → Type 0
Update F = Memory F → Result (Unit {0}) × Memory F

-- `limit` is an `int` at least 1 where the slice is cut.
unfoldable pub cap_list : {A : Type 0} → List A → ℤ → List A
cap_list xs limit =
    if (pos 0 <ℤ limit) && ltb (pos_part limit) (length xs) then take (pos_part limit) xs else xs

-- `expected > 0 && current.Version != expected`
abbrev pub is_stale : ℤ → ℤ → Bool
is_stale current expected = (pos 0 <ℤ expected) && (current != expected)

-- The filters by a device's or an incident's id: any where the text is empty.
abbrev pub matches_id : String → String → Bool
matches_id wanted id = wanted == "" || id == wanted
