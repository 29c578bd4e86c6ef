-- ===== src/Tests.antt =====
-- Test data: a small fleet, whose numbers stand for `float64`, and a service over it.
pub mod Lifecycles
pub mod Incidents
pub mod Actions
pub mod Rules
pub mod Storage
pub mod Requests
pub mod Detections
pub mod Buses
pub mod Flows
pub mod Serving
pub mod Reports
use orbit_telemetry_orchestr.Prelude.{
  ℕ, ◌+◌, ◌-◌, ◌/◌, String, true, false, none, some, [], ◌∷◌, arith, leb, ltb, eqb, ℤ, pos, Float,
  FloatLaws, show_ℕ, minute, Time,
}
use orbit_telemetry_orchestr.Domain.Device.{Device, DeviceStatus}
use orbit_telemetry_orchestr.Domain.Stream.{TelemetryStream, StreamStatus}
use orbit_telemetry_orchestr.Domain.Incident.{Incident, IncidentStatus}
use orbit_telemetry_orchestr.Domain.Action.{ResponseAction, ActionType, ActionStatus}
use orbit_telemetry_orchestr.Domain.Policy.{
  CollectionPolicy, PolicyStatus, Rule, Comparator, ResponsePlan,
}
use orbit_telemetry_orchestr.Domain.Telemetry.{Sample, Window}
use orbit_telemetry_orchestr.Store.{Memory}
use orbit_telemetry_orchestr.Service.{App}
use orbit_telemetry_orchestr.Service.Telemetry.{TelemetryInput}

instance abbrev pub nat_float : Float ℕ
nat_float = record {
  of_ℕ = λ n. n;
  ltf = ltb;
  lef = leb;
  eqf = eqb;
  is_finite = λ n. true;
  addf = λ a b. a + b;
  subf = λ a b. a - b;
  divf = λ a b. a / b;
  absf = λ a. a;
  show_g = λ a. "number";
  show_f4 = λ a. "number";
}

pub nat-FloatLaws : FloatLaws ℕ
nat-FloatLaws = record {
  lt_irrefl = λ a. ground arith;
  lt_asymm = λ a b h. ground arith;
  not_lt_trans = λ a b c fa fb fc h k. ground arith;
}

abbrev pub probe : Device
probe = record {
  id = "d1";
  name = "probe";
  site = "north";
  model = "m1";
  status = DeviceStatus.ready;
  labels = [];
  last_seen_at = none;
  failure_count = pos 0;
  version = pos 2;
  created_at = 1;
  updated_at = 1;
}

abbrev pub heat_stream : TelemetryStream
heat_stream = record {
  id = "s1";
  device_id = "d1";
  name = "heat";
  signal = "heat";
  unit = "K";
  sample_period = pos 10;
  status = StreamStatus.active;
  tags = [];
  version = pos 1;
  created_at = 1;
  updated_at = 1;
}

abbrev pub resolved_incident : Incident
resolved_incident = record {
  id = "i1";
  device_id = "d1";
  title = "Telemetry anomaly: heat";
  severity = pos 3;
  status = IncidentStatus.resolved;
  anomaly_ids = "a1" ∷ [];
  action_ids = [];
  evidence_ids = "e1" ∷ [];
  opened_at = 1;
  updated_at = 2;
  resolved_at = some 2;
  closed_at = none;
  version = pos 2;
}

abbrev pub queued_action : ResponseAction
queued_action = record {
  id = "r1";
  incident_id = "i1";
  device_id = "d1";
  type = ActionType.restart;
  status = ActionStatus.queued;
  attempt = pos 0;
  max_attempts = pos 2;
  idempotency = "k1";
  reason = "hot";
  result = "";
  created_at = 1;
  updated_at = 1;
  finished_at = none;
}

abbrev pub hot_rule : Rule ℕ
hot_rule = record {
  signal = "heat";
  comparator = Comparator.above;
  lower = 0;
  upper = 50;
  duration = pos minute;
  severity = pos 3;
}

abbrev pub no_response : ResponsePlan
no_response = record { action_types = []; max_retries = pos 0; cooldown = pos 0 }

abbrev pub policy_of : String → ℕ → PolicyStatus → CollectionPolicy ℕ
policy_of id version status = record {
  id = id;
  name = "heat watch";
  device_id = "d1";
  version = pos version;
  status = status;
  effective_from = 1;
  effective_until = none;
  rules = hot_rule ∷ [];
  response = no_response;
  created_by = "operator";
  created_at = 1;
  updated_at = 1;
}

abbrev pub first_policy : CollectionPolicy ℕ
first_policy = policy_of "p1" 1 PolicyStatus.published

abbrev pub second_policy : CollectionPolicy ℕ
second_policy = policy_of "p2" 2 PolicyStatus.draft

abbrev pub sample_at : Time → ℕ → Sample ℕ
sample_at t value = record {
  stream_id = "s1";
  device_id = "d1";
  signal = "heat";
  value = value;
  quality = "good";
  observed_at = t;
  received_at = t;
  sequence = pos 1;
}

abbrev pub reading : TelemetryInput ℕ
reading = record { stream_id = "s1"; value = 60; quality = ""; observed_at = 5; sequence = pos 1 }

abbrev pub fleet : Memory ℕ
fleet = record {
  devices = ("d1", probe) ∷ [];
  streams = ("s1", heat_stream) ∷ [];
  policies = ("p1", first_policy) ∷ ("p2", second_policy) ∷ [];
  samples = sample_at 2 40 ∷ [];
  anomalies = [];
  incidents = ("i1", resolved_incident) ∷ [];
  actions = ("r1", queued_action) ∷ [];
  evidence = [];
  idempotency = ("k1", "r1") ∷ [];
}

-- The clock shows 10, 11, 12, …
abbrev pub orbit : App ℕ
orbit = record {
  repository = fleet;
  bus = record { buffer = 4; drop_when_full = true; next_id = 0; subs = []; closed = false };
  audit = record { limit = 10; sequence = 0; entries = [] };
  queue = none;
  metrics = record { counters = []; gauges = [] };
  clock = λ n. 10 + n;
  reads = 0;
  sequence = 0;
  to_lower = λ s. s;
  range_from = λ n. n;
}

-- The last value is 20, below the upper bound 50 of the rule, whose lower bound is 0.
abbrev pub mild_window : Window ℕ
mild_window = record {
  device_id = "d1";
  stream_id = "s1";
  signal = "heat";
  started_at = 2;
  ended_at = 9;
  count = 2;
  least = 20;
  greatest = 30;
  average = 25;
  last_value = 20;
  bad_samples = 0;
}
