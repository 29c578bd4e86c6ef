-- ===== src/Domain/Device.antt =====
-- internal/domain/device.go
pub mod Lifecycle
pub mod Labels
use orbit_telemetry_orchestr.Prelude.{
  String, ◌≡◌, Bool, true, false, ◌&&◌, ◌||◌, Option, none, some, List, [], ◌∷◌, ◌++◌, ◌↔◌, arith,
  eq_iff, Eq, ◌==◌, ◌!=◌, string_eq, if◌then◌else◌, ℤ, pos, inc64, Time, trim_space, is_blank,
  contains, Error, Result, ok, err,
}
use orbit_telemetry_orchestr.Prelude.Errors.{
  ◌>>=◌, ◌>>◌, refuse_if, device_id_required, device_site_required, pending_device, ready_device,
  degraded_device, retired_device, unknown_device_status,
}

-- `other s` is a text that is none of the four constants.
pub data DeviceStatus : Type 0 where
  pending ready degraded retired : DeviceStatus
  other : String → DeviceStatus

abbrev pub same_status : DeviceStatus → DeviceStatus → Bool
same_status pending pending = true
same_status ready ready = true
same_status degraded degraded = true
same_status retired retired = true
same_status (other s) (other t) = s == t
same_status _ _ = false

pub same_status_iff : (a b : DeviceStatus) → (same_status a b ≡ true) ↔ (a ≡ b)
same_status_iff (other s) (other t) = ground (arith, eq_iff s t)
same_status_iff pending b = ground arith
same_status_iff ready b = ground arith
same_status_iff degraded b = ground arith
same_status_iff retired b = ground arith
same_status_iff (other s) b = ground arith

instance abbrev pub device_status_eq : Eq DeviceStatus
device_status_eq = record { beq = same_status; beq_iff = same_status_iff }

pub record Device : Type 0 where
  pub id : String
  pub name : String
  pub site : String
  pub model : String
  pub status : DeviceStatus
  pub labels : List String
  pub last_seen_at : Option Time
  pub failure_count : ℤ
  pub version : ℤ
  pub created_at : Time
  pub updated_at : Time

-- The loop of `NormalizeLabels`; `to_lower` is `strings.ToLower`.
normalize_from : (String → String) → List String → List String → List String → List String
normalize_from to_lower seen result [] = result
normalize_from to_lower seen result (value ∷ values) =
    let v = to_lower (trim_space value) in
    let skip = normalize_from to_lower seen result values in
    let add = normalize_from to_lower (v ∷ seen) (result ++ v ∷ []) values in
    if v == "" then skip else if contains v seen then skip else add

unfoldable pub normalize_labels : (String → String) → List String → List String
unfolding normalize_from
normalize_labels to_lower values = normalize_from to_lower [] [] values

unfoldable pub new_device :
    (String → String) → String → String → String → String → List String → Time → Result Device
new_device to_lower id name site model labels now = do
  refuse_if (is_blank id || is_blank name) device_id_required
  refuse_if (is_blank site || is_blank model) device_site_required
  ok (record {
    id = id;
    name = trim_space name;
    site = trim_space site;
    model = trim_space model;
    status = pending;
    labels = normalize_labels to_lower labels;
    last_seen_at = none;
    failure_count = pos 0;
    version = pos 1;
    created_at = now;
    updated_at = now;
  })

unfoldable pub can_receive_telemetry : Device → Bool
can_receive_telemetry d = d.status == ready || d.status == degraded

-- The `switch` of `Transition`, on the present status.
transition_guard : DeviceStatus → DeviceStatus → Result (Unit {0})
transition_guard pending status = refuse_if (status != ready && status != retired) pending_device
transition_guard ready status = refuse_if (status != degraded && status != retired) ready_device
transition_guard degraded status = refuse_if (status != ready && status != retired) degraded_device
transition_guard retired status = err retired_device
transition_guard (other s) status = err unknown_device_status

unfoldable pub transition : Device → DeviceStatus → Time → Result Device
unfolding transition_guard
transition d status now = if status == d.status then ok d else do
  transition_guard d.status status
  ok (record d { status = status; version = inc64 d.version; updated_at = now })
