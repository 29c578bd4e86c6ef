-- ===== src/Store/Devices.antt =====
-- The devices and the streams of internal/store/memory.go.
pub mod Versions
use orbit_telemetry_orchestr.Prelude.{
  String, ◌≡◌, Bool, true, false, ◌&&◌, ◌||◌, Option, none, some, List, if◌then◌else◌, ◌==◌, ◌!=◌,
  string_eq, int_eq, ℤ, pos, ◌<ℤ◌, ltb_text, Dict, is_some, or_not_found, lookup, insert, values,
  keep, sort_slice, Result, ok, err,
}
use orbit_telemetry_orchestr.Prelude.Errors.{not_found, conflict, exists}
use orbit_telemetry_orchestr.Domain.Device.{Device, DeviceStatus, device_status_eq}
use orbit_telemetry_orchestr.Domain.Stream.{TelemetryStream}
use orbit_telemetry_orchestr.Store.{Memory, Update, is_stale, matches_id, cap_list}

-- `status` is `none` where the filter is the empty text.
abbrev pub device_matches : Option DeviceStatus → Device → Bool
device_matches none d = true
device_matches (some status) d = d.status == status

abbrev pub device_less : Device → Device → Bool
device_less a b = ltb_text a.id b.id

abbrev pub stream_less : TelemetryStream → TelemetryStream → Bool
stream_less a b = ltb_text a.id b.id

module _ {F : Type 0} where
  unfoldable pub put_device : Device → Update F
  put_device d m =
      if is_some (lookup d.id m.devices)
      then (err exists, m)
      else (ok tt, record m { devices = insert d.id d m.devices })

  unfoldable pub get_device : Memory F → String → Result Device
  get_device m id = or_not_found (lookup id m.devices)

  unfoldable pub update_device : Device → ℤ → Update F
  update_device d expected m = elim (lookup d.id m.devices) [
    | none ↦ (err not_found, m)
    | some current ↦
        if is_stale current.version expected
        then (err conflict, m)
        else (ok tt, record m { devices = insert d.id d m.devices })
  ]

  unfoldable pub put_stream : TelemetryStream → Update F
  put_stream s m =
      if is_some (lookup s.id m.streams)
      then (err exists, m)
      else (ok tt, record m { streams = insert s.id s m.streams })

  unfoldable pub get_stream : Memory F → String → Result TelemetryStream
  get_stream m id = or_not_found (lookup id m.streams)

  unfoldable pub update_stream : TelemetryStream → ℤ → Update F
  update_stream s expected m = elim (lookup s.id m.streams) [
    | none ↦ (err not_found, m)
    | some current ↦
        if is_stale current.version expected
        then (err conflict, m)
        else (ok tt, record m { streams = insert s.id s m.streams })
  ]

  unfoldable pub list_devices : Memory F → Option DeviceStatus → ℤ → List Device
  list_devices m status limit =
      cap_list (sort_slice device_less (keep (device_matches status) (values m.devices))) limit

  unfoldable pub list_streams : Memory F → String → ℤ → List TelemetryStream
  list_streams m device_id limit =
      cap_list
        (sort_slice stream_less (keep (λ s. matches_id device_id s.device_id) (values m.streams)))
        limit
