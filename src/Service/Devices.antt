-- ===== src/Service/Devices.antt =====
-- internal/service/devices.go.
pub mod Moves
use orbit_telemetry_orchestr.Prelude.{
  String, Option, some, List, [], ◌∷◌, ◌==◌, ℤ, pos, inc64, dec64, Time, trim_space, ok,
}
use orbit_telemetry_orchestr.Prelude.Errors.{refuse_if, retired_touch}
use orbit_telemetry_orchestr.Prelude.Exec.{Exec, ◌>>=◌, ◌>>◌, return, lift}
use orbit_telemetry_orchestr.Domain.Device
use orbit_telemetry_orchestr.Domain.Device.{
  Device, DeviceStatus, new_device, can_receive_telemetry, device_status_eq,
}
use orbit_telemetry_orchestr.Store.Devices.{put_device, get_device, update_device, list_devices}
use orbit_telemetry_orchestr.Events.{Value}
use orbit_telemetry_orchestr.Service.{
  App, Context, now, ensure_context, query, update, emit, record_audit, inc_metric,
}

pub record DeviceInput : Type 0 where
  pub id : String
  pub name : String
  pub site : String
  pub model : String
  pub labels : List String

-- `string(status)`
abbrev pub device_status_text : DeviceStatus → String
device_status_text DeviceStatus.pending = "pending"
device_status_text DeviceStatus.ready = "ready"
device_status_text DeviceStatus.degraded = "degraded"
device_status_text DeviceStatus.retired = "retired"
device_status_text (DeviceStatus.other s) = s

module _ {F : Type 0} where
  unfoldable pub create_device : Context → String → DeviceInput → Exec (App F) Device
  create_device ctx actor input = do
    ensure_context ctx
    t ← now
    device ←
        λ a. (new_device a.to_lower input.id input.name input.site input.model input.labels t, a)
    update (put_device device)
    record_audit actor "create" "device" device.id "device registered" []
    emit "device.registered" device.id actor (("device_id", Value.text device.id) ∷ [])
    inc_metric "orbit_devices_created_total" []
    return device

  unfoldable pub get_device_by_id : Context → String → Exec (App F) Device
  get_device_by_id ctx id = do ensure_context ctx; query (λ m. get_device m (trim_space id))

  unfoldable pub devices_listed : Context → Option DeviceStatus → ℤ → Exec (App F) (List Device)
  devices_listed ctx status limit = do
    ensure_context ctx
    query (λ m. ok (list_devices m status limit))

  unfoldable pub transition_device : Context → String → String → DeviceStatus → Exec (App F) Device
  transition_device ctx actor id status = do
    ensure_context ctx
    previous ← query (λ m. get_device m id)
    t ← now
    device ← lift (Device.transition previous status t)
    update (update_device device (dec64 device.version))
    record_audit actor "transition" "device" id "device status changed"
        (("from", device_status_text previous.status) ∷ ("to", device_status_text status) ∷ [])
    emit "device.status_changed" id actor (("status", Value.text (device_status_text status)) ∷ [])
    return device

  unfoldable pub touch_device : Context → String → Time → Exec (App F) (Unit {0})
  touch_device ctx id observed_at = do
    ensure_context ctx
    device ← query (λ m. get_device m id)
    lift (refuse_if (device.status == DeviceStatus.retired) retired_touch)
    t ← now
    let touched = record device {
      last_seen_at = some observed_at;
      failure_count = pos 0;
      version = inc64 device.version;
      updated_at = t;
    }
    update (update_device touched (dec64 touched.version))
