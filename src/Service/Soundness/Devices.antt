-- ===== src/Service/Soundness/Devices.antt =====
-- The methods of devices.go and streams.go that write, against the invariant of the repository.
use orbit_telemetry_orchestr.Prelude.{String, Float, Time}
use orbit_telemetry_orchestr.Domain.Device.{DeviceStatus, device_status_eq}
use orbit_telemetry_orchestr.Domain.Stream.{StreamStatus}
use orbit_telemetry_orchestr.Service.{Context}
use orbit_telemetry_orchestr.Service.Devices.{
  DeviceInput, create_device, transition_device, touch_device,
}
use orbit_telemetry_orchestr.Service.Streams.{StreamInput, create_stream, transition_stream}
use orbit_telemetry_orchestr.Service.Soundness.{
  Keeps, keeping_rules, put_device-Keeps, put_stream-Keeps, update_device-Keeps,
  update_stream-Keeps,
}

module _ {F : Type 0} ⦃fl : Float F⦄ where
  pub create_device-Keeps :
      (ctx : Context) (actor : String) (input : DeviceInput)
      → Keeps (create_device {F = F} ctx actor input)
  unfolding create_device
  create_device-Keeps ctx actor input = search (keeping_rules, put_device-Keeps) depth 30

  pub transition_device-Keeps :
      (ctx : Context) (actor id : String) (status : DeviceStatus)
      → Keeps (transition_device {F = F} ctx actor id status)
  unfolding transition_device
  transition_device-Keeps ctx actor id status = search (keeping_rules, update_device-Keeps) depth 30

  pub touch_device-Keeps :
      (ctx : Context) (id : String) (observed_at : Time)
      → Keeps (touch_device {F = F} ctx id observed_at)
  unfolding touch_device
  touch_device-Keeps ctx id observed_at = search (keeping_rules, update_device-Keeps) depth 30

  pub create_stream-Keeps :
      (ctx : Context) (actor : String) (input : StreamInput)
      → Keeps (create_stream {F = F} ctx actor input)
  unfolding create_stream
  create_stream-Keeps ctx actor input = search (keeping_rules, put_stream-Keeps) depth 30

  pub transition_stream-Keeps :
      (ctx : Context) (actor id : String) (status : StreamStatus)
      → Keeps (transition_stream {F = F} ctx actor id status)
  unfolding transition_stream
  transition_stream-Keeps ctx actor id status = search (keeping_rules, update_stream-Keeps) depth 30
