-- ===== src/Service/Streams.antt =====
-- internal/service/streams.go
use orbit_telemetry_orchestr.Prelude.{
  String, Bool, ◌&&◌, List, [], ◌∷◌, ℤ, dec64, second, ok, product_int64,
}
use orbit_telemetry_orchestr.Prelude.Exec.{Exec, ◌>>=◌, ◌>>◌, return, lift}
use orbit_telemetry_orchestr.Domain.Device.{can_receive_telemetry}
use orbit_telemetry_orchestr.Domain.Stream
use orbit_telemetry_orchestr.Domain.Stream.{
  TelemetryStream, StreamStatus, new_stream, accepts_samples,
}
use orbit_telemetry_orchestr.Store.Devices.{
  get_device, put_stream, get_stream, update_stream, list_streams,
}
use orbit_telemetry_orchestr.Events.{Value}
use orbit_telemetry_orchestr.Service.{
  App, Context, now, ensure_context, query, update, emit, record_audit,
}

-- `sample_period` is the number of seconds.
pub record StreamInput : Type 0 where
  pub id : String
  pub device_id : String
  pub name : String
  pub signal : String
  pub unit : String
  pub sample_period : ℤ
  pub tags : List (String × String)

-- `string(status)`
abbrev pub stream_status_text : StreamStatus → String
stream_status_text StreamStatus.active = "active"
stream_status_text StreamStatus.paused = "paused"
stream_status_text StreamStatus.disabled = "disabled"
stream_status_text (StreamStatus.other s) = s

module _ {F : Type 0} where
  unfoldable pub create_stream : Context → String → StreamInput → Exec (App F) TelemetryStream
  create_stream ctx actor input = do
    ensure_context ctx
    query (λ m. get_device m input.device_id)
    t ← now
    stream ← lift (
        new_stream input.id input.device_id input.name input.signal input.unit
          (product_int64 input.sample_period second) input.tags t)
    update (put_stream stream)
    record_audit actor "create" "stream" stream.id "telemetry stream created" []
    emit "stream.created" stream.id actor (("device_id", Value.text stream.device_id) ∷ [])
    return stream

  unfoldable pub get_stream_by_id : Context → String → Exec (App F) TelemetryStream
  get_stream_by_id ctx id = do ensure_context ctx; query (λ m. get_stream m id)

  unfoldable pub streams_listed : Context → String → ℤ → Exec (App F) (List TelemetryStream)
  streams_listed ctx device_id limit = do
    ensure_context ctx
    query (λ m. ok (list_streams m device_id limit))

  unfoldable pub transition_stream :
      Context → String → String → StreamStatus → Exec (App F) TelemetryStream
  transition_stream ctx actor id status = do
    ensure_context ctx
    previous ← query (λ m. get_stream m id)
    t ← now
    stream ← lift (Stream.transition previous status t)
    update (update_stream stream (dec64 stream.version))
    record_audit actor "transition" "stream" id "stream status changed"
        (("from", stream_status_text previous.status) ∷ ("to", stream_status_text status) ∷ [])
    return stream

  unfoldable pub stream_ready : Context → String → Exec (App F) Bool
  unfolding get_stream_by_id
  stream_ready ctx id = do
    stream ← get_stream_by_id ctx id
    device ← query (λ m. get_device m stream.device_id)
    return (accepts_samples stream && can_receive_telemetry device)
