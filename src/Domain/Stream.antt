-- ===== src/Domain/Stream.antt =====
-- internal/domain/stream.go
use orbit_telemetry_orchestr.Prelude.{
  String, ◌≡◌, ◌⊎◌, Bool, true, false, ◌&&◌, ◌||◌, List, ◌↔◌, arith, eq_iff, Eq, ◌==◌, ◌!=◌,
  string_eq, if◌then◌else◌, ℤ, pos, inc64, ◌≤ℤ◌, Time, Duration, trim_space, is_blank, Result, ok,
}
use orbit_telemetry_orchestr.Prelude.Errors.{
  ◌>>◌, refuse_if, stream_id_required, stream_name_required, period_not_positive, disabled_stream,
  unknown_stream_status,
}

-- `other s` is a text that is none of the three constants.
pub data StreamStatus : Type 0 where
  active paused disabled : StreamStatus
  other : String → StreamStatus

abbrev pub same_status : StreamStatus → StreamStatus → Bool
same_status active active = true
same_status paused paused = true
same_status disabled disabled = true
same_status (other s) (other t) = s == t
same_status _ _ = false

pub same_status_iff : (a b : StreamStatus) → (same_status a b ≡ true) ↔ (a ≡ b)
same_status_iff (other s) (other t) = ground (arith, eq_iff s t)
same_status_iff active b = ground arith
same_status_iff paused b = ground arith
same_status_iff disabled b = ground arith
same_status_iff (other s) b = ground arith

instance abbrev pub stream_status_eq : Eq StreamStatus
stream_status_eq = record { beq = same_status; beq_iff = same_status_iff }

-- `tags` is a map, which the program only copies.
pub record TelemetryStream : Type 0 where
  pub id : String
  pub device_id : String
  pub name : String
  pub signal : String
  pub unit : String
  pub sample_period : Duration
  pub status : StreamStatus
  pub tags : List (String × String)
  pub version : ℤ
  pub created_at : Time
  pub updated_at : Time

unfoldable pub new_stream :
    String
    → String
    → String
    → String
    → String
    → Duration
    → List (String × String)
    → Time
    → Result TelemetryStream
new_stream id device_id name signal unit period tags now = do
  refuse_if (is_blank id || is_blank device_id) stream_id_required
  refuse_if (is_blank name || is_blank signal) stream_name_required
  refuse_if (period ≤ℤ pos 0) period_not_positive
  ok (record {
    id = id;
    device_id = device_id;
    name = trim_space name;
    signal = trim_space signal;
    unit = trim_space unit;
    sample_period = period;
    status = active;
    tags = tags;
    version = pos 1;
    created_at = now;
    updated_at = now;
  })

unfoldable pub accepts_samples : TelemetryStream → Bool
accepts_samples s = s.status == active

unfoldable pub transition : TelemetryStream → StreamStatus → Time → Result TelemetryStream
transition s status now = if status == s.status then ok s else do
  refuse_if (s.status == disabled) disabled_stream
  refuse_if (status != active && status != paused && status != disabled) unknown_stream_status
  ok (record s { status = status; version = inc64 s.version; updated_at = now })

abbrev is_known : StreamStatus → Bool
is_known (other s) = false
is_known _ = true

-- A request succeeds exactly when it names the present status, or a known status of a stream that
-- is not disabled; it then changes nothing but the status, the version and the time of update, and
-- these only if the status differs.
transition_lem :
    (s : TelemetryStream) (status : StreamStatus) (now : Time) (s' : TelemetryStream)
    → (transition s status now ≡ ok s') ↔ (
        ((status ≡ s.status) × (s' ≡ s))
        ⊎ (((status == s.status) ≡ false)
            × (is_known status ≡ true)
            × ((s.status == disabled) ≡ false)
            × (s' ≡ record s { status = status; version = inc64 s.version; updated_at = now })))
unfolding transition
transition_lem s status now s' = (
  (λ h. ground (arith, same_status_iff status s.status)),
  λ h. ground (arith, same_status_iff status s.status),
)
