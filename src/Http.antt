-- ===== src/Http.antt =====
-- internal/httpapi/codec.go and the writers of middleware.go. A request is what net/http hands to the
-- handlers: its path in segments, the first value of each query parameter and header, and the bytes
-- of its body. The encoding of the answers as JSON is not modelled: an answer holds the value.
pub mod Limits
pub mod Numerals
pub mod Statuses
pub mod Endpoints
pub mod Routes
pub mod Reads
pub mod Serving
pub mod Posting
pub mod Soundness
pub mod Gets
pub mod Admission
use orbit_telemetry_orchestr.Prelude.{
  ℕ, ◌+◌, ◌*◌, ◌-◌, ◌<◌, ◌^◌, String, Bool, true, false, ◌||◌, ◌&&◌, not, Option, none, some, List,
  [], ◌∷◌, ◌==◌, string_eq, if◌then◌else◌, ltb, eqb, leb, ℤ, pos, negsuc, ◌<ℤ◌, max_int64, Dict,
  lookup, take, length, map, Time, Result, ok, err,
}
use Prim.Native.Char.{Char, code}
use orbit_telemetry_orchestr.Prelude.Errors.{
  Error, not_found, conflict, exists, publish_blocks, path_id_required, body_refused,
}
use orbit_telemetry_orchestr.Domain.Device.{Device, DeviceStatus}
use orbit_telemetry_orchestr.Domain.Stream.{TelemetryStream, StreamStatus}
use orbit_telemetry_orchestr.Domain.Policy.{CollectionPolicy}
use orbit_telemetry_orchestr.Domain.Telemetry.{Sample}
use orbit_telemetry_orchestr.Domain.Anomaly.{Anomaly}
use orbit_telemetry_orchestr.Domain.Incident.{Incident, IncidentStatus}
use orbit_telemetry_orchestr.Domain.Action.{ResponseAction}
use orbit_telemetry_orchestr.Domain.Evidence.{Evidence}
use orbit_telemetry_orchestr.Store.Actions.{Counts}
use orbit_telemetry_orchestr.Audit.{Entry}
use orbit_telemetry_orchestr.Service.{App, Context}
use orbit_telemetry_orchestr.Service.Devices.{DeviceInput}
use orbit_telemetry_orchestr.Service.Streams.{StreamInput}
use orbit_telemetry_orchestr.Service.Policies.{PolicyInput}
use orbit_telemetry_orchestr.Service.Actions.{ActionInput}
use orbit_telemetry_orchestr.Service.Evidence.{EvidenceInput}
use orbit_telemetry_orchestr.Service.Telemetry.{TelemetryInput}
use orbit_telemetry_orchestr.Service.Report.{OperationsReport, Moment}

pub data Method : Type 0 where
  get head post other : Method

pub record Request : Type 0 where
  pub method : Method
  pub path : List String
  pub query : Dict String
  pub headers : Dict String
  pub remote_addr : String
  pub body : List ℕ
  pub context : Context

-- The values that the handlers encode.
pub data Value (F : Type 0) : Type 0 where
  device : Device → Value F
  stream : TelemetryStream → Value F
  policy : CollectionPolicy F → Value F
  sample : Sample F → Value F
  anomaly : Anomaly F → Value F
  incident : Incident → Value F
  action : ResponseAction → Value F
  evidence : Evidence → Value F
  moment : Moment → Value F
  entry : Entry → Value F
  totals : Counts → Value F
  report : OperationsReport F → Value F
  accepted : ℕ → Value F
  healthy : Time → Value F
  prepared : Value F
  text : String → Value F

pub data Body (F : Type 0) : Type 0 where
  failure : Error → Body F
  value : Value F → Body F
  items : List (Value F) → ℕ → Body F

-- `blocked` stands for a handler that never returns, `streaming` for the stream of events, which
-- lasts until its client leaves.
pub data Response (F : Type 0) : Type 0 where
  reply : ℕ → Body F → Response F
  streaming blocked : Response F

-- `json.Decoder` with `DisallowUnknownFields`, for each type that a handler reads: third-party code
-- as a parameter, which is given the bytes of the body.
pub record Decoders (F : Type 0) : Type 0 where
  pub device_input : List ℕ → Option DeviceInput
  pub device_status : List ℕ → Option DeviceStatus
  pub stream_input : List ℕ → Option StreamInput
  pub stream_status : List ℕ → Option StreamStatus
  pub policy_input : List ℕ → Option (PolicyInput F)
  pub telemetry_batch : List ℕ → Option (List (TelemetryInput F))
  pub incident_status : List ℕ → Option IncidentStatus
  pub action_input : List ℕ → Option ActionInput
  pub evidence_input : List ℕ → Option EvidenceInput

-- `r.URL.Query().Get(name)` and `r.Header.Get(name)`
abbrev pub text_or_empty : Option String → String
text_or_empty none = ""
text_or_empty (some s) = s

-- `io.LimitReader(r.Body, 2<<20)`
abbrev pub max_body : ℕ
max_body = 2 * 2 ^ 20

unfoldable pub decode : {A : Type 0} → (List ℕ → Option A) → Request → Result A
decode decoder r = elim (decoder (take max_body r.body)) [ none ↦ err body_refused | some x ↦ ok x ]

abbrev pub is_digit : ℕ → Bool
is_digit c = leb 48 c && leb c 57

-- The digits of a numeral, none where some character is no digit or there is none.
unfoldable pub digits_value : String → ℕ → Option ℕ
digits_value String.[] n = some n
digits_value (String.◌∷◌ c s) n =
    let rest = digits_value s (n * 10 + (code c - 48)) in if is_digit (code c) then rest else none

unfoldable pub unsigned : String → Option ℕ
unfolding digits_value
unsigned String.[] = none
unsigned (String.◌∷◌ c s) = digits_value (String.◌∷◌ c s) 0

abbrev pub as_pos : Option ℕ → Option ℤ
as_pos none = none
as_pos (some n) = if leb n max_int64 then some (pos n) else none

abbrev pub as_neg : Option ℕ → Option ℤ
as_neg none = none
as_neg (some n) =
    if eqb n 0 then some (pos 0) else if leb n (max_int64 + 1) then some (negsuc (n - 1)) else none

-- `strconv.Atoi`: an optional sign and decimal digits, within an `int64`.
unfoldable pub atoi : String → Option ℤ
unfolding unsigned
atoi String.[] = none
atoi (String.◌∷◌ c s) =
    if eqb (code c) 45
    then as_neg (unsigned s)
    else if eqb (code c) 43
    then as_pos (unsigned s)
    else as_pos (unsigned (String.◌∷◌ c s))

abbrev pub limited : Option ℤ → ℤ → ℤ
limited none fallback = fallback
limited (some n) fallback = if n <ℤ pos 1 then fallback else if pos 1000 <ℤ n then pos 1000 else n

unfoldable pub service_limit : String → ℤ → ℤ
service_limit given fallback = if given == "" then fallback else limited (atoi given) fallback

-- `id` is `r.PathValue("id")`.
unfoldable pub path_id : String → Result String
path_id id = if id == "" then err path_id_required else ok id

unfoldable pub actor : Request → String
actor r =
    let named = text_or_empty (lookup "x-orbit-actor" r.headers) in
    if named == "" then "anonymous" else named

-- The texts that the `switch` names are those of the repository's three errors.
unfoldable pub app_status : Error → ℕ
app_status not_found = 404
app_status exists = 409
app_status conflict = 409
app_status e = 400

module _ {F : Type 0} where
  abbrev pub write_value : ℕ → Value F → Response F
  write_value status v = reply status (value v)

  -- `map[string]any{"items": values, "count": len(values)}`
  abbrev pub write_items : {A : Type 0} → (A → Value F) → List A → Response F
  write_items f xs = reply 200 (items (map f xs) (length xs))

  abbrev pub write_error : ℕ → Error → Response F
  write_error status e = reply status (failure e)

  unfoldable pub write_app_error : Error → Response F
  unfolding app_status
  write_app_error publish_blocks = blocked
  write_app_error e = write_error (app_status e) e
