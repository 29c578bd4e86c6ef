-- ===== src/Http/Routes.antt =====
-- The routes of internal/httpapi/server.go, and `rateHandler` of middleware.go around them. The
-- matching is that of `http.ServeMux`: a literal segment or one non-empty segment for `{id}`, and
-- `GET` also answers `HEAD`; the segments of a path are those after its first `/`. `recoverHandler` has nothing to do, since no handler of the model panics,
-- and `requestLogger` only logs.
use orbit_telemetry_orchestr.Prelude.{
  String, Bool, true, false, not, ◌||◌, ◌&&◌, Option, none, some, List, [], ◌∷◌, ◌++◌, ◌==◌,
  string_eq, if◌then◌else◌, ◌+◌, Float, lookup,
}
use orbit_telemetry_orchestr.Prelude.Errors.{rate_limited}
use orbit_telemetry_orchestr.RateLimit.{Limiter, allow}
use orbit_telemetry_orchestr.Service.{App}
use orbit_telemetry_orchestr.Http.{
  Method, get, head, post, Request, Response, Value, Decoders, text_or_empty, write_value,
  write_error,
}
use orbit_telemetry_orchestr.Http.Endpoints
use orbit_telemetry_orchestr.Http.Endpoints.Incidents
use orbit_telemetry_orchestr.Http.Endpoints.{Endpoint}

pub data Segment : Type 0 where
  lit : String → Segment
  id : Segment

pub record Route (F : Type 0) : Type 0 where
  pub method : Method
  pub pattern : List Segment
  pub endpoint : Endpoint F

-- The segment that `{id}` matches, the empty text for a pattern without it.
abbrev pub match_path : List Segment → List String → String → Option String
match_path [] [] given = some given
match_path (lit s ∷ ss) (p ∷ ps) given = if s == p then match_path ss ps given else none
match_path (id ∷ ss) (p ∷ ps) given = if p == "" then none else match_path ss ps p
match_path _ _ given = none

abbrev pub answers : Method → Method → Bool
answers get get = true
answers get head = true
answers post post = true
answers _ _ = false

module _ {F : Type 0} where
  abbrev pub on : Method → List Segment → Endpoint F → Route F
  on m p e = record { method = m; pattern = p; endpoint = e }

abbrev v1 : List Segment → List Segment
v1 p = lit "v1" ∷ p

module _ {F : Type 0} ⦃fl : Float F⦄ where
  unfoldable pub common_routes : List (Route F)
  common_routes =
      on get (lit "healthz" ∷ []) Endpoints.health
      ∷ on get (lit "readyz" ∷ []) Endpoints.ready
      ∷ on get (lit "metrics" ∷ []) Endpoints.metrics
      ∷ on get (v1 (lit "stats" ∷ [])) Endpoints.get_stats
      ∷ on get (v1 (lit "report" ∷ [])) Endpoints.get_report
      ∷ on get (v1 (lit "audit" ∷ [])) Endpoints.list_audit
      ∷ on get (v1 (lit "events" ∷ [])) Endpoints.events_stream
      ∷ []

  unfoldable pub device_routes : Decoders F → List (Route F)
  device_routes d =
      on get (v1 (lit "devices" ∷ [])) Endpoints.list_devices
      ∷ on post (v1 (lit "devices" ∷ [])) (Endpoints.post_device d)
      ∷ on get (v1 (lit "devices" ∷ id ∷ [])) Endpoints.get_device
      ∷ on post (v1 (lit "devices" ∷ id ∷ lit "transition" ∷ [])) (Endpoints.move_device d)
      ∷ []

  unfoldable pub stream_routes : Decoders F → List (Route F)
  stream_routes d =
      on get (v1 (lit "streams" ∷ [])) Endpoints.list_streams
      ∷ on post (v1 (lit "streams" ∷ [])) (Endpoints.post_stream d)
      ∷ on get (v1 (lit "streams" ∷ id ∷ [])) Endpoints.get_stream
      ∷ on post (v1 (lit "streams" ∷ id ∷ lit "transition" ∷ [])) (Endpoints.move_stream d)
      ∷ on get (v1 (lit "streams" ∷ id ∷ lit "samples" ∷ [])) Endpoints.list_samples
      ∷ []

  unfoldable pub policy_routes : Decoders F → List (Route F)
  policy_routes d =
      on get (v1 (lit "policies" ∷ [])) Endpoints.list_policies
      ∷ on post (v1 (lit "policies" ∷ [])) (Endpoints.post_policy d)
      ∷ on get (v1 (lit "policies" ∷ id ∷ [])) Endpoints.get_policy
      ∷ on post (v1 (lit "policies" ∷ id ∷ lit "publish" ∷ [])) Endpoints.post_publish
      ∷ on post (v1 (lit "policies" ∷ id ∷ lit "lock" ∷ [])) Endpoints.post_lock
      ∷ []

  unfoldable pub incident_routes : Decoders F → List (Route F)
  incident_routes d =
      on post (v1 (lit "telemetry" ∷ [])) (Incidents.post_telemetry d)
      ∷ on get (v1 (lit "anomalies" ∷ [])) Incidents.list_anomalies
      ∷ on get (v1 (lit "incidents" ∷ [])) Incidents.list_incidents
      ∷ on get (v1 (lit "incidents" ∷ id ∷ [])) Incidents.get_incident
      ∷ on post (v1 (lit "incidents" ∷ id ∷ lit "transition" ∷ [])) (Incidents.move_incident d)
      ∷ on get (v1 (lit "incidents" ∷ id ∷ lit "actions" ∷ [])) Incidents.list_actions
      ∷ on post (v1 (lit "incidents" ∷ id ∷ lit "actions" ∷ [])) (Incidents.post_action d)
      ∷ on get (v1 (lit "incidents" ∷ id ∷ lit "evidence" ∷ [])) Incidents.list_evidence
      ∷ on post (v1 (lit "incidents" ∷ id ∷ lit "evidence" ∷ [])) (Incidents.post_evidence d)
      ∷ on get (v1 (lit "incidents" ∷ id ∷ lit "timeline" ∷ [])) Incidents.get_timeline
      ∷ []

  unfoldable pub action_routes : List (Route F)
  action_routes =
      on get (v1 (lit "actions" ∷ id ∷ [])) Incidents.get_action
      ∷ on post (v1 (lit "actions" ∷ id ∷ lit "execute" ∷ [])) Incidents.post_execute
      ∷ on post (v1 (lit "actions" ∷ id ∷ lit "cancel" ∷ [])) Incidents.post_cancel
      ∷ []

  -- The patterns do not overlap, so that their order does not matter.
  unfoldable pub routes : Decoders F → List (Route F)
  unfolding common_routes device_routes stream_routes policy_routes incident_routes action_routes
  routes d =
      common_routes
      ++ device_routes d
      ++ stream_routes d
      ++ policy_routes d
      ++ incident_routes d
      ++ action_routes

module _ {F : Type 0} where
  -- The first route of the list that answers, with `seen` once some pattern has matched the path.
  unfoldable pub serve_from : Bool → List (Route F) → Request → App F → Response F × App F
  serve_from seen [] r a =
      if seen
      then (write_value 405 (Value.text "Method Not Allowed"), a)
      else (write_value 404 (Value.text "404 page not found"), a)
  serve_from seen (route ∷ rest) r a = elim (match_path route.pattern r.path "") [
    | none ↦ serve_from seen rest r a
    | some given ↦
        let later = serve_from true rest r a in
        if answers route.method r.method then route.endpoint given r a else later
  ]

-- What `http.ServeMux` asks of a path: no segment is `.` or `..`, and none but the last is empty.
abbrev pub is_clean : List String → Bool
is_clean [] = true
is_clean (s ∷ []) = not (s == "." || s == "..")
is_clean (s ∷ t ∷ rest) = not (s == "" || s == "." || s == "..") && is_clean (t ∷ rest)

-- What the server and the limiter keep.
pub record Server (F : Type 0) : Type 0 where
  pub app : App F
  pub limiter : Limiter

-- `r.Header.Get("x-forwarded-for")`, or the address of the peer where it is empty.
unfoldable pub client_key : Request → String
client_key r =
    let forwarded = text_or_empty (lookup "x-forwarded-for" r.headers) in
    if forwarded == "" then r.remote_addr else forwarded

module _ {F : Type 0} ⦃fl : Float F⦄ where
  -- A path that is not clean is answered with a redirect to the clean one, whatever the method.
  unfoldable pub mux : Decoders F → Request → App F → Response F × App F
  unfolding routes serve_from
  mux d r a =
      if is_clean r.path
      then serve_from false (routes d) r a
      else (write_value 301 (Value.text "Moved Permanently"), a)

  -- The time is a reading of the system's clock, which is taken to be that of the service.
  unfoldable pub serve : Decoders F → Request → Server F → Response F × Server F
  unfolding mux client_key
  serve d r s =
      let a = s.app in
      let read = record a { reads = a.reads + 1 } in
      let (passed, limiter) = allow s.limiter (client_key r) (a.clock a.reads) in
      let (response, after) = mux d r read in
      if passed
      then (response, record { app = after; limiter = limiter })
      else (write_error 429 rate_limited, record { app = read; limiter = limiter })
