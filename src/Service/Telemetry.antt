-- ===== src/Service/Telemetry.antt =====
-- internal/service/telemetry.go; `F` is `float64`.
pub mod Touching
pub mod Ingest
use orbit_telemetry_orchestr.Prelude.{
  ℕ, String, Bool, true, false, ◌||◌, not, Option, none, some, List, [], ◌∷◌, ◌++◌, ℤ, pos, ◌*◌,
  minute, length, Dict, lookup, insert, values, Time, Float, Result, ok, err,
}
use orbit_telemetry_orchestr.Prelude.Errors
use orbit_telemetry_orchestr.Prelude.Errors.{Error, refuse_if, batch_empty, not_ready, exists}
use orbit_telemetry_orchestr.Prelude.Exec.{Exec, ◌>>=◌, ◌>>◌, return, lift, ignore, catch}
use orbit_telemetry_orchestr.Domain.Device.{can_receive_telemetry}
use orbit_telemetry_orchestr.Domain.Stream.{TelemetryStream, accepts_samples}
use orbit_telemetry_orchestr.Domain.Policy.{CollectionPolicy}
use orbit_telemetry_orchestr.Domain.Telemetry.{Sample, Window, new_sample, build_window}
use orbit_telemetry_orchestr.Domain.Anomaly.{Anomaly, open_}
use orbit_telemetry_orchestr.Domain.Incident.{Incident}
use orbit_telemetry_orchestr.Store.{Memory}
use orbit_telemetry_orchestr.Store.Devices.{get_device, get_stream}
use orbit_telemetry_orchestr.Store.Policies.{active_policy}
use orbit_telemetry_orchestr.Store.Samples.{add_samples, list_samples, latest_samples_by_stream}
use orbit_telemetry_orchestr.Store.Incidents.{put_anomaly, update_anomaly}
use orbit_telemetry_orchestr.Aggregate.{Detection, detect, window_bounds}
use orbit_telemetry_orchestr.Queue.{Payload}
use orbit_telemetry_orchestr.Events.{Value}
use orbit_telemetry_orchestr.Service.{
  App, Context, now, ensure_context, query, update, emit, record_audit, submit_job, inc_metric,
  add_metric, next_id, itoa,
}
use orbit_telemetry_orchestr.Service.Devices.{touch_device}
use orbit_telemetry_orchestr.Service.Incidents.{correlate_incident}

pub record TelemetryInput (F : Type 0) : Type 0 where
  pub stream_id : String
  pub value : F
  pub quality : String
  pub observed_at : Time
  pub sequence : ℤ

module _ {F : Type 0} where
  -- `streams[input.StreamID]`, read from the repository where the batch has not met it yet.
  abbrev pub cached : Memory F → Dict TelemetryStream → String → Result TelemetryStream
  cached m streams id = elim (lookup id streams) [ some s ↦ ok s | none ↦ get_stream m id ]

module _ {F : Type 0} ⦃fl : Float F⦄ where
  -- One turn of the loop of `IngestTelemetry`: the stream and the sample of an input.
  unfoldable pub accept_input :
      Memory F
      → Time
      → Dict TelemetryStream
      → TelemetryInput F
      → Result (TelemetryStream × Sample F)
  accept_input m t streams input = Errors.◌>>=◌ (cached m streams input.stream_id) λ stream.
      Errors.◌>>=◌ (get_device m stream.device_id) λ device.
        Errors.◌>>=◌
          (refuse_if (not (accepts_samples stream) || not (can_receive_telemetry device)) not_ready)
          λ _.
            Errors.◌>>=◌
              (new_sample stream.id stream.device_id stream.signal input.quality input.value
                input.observed_at t input.sequence)
              λ sample. ok (stream, sample)

  unfoldable pub ingest_loop :
      Memory F
      → Time
      → List (TelemetryInput F)
      → Dict TelemetryStream
      → List (Sample F)
      → Result (Dict TelemetryStream × List (Sample F))
  ingest_loop m t [] streams result = ok (streams, result)
  ingest_loop m t (input ∷ inputs) streams result =
      Errors.◌>>=◌ (accept_input m t streams input)
        λ x. ingest_loop m t inputs (insert input.stream_id x.0 streams) (result ++ x.1 ∷ [])

  -- The loop over `streams` after the samples are stored.
  unfoldable pub touch_streams : Context → Time → List TelemetryStream → Exec (App F) (Unit {0})
  touch_streams ctx t [] = return tt
  touch_streams ctx t (s ∷ rest) = do
    ignore (touch_device ctx s.device_id t)
    submit_job "incident-evaluation" (Payload.incident_evaluation s.id s.device_id)
    touch_streams ctx t rest

  is_nil : List (TelemetryInput F) → Bool
  is_nil [] = true
  is_nil (x ∷ xs) = false

  unfoldable pub ingest_telemetry : Context → String → List (TelemetryInput F) → Exec (App F) ℕ
  unfolding is_nil ingest_loop touch_streams
  ingest_telemetry ctx actor batch = do
    ensure_context ctx
    lift (refuse_if (is_nil batch) batch_empty)
    t ← now
    read ← query (λ m. ingest_loop m t batch [] [])
    update (λ m. (ok tt, add_samples read.1 m))
    touch_streams ctx t (values read.0)
    record_audit actor "ingest" "telemetry" "" "telemetry batch ingested"
        (("samples", itoa (pos (length read.1))) ∷ [])
    add_metric "orbit_samples_ingested_total" (length read.1)
    return (length read.1)

module _ {F : Type 0} where
  -- `anomaly.IncidentID = incident.ID` and its update, where an incident was found or opened.
  unfoldable pub tie_incident : Anomaly F → Option Incident → Exec (App F) (Unit {0})
  tie_incident anomaly none = return tt
  tie_incident anomaly (some i) =
      ignore (update (update_anomaly (record anomaly { incident_id = i.id })))

  -- What follows once the anomaly is stored.
  unfoldable pub raise_anomaly : Context → String → Anomaly F → Exec (App F) (Unit {0})
  unfolding tie_incident
  raise_anomaly ctx device_id anomaly = do
    inc_metric "orbit_anomalies_created_total" (("severity", itoa anomaly.severity) ∷ [])
    emit "anomaly.detected" anomaly.id "system"
        (("device_id", Value.text device_id) ∷ ("severity", Value.number anomaly.severity) ∷ [])
    incident ← correlate_incident ctx anomaly
    tie_incident anomaly incident

  -- The body of the loop over the detections: the anomaly, or `none` for `continue`.
  unfoldable pub stored_anomaly :
      Context → String → Anomaly F → Result (Unit {0}) → Exec (App F) (List (Anomaly F))
  unfolding raise_anomaly
  stored_anomaly ctx device_id anomaly (ok u) = do
    raise_anomaly ctx device_id anomaly
    return (anomaly ∷ [])
  stored_anomaly ctx device_id anomaly (err exists) = return []
  stored_anomaly ctx device_id anomaly (err e) = lift (err e)

  -- The anomaly of a detection.
  unfoldable pub anomaly_of :
      String
      → String
      → CollectionPolicy F
      → String
      → Window F
      → Detection
      → String
      → Time
      → Time
      → Anomaly F
  anomaly_of stream_id device_id policy signal w d id created updated = record {
    id = id;
    device_id = device_id;
    stream_id = stream_id;
    signal = signal;
    policy_id = policy.id;
    rule_index = d.rule_index;
    severity = d.severity;
    observed = w.last_value;
    threshold = d.threshold;
    window = w;
    status = open_;
    incident_id = "";
    created_at = created;
    updated_at = updated;
  }

  unfoldable pub raise_all :
      Context
      → String
      → String
      → CollectionPolicy F
      → String
      → Window F
      → List Detection
      → Exec (App F) (List (Anomaly F))
  unfolding stored_anomaly
  raise_all ctx stream_id device_id policy signal w [] = return []
  raise_all ctx stream_id device_id policy signal w (d ∷ rest) = do
    id ← next_id "anomaly"
    created ← now
    updated ← now
    let anomaly = anomaly_of stream_id device_id policy signal w d id created updated
    stored ← catch (update (put_anomaly anomaly))
    first ← stored_anomaly ctx device_id anomaly stored
    more ← raise_all ctx stream_id device_id policy signal w rest
    return (first ++ more)

module _ {F : Type 0} ⦃fl : Float F⦄ where
  -- The window over the samples of the last five minutes, as `EvaluateTelemetry` builds it.
  unfoldable pub recent_window : Memory F → String → Time → Result (Window F)
  recent_window m stream_id t =
      let bounds = window_bounds t (pos (5 * minute)) in
      build_window (list_samples m stream_id bounds.0 bounds.1 (pos 500)) bounds.0 bounds.1

  unfoldable pub evaluate_window :
      Context
      → String
      → String
      → CollectionPolicy F
      → String
      → Result (Window F)
      → Exec (App F) (List (Anomaly F))
  unfolding raise_all
  evaluate_window ctx stream_id device_id policy signal (err e) = return []
  evaluate_window ctx stream_id device_id policy signal (ok w) =
      raise_all ctx stream_id device_id policy signal w (detect w policy.rules)

  unfoldable pub evaluate_policy :
      Context → String → String → Result (CollectionPolicy F) → Exec (App F) (List (Anomaly F))
  unfolding evaluate_window
  evaluate_policy ctx stream_id device_id (err e) = return []
  evaluate_policy ctx stream_id device_id (ok policy) = do
    stream ← query (λ m. get_stream m stream_id)
    t ← now
    w ← query (λ m. ok (recent_window m stream_id t))
    evaluate_window ctx stream_id device_id policy stream.signal w

  unfoldable pub evaluate_telemetry : Context → String → String → Exec (App F) (List (Anomaly F))
  unfolding evaluate_policy
  evaluate_telemetry ctx stream_id device_id = do
    ensure_context ctx
    t ← now
    policy ← catch (query (λ m. active_policy m device_id t))
    evaluate_policy ctx stream_id device_id policy

  unfoldable pub samples_of : Context → String → ℤ → Exec (App F) (List (Sample F))
  samples_of ctx stream_id limit = do
    ensure_context ctx
    query (λ m. ok (latest_samples_by_stream m stream_id limit))
