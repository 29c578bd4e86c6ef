-- ===== src/Service/Telemetry/Ingest.antt =====
-- What `IngestTelemetry` of telemetry.go stores of a batch.
use orbit_telemetry_orchestr.Prelude.{
  ℕ, suc, String, ◌≡◌, refl, ◌∙◌, ap, inl, inr, true, List, [], ◌∷◌, ◌++◌, arith, length, ok, err,
  Error, Result-cases, Time, Float, Dict, ℤ, values, insert, lookup, Option-cases, or_not_found-ok,
  lookup-insert, eq_iff, string_eq, some,
}
use orbit_telemetry_orchestr.Domain.Device.{Device, device_status_eq, can_receive_telemetry}
use orbit_telemetry_orchestr.Domain.Stream.{TelemetryStream, accepts_samples}
use orbit_telemetry_orchestr.Domain.Telemetry.{Sample, new_sample}
use mathlib.Core.List.{append-nil, append_assoc}
use orbit_telemetry_orchestr.Store.{Memory}
use orbit_telemetry_orchestr.Store.Devices.{get_device, get_stream}
use orbit_telemetry_orchestr.Store.Samples.{add_samples}
use orbit_telemetry_orchestr.Service.{
  App, Context, nil, live, done, ensure_context, now, record_audit, add_metric,
}
use orbit_telemetry_orchestr.Service.Telemetry.{
  TelemetryInput, accept_input, cached, ingest_loop, ingest_telemetry,
}
use orbit_telemetry_orchestr.Service.Telemetry.Touching.{samples-touch_streams, touch_streams_then}

module _ {F : Type 0} ⦃fl : Float F⦄ where
  ingest_telemetry_ok :
      (actor : String) (x : TelemetryInput F) (xs : List (TelemetryInput F)) (a : App F)
      (read : Dict TelemetryStream × List (Sample F))
      → ingest_loop a.repository (a.clock a.reads) (x ∷ xs) [] [] ≡ ok read
      → (ingest_telemetry live actor (x ∷ xs) a).0 ≡ ok (length read.1)
  unfolding ingest_telemetry ensure_context now record_audit add_metric
  ingest_telemetry_ok actor x xs a read made =
      rw made (ap (λ r. r.0) (touch_streams_then live (a.clock a.reads) (values read.0) _ _))

  -- A batch that is refused changes nothing of the repository: no sample of it is stored, and no
  -- device is touched.
  pub ingest_telemetry_refused :
      (ctx : Context) (actor : String) (batch : List (TelemetryInput F)) (a : App F) {e : Error}
      → (ingest_telemetry ctx actor batch a).0 ≡ err e
      → (ingest_telemetry ctx actor batch a).1.repository ≡ a.repository
  unfolding ingest_telemetry ensure_context now record_audit add_metric
  ingest_telemetry_refused nil actor batch a h = refl
  ingest_telemetry_refused done actor batch a h = refl
  ingest_telemetry_refused live actor [] a h = refl
  ingest_telemetry_refused live actor (x ∷ xs) a h =
      elim (Result-cases (ingest_loop a.repository (a.clock a.reads) (x ∷ xs) [] [])) [
        | inr (e, refused) ↦ rw refused refl
        | inl (read, made) ↦ absurd (ground (arith, h, ingest_telemetry_ok actor x xs a read made))
      ]

  -- The sample was made of the input, for the stored stream that the input names, which accepts samples,
  -- and the stored device of that stream, which can receive telemetry.
  abbrev pub FromInput : Memory F → TelemetryInput F → Sample F → Type 0
  FromInput m input s =
      (stream : TelemetryStream) × (device : Device) × (lookup input.stream_id m.streams
        ≡ some stream)
      × (lookup stream.device_id m.devices ≡ some device)
      × (accepts_samples stream ≡ true)
      × (can_receive_telemetry device ≡ true)
      × (s.stream_id ≡ stream.id)
      × (s.device_id ≡ stream.device_id)
      × (s.signal ≡ stream.signal)
      × (s.value ≡ input.value)
      × (s.observed_at ≡ input.observed_at)
      × (s.sequence ≡ input.sequence)
      × (fl.is_finite s.value ≡ true)

  -- One sample for each input, in the order of the batch.
  abbrev pub FromBatch : Memory F → List (TelemetryInput F) → List (Sample F) → Type 0
  FromBatch m [] [] = Unit
  FromBatch m (input ∷ inputs) (s ∷ samples) = FromInput m input s × FromBatch m inputs samples
  FromBatch m _ _ = ⊥

  new_sample_fields :
      (stream_id device_id signal quality : String) (value : F) (observed received : Time)
      (sequence : ℤ) {s : Sample F}
      → new_sample stream_id device_id signal quality value observed received sequence ≡ ok s
      → (s.stream_id ≡ stream_id)
        × (s.device_id ≡ device_id)
        × (s.signal ≡ signal)
        × (s.value ≡ value)
        × (s.observed_at ≡ observed)
        × (s.sequence ≡ sequence)
        × (fl.is_finite s.value ≡ true)
  unfolding new_sample
  new_sample_fields stream_id device_id signal quality value observed received sequence h =
      ground arith

  -- The streams that the batch has met are as the repository holds them.
  abbrev IsCache : Memory F → Dict TelemetryStream → Type 0
  IsCache m streams =
      (id : String) (s : TelemetryStream)
      → lookup id streams ≡ some s
      → lookup id m.streams ≡ some s

  cached-stored :
      (m : Memory F) (streams : Dict TelemetryStream) (id : String) {s : TelemetryStream}
      → IsCache m streams
      → cached m streams id ≡ ok s
      → lookup id m.streams ≡ some s
  unfolding get_stream
  cached-stored m streams id {s} kept h = elim (Option-cases (lookup id streams)) [
    | inl missing ↦ or_not_found-ok (lookup id m.streams) (ground (arith, h))
    | inr (held, met) ↦ kept id s (ground (arith, met, h))
  ]

  insert-IsCache :
      (m : Memory F) (streams : Dict TelemetryStream) (key : String) (stream : TelemetryStream)
      → IsCache m streams
      → lookup key m.streams ≡ some stream
      → IsCache m (insert key stream streams)
  insert-IsCache m streams key stream kept stored id s h =
      ground (arith, lookup-insert key id stream streams, eq_iff key id, kept id s, stored, h)

  accept_input-FromInput :
      (m : Memory F) (t : Time) (streams : Dict TelemetryStream) (input : TelemetryInput F)
      {x : TelemetryStream × Sample F}
      → IsCache m streams
      → accept_input m t streams input ≡ ok x
      → FromInput m input x.1 × (lookup input.stream_id m.streams ≡ some x.0)
  unfolding accept_input get_device
  accept_input-FromInput m t streams input {x} kept h =
      elim (Result-cases (cached m streams input.stream_id)) [
        | inr (e, got) ↦ absurd (ground arith)
        | inl (stream, got) ↦ elim (Result-cases (get_device m stream.device_id)) [
          | inr (e, held) ↦ absurd (ground arith)
          | inl (device, held) ↦
              let made =
                new_sample stream.id stream.device_id stream.signal input.quality input.value
                  input.observed_at t input.sequence in
              elim (Result-cases made) [
                | inr (e, bad) ↦ absurd (ground arith)
                | inl (s, good) ↦
                    let fields =
                      new_sample_fields stream.id stream.device_id stream.signal input.quality
                        input.value input.observed_at t input.sequence good in
                    let same : x ≡ (stream, s) = ground arith in
                    let stored = cached-stored m streams input.stream_id kept got in
                    let owned = or_not_found-ok (lookup stream.device_id m.devices) held in
                    rw same (
                      (
                        stream,
                        device,
                        stored,
                        owned,
                        ground arith,
                        ground arith,
                        fields.0,
                        fields.1,
                        fields.2,
                        fields.3,
                        fields.4,
                        fields.5,
                        fields.6,
                      ),
                      stored,
                    )
              ]
        ]
      ]

  ingest_loop-FromBatch :
      (m : Memory F) (t : Time) (inputs : List (TelemetryInput F)) (streams : Dict TelemetryStream)
      (result : List (Sample F)) (read : Dict TelemetryStream × List (Sample F))
      → IsCache m streams
      → ingest_loop m t inputs streams result ≡ ok read
      → (new : List (Sample F)) × (read.1 ≡ result ++ new) × FromBatch m inputs new
  unfolding ingest_loop
  ingest_loop-FromBatch m t [] streams result read kept h =
      ([], ground (arith, append-nil result), tt)
  ingest_loop-FromBatch m t (input ∷ inputs) streams result read kept h =
      elim (Result-cases (accept_input m t streams input)) [
        | inr (e, bad) ↦ absurd (ground arith)
        | inl (x, good) ↦
            let made = accept_input-FromInput m t streams input {x = x} kept good in
            let rest =
              ingest_loop-FromBatch m t inputs (insert input.stream_id x.0 streams)
                (result ++ x.1 ∷ []) read (insert-IsCache m streams input.stream_id x.0 kept made.1)
                (ground arith) in
            (x.1 ∷ rest.0, rest.1 ∙ append_assoc result (x.1 ∷ []) rest.0, (made.0, rest.2))
      ]

  length-FromBatch :
      (m : Memory F) (inputs : List (TelemetryInput F)) (new : List (Sample F))
      → FromBatch m inputs new
      → length new ≡ length inputs
  length-FromBatch m [] [] h = refl
  length-FromBatch m (i ∷ inputs) (s ∷ new) h = ap suc (length-FromBatch m inputs new h.1)
  length-FromBatch m [] (s ∷ new) h = absurd h
  length-FromBatch m (i ∷ inputs) [] h = absurd h

  -- A batch that is accepted is stored whole: the number that is returned is that of its inputs, and
  -- the samples of the repository are the old ones with one new sample for each input, in order (of
  -- which the store keeps the newest), each made of its input for the stored stream that the input
  -- names, which accepts samples, and the stored device of that stream, which can receive telemetry.
  pub ingest_telemetry_stores :
      (actor : String) (batch : List (TelemetryInput F)) (a : App F) {n : ℕ}
      → (ingest_telemetry live actor batch a).0 ≡ ok n
      → (n ≡ length batch)
        × ((new : List (Sample F)) × FromBatch a.repository batch new
            × ((ingest_telemetry live actor batch a).1.repository.samples
                ≡ (add_samples new a.repository).samples))
  unfolding ingest_telemetry ensure_context now record_audit add_metric
  ingest_telemetry_stores actor [] a h = absurd (ground arith)
  ingest_telemetry_stores actor (x ∷ xs) a h =
      elim (Result-cases (ingest_loop a.repository (a.clock a.reads) (x ∷ xs) [] [])) [
        | inr (e, refused) ↦ absurd (ground arith)
        | inl (read, made) ↦
            let parts =
              ingest_loop-FromBatch a.repository (a.clock a.reads) (x ∷ xs) [] [] read
                (λ id s h. absurd (unfold lookup in ground (arith, h))) made in
            let batch : FromBatch a.repository (x ∷ xs) read.1 = rw parts.1 parts.2 in
            (
              ground (
                arith,
                ingest_telemetry_ok actor x xs a read made,
                length-FromBatch a.repository (x ∷ xs) read.1 batch,
              ),
              (
                read.1,
                batch,
                rw made (
                    ap (λ r. r.1.repository.samples)
                      (touch_streams_then live (a.clock a.reads) (values read.0) _ _)
                    ∙ samples-touch_streams live (a.clock a.reads) (values read.0) _),
              ),
            )
      ]
