-- ===== src/Service.antt =====
-- internal/service/app.go: the state behind an `App`, and what its methods share. The clock is the
-- list of its readings, as a function, and `reads` counts them; `F` is `float64`.
pub mod Contracts
pub mod Soundness
pub mod Devices
pub mod Streams
pub mod Policies
pub mod Actions
pub mod Incidents
pub mod Evidence
pub mod Telemetry
pub mod Validation
pub mod Maintenance
pub mod Report
pub mod Jobs
use orbit_telemetry_orchestr.Prelude.{
  ℕ, ◌+◌, ◌%◌, ◌^◌, ◌-◌, ltb, String, Bool, true, false, Option, none, some, List, [], ◌∷◌, Dict,
  if◌then◌else◌, eqb, ℤ, pos, negsuc, Time, Error, Result, ok, err, digits_text, fill_digits, ◌+s◌,
  max_int64, of_bits64,
}
use orbit_telemetry_orchestr.Prelude.Errors.{
  context_required, context_done, publish_blocks, refuse_if,
}
use orbit_telemetry_orchestr.Prelude.Exec.{Exec, ◌>>=◌, ◌>>◌, return, lift}
use orbit_telemetry_orchestr.Store.{Memory}
use orbit_telemetry_orchestr.Audit.{Log, record_entry}
use orbit_telemetry_orchestr.Metrics.{Registry, inc_counter, add_counter}
use orbit_telemetry_orchestr.Queue.{Queue, Payload, submit}
use orbit_telemetry_orchestr.Events.{Bus, Value, publish, new_event}

-- `to_lower` is `strings.ToLower`; `range_from` says where a `range` that follows a reading of the clock
-- begins, which Go leaves open; `reads` counts the readings of the clock; `sequence` is a `uint64`.
pub record App (F : Type 0) : Type 0 where
  pub repository : Memory F
  pub bus : Bus
  pub audit : Log
  pub queue : Option Queue
  pub metrics : Registry F
  pub clock : ℕ → Time
  pub reads : ℕ
  pub sequence : ℕ
  pub to_lower : String → String
  pub range_from : ℕ → ℕ

-- A `context.Context`: nil, live, or done.
pub data Context : Type 0 where
  nil live done : Context

-- The job's time is a reading of the system's clock, which is taken to be that of the service. A
-- refused job is logged and forgotten.
submitted : Option Queue → String → Payload → Time → Option Queue
submitted none job_type payload t = none
submitted (some q) job_type payload t = some (submit q job_type payload t).1

module _ {F : Type 0} where
  unfoldable pub now : Exec (App F) Time
  now a = (ok (a.clock a.reads), record a { reads = a.reads + 1 })

  unfoldable pub ensure_context : Context → Exec (App F) (Unit {0})
  ensure_context nil = lift (err context_required)
  ensure_context live = return tt
  ensure_context done = lift (err context_done)

  -- A method of the repository that only reads.
  abbrev pub query : {A : Type 0} → (Memory F → Result A) → Exec (App F) A
  query f a = (f a.repository, a)

  -- A method of the repository that writes.
  abbrev pub update : (Memory F → Result (Unit {0}) × Memory F) → Exec (App F) (Unit {0})
  update f a = ((f a.repository).0, record a { repository = (f a.repository).1 })

  -- A publisher that waits on a full channel never returns; the bus of main.go drops instead.
  unfoldable pub published : Option Bus → Exec (App F) (Unit {0})
  published none a = (err publish_blocks, a)
  published (some b) a = (ok tt, record a { bus = b })

  unfoldable pub emit : String → String → String → List (String × Value) → Exec (App F) (Unit {0})
  unfolding published now
  emit event_type subject actor payload = do
    t ← now
    λ a.
        let (event, bus) = new_event a.bus event_type subject actor payload t in
        published (publish bus event) (record a { bus = bus })

  unfoldable pub record_audit :
      String → String → String → String → String → List (String × String) → Exec (App F) (Unit {0})
  unfolding now
  record_audit actor action resource resource_id message changes = do
    t ← now
    λ a. (
      ok tt,
      record a {
        audit = (record_entry a.audit actor action resource resource_id message changes t).0;
      },
    )

  unfoldable pub submit_job : String → Payload → Exec (App F) (Unit {0})
  unfolding submitted
  submit_job job_type payload a =
      (ok tt, record a { queue = submitted a.queue job_type payload (a.clock a.reads) })

  unfoldable pub inc_metric : String → Dict String → Exec (App F) (Unit {0})
  inc_metric name labels a = (ok tt, record a { metrics = inc_counter a.metrics name labels })

  unfoldable pub add_metric : String → ℕ → Exec (App F) (Unit {0})
  add_metric name value a = (ok tt, record a { metrics = add_counter a.metrics name value [] })

-- `itoa` of an `int`, through its buffer of 20 bytes; the smallest `int` has no positive negation,
-- so only its sign is written.
unfoldable pub itoa : ℤ → String
itoa (pos n) = if eqb n 0 then "0" else digits_text (fill_digits 20 n [])
itoa (negsuc n) = if eqb n max_int64 then "-" else "-" +s digits_text (fill_digits 20 (n + 1) [])

module _ {F : Type 0} where
  -- `int(a.sequence)` of a `uint64` is the `int64` with its bits.
  unfoldable pub next_id : String → Exec (App F) String
  next_id prefix a =
      let n = (a.sequence + 1) % 2 ^ 64 in
      (ok (prefix +s "-" +s itoa (of_bits64 n)), record a { sequence = n })
