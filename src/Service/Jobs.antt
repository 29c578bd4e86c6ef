-- ===== src/Service/Jobs.antt =====
-- The rest of internal/service/app.go, and how a worker of internal/queue/queue.go runs the handlers
-- that cmd/orbitd/main.go registers.
use orbit_telemetry_orchestr.Prelude.{
  String, Option, none, some, [], ◌∷◌, ◌==◌, string_eq, if◌then◌else◌, Float, Result, ok, err,
}
use orbit_telemetry_orchestr.Prelude.Errors.{
  invalid_evaluation_payload, invalid_action_payload, invalid_rollup_payload,
}
use orbit_telemetry_orchestr.Prelude.Exec.{Exec, ◌>>=◌, ◌>>◌, return, lift, ignore}
use orbit_telemetry_orchestr.Domain.Device
use orbit_telemetry_orchestr.Domain.Device.{Device, ready, new_device}
use orbit_telemetry_orchestr.Store.Devices.{put_device}
use orbit_telemetry_orchestr.Store.Actions.{Counts, counts}
use orbit_telemetry_orchestr.Queue.{Queue, Job, Payload}
use orbit_telemetry_orchestr.Service.{App, Context, live, done, now, ensure_context, query, update}
use orbit_telemetry_orchestr.Service.Actions.{execute_action}
use orbit_telemetry_orchestr.Service.Evidence.{rollup_evidence}
use orbit_telemetry_orchestr.Service.Telemetry.{evaluate_telemetry}

-- The device that an ignored `Transition` leaves.
abbrev pub moved_or_same : Result Device → Device → Device
moved_or_same (ok d') d = d'
moved_or_same (err e) d = d

-- A worker that runs takes the oldest job. Once the context is done, its `select` may still take one
-- of the jobs that are left.
unfoldable pub take_job : Option Queue → Option (Context × Job × Queue)
take_job none = none
take_job (some q) = elim q.jobs [
  | [] ↦ none
  | job ∷ rest ↦ some (if q.cancelled then done else live, job, record q { jobs = rest })
]

module _ {F : Type 0} where
  unfoldable pub stats : Context → Exec (App F) Counts
  stats ctx = do ensure_context ctx; t ← now; query (λ m. ok (counts m t))

  unfoldable pub seed : Exec (App F) (Unit {0})
  seed = do
    t ← now
    device ← λ a. (
      new_device a.to_lower "device-demo-1" "Demo Edge Gateway" "lab-a" "orbit-gw"
          ("demo" ∷ "edge" ∷ []) t,
      a,
    )
    ignore (update (put_device (moved_or_same (Device.transition device ready t) device)))

  unfoldable pub process_response_action : Context → Job → Exec (App F) (Unit {0})
  process_response_action ctx job = elim job.payload [
    | Payload.incident_evaluation s d ↦ lift (err invalid_action_payload)
    | Payload.response_action id ↦ execute_action ctx id >>= λ a. return tt
    | Payload.evidence_rollup id ↦ lift (err invalid_action_payload)
    | Payload.foreign ↦ lift (err invalid_action_payload)
  ]

  unfoldable pub process_evidence_rollup : Context → Job → Exec (App F) (Unit {0})
  process_evidence_rollup ctx job = elim job.payload [
    | Payload.incident_evaluation s d ↦ lift (err invalid_rollup_payload)
    | Payload.response_action id ↦ lift (err invalid_rollup_payload)
    | Payload.evidence_rollup id ↦ rollup_evidence ctx id >>= λ e. return tt
    | Payload.foreign ↦ lift (err invalid_rollup_payload)
  ]

module _ {F : Type 0} ⦃fl : Float F⦄ where
  unfoldable pub process_incident_evaluation : Context → Job → Exec (App F) (Unit {0})
  process_incident_evaluation ctx job = elim job.payload [
    | Payload.incident_evaluation s d ↦ evaluate_telemetry ctx s d >>= λ xs. return tt
    | Payload.response_action id ↦ lift (err invalid_evaluation_payload)
    | Payload.evidence_rollup id ↦ lift (err invalid_evaluation_payload)
    | Payload.foreign ↦ lift (err invalid_evaluation_payload)
  ]

  -- The calls of `Register` in `main`.
  unfoldable pub handler_of : String → Option (Context → Job → Exec (App F) (Unit {0}))
  handler_of name =
      if name == "incident-evaluation"
      then some process_incident_evaluation
      else if name == "response-action"
      then some process_response_action
      else if name == "evidence-rollup"
      then some process_evidence_rollup
      else none

  -- `handle`: a missing handler and an error are only logged.
  unfoldable pub handle : Context → Job → App F → App F
  unfolding handler_of
  handle ctx job a = elim (handler_of job.type) [ none ↦ a | some h ↦ (h ctx job a).1 ]

  unfoldable pub work : App F → App F
  unfolding take_job handle
  work a = elim (take_job a.queue) [
    | none ↦ a
    | some (ctx, job, q) ↦ handle ctx job (record a { queue = some q })
  ]
