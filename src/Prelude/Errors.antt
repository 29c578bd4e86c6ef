-- ===== src/Prelude/Errors.antt =====
-- The errors of the program, one constructor for each `errors.New`, with the texts that the HTTP
-- layer compares; results, and stateful code that may fail.
use Prim.Native.Nat.{ℕ}
use mathlib.Core.Bool.{Bool, true, false}
use mathlib.Core.Path.{◌≡◌, refl}
use mathlib.Core.Logic.{◌⊎◌, inl, inr}

pub data Error : Type 0 where
  -- store/memory.go
  not_found conflict exists : Error
  -- domain/device.go
  device_id_required device_site_required pending_device ready_device degraded_device : Error
  retired_device unknown_device_status : Error
  -- domain/stream.go
  stream_id_required stream_name_required period_not_positive disabled_stream : Error
  unknown_stream_status : Error
  -- domain/policy.go
  policy_id_required version_not_positive no_rules negative_retries : Error
  rule_at : ℕ → Error → Error
  signal_required severity_range duration_not_positive threshold_required : Error
  outside_thresholds rate_threshold unknown_comparator : Error
  only_draft only_published : Error
  -- domain/incident.go
  incident_fields_required incident_severity_range closed_anomalies unknown_incident_status : Error
  invalid_incident_transition closed_actions closed_evidence : Error
  -- domain/action.go
  action_fields_required unknown_action_type action_not_ready action_exhausted : Error
  -- domain/anomaly.go
  only_open_anomalies : Error
  -- domain/evidence.go
  evidence_id_required evidence_title_required unknown_evidence_kind : Error
  -- domain/telemetry.go
  sample_fields_required sample_not_finite sample_timestamps_required sequence_not_positive : Error
  window_empty window_bounds window_mixed window_no_samples : Error
  -- aggregate/window.go
  no_samples_available : Error
  -- service
  context_required context_done retired_touch retired_policy version_not_above_active : Error
  closed_needs_evidence only_queued batch_empty not_ready : Error
  invalid_evaluation_payload invalid_action_payload invalid_rollup_payload : Error
  invalid_maintenance actor_required : Error
  -- httpapi; `body_refused` is the error of `encoding/json`
  path_id_required rate_limited body_refused : Error
  -- queue/queue.go
  queue_stopped queue_full : Error
  -- the outcome of a call of events/bus.go that never returns
  publish_blocks : Error

pub data Result {ℓ} (A : Type ℓ) : Type ℓ where
  ok : A → Result A
  err : Error → Result A

module _ {ℓ} {B : Type ℓ} where
  infixl 5 ◌>>=◌ ◌>>◌
  -- `x, err := r; if err != nil { return err }`
  abbrev pub ◌>>=◌ {κ} : {A : Type κ} → Result A → (A → Result B) → Result B
  ok value >>= next = next value
  err why >>= next = err why

  -- `if err := r; err != nil { return err }`
  abbrev pub ◌>>◌ : Result (Unit {0}) → Result B → Result B
  first >> next = first >>= λ u. next

-- `if bad { return errors.New(…) }`
abbrev pub refuse_if : Bool → Error → Result (Unit {0})
refuse_if true e = err e
refuse_if false e = ok tt

pub Result-cases {ℓ} :
    {A : Type ℓ} (r : Result A) → ((a : A) × (r ≡ ok a)) ⊎ ((e : Error) × (r ≡ err e))
Result-cases (ok a) = inl (a, refl)
Result-cases (err e) = inr (e, refl)
