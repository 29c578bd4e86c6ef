-- ===== src/Service/Evidence.antt =====
-- internal/service/evidence.go
use orbit_telemetry_orchestr.Prelude.{
  ℕ, ◌+◌, String, List, [], ◌∷◌, ◌==◌, pos, ◌+s◌, length, lookup, insert, Dict, ℤ, Option, none,
  some, trim_space, Result, ok, err,
}
use orbit_telemetry_orchestr.Prelude.Errors.{refuse_if, closed_evidence}
use orbit_telemetry_orchestr.Prelude.Exec.{Exec, ◌>>=◌, ◌>>◌, return, lift, ignore}
use orbit_telemetry_orchestr.Domain.Incident.{Incident, closed, incident_status_eq, attach_evidence}
use orbit_telemetry_orchestr.Domain.Evidence.{Evidence, EvidenceKind, new_evidence}
use orbit_telemetry_orchestr.Store.Incidents.{get_incident, update_incident}
use orbit_telemetry_orchestr.Store.Actions.{put_evidence, list_evidence}
use orbit_telemetry_orchestr.Events.{Value}
use orbit_telemetry_orchestr.Service.{
  App, Context, now, ensure_context, query, update, emit, record_audit, next_id, itoa,
}

pub record EvidenceInput : Type 0 where
  pub id : String
  pub kind : EvidenceKind
  pub title : String
  pub body : String
  pub source : String

-- `string(value.Kind)`
abbrev pub kind_text : EvidenceKind → String
kind_text EvidenceKind.telemetry_window = "telemetry-window"
kind_text EvidenceKind.action_result = "action-result"
kind_text EvidenceKind.operator_note = "operator-note"
kind_text EvidenceKind.device_snapshot = "device-snapshot"
kind_text (EvidenceKind.other s) = s

-- The incident that an ignored `AttachEvidence` leaves.
abbrev pub attached : Result Incident → Incident → Incident
attached (ok i') i = i'
attached (err e) i = i

abbrev pub count_or_zero : Option ℕ → ℕ
count_or_zero none = 0
count_or_zero (some n) = n

-- The loop of `EvidenceSummary`.
summarize : Dict ℕ → List Evidence → Dict ℕ
summarize summary [] = summary
summarize summary (e ∷ rest) =
    let k = kind_text e.kind in
    summarize (insert k (count_or_zero (lookup k summary) + 1) summary) rest

unfoldable pub evidence_text : Evidence → String
evidence_text e = trim_space e.title +s ": " +s trim_space e.body

module _ {F : Type 0} where
  unfoldable pub add_evidence : Context → String → String → EvidenceInput → Exec (App F) Evidence
  add_evidence ctx actor incident_id input = do
    ensure_context ctx
    incident ← query (λ m. get_incident m incident_id)
    lift (refuse_if (incident.status == closed) closed_evidence)
    t ← now
    evidence ←
        lift (new_evidence input.id incident_id input.kind input.title input.body input.source t)
    update (put_evidence evidence)
    t' ← now
    update (update_incident (attached (attach_evidence incident evidence.id t') incident))
    record_audit actor "attach" "evidence" evidence.id "evidence attached to incident" []
    emit "evidence.attached" evidence.id actor (("incident_id", Value.text incident_id) ∷ [])
    return evidence

  unfoldable pub evidence_listed : Context → String → ℤ → Exec (App F) (List Evidence)
  evidence_listed ctx incident_id limit = do
    ensure_context ctx
    query (λ m. ok (list_evidence m incident_id limit))

  unfoldable pub rollup_evidence : Context → String → Exec (App F) Evidence
  rollup_evidence ctx incident_id = do
    ensure_context ctx
    incident ← query (λ m. get_incident m incident_id)
    let body =
        "incident="
        +s incident.id
        +s "; anomalies="
        +s itoa (pos (length incident.anomaly_ids))
        +s "; actions="
        +s itoa (pos (length incident.action_ids))
    id ← next_id "evidence"
    t ← now
    evidence ← lift (
        new_evidence id incident_id EvidenceKind.device_snapshot "Automatic incident snapshot" body
          "orbit-rollup" t)
    update (put_evidence evidence)
    t' ← now
    ignore (update (update_incident (attached (attach_evidence incident evidence.id t') incident)))
    return evidence

  unfoldable pub evidence_summary : Context → String → Exec (App F) (Dict ℕ)
  unfolding evidence_listed summarize
  evidence_summary ctx incident_id = do
    values ← evidence_listed ctx incident_id (pos 0)
    return (summarize [] values)
