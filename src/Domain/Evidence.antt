-- ===== src/Domain/Evidence.antt =====
-- internal/domain/evidence.go
use orbit_telemetry_orchestr.Prelude.{
  String, ◌≡◌, Bool, true, false, ◌||◌, not, ◌↔◌, arith, eq_iff, Eq, ◌==◌, string_eq, Time,
  trim_space, is_blank, Result, ok,
}
use orbit_telemetry_orchestr.Prelude.Errors.{
  ◌>>◌, refuse_if, evidence_id_required, evidence_title_required, unknown_evidence_kind,
}

-- `other s` is a text that is none of the four constants.
pub data EvidenceKind : Type 0 where
  telemetry_window action_result operator_note device_snapshot : EvidenceKind
  other : String → EvidenceKind

abbrev pub same_kind : EvidenceKind → EvidenceKind → Bool
same_kind telemetry_window telemetry_window = true
same_kind action_result action_result = true
same_kind operator_note operator_note = true
same_kind device_snapshot device_snapshot = true
same_kind (other s) (other t) = s == t
same_kind _ _ = false

pub same_kind_iff : (a b : EvidenceKind) → (same_kind a b ≡ true) ↔ (a ≡ b)
same_kind_iff (other s) (other t) = ground (arith, eq_iff s t)
same_kind_iff telemetry_window b = ground arith
same_kind_iff action_result b = ground arith
same_kind_iff operator_note b = ground arith
same_kind_iff device_snapshot b = ground arith
same_kind_iff (other s) b = ground arith

instance abbrev pub evidence_kind_eq : Eq EvidenceKind
evidence_kind_eq = record { beq = same_kind; beq_iff = same_kind_iff }

pub record Evidence : Type 0 where
  pub id : String
  pub incident_id : String
  pub kind : EvidenceKind
  pub title : String
  pub body : String
  pub source : String
  pub collected_at : Time
  pub created_at : Time

-- The `switch` of `NewEvidence`.
is_known_kind : EvidenceKind → Bool
is_known_kind (other s) = false
is_known_kind _ = true

unfoldable pub new_evidence :
    String → String → EvidenceKind → String → String → String → Time → Result Evidence
unfolding is_known_kind
new_evidence id incident_id kind title body source now = do
  refuse_if (is_blank id || is_blank incident_id) evidence_id_required
  refuse_if (is_blank title || is_blank body) evidence_title_required
  refuse_if (not (is_known_kind kind)) unknown_evidence_kind
  ok (record {
    id = id;
    incident_id = incident_id;
    kind = kind;
    title = trim_space title;
    body = body;
    source = trim_space source;
    collected_at = now;
    created_at = now;
  })
