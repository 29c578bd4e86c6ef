-- ===== src/Store/Actions.antt =====
-- The actions and the evidence of internal/store/memory.go and internal/store/queries.go.
pub mod Idempotency
use orbit_telemetry_orchestr.Prelude.{
  ℕ, String, Bool, true, false, ◌&&◌, ◌||◌, Option, none, some, List, [], ◌∷◌, if◌then◌else◌, ◌==◌,
  ◌!=◌, string_eq, ℤ, is_some, or_not_found, lookup, insert, values, keep, sort_slice, length, Time,
  before, Result, ok, err,
}
use orbit_telemetry_orchestr.Prelude.Errors.{not_found, conflict, exists}
use orbit_telemetry_orchestr.Domain.Action.{ResponseAction, ActionStatus, action_status_eq}
use orbit_telemetry_orchestr.Domain.Evidence.{Evidence, EvidenceKind, evidence_kind_eq}
use orbit_telemetry_orchestr.Store.{Memory, Update, matches_id, cap_list}

-- `status` is `none` where the filter is the empty text.
abbrev pub action_matches : String → Option ActionStatus → ResponseAction → Bool
action_matches incident_id none a = matches_id incident_id a.incident_id
action_matches incident_id (some status) a =
    matches_id incident_id a.incident_id && a.status == status

-- The earliest first.
abbrev pub action_less : ResponseAction → ResponseAction → Bool
action_less a b = before a.created_at b.created_at

abbrev pub evidence_less : Evidence → Evidence → Bool
evidence_less a b = before a.created_at b.created_at

-- `Counts`
pub record Counts : Type 0 where
  pub devices : ℕ
  pub streams : ℕ
  pub policies : ℕ
  pub samples : ℕ
  pub anomalies : ℕ
  pub incidents : ℕ
  pub actions : ℕ
  pub evidence : ℕ
  pub at : Time

-- The loop of `HasEvidenceKind`.
any_of_kind : String → EvidenceKind → List Evidence → Bool
any_of_kind incident_id kind [] = false
any_of_kind incident_id kind (e ∷ rest) =
    (e.incident_id == incident_id && e.kind == kind) || any_of_kind incident_id kind rest

module _ {F : Type 0} where
  unfoldable pub put_action : ResponseAction → Update F
  put_action a m = elim (lookup a.idempotency m.idempotency) [
    | some existing ↦ if existing != a.id then (err conflict, m) else (err exists, m)
    | none ↦ if is_some (lookup a.id m.actions) then (err exists, m) else (
      ok tt,
      record m {
        actions = insert a.id a m.actions;
        idempotency = insert a.idempotency a.id m.idempotency;
      },
    )
  ]

  unfoldable pub get_action : Memory F → String → Result ResponseAction
  get_action m id = or_not_found (lookup id m.actions)

  unfoldable pub update_action : ResponseAction → Update F
  update_action a m =
      if is_some (lookup a.id m.actions)
      then (ok tt, record m { actions = insert a.id a m.actions })
      else (err not_found, m)

  unfoldable pub list_actions : Memory F → String → Option ActionStatus → ℤ → List ResponseAction
  list_actions m incident_id status limit =
      cap_list
        (sort_slice action_less (keep (action_matches incident_id status) (values m.actions))) limit

  unfoldable pub put_evidence : Evidence → Update F
  put_evidence e m =
      if is_some (lookup e.id m.evidence)
      then (err exists, m)
      else (ok tt, record m { evidence = insert e.id e m.evidence })

  unfoldable pub list_evidence : Memory F → String → ℤ → List Evidence
  list_evidence m incident_id limit =
      cap_list
        (sort_slice evidence_less
          (keep (λ e. matches_id incident_id e.incident_id) (values m.evidence)))
        limit

  unfoldable pub has_evidence_kind : Memory F → String → EvidenceKind → Bool
  unfolding any_of_kind
  has_evidence_kind m incident_id kind = any_of_kind incident_id kind (values m.evidence)

  unfoldable pub counts : Memory F → Time → Counts
  counts m now = record {
    devices = length m.devices;
    streams = length m.streams;
    policies = length m.policies;
    samples = length m.samples;
    anomalies = length m.anomalies;
    incidents = length m.incidents;
    actions = length m.actions;
    evidence = length m.evidence;
    at = now;
  }
