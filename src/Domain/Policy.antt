-- ===== src/Domain/Policy.antt =====
-- internal/domain/policy.go; `F` is `float64`.
pub mod Rules
pub mod Lifecycle
use orbit_telemetry_orchestr.Prelude.{
  ℕ, suc, ◌+◌, String, ◌≡◌, Bool, true, false, ◌&&◌, ◌||◌, not, Option, none, some, List, [], ◌∷◌,
  ◌↔◌, arith, eq_iff, Eq, ◌==◌, ◌!=◌, string_eq, if◌then◌else◌, ℤ, pos, ◌<ℤ◌, ◌≤ℤ◌, Time, Duration,
  is_zero, before, trim_space, is_blank, Float, Error, Result, ok, err,
}
use orbit_telemetry_orchestr.Prelude.Errors.{
  ◌>>=◌, ◌>>◌, refuse_if, policy_id_required, version_not_positive, no_rules, negative_retries,
  rule_at, signal_required, severity_range, duration_not_positive, threshold_required,
  outside_thresholds, rate_threshold, unknown_comparator, only_draft, only_published,
}

-- The `other s` of these types is a text that is none of the constants.
pub data PolicyStatus : Type 0 where
  draft published locked retired : PolicyStatus
  other : String → PolicyStatus

abbrev pub same_status : PolicyStatus → PolicyStatus → Bool
same_status draft draft = true
same_status published published = true
same_status locked locked = true
same_status retired retired = true
same_status (other s) (other t) = s == t
same_status _ _ = false

pub same_status_iff : (a b : PolicyStatus) → (same_status a b ≡ true) ↔ (a ≡ b)
same_status_iff (other s) (other t) = ground (arith, eq_iff s t)
same_status_iff draft b = ground arith
same_status_iff published b = ground arith
same_status_iff locked b = ground arith
same_status_iff retired b = ground arith
same_status_iff (other s) b = ground arith

instance abbrev pub policy_status_eq : Eq PolicyStatus
policy_status_eq = record { beq = same_status; beq_iff = same_status_iff }

pub data Comparator : Type 0 where
  above below outside rate : Comparator
  unknown : String → Comparator

pub record Rule (F : Type 0) : Type 0 where
  pub signal : String
  pub comparator : Comparator
  pub lower : F
  pub upper : F
  pub duration : Duration
  pub severity : ℤ

pub record ResponsePlan : Type 0 where
  pub action_types : List String
  pub max_retries : ℤ
  pub cooldown : Duration

pub record CollectionPolicy (F : Type 0) : Type 0 where
  pub id : String
  pub name : String
  pub device_id : String
  pub version : ℤ
  pub status : PolicyStatus
  pub effective_from : Time
  pub effective_until : Option Time
  pub rules : List (Rule F)
  pub response : ResponsePlan
  pub created_by : String
  pub created_at : Time
  pub updated_at : Time

-- `fmt.Errorf("rule %d: %w", index, err)`
at_rule : ℕ → Result (Unit {0}) → Result (Unit {0})
at_rule index (ok u) = ok u
at_rule index (err e) = err (rule_at index e)

-- `EffectiveUntil == nil || now.Before(*EffectiveUntil)`
before_end : Time → Option Time → Bool
before_end now none = true
before_end now (some end) = before now end

module _ {F : Type 0} ⦃fl : Float F⦄ where
  -- The `switch` of `Validate`.
  check_thresholds : Comparator → F → F → Result (Unit {0})
  check_thresholds above lower upper =
      refuse_if (fl.eqf lower (fl.of_ℕ 0) && fl.eqf upper (fl.of_ℕ 0)) threshold_required
  check_thresholds below lower upper =
      refuse_if (fl.eqf lower (fl.of_ℕ 0) && fl.eqf upper (fl.of_ℕ 0)) threshold_required
  check_thresholds outside lower upper = refuse_if (fl.lef upper lower) outside_thresholds
  check_thresholds rate lower upper = refuse_if (fl.lef upper (fl.of_ℕ 0)) rate_threshold
  check_thresholds (unknown s) lower upper = err unknown_comparator

  unfoldable pub validate : Rule F → Result (Unit {0})
  unfolding check_thresholds
  validate r = do
    refuse_if (is_blank r.signal) signal_required
    refuse_if (r.severity <ℤ pos 1 || pos 5 <ℤ r.severity) severity_range
    refuse_if (r.duration ≤ℤ pos 0) duration_not_positive
    check_thresholds r.comparator r.lower r.upper

  -- The loop of `NewPolicy` over the rules from `index` on.
  unfoldable pub validate_from : ℕ → List (Rule F) → Result (Unit {0})
  unfolding at_rule
  validate_from index [] = ok tt
  validate_from index (r ∷ rules) =
      let rest = validate_from (index + 1) rules in do at_rule index (validate r); rest

  is_nil : List (Rule F) → Bool
  is_nil [] = true
  is_nil (r ∷ rules) = false

  unfoldable pub new_policy :
      String
      → String
      → String
      → String
      → ℤ
      → List (Rule F)
      → ResponsePlan
      → Time
      → Time
      → Result (CollectionPolicy F)
  unfolding validate_from is_nil
  new_policy id name device_id creator version rules response from now = do
    refuse_if (is_blank id || is_blank name || is_blank device_id) policy_id_required
    refuse_if (version <ℤ pos 1) version_not_positive
    refuse_if (is_nil rules) no_rules
    validate_from 0 rules
    refuse_if (response.max_retries <ℤ pos 0) negative_retries
    ok (record {
      id = id;
      name = trim_space name;
      device_id = device_id;
      version = version;
      status = draft;
      effective_from = from;
      effective_until = none;
      rules = rules;
      response = response;
      created_by = creator;
      created_at = now;
      updated_at = now;
    })

module _ {F : Type 0} where
  unfoldable pub publish : CollectionPolicy F → Time → Result (CollectionPolicy F)
  publish p now = do
    refuse_if (p.status != draft) only_draft
    ok (record p {
      effective_from = if is_zero p.effective_from then now else p.effective_from;
      status = published;
      updated_at = now;
    })

  unfoldable pub lock : CollectionPolicy F → Time → Result (CollectionPolicy F)
  lock p now = do
    refuse_if (p.status != published) only_published
    ok (record p { status = locked; updated_at = now })

  unfoldable pub retire : CollectionPolicy F → Time → Result (CollectionPolicy F)
  retire p now =
      if p.status == retired then ok p else ok (record p { status = retired; updated_at = now })

  unfoldable pub active_at : CollectionPolicy F → Time → Bool
  unfolding before_end
  active_at p now =
      if p.status != published && p.status != locked
      then false
      else if before now p.effective_from
      then false
      else before_end now p.effective_until
