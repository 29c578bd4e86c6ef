-- ===== src/Domain/Policy/Rules.antt =====
-- The rules of a policy that `NewPolicy` of policy.go makes, and its checks.
use orbit_telemetry_orchestr.Prelude.{
  ℕ, ◌+◌, ◌<◌, String, ◌≡◌, refl, ◌⊎◌, inl, inr, false, List, [], ◌∷◌, ◌++◌, arith, ℤ, pos, ◌<ℤ◌,
  ◌≤ℤ◌, Time, length, All, is_blank, Float, Error, Result, ok, err, ap, ◌∙◌,
}
use orbit_telemetry_orchestr.Prelude.Errors.{rule_at}
use orbit_telemetry_orchestr.Domain.Policy.{
  Rule, ResponsePlan, CollectionPolicy, draft, validate, at_rule, validate_from, new_policy,
  Comparator, above, below, outside, rate, unknown,
}

module _ {F : Type 0} ⦃fl : Float F⦄ where
  -- The thresholds fit the comparator.
  abbrev pub HasThresholds : Comparator → F → F → Type 0
  HasThresholds above lower upper =
      (fl.eqf lower (fl.of_ℕ 0) ≡ false) ⊎ (fl.eqf upper (fl.of_ℕ 0) ≡ false)
  HasThresholds below lower upper =
      (fl.eqf lower (fl.of_ℕ 0) ≡ false) ⊎ (fl.eqf upper (fl.of_ℕ 0) ≡ false)
  HasThresholds outside lower upper = fl.lef upper lower ≡ false
  HasThresholds rate lower upper = fl.lef upper (fl.of_ℕ 0) ≡ false
  HasThresholds (unknown s) lower upper = ⊥

  -- A rule names a signal, has a severity of 1 to 5, a positive duration and thresholds.
  pub record IsSound (r : Rule F) : Type 0 where
    pub signalled : is_blank r.signal ≡ false
    pub severe : ((r.severity <ℤ pos 1) ≡ false) × ((pos 5 <ℤ r.severity) ≡ false)
    pub lasting : (r.duration ≤ℤ pos 0) ≡ false
    pub bounded : HasThresholds r.comparator r.lower r.upper

  validate_thresholds :
      (c : Comparator) (r : Rule F)
      → r.comparator ≡ c
      → validate r ≡ ok tt
      → HasThresholds c r.lower r.upper
  unfolding validate
  validate_thresholds above r e h = ground arith
  validate_thresholds below r e h = ground arith
  validate_thresholds outside r e h = ground arith
  validate_thresholds rate r e h = ground arith
  validate_thresholds (unknown s) r e h = ground arith

  validate-IsSound : (r : Rule F) → validate r ≡ ok tt → IsSound r
  unfolding validate
  validate-IsSound r h = record {
    signalled = ground arith;
    severe = ground arith;
    lasting = ground arith;
    bounded = validate_thresholds r.comparator r refl h;
  }

  validate_from-IsSound :
      (index : ℕ) (rules : List (Rule F)) → validate_from index rules ≡ ok tt → All IsSound rules
  unfolding validate_from at_rule
  validate_from-IsSound index [] h = tt
  validate_from-IsSound index (r ∷ rules) h =
      (validate-IsSound r (ground arith), validate_from-IsSound (index + 1) rules (ground arith))

  new_policy_parts :
      (id name device_id creator : String) (version : ℤ) (rules : List (Rule F))
      (response : ResponsePlan) (from now : Time) {p : CollectionPolicy F}
      → new_policy id name device_id creator version rules response from now ≡ ok p
      → (p.status ≡ draft)
        × ((p.version <ℤ pos 1) ≡ false)
        × (0 < length rules)
        × (p.rules ≡ rules)
        × (validate_from 0 rules ≡ ok tt)
  unfolding new_policy
  new_policy_parts id name device_id creator version [] response from now h = ground arith
  new_policy_parts id name device_id creator version (r ∷ rules) response from now h = ground arith

  -- A policy that is created is a draft of positive version with at least one rule, and every rule
  -- of it is sound.
  pub new_policy_lem :
      (id name device_id creator : String) (version : ℤ) (rules : List (Rule F))
      (response : ResponsePlan) (from now : Time) {p : CollectionPolicy F}
      → new_policy id name device_id creator version rules response from now ≡ ok p
      → (p.status ≡ draft)
        × ((p.version <ℤ pos 1) ≡ false)
        × (0 < length p.rules)
        × All IsSound p.rules
  new_policy_lem id name device_id creator version rules response from now {p} h =
      let parts =
        new_policy_parts id name device_id creator version rules response from now {p = p} h in
      (parts.0, parts.1, rw parts.3 parts.2, rw parts.3 (validate_from-IsSound 0 rules parts.4))

  -- `bad` is the first rule that does not validate, and `e` names it by its index.
  pub record FirstBad (index : ℕ) (rules : List (Rule F)) (e : Error) : Type 0 where
    pub before_it : List (Rule F)
    pub bad : Rule F
    pub after_it : List (Rule F)
    pub reason : Error
    pub split : rules ≡ before_it ++ bad ∷ after_it
    pub good : All (λ (r : Rule F). validate r ≡ ok tt) before_it
    pub refused : validate bad ≡ err reason
    pub named : e ≡ rule_at (index + length before_it) reason

  validate_cases : (r : Rule F) → (validate r ≡ ok tt) ⊎ ((e : Error) × (validate r ≡ err e))
  validate_cases r = go (validate r) refl
    where
      go :
          (x : Result (Unit {0}))
          → validate r ≡ x
          → (validate r ≡ ok tt) ⊎ ((e : Error) × (validate r ≡ err e))
      go (ok u) h = inl h
      go (err e) h = inr (e, h)

  -- A refusal by the loop names the first rule that does not validate, by its index and its reason.
  pub validate_from-FirstBad :
      (index : ℕ) (rules : List (Rule F)) {e : Error}
      → validate_from index rules ≡ err e
      → FirstBad index rules e
  unfolding validate_from at_rule
  validate_from-FirstBad index [] h = absurd (ground arith)
  validate_from-FirstBad index (r ∷ rules) {e} h = elim (validate_cases r) [
    | inl fine ↦
        let rest = validate_from-FirstBad (index + 1) rules {e = e} (ground arith) in
        record {
          before_it = r ∷ rest.before_it;
          bad = rest.bad;
          after_it = rest.after_it;
          reason = rest.reason;
          split = ap (◌∷◌ r) rest.split;
          good = (fine, rest.good);
          refused = rest.refused;
          named = rest.named ∙ ap (λ (n : ℕ). rule_at n rest.reason) (omega arith);
        }
    | inr (reason, bad) ↦ record {
      before_it = [];
      bad = r;
      after_it = rules;
      reason = reason;
      split = refl;
      good = tt;
      refused = bad;
      named = ground arith;
    }
  ]
