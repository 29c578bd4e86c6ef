-- ===== src/Aggregate/Rules.antt =====
-- `Detect` of detector.go against the rules that a window breaks.
use orbit_telemetry_orchestr.Prelude.{
  ℕ, ◌+◌, ◌-◌, ◌≡◌, refl, sym, ap, ◌∙◌, Bool, false, not, ◌&&◌, ◌||◌, leb, List, [], ◌∷◌, map,
  arith, ◌==◌, string_eq, Bool-cases, inl, inr, keep, Float,
}
use orbit_telemetry_orchestr.Domain.Policy.{Rule, Comparator, above, below, outside, rate, unknown}
use orbit_telemetry_orchestr.Domain.Telemetry.{Window}
use orbit_telemetry_orchestr.Aggregate.{Detection, triggers, format_threshold, detect_from, detect}

-- The items of a list with their places, from `i` on.
abbrev pub numbered {ℓ} : {A : Type ℓ} → ℕ → List A → List (ℕ × A)
numbered i [] = []
numbered i (x ∷ xs) = (i, x) ∷ numbered (i + 1) xs

module _ {F : Type 0} ⦃fl : Float F⦄ where
  -- What a comparator makes of the bounds of a rule: `above` is broken above the one bound or the other,
  -- `below` below the one or the other, `outside` below the lower or above the upper, and `rate` where
  -- the last value differs from the least by more than the upper bound for each sample but one.
  abbrev pub breaks_by : Comparator → Window F → Rule F → Bool
  breaks_by above w r = fl.ltf r.lower w.last_value || fl.ltf r.upper w.last_value
  breaks_by below w r = fl.ltf w.last_value r.upper || fl.ltf w.last_value r.lower
  breaks_by outside w r = fl.ltf r.upper w.last_value || fl.ltf w.last_value r.lower
  breaks_by rate w r =
      let change = fl.absf (fl.subf w.last_value w.least) in
      not (leb w.count 1) && fl.ltf r.upper (fl.divf change (fl.of_ℕ (w.count - 1)))
  breaks_by (unknown s) w r = false

  abbrev pub breaks : Window F → Rule F → Bool
  breaks w r = r.signal == w.signal && breaks_by r.comparator w r

  triggers-breaks_by :
      (c : Comparator) (w : Window F) (r : Rule F) → triggers c r w ≡ breaks_by c w r
  unfolding triggers
  triggers-breaks_by above w r = ground arith
  triggers-breaks_by below w r = ground arith
  triggers-breaks_by outside w r = ground arith
  triggers-breaks_by rate w r = ground arith
  triggers-breaks_by (unknown s) w r = refl

  -- The detection of the rule at a place.
  abbrev pub detection_of : Window F → ℕ × Rule F → Detection
  detection_of w (i, r) = record {
    rule_index = i;
    severity = r.severity;
    threshold = format_threshold r w.last_value;
  }

  abbrev pub broken : Window F → ℕ → List (Rule F) → List (ℕ × Rule F)
  broken w i rules = keep (λ x. breaks w x.1) (numbered i rules)

  detect_from_lem :
      (i : ℕ) (w : Window F) (rules : List (Rule F))
      → detect_from i w rules ≡ map (detection_of w) (broken w i rules)
  unfolding detect_from
  detect_from_lem i w [] = refl
  detect_from_lem i w (r ∷ rules) =
      let rest = detect_from_lem (i + 1) w rules in
      let same = triggers-breaks_by r.comparator w r in
      elim (Bool-cases (r.signal == w.signal)) [
        | inr other ↦ rw other rest
        | inl own ↦ elim (Bool-cases (triggers r.comparator r w)) [
          | inr quiet ↦ rw (own, quiet, sym same ∙ quiet) rest
          | inl loud ↦ rw (own, loud, sym same ∙ loud) (ap (λ ds. detection_of w (i, r) ∷ ds) rest)
        ]
      ]

  -- The detections are those of the rules that the window breaks, one for each and in the order of the
  -- rules, with the place of the rule in the list, its severity and the text of its threshold at the
  -- window's last value. A rule is broken if it is for the window's signal, and its comparator is
  -- `above` and the last value above either bound, or `below` and the last value below either bound, or
  -- `outside` and the last value below the lower or above the upper bound, or `rate` and the upper bound
  -- exceeded by the change from the least to the last value for each sample but one.
  pub detect_lem :
      (w : Window F) (rules : List (Rule F))
      → detect w rules ≡ map (detection_of w) (broken w 0 rules)
  unfolding detect
  detect_lem w rules = detect_from_lem 0 w rules
