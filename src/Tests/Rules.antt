-- ===== src/Tests/Rules.antt =====
-- Policies and windows.
use orbit_telemetry_orchestr.Prelude.{
  ℕ, ◌<◌, ◌≡◌, refl, false, ◌&&◌, [], ◌∷◌, List, pos, ◌<ℤ◌, All, length, keep, ltb, before,
  trim_space,
}
use orbit_telemetry_orchestr.Prelude.Errors.{severity_range, rule_at}
use orbit_telemetry_orchestr.Domain.Policy.{
  CollectionPolicy, Rule, draft, new_policy, validate, validate_from,
}
use orbit_telemetry_orchestr.Domain.Policy.Rules.{
  IsSound, new_policy_lem, FirstBad, validate_from-FirstBad,
}
use orbit_telemetry_orchestr.Domain.Telemetry.{Sample, Window, build_window}
use orbit_telemetry_orchestr.Domain.Telemetry.Windows.{
  is_ok, is_bad, inside, all_of, last_or, build_window_ok_iff, build_window_lem,
}
use orbit_telemetry_orchestr.Domain.Telemetry.Windows.Extremes.{build_window_bounds}
use orbit_telemetry_orchestr.Tests.{
  nat_float, nat-FloatLaws, hot_rule, no_response, second_policy, sample_at,
}

abbrev named_policy : CollectionPolicy ℕ
named_policy = record second_policy { created_at = 3; updated_at = 3 }

new_policy_lem_example :
    (draft ≡ draft) × ((pos 2 <ℤ pos 1) ≡ false) × (0 < 1) × All IsSound (hot_rule ∷ [])
unfolding new_policy trim_space validate
new_policy_lem_example =
    new_policy_lem "p2" "heat watch" "d1" "operator" (pos 2) (hot_rule ∷ []) no_response 1 3
      {p = named_policy} refl

abbrev loud_rule : Rule ℕ
loud_rule = record hot_rule { severity = pos 9 }

validate_from-FirstBad_example : FirstBad 0 (hot_rule ∷ loud_rule ∷ []) (rule_at 1 severity_range)
unfolding validate_from validate trim_space
validate_from-FirstBad_example = validate_from-FirstBad 0 (hot_rule ∷ loud_rule ∷ []) refl

-- Two samples inside the window from 2 to 9, after one that lies before it.
abbrev samples : List (Sample ℕ)
samples = sample_at 3 40 ∷ sample_at 5 60 ∷ []

abbrev window_of_samples : Window ℕ
window_of_samples = record {
  device_id = "d1";
  stream_id = "s1";
  signal = "heat";
  started_at = 2;
  ended_at = 9;
  count = 2;
  least = 40;
  greatest = 70;
  average = 50;
  last_value = 60;
  bad_samples = 0;
}

build_window_ok_iff_example : is_ok (build_window (sample_at 1 70 ∷ samples) 2 9) ≡ (
    before 2 9
    && all_of (sample_at 1 70) (sample_at 1 70 ∷ samples)
    && ltb 0 (length (inside 2 9 (sample_at 1 70 ∷ samples))))
build_window_ok_iff_example = build_window_ok_iff (sample_at 1 70) samples 2 9

build_window_lem_example :
    (2 ≡ length (inside 2 9 (sample_at 1 70 ∷ samples)))
    × (0 < 2)
    × (0 ≡ length (keep is_bad (inside 2 9 (sample_at 1 70 ∷ samples))))
    × (60 ≡ last_or 0 (inside 2 9 (sample_at 1 70 ∷ samples)))
unfolding build_window
build_window_lem_example =
    build_window_lem (sample_at 1 70) samples 2 9 {w = window_of_samples} refl

build_window_bounds_example :
    All (λ (x : Sample ℕ). ltb x.value 40 ≡ false) (inside 2 9 (sample_at 1 70 ∷ samples))
    × All (λ (x : Sample ℕ). ltb 70 x.value ≡ false) (inside 2 9 (sample_at 1 70 ∷ samples))
    × (ltb 70 40 ≡ false)
    × (ltb 70 70 ≡ false)
unfolding build_window
build_window_bounds_example =
    build_window_bounds nat-FloatLaws (sample_at 1 70) samples 2 9 {w = window_of_samples} refl
      (refl, (refl, tt)) refl
