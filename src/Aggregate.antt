-- ===== src/Aggregate.antt =====
-- internal/aggregate: window.go, detector.go and correlation.go; `F` is `float64`.
pub mod Builder
pub mod Rules
use orbit_telemetry_orchestr.Prelude.{
  ℕ, suc, ◌+◌, ◌-◌, ◌*◌, String, Bool, false, ◌&&◌, ◌||◌, not, List, [], ◌∷◌, if◌then◌else◌, ◌==◌,
  ◌!=◌, string_eq, int_eq, ltb, eqb, ℤ, pos, negsuc, ◌<ℤ◌, ◌≤ℤ◌, Time, Duration, before, add,
  minute, keep, sort_slice, Float, ◌+s◌,
}
use orbit_telemetry_orchestr.Domain.Telemetry.{Sample, Window}
use orbit_telemetry_orchestr.Domain.Policy.{Rule, Comparator, above, below, outside, rate, unknown}
use orbit_telemetry_orchestr.Domain.Anomaly.{Anomaly}
use orbit_telemetry_orchestr.Domain.Incident.{Incident, closed, incident_status_eq}

pub record Detection : Type 0 where
  pub rule_index : ℕ
  pub severity : ℤ
  pub threshold : String

-- `-d`, of a duration in range.
abbrev pub neg : Duration → Duration
neg (pos n) = if eqb n 0 then pos 0 else negsuc (n - 1)
neg (negsuc n) = pos (suc n)

module _ {F : Type 0} ⦃fl : Float F⦄ where
  min_float : F → F → F
  min_float left right = if fl.ltf left right then left else right

  max_float : F → F → F
  max_float left right = if fl.ltf right left then left else right

  format_by : Comparator → Rule F → F → String
  unfolding min_float max_float
  format_by outside r observed =
      "outside["
      +s fl.show_g r.lower
      +s ","
      +s fl.show_g r.upper
      +s "], observed="
      +s fl.show_g observed
  format_by rate r observed = "rate>" +s fl.show_g r.upper +s ", observed=" +s fl.show_g observed
  format_by above r observed =
      "above>" +s fl.show_g (max_float r.lower r.upper) +s ", observed=" +s fl.show_g observed
  format_by _ r observed =
      "below<" +s fl.show_g (min_float r.lower r.upper) +s ", observed=" +s fl.show_g observed

  unfoldable pub format_threshold : Rule F → F → String
  unfolding format_by
  format_threshold r observed = format_by r.comparator r observed

  -- The `switch` of `Detect`.
  unfoldable pub triggers : Comparator → Rule F → Window F → Bool
  triggers above r w = fl.ltf r.upper w.last_value || fl.ltf r.lower w.last_value
  triggers below r w = fl.ltf w.last_value r.lower || fl.ltf w.last_value r.upper
  triggers outside r w = fl.ltf w.last_value r.lower || fl.ltf r.upper w.last_value
  triggers rate r w =
      ltb 1 w.count
      && fl.ltf r.upper (fl.divf (fl.absf (fl.subf w.last_value w.least)) (fl.of_ℕ (w.count - 1)))
  triggers (unknown s) r w = false

  unfoldable pub detect_from : ℕ → Window F → List (Rule F) → List Detection
  unfolding triggers format_threshold
  detect_from index w [] = []
  detect_from index w (r ∷ rules) =
      let rest = detect_from (index + 1) w rules in
      if r.signal != w.signal
      then rest
      else if triggers r.comparator r w
      then record {
        rule_index = index;
        severity = r.severity;
        threshold = format_threshold r w.last_value;
      }
        ∷ rest
      else rest

  unfoldable pub detect : Window F → List (Rule F) → List Detection
  unfolding detect_from
  detect w rules = detect_from 0 w rules

unfoldable pub window_bounds : Time → Duration → Time × Time
window_bounds now width =
    let w = if width ≤ℤ pos 0 then pos (5 * minute) else width in (add now (neg w), now)

-- `NewCorrelator`; the record of the source has this one field.
unfoldable pub new_correlator : Duration → Duration
new_correlator window = if window ≤ℤ pos 0 then pos (10 * minute) else window

module _ {F : Type 0} where
  unfoldable pub should_merge : Duration → Incident → Anomaly F → Time → Bool
  should_merge window i a now =
      if i.device_id != a.device_id || i.status == closed
      then false
      else not (before a.created_at (add now (neg window)))

  -- The severest first, and the earliest first of one severity.
  abbrev pub anomaly_before : Anomaly F → Anomaly F → Bool
  anomaly_before a b =
      if a.severity == b.severity
      then before a.created_at b.created_at
      else b.severity <ℤ a.severity

  unfoldable pub sort_anomalies : List (Anomaly F) → List (Anomaly F)
  sort_anomalies xs = sort_slice anomaly_before xs

  -- `WindowBuilder.Select`
  abbrev pub sample_before : Sample F → Sample F → Bool
  sample_before a b =
      if eqb a.observed_at b.observed_at
      then a.sequence <ℤ b.sequence
      else before a.observed_at b.observed_at

  unfoldable pub select : Duration → List (Sample F) → Time → List (Sample F)
  select width samples now = sort_slice sample_before (
      keep
        (λ s.
          not (before s.observed_at (add now (neg width)))
          && before s.observed_at (add now (pos 1)))
        samples)
