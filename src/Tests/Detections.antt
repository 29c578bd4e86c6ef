-- ===== src/Tests/Detections.antt =====
-- A window of the test data against its rule, and windows that are built.
use orbit_telemetry_orchestr.Prelude.{
  ℕ, ◌+◌, ◌≡◌, refl, List, [], ◌∷◌, pos, ok, map, arith, zero_time,
}
use orbit_telemetry_orchestr.Domain.Telemetry.{Sample, Window}
use orbit_telemetry_orchestr.Aggregate.{detect}
use orbit_telemetry_orchestr.Aggregate.Rules.{detection_of, broken, detect_lem}
use orbit_telemetry_orchestr.Domain.Policy.{Rule, Comparator}
use orbit_telemetry_orchestr.Aggregate.Builder.{build}
use orbit_telemetry_orchestr.Aggregate.Builder.Latest.{IsLatest, build-IsLatest}
use orbit_telemetry_orchestr.Tests.{nat_float, hot_rule, sample_at, mild_window}

-- A rule that the window keeps, and one that it breaks.
abbrev two_rules : List (Rule ℕ)
two_rules = record hot_rule { comparator = Comparator.below } ∷ hot_rule ∷ []

detect_lem_example :
    detect mild_window two_rules ≡ map (detection_of mild_window) (broken mild_window 0 two_rules)
detect_lem_example = detect_lem mild_window two_rules

-- Two samples in the wrong order, of a builder whose windows are 10 long.
abbrev late : ℕ → ℕ → Sample ℕ
late n value = sample_at (zero_time + n) value

build-IsLatest_example :
    (w : Window ℕ) × ((build (record { width = pos 10 }) (late 25 70 ∷ late 3 40 ∷ [])).0 ≡ ok w)
    × IsLatest 10 (late 25 70 ∷ late 3 40 ∷ []) w
build-IsLatest_example =
    build-IsLatest 10 (late 25 70) (late 3 40 ∷ []) (omega arith) (omega arith) (refl, (refl, tt))
