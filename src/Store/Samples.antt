-- ===== src/Store/Samples.antt =====
-- The samples of internal/store/memory.go and internal/store/queries.go.
pub mod Bounds
use orbit_telemetry_orchestr.Prelude.{
  ℕ, ◌-◌, String, Bool, true, false, ◌&&◌, ◌||◌, not, List, [], ◌∷◌, ◌++◌, if◌then◌else◌, ◌==◌,
  string_eq, ℤ, pos, ◌<ℤ◌, ltb, leb, pos_part, Time, zero_time, is_zero, before, length, drop,
  sort_slice,
}
use mathlib.Core.List.{reverse}
use orbit_telemetry_orchestr.Domain.Telemetry.{Sample}
use orbit_telemetry_orchestr.Store.{Memory, matches_id}

abbrev pub max_samples : ℕ
max_samples = 10000

module _ {F : Type 0} where
  -- The slice after `append`, cut to its last 10000 items.
  unfoldable pub trim_samples : List (Sample F) → List (Sample F)
  trim_samples xs = if ltb max_samples (length xs) then drop (length xs - max_samples) xs else xs

  unfoldable pub add_samples : List (Sample F) → Memory F → Memory F
  add_samples xs m = record m { samples = trim_samples (m.samples ++ xs) }

  -- What the loop of `ListSamples` does not skip.
  abbrev pub sample_matches : String → Time → Time → Sample F → Bool
  sample_matches stream_id start end s =
      matches_id stream_id s.stream_id
      && (is_zero start || not (before s.observed_at start))
      && (is_zero end || before s.observed_at end)

  -- The loop, from the newest sample on, and its `result`.
  list_samples_loop : String → Time → Time → ℤ → List (Sample F) → List (Sample F) → List (Sample F)
  list_samples_loop stream_id start end limit result [] = result
  list_samples_loop stream_id start end limit result (s ∷ rest) =
      let grown = result ++ s ∷ [] in
      let skip = list_samples_loop stream_id start end limit result rest in
      let go_on = list_samples_loop stream_id start end limit grown rest in
      if sample_matches stream_id start end s
      then if (pos 0 <ℤ limit) && leb (pos_part limit) (length grown) then grown else go_on
      else skip

  unfoldable pub list_samples : Memory F → String → Time → Time → ℤ → List (Sample F)
  unfolding list_samples_loop
  list_samples m stream_id start end limit =
      list_samples_loop stream_id start end limit [] (reverse m.samples)

  abbrev pub sample_less : Sample F → Sample F → Bool
  sample_less a b = before a.observed_at b.observed_at

  unfoldable pub latest_samples_by_stream : Memory F → String → ℤ → List (Sample F)
  latest_samples_by_stream m stream_id limit =
      sort_slice sample_less (list_samples m stream_id zero_time zero_time limit)
