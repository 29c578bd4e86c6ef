-- ===== src/Aggregate/Builder.antt =====
-- `WindowBuilder` of internal/aggregate/window.go; its `Select` is `select` of the parent.
pub mod Latest
use orbit_telemetry_orchestr.Prelude.{
  Bool, ℕ, ◌+◌, ◌-◌, ◌*◌, ◌%◌, List, [], ◌∷◌, if◌then◌else◌, leb, eqb, ℤ, pos, negsuc, ◌≤ℤ◌, Time,
  Duration, zero_time, before, add, minute, sort_slice, Float, Result, err,
}
use orbit_telemetry_orchestr.Prelude.Errors.{no_samples_available}
use orbit_telemetry_orchestr.Domain.Telemetry.{Sample, Window, build_window}

pub record WindowBuilder : Type 0 where
  pub width : Duration

unfoldable pub new_window_builder : Duration → WindowBuilder
new_window_builder width = record { width = if width ≤ℤ pos 0 then pos (5 * minute) else width }

-- What `t` lies after the last multiple of `d` nanoseconds from the zero Time.
abbrev pub past_multiple : Time → ℕ → ℕ
past_multiple t d = if leb zero_time t then (t - zero_time) % d else (d - (zero_time - t) % d) % d

-- `t.Truncate(d)`
unfoldable pub truncate : Time → Duration → Time
truncate t (pos d) = if eqb d 0 then t else t - past_multiple t d
truncate t (negsuc n) = t

module _ {F : Type 0} where
  abbrev pub observed_before : Sample F → Sample F → Bool
  observed_before a b = before a.observed_at b.observed_at

  -- `samples[len(samples)-1].ObservedAt`
  abbrev pub last_observed : Time → List (Sample F) → Time
  last_observed t [] = t
  last_observed t (s ∷ rest) = last_observed s.observed_at rest

-- `Build`, with the samples as the sort leaves them; it does not read its argument `now`.
module _ {F : Type 0} ⦃fl : Float F⦄ where
  unfoldable pub build : WindowBuilder → List (Sample F) → Result (Window F) × List (Sample F)
  unfolding truncate
  build b [] = (err no_samples_available, [])
  build b (s ∷ rest) =
      let sorted = sort_slice observed_before (s ∷ rest) in
      let start = truncate (last_observed s.observed_at sorted) b.width in
      (build_window sorted start (add start b.width), sorted)
