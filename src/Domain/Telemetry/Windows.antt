-- ===== src/Domain/Telemetry/Windows.antt =====
-- `BuildWindow` of telemetry.go against a description of the window by its samples.
pub mod Extremes
use orbit_telemetry_orchestr.Prelude.{
  ◌+◌, ◌<◌, ◌≡◌, refl, Bool, true, false, ◌&&◌, not, List, [], ◌∷◌, arith, ◌==◌, ◌!=◌, string_eq,
  if◌then◌else◌, ltb, Time, before, keep, length, All, Float, FloatLaws, Result, ok, err,
}
use orbit_telemetry_orchestr.Prelude.Errors.{window_mixed}
use orbit_telemetry_orchestr.Domain.Telemetry.{
  Sample, Window, foreign, absorb, window_loop, first_window, close_window, build_window,
}

module _ {F : Type 0} where
  -- The sample was observed in the half-open interval from `start` to `end`.
  abbrev pub is_inside : Time → Time → Sample F → Bool
  is_inside start end s = not (before s.observed_at start) && before s.observed_at end

  abbrev pub is_bad : Sample F → Bool
  is_bad s = s.quality != "good"

  -- The samples of a window, in their order.
  abbrev pub inside : Time → Time → List (Sample F) → List (Sample F)
  inside start end = keep (is_inside start end)

  abbrev pub same_stream : Sample F → Sample F → Bool
  same_stream a b = a.device_id == b.device_id && a.stream_id == b.stream_id && a.signal == b.signal

  abbrev pub all_of : Sample F → List (Sample F) → Bool
  all_of a [] = true
  all_of a (s ∷ rest) = same_stream s a && all_of a rest

  -- The value of the last sample, or `d` if there is none.
  abbrev pub last_or : F → List (Sample F) → F
  last_or d [] = d
  last_or d (s ∷ rest) = last_or s.value rest

abbrev pub is_ok {ℓ} : {A : Type ℓ} → Result A → Bool
is_ok (ok a) = true
is_ok (err e) = false

module _ {F : Type 0} ⦃fl : Float F⦄ where
  -- The loop without its tests.
  fold_window : Window F × F → List (Sample F) → Window F × F
  fold_window acc [] = acc
  fold_window acc (s ∷ rest) = fold_window (absorb acc s) rest

  abbrev none_foreign : Window F → List (Sample F) → Bool
  none_foreign w [] = true
  none_foreign w (s ∷ rest) = not (foreign w s) && none_foreign w rest

  none_foreign-absorb :
      (acc : Window F × F) (x : Sample F) (samples : List (Sample F))
      → none_foreign (absorb acc x).0 samples ≡ none_foreign acc.0 samples
  unfolding absorb foreign
  none_foreign-absorb acc x [] = refl
  none_foreign-absorb acc x (s ∷ rest) = rw (none_foreign-absorb acc x rest)

  -- The early return of the loop does not depend on which sample is foreign.
  window_loop_lem :
      (start end : Time) (acc : Window F × F) (samples : List (Sample F))
      → window_loop start end acc samples ≡ (
          if none_foreign acc.0 samples
          then ok (fold_window acc (inside start end samples))
          else err window_mixed)
  unfolding window_loop fold_window
  window_loop_lem start end acc [] = refl
  window_loop_lem start end acc (s ∷ rest) = ground (
    arith,
    window_loop_lem start end acc rest,
    window_loop_lem start end (absorb acc s) rest,
    none_foreign-absorb acc s rest,
  )

  -- What the loop keeps or counts, whatever the values.
  fold_window_counts :
      (w : Window F) (total : F) (samples : List (Sample F))
      → ((fold_window (w, total) samples).0.count ≡ w.count + length samples)
        × ((fold_window (w, total) samples).0.bad_samples
            ≡ w.bad_samples + length (keep is_bad samples))
        × ((fold_window (w, total) samples).0.last_value ≡ last_or w.last_value samples)
  unfolding fold_window absorb
  fold_window_counts w total [] = (omega arith, omega arith, refl)
  fold_window_counts w total (s ∷ rest) =
      ground (arith, fold_window_counts (absorb (w, total) s).0 (absorb (w, total) s).1 rest)

  fold_window_spans :
      (w : Window F) (total : F) (samples : List (Sample F))
      → ((fold_window (w, total) samples).0.started_at ≡ w.started_at)
        × ((fold_window (w, total) samples).0.ended_at ≡ w.ended_at)
  unfolding fold_window absorb
  fold_window_spans w total [] = (refl, refl)
  fold_window_spans w total (s ∷ rest) =
      ground (arith, fold_window_spans (absorb (w, total) s).0 (absorb (w, total) s).1 rest)

  first_foreign :
      (s : Sample F) (start end : Time) (samples : List (Sample F))
      → none_foreign (first_window s start end) samples ≡ all_of s samples
  unfolding foreign first_window
  first_foreign s start end [] = refl
  first_foreign s start end (x ∷ rest) = ground (arith, first_foreign s start end rest)

  -- A window is built exactly if its end is after its start, all samples are of one stream (also
  -- those outside of it), and at least one lies inside.
  pub build_window_ok_iff :
      (s : Sample F) (rest : List (Sample F)) (start end : Time)
      → is_ok (build_window (s ∷ rest) start end)
        ≡ (before start end && all_of s (s ∷ rest) && ltb 0 (length (inside start end (s ∷ rest))))
  unfolding build_window
  build_window_ok_iff s rest start end =
      let w = first_window s start end in
      ground (
        arith,
        window_loop_lem start end (w, fl.of_ℕ 0) (s ∷ rest),
        first_foreign s start end (s ∷ rest),
        fold_window_counts w (fl.of_ℕ 0) (inside start end (s ∷ rest)),
      )

  -- The window's count, bad samples and last value are those of the samples inside, in their order.
  pub build_window_lem :
      (s : Sample F) (rest : List (Sample F)) (start end : Time) {w : Window F}
      → build_window (s ∷ rest) start end ≡ ok w
      → (w.count ≡ length (inside start end (s ∷ rest)))
        × (0 < w.count)
        × (w.bad_samples ≡ length (keep is_bad (inside start end (s ∷ rest))))
        × (w.last_value ≡ last_or (fl.of_ℕ 0) (inside start end (s ∷ rest)))
  unfolding build_window
  build_window_lem s rest start end h =
      let w = first_window s start end in
      ground (
        arith,
        window_loop_lem start end (w, fl.of_ℕ 0) (s ∷ rest),
        fold_window_counts w (fl.of_ℕ 0) (inside start end (s ∷ rest)),
      )

  -- A window that is built spans the given interval.
  pub build_window_spans :
      (s : Sample F) (rest : List (Sample F)) (start end : Time) {w : Window F}
      → build_window (s ∷ rest) start end ≡ ok w
      → (w.started_at ≡ start) × (w.ended_at ≡ end)
  unfolding build_window first_window
  build_window_spans s rest start end h =
      let w = first_window s start end in
      ground (
        arith,
        window_loop_lem start end (w, fl.of_ℕ 0) (s ∷ rest),
        fold_window_spans w (fl.of_ℕ 0) (inside start end (s ∷ rest)),
      )
