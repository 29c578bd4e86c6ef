-- ===== src/Aggregate/Builder/Latest.antt =====
-- The window that `WindowBuilder.Build` of internal/aggregate/window.go builds, and the latest sample.
use native.Mathlib.Nat.{div-add-mod, mul-mod_right}
use orbit_telemetry_orchestr.Prelude.{
  ℕ, ◌≤◌, ◌<◌, ◌-◌, ◌%◌, ◌*◌, ◌/◌, zero_time, ◌≡◌, refl, true, List, [], ◌∷◌, pos, negsuc, ◌<ℤ◌,
  Time, Duration, add, sort_slice, sort_slice-All, length-sort_slice, ◌∙◌, Float, arith, length,
  All, ◌==◌, string_eq, eq_iff, String, subst, sym, ap, Bool, tally, ok, Result-cases, StrictOrder,
  sort_slice-Sorted, Sorted-Pairs, tally-sort_slice, All-of_sort_slice, ◌+◌, if◌then◌else◌, Pairs,
  Bool-cases, inl, inr, keep,
}
use orbit_telemetry_orchestr.Domain.Telemetry.{Sample, Window, build_window}
use orbit_telemetry_orchestr.Domain.Telemetry.Windows.{
  is_inside, last_or, inside, same_stream, all_of, build_window_ok_iff, build_window_lem,
  build_window_spans,
}
use orbit_telemetry_orchestr.Aggregate.Builder.{
  past_multiple, truncate, observed_before, last_observed, build,
}

past_multiple_lt : (t : Time) (d : ℕ) → 0 < d → past_multiple t d < d
past_multiple_lt t d h = ground arith

-- A multiple of a positive duration is at or before the time, and less than the duration before it.
truncate_lem :
    (t : Time) (d : Duration)
    → (pos 0 <ℤ d) ≡ true
    → (truncate t d ≤ t) × (t < add (truncate t d) d)
unfolding truncate
truncate_lem t (pos d) h = let less = past_multiple_lt t d (ground arith) in ground (arith, less)
truncate_lem t (negsuc n) h = absurd (ground arith)

-- From the zero Time on, what is left is a multiple of the duration after it.
truncate-aligned :
    (t : Time) (d : ℕ) → 0 < d → zero_time ≤ t → (truncate t (pos d) - zero_time) % d ≡ 0
unfolding truncate
truncate-aligned t d h late =
    let n = t - zero_time in
    let parts = div-add-mod n d in
    let whole : truncate t (pos d) - zero_time ≡ d * (n / d) = ground (arith, parts) in
    rw whole (mul-mod_right d (n / d))

eq_join : (a b c : String) → (a == b) ≡ true → (a == c) ≡ true → (b == c) ≡ true
eq_join a b c h k = subst (λ u. (u == c) ≡ true) ((eq_iff a b).0 h) k

module _ {F : Type 0} where
  -- The last of the samples.
  abbrev last_sample : Sample F → List (Sample F) → Sample F
  last_sample x [] = x
  last_sample x (y ∷ ys) = last_sample y ys

  last_sample_observed :
      (x : Sample F) (xs : List (Sample F))
      → last_observed x.observed_at xs ≡ (last_sample x xs).observed_at
  last_sample_observed x [] = refl
  last_sample_observed x (y ∷ ys) = last_sample_observed y ys

  -- It is one of them.
  tally-last_sample :
      (p : Sample F → Bool) (x : Sample F) (xs : List (Sample F))
      → (if p (last_sample x xs) then 1 else 0) ≤ tally p (x ∷ xs)
  tally-last_sample p x [] = ground arith
  tally-last_sample p x (y ∷ ys) = let later = tally-last_sample p y ys in ground (arith, later)

  -- Of samples in the order of their times it is the latest.
  last_sample-latest :
      (x : Sample F) (xs : List (Sample F))
      → Pairs (λ (a b : Sample F). a.observed_at ≤ b.observed_at) (x ∷ xs)
      → All (λ (a : Sample F). a.observed_at ≤ (last_sample x xs).observed_at) (x ∷ xs)
  last_sample-latest x [] h = (omega arith, tt)
  last_sample-latest x (y ∷ ys) h =
      let later = last_sample-latest y ys h.1 in (omega (arith, h.0.0, later.0), later)

  -- Where it lies inside, its value is the last one inside.
  last_or-inside :
      (start end : Time) (d : F) (x : Sample F) (xs : List (Sample F))
      → start ≤ (last_sample x xs).observed_at
      → (last_sample x xs).observed_at < end
      → last_or d (inside start end (x ∷ xs)) ≡ (last_sample x xs).value
  last_or-inside start end d x [] h k = ground arith
  last_or-inside start end d x (y ∷ ys) h k = elim (Bool-cases (is_inside start end x)) [
    | inl held ↦ rw held (last_or-inside start end x.value y ys h k)
    | inr missed ↦ rw missed (last_or-inside start end d y ys h k)
  ]

  inside_some :
      (start end : Time) (x : Sample F) (xs : List (Sample F))
      → start ≤ (last_sample x xs).observed_at
      → (last_sample x xs).observed_at < end
      → 0 < length (inside start end (x ∷ xs))
  inside_some start end x [] h k = ground arith
  inside_some start end x (y ∷ ys) h k =
      let later = inside_some start end y ys h k in ground (arith, later)

  length-keep : (p : Sample F → Bool) (xs : List (Sample F)) → length (keep p xs) ≡ tally p xs
  length-keep p [] = refl
  length-keep p (x ∷ xs) = ground (arith, length-keep p xs)

  same_stream-all_of :
      (s y : Sample F) (xs : List (Sample F))
      → same_stream s y ≡ true
      → All (λ x. same_stream s x ≡ true) xs
      → all_of y xs ≡ true
  same_stream-all_of s y [] h all = refl
  same_stream-all_of s y (x ∷ xs) h all =
      let rest = same_stream-all_of s y xs h all.1 in
      ground (
        arith,
        h,
        all.0,
        rest,
        eq_join s.device_id x.device_id y.device_id,
        eq_join s.stream_id x.stream_id y.stream_id,
        eq_join s.signal x.signal y.signal,
      )

  observed_order : StrictOrder (observed_before {F = F})
  observed_order = record { asymm = λ x y h. ground arith; not_trans = λ x y z h k. ground arith }

  -- The window of the samples that is `d` long, starts at a multiple of `d` after the zero Time, holds
  -- the latest of the samples, and counts those that lie inside; its last value is that of a latest one.
  pub record IsLatest (d : ℕ) (samples : List (Sample F)) (w : Window F) : Type 0 where
    last : Sample F
    one_of_them : (p : Sample F → Bool) → (if p last then 1 else 0) ≤ tally p samples
    latest : All (λ (a : Sample F). a.observed_at ≤ last.observed_at) samples
    aligned : (w.started_at - zero_time) % d ≡ 0
    spans : w.ended_at ≡ w.started_at + d
    holds : (w.started_at ≤ last.observed_at) × (last.observed_at < w.ended_at)
    counted : w.count ≡ tally (is_inside w.started_at w.ended_at) samples
    last_one : w.last_value ≡ last.value

module _ {F : Type 0} ⦃fl : Float F⦄ where
  -- What `Build` makes of samples that are in the order of their times.
  built-IsLatest :
      (y : Sample F) (ys : List (Sample F)) (s : Sample F) (d : ℕ)
      → 0 < d
      → zero_time ≤ (last_sample y ys).observed_at
      → Pairs (λ (a b : Sample F). a.observed_at ≤ b.observed_at) (y ∷ ys)
      → All (λ x. same_stream s x ≡ true) (y ∷ ys)
      → let start = truncate (last_sample y ys).observed_at (pos d) in
        (w : Window F) × (build_window (y ∷ ys) start (start + d) ≡ ok w) × IsLatest d (y ∷ ys) w
  built-IsLatest y ys s d positive late ordered all =
      let last = last_sample y ys in
      let start = truncate last.observed_at (pos d) in
      let bounds = truncate_lem last.observed_at (pos d) (ground arith) in
      let held = inside_some start (start + d) y ys bounds.0 bounds.1 in
      let alike = same_stream-all_of s y (y ∷ ys) all.0 all in
      let made = build_window_ok_iff y ys start (start + d) in
      elim (Result-cases (build_window (y ∷ ys) start (start + d))) [
        | inr (e, bad) ↦ absurd (ground (arith, bounds, held, alike, made, bad))
        | inl (w, good) ↦
            let fields = build_window_lem y ys start (start + d) {w = w} good in
            let ends = build_window_spans y ys start (start + d) {w = w} good in
            (
              w,
              good,
              record {
                last = last;
                one_of_them = λ p. tally-last_sample p y ys;
                latest = last_sample-latest y ys ordered;
                aligned = rw ends.0 (truncate-aligned last.observed_at d positive late);
                spans = rw (ends.0, ends.1) refl;
                holds = rw (ends.0, ends.1) bounds;
                counted =
                    fields.0
                    ∙ length-keep (is_inside start (start + d)) (y ∷ ys)
                    ∙ ap (λ b. tally (is_inside start b) (y ∷ ys)) (sym ends.1)
                    ∙ ap (λ a. tally (is_inside a w.ended_at) (y ∷ ys)) (sym ends.0);
                last_one = fields.3 ∙ last_or-inside start (start + d) _ y ys bounds.0 bounds.1;
              },
            )
      ]

  -- `Build` with a positive width makes a window of samples of one stream, in any order, of which the
  -- first is not before the zero Time: it is as long as the width, starts at a multiple of it after the zero Time, holds
  -- the time of the latest sample, counts the samples that lie inside, and ends in the value of a
  -- latest sample.
  pub build-IsLatest :
      (d : ℕ) (s : Sample F) (rest : List (Sample F))
      → 0 < d
      → zero_time ≤ s.observed_at
      → All (λ x. same_stream s x ≡ true) (s ∷ rest)
      → (w : Window F) × ((build (record { width = pos d }) (s ∷ rest)).0 ≡ ok w)
        × IsLatest d (s ∷ rest) w
  unfolding build
  build-IsLatest d s rest positive late all =
      let sorted = sort_slice observed_before (s ∷ rest) in
      of_sorted sorted (length-sort_slice observed_before (s ∷ rest))
        (Sorted-Pairs _ observed_before (λ x y h. ground arith) sorted
          (sort_slice-Sorted observed_before observed_order (s ∷ rest)))
        (sort_slice-All (λ x. same_stream s x ≡ true) observed_before (s ∷ rest) all)
        (λ p. tally-sort_slice p observed_before (s ∷ rest))
        (λ P h. All-of_sort_slice P observed_before (s ∷ rest) h)
    where
      of_sorted :
          (xs : List (Sample F))
          → length xs ≡ length (s ∷ rest)
          → Pairs (λ (a b : Sample F). a.observed_at ≤ b.observed_at) xs
          → All (λ x. same_stream s x ≡ true) xs
          → ((p : Sample F → Bool) → tally p xs ≡ tally p (s ∷ rest))
          → ((P : Sample F → Type 0) → All P xs → All P (s ∷ rest))
          → let start = truncate (last_observed s.observed_at xs) (pos d) in
            (w : Window F) × (build_window xs start (start + d) ≡ ok w) × IsLatest d (s ∷ rest) w
      of_sorted [] same ordered alike counts back = absurd (omega (arith, same))
      of_sorted (y ∷ ys) same ordered alike counts back =
          let latest = back _ (last_sample-latest y ys ordered) in
          let (w, made, v) =
            built-IsLatest y ys s d positive (omega (arith, late, latest.0)) ordered alike in
          rw (last_sample_observed y ys) (
            w,
            made,
            record {
              last = v.last;
              one_of_them = λ p. rw⁻¹ (counts p) (v.one_of_them p);
              latest = back _ v.latest;
              aligned = v.aligned;
              spans = v.spans;
              holds = v.holds;
              counted = v.counted ∙ counts (is_inside w.started_at w.ended_at);
              last_one = v.last_one;
            },
          )
