-- ===== src/Domain/Telemetry/Windows/Extremes.antt =====
-- The extremes that BuildWindow of telemetry.go reports.
use orbit_telemetry_orchestr.Prelude.{
  ◌≡◌, true, false, List, [], ◌∷◌, arith, string_eq, Time, All, Float, FloatLaws, ok,
}
use orbit_telemetry_orchestr.Domain.Telemetry.{
  Sample, Window, absorb, first_window, close_window, build_window,
}
use orbit_telemetry_orchestr.Domain.Telemetry.Windows.{inside, fold_window, window_loop_lem}

module _ {F : Type 0} ⦃fl : Float F⦄ (laws : FloatLaws F) where
  abbrev IsFinite : F → Type 0
  IsFinite a = fl.is_finite a ≡ true

  -- `m` is finite, not above `a`, and not above the value of any of the samples.
  record Least (a : F) (samples : List (Sample F)) (m : F) : Type 0 where
    finite : IsFinite m
    of_first : fl.ltf a m ≡ false
    of_all : All (λ (s : Sample F). fl.ltf s.value m ≡ false) samples

  record Greatest (a : F) (samples : List (Sample F)) (m : F) : Type 0 where
    finite : IsFinite m
    of_first : fl.ltf m a ≡ false
    of_all : All (λ (s : Sample F). fl.ltf m s.value ≡ false) samples

  fold_window-Least :
      (w : Window F) (total : F) (samples : List (Sample F))
      → IsFinite w.least
      → All (λ (s : Sample F). IsFinite s.value) samples
      → Least w.least samples (fold_window (w, total) samples).0.least
  unfolding fold_window
  fold_window-Least w total [] f all = record {
    finite = f;
    of_first = laws.lt_irrefl w.least;
    of_all = tt;
  }
  fold_window-Least w total (s ∷ rest) f all =
      let acc = absorb (w, total) s in
      let f' : IsFinite acc.0.least = unfold absorb in ground (arith, all.0) in
      let ih = fold_window-Least acc.0 acc.1 rest f' all.1 in
      let m = (fold_window acc rest).0.least in
      let below : (fl.ltf w.least acc.0.least ≡ false) × (fl.ltf s.value acc.0.least ≡ false) =
        unfold absorb in
        ground
          (arith, laws.lt_irrefl w.least, laws.lt_irrefl s.value, laws.lt_asymm s.value w.least) in
      record {
        finite = ih.finite;
        of_first = laws.not_lt_trans w.least acc.0.least m f f' ih.finite below.0 ih.of_first;
        of_all = (
          laws.not_lt_trans s.value acc.0.least m all.0 f' ih.finite below.1 ih.of_first,
          ih.of_all,
        );
      }

  fold_window-Greatest :
      (w : Window F) (total : F) (samples : List (Sample F))
      → IsFinite w.greatest
      → All (λ (s : Sample F). IsFinite s.value) samples
      → Greatest w.greatest samples (fold_window (w, total) samples).0.greatest
  unfolding fold_window
  fold_window-Greatest w total [] f all = record {
    finite = f;
    of_first = laws.lt_irrefl w.greatest;
    of_all = tt;
  }
  fold_window-Greatest w total (s ∷ rest) f all =
      let acc = absorb (w, total) s in
      let f' : IsFinite acc.0.greatest = unfold absorb in ground (arith, all.0) in
      let ih = fold_window-Greatest acc.0 acc.1 rest f' all.1 in
      let m = (fold_window acc rest).0.greatest in
      let below : (fl.ltf acc.0.greatest w.greatest ≡ false)
          × (fl.ltf acc.0.greatest s.value ≡ false) =
        unfold absorb in
        ground (
          arith,
          laws.lt_irrefl w.greatest,
          laws.lt_irrefl s.value,
          laws.lt_asymm w.greatest s.value,
        ) in
      record {
        finite = ih.finite;
        of_first = laws.not_lt_trans m acc.0.greatest w.greatest ih.finite f' f ih.of_first below.0;
        of_all = (
          laws.not_lt_trans m acc.0.greatest s.value ih.finite f' all.0 ih.of_first below.1,
          ih.of_all,
        );
      }

  close_window_extremes :
      (acc : Window F × F) {w : Window F}
      → close_window acc ≡ ok w
      → (w.least ≡ acc.0.least) × (w.greatest ≡ acc.0.greatest)
  unfolding close_window
  close_window_extremes acc h = ground arith

  -- With floats that obey the laws of order, and finite values, no sample inside the window has a value
  -- below its least or above its greatest value; and neither has the first sample given, whether it
  -- lies inside or not.
  pub build_window_bounds :
      (s : Sample F) (rest : List (Sample F)) (start end : Time) {w : Window F}
      → IsFinite s.value
      → All (λ (x : Sample F). IsFinite x.value) (inside start end (s ∷ rest))
      → build_window (s ∷ rest) start end ≡ ok w
      → All (λ (x : Sample F). fl.ltf x.value w.least ≡ false) (inside start end (s ∷ rest))
        × All (λ (x : Sample F). fl.ltf w.greatest x.value ≡ false) (inside start end (s ∷ rest))
        × (fl.ltf s.value w.least ≡ false)
        × (fl.ltf w.greatest s.value ≡ false)
  unfolding build_window
  build_window_bounds s rest start end {w} f all h =
      let w0 = first_window s start end in
      let samples = inside start end (s ∷ rest) in
      let acc = fold_window (w0, fl.of_ℕ 0) samples in
      let low = fold_window-Least w0 (fl.of_ℕ 0) samples f all in
      let high = fold_window-Greatest w0 (fl.of_ℕ 0) samples f all in
      let ends =
        close_window_extremes acc {w = w}
          (ground (arith, window_loop_lem start end (w0, fl.of_ℕ 0) (s ∷ rest))) in
      rw (ends.0, ends.1) (low.of_all, high.of_all, low.of_first, high.of_first)
