-- ===== src/Domain/Telemetry.antt =====
-- internal/domain/telemetry.go; `F` is `float64`.
pub mod Windows
use orbit_telemetry_orchestr.Prelude.{
  ℕ, ◌+◌, String, ◌≡◌, Bool, true, false, ◌&&◌, ◌||◌, not, List, [], ◌∷◌, arith, ◌==◌, ◌!=◌,
  string_eq, if◌then◌else◌, eqb, ℤ, pos, ◌<ℤ◌, Time, is_zero, before, is_blank, Float, Result, ok,
  err,
}
use orbit_telemetry_orchestr.Prelude.Errors.{
  ◌>>=◌, ◌>>◌, refuse_if, sample_fields_required, sample_not_finite, sample_timestamps_required,
  sequence_not_positive, window_empty, window_bounds, window_mixed, window_no_samples,
}

pub record Sample (F : Type 0) : Type 0 where
  pub stream_id : String
  pub device_id : String
  pub signal : String
  pub value : F
  pub quality : String
  pub observed_at : Time
  pub received_at : Time
  pub sequence : ℤ

pub record Window (F : Type 0) : Type 0 where
  pub device_id : String
  pub stream_id : String
  pub signal : String
  pub started_at : Time
  pub ended_at : Time
  pub count : ℕ
  pub least : F
  pub greatest : F
  pub average : F
  pub last_value : F
  pub bad_samples : ℕ

module _ {F : Type 0} ⦃fl : Float F⦄ where
  unfoldable pub new_sample :
      String → String → String → String → F → Time → Time → ℤ → Result (Sample F)
  new_sample stream_id device_id signal quality value observed_at received_at sequence = do
    refuse_if (is_blank stream_id || is_blank device_id || is_blank signal) sample_fields_required
    refuse_if (not (fl.is_finite value)) sample_not_finite
    refuse_if (is_zero observed_at || is_zero received_at) sample_timestamps_required
    refuse_if (sequence <ℤ pos 1) sequence_not_positive
    ok (record {
      stream_id = stream_id;
      device_id = device_id;
      signal = signal;
      value = value;
      quality = if quality == "" then "good" else quality;
      observed_at = observed_at;
      received_at = received_at;
      sequence = sequence;
    })

  -- The test of the loop of `BuildWindow` that all samples are of one stream.
  foreign : Window F → Sample F → Bool
  foreign w s = s.device_id != w.device_id || s.stream_id != w.stream_id || s.signal != w.signal

  -- Its test that a sample lies outside the window.
  outside : Time → Time → Sample F → Bool
  outside start end s = before s.observed_at start || not (before s.observed_at end)

  -- The rest of its body: the window and `total` after a sample.
  absorb : Window F × F → Sample F → Window F × F
  absorb (w, total) s = (
    record w {
      count = w.count + 1;
      last_value = s.value;
      least = if fl.ltf s.value w.least then s.value else w.least;
      greatest = if fl.ltf w.greatest s.value then s.value else w.greatest;
      bad_samples = if s.quality != "good" then w.bad_samples + 1 else w.bad_samples;
    },
    fl.addf total s.value,
  )

  window_loop : Time → Time → Window F × F → List (Sample F) → Result (Window F × F)
  unfolding foreign outside absorb
  window_loop start end acc [] = ok acc
  window_loop start end acc (s ∷ rest) =
      let skip = window_loop start end acc rest in
      let take = window_loop start end (absorb acc s) rest in
      if foreign acc.0 s then err window_mixed else if outside start end s then skip else take

  -- The fields that the source leaves at zero are 0 here too.
  first_window : Sample F → Time → Time → Window F
  first_window s start end = record {
    device_id = s.device_id;
    stream_id = s.stream_id;
    signal = s.signal;
    started_at = start;
    ended_at = end;
    count = 0;
    least = s.value;
    greatest = s.value;
    average = fl.of_ℕ 0;
    last_value = fl.of_ℕ 0;
    bad_samples = 0;
  }

  close_window : Window F × F → Result (Window F)
  close_window (w, total) = do
    refuse_if (eqb w.count 0) window_no_samples
    ok (record w { average = fl.divf total (fl.of_ℕ w.count) })

  unfoldable pub build_window : List (Sample F) → Time → Time → Result (Window F)
  unfolding window_loop first_window close_window
  build_window [] start end = err window_empty
  build_window (s ∷ rest) start end = do
    refuse_if (not (before start end)) window_bounds
    acc ← window_loop start end (first_window s start end, fl.of_ℕ 0) (s ∷ rest)
    close_window acc
