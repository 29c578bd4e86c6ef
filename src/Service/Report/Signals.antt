-- ===== src/Service/Report/Signals.antt =====
-- The counts of `Report` of report.go.
use orbit_telemetry_orchestr.Prelude.{
  ℕ, ◌+◌, String, ◌≡◌, refl, ◌∙◌, Bool, List, [], ◌∷◌, none, some, arith, pos, Float, Time, Dict,
  All, HasKeys, insert-HasKeys, eq_iff, eq_refl, ◌==◌, string_eq, lookup, insert, lookup-insert,
  sort_slice, Pairs, Sorted-Pairs, StrictOrder, tally-sort_slice, ◌≤◌, if◌then◌else◌,
  sort_slice-Sorted, sort_slice-All, tally,
}
use orbit_telemetry_orchestr.Prelude.{insert_by, length}
use orbit_telemetry_orchestr.Prelude.Maps.{lookup_of_not_key, key_in}
use orbit_telemetry_orchestr.Domain.Anomaly.{Anomaly}
use orbit_telemetry_orchestr.Store.{Memory}
use orbit_telemetry_orchestr.Store.Incidents.{list_anomalies}
use orbit_telemetry_orchestr.Service.Evidence.{count_or_zero}
use orbit_telemetry_orchestr.Service.Report.{
  SignalSummary, summary_less, summaries, signal_counts, report_of,
}

-- No summary counts fewer anomalies than one behind it.
abbrev pub MostFirst : List SignalSummary → Type 0
MostFirst = Pairs (λ x y. y.anomalies ≤ x.anomalies)

tally-summaries :
    (d : Dict ℕ) (s : String)
    → HasKeys d
    → tally (λ (x : SignalSummary). x.signal == s) (summaries d) ≡ (if key_in s d then 1 else 0)
tally-summaries [] s keyed = refl
tally-summaries ((k, n) ∷ d) s keyed =
    let rest = tally-summaries d s keyed.1 in ground (arith, rest, keyed.0, eq_iff k s)

summaries_once :
    (d : Dict ℕ) (s : String)
    → HasKeys d
    → tally (λ (x : SignalSummary). x.signal == s) (summaries d) ≤ 1
summaries_once d s keyed = let once = tally-summaries d s keyed in ground (arith, once)

summary_order : StrictOrder summary_less
summary_order = record { asymm = λ x y h. ground arith; not_trans = λ x y z h k. ground arith }

summaries-All :
    (f : String → ℕ) (d : Dict ℕ)
    → HasKeys d
    → ((k : String) (n : ℕ) → lookup k d ≡ some n → n ≡ f k)
    → All (λ (x : SignalSummary). x.anomalies ≡ f x.signal) (summaries d)
unfolding lookup
summaries-All f [] keyed h = tt
summaries-All f ((k, n) ∷ d) keyed h = (
  h k n (rw (eq_refl k)),
  summaries-All f d keyed.1
      (λ j v e. h j v (ground (arith, eq_iff k j, lookup_of_not_key k d keyed.0))),
)

abbrev pub sum_anomalies : List SignalSummary → ℕ
sum_anomalies [] = 0
sum_anomalies (x ∷ xs) = x.anomalies + sum_anomalies xs

sum-insert_by :
    (x : SignalSummary) (xs : List SignalSummary)
    → sum_anomalies (insert_by summary_less x xs) ≡ x.anomalies + sum_anomalies xs
unfolding insert_by
sum-insert_by x [] = refl
sum-insert_by x (y ∷ ys) = ground (arith, sum-insert_by x ys)

sum-sort_slice :
    (xs : List SignalSummary) → sum_anomalies (sort_slice summary_less xs) ≡ sum_anomalies xs
unfolding sort_slice
sum-sort_slice [] = refl
sum-sort_slice (x ∷ xs) =
    omega (arith, sum-insert_by x (sort_slice summary_less xs), sum-sort_slice xs)

-- One more for a signal is one more in all.
sum-insert :
    (d : Dict ℕ) (s : String)
    → sum_anomalies (summaries (insert s (count_or_zero (lookup s d) + 1) d))
      ≡ sum_anomalies (summaries d) + 1
unfolding insert lookup
sum-insert [] s = ground arith
sum-insert ((k, n) ∷ d) s = ground (arith, sum-insert d s)

module _ {F : Type 0} where
  abbrev pub of_signal : String → Anomaly F → Bool
  of_signal s a = a.signal == s

  signal_counts_lem :
      (counted : Dict ℕ) (xs : List (Anomaly F)) (s : String)
      → count_or_zero (lookup s (signal_counts counted xs))
        ≡ count_or_zero (lookup s counted) + tally (of_signal s) xs
  unfolding signal_counts
  signal_counts_lem counted [] s = ground arith
  signal_counts_lem counted (x ∷ xs) s =
      let n = count_or_zero (lookup x.signal counted) + 1 in
      ground (
        arith,
        signal_counts_lem (insert x.signal n counted) xs s,
        lookup-insert x.signal s n counted,
        eq_iff x.signal s,
      )

  signal_counts-HasKeys :
      (counted : Dict ℕ) (xs : List (Anomaly F))
      → HasKeys counted
      → HasKeys (signal_counts counted xs)
  unfolding signal_counts
  signal_counts-HasKeys counted [] h = h
  signal_counts-HasKeys counted (x ∷ xs) h =
      let n = count_or_zero (lookup x.signal counted) + 1 in
      signal_counts-HasKeys (insert x.signal n counted) xs (insert-HasKeys x.signal n counted h)

  sum-signal_counts :
      (counted : Dict ℕ) (xs : List (Anomaly F))
      → sum_anomalies (summaries (signal_counts counted xs))
        ≡ sum_anomalies (summaries counted) + length xs
  unfolding signal_counts
  sum-signal_counts counted [] = omega arith
  sum-signal_counts counted (x ∷ xs) =
      let n = count_or_zero (lookup x.signal counted) + 1 in
      omega (arith, sum-signal_counts (insert x.signal n counted) xs, sum-insert counted x.signal)

  counted_all :
      (xs : List (Anomaly F)) (s : String) (n : ℕ)
      → lookup s (signal_counts [] xs) ≡ some n
      → n ≡ tally (of_signal s) xs
  counted_all xs s n h =
      let read = signal_counts_lem [] xs s in unfold lookup in ground (arith, read, h)

module _ {F : Type 0} ⦃fl : Float F⦄ where
  -- In the signals of a report no signal stands behind one with fewer anomalies, and none stands twice;
  -- each has the number of the anomalies that the repository lists with it; and the numbers add up to
  -- that of all its anomalies.
  pub report_of_signals :
      (m : Memory F) (t : Time) (signal : String)
      → MostFirst (report_of m t).top_signals
        × (tally (λ (x : SignalSummary). x.signal == signal) (report_of m t).top_signals ≤ 1)
        × All
            (λ (x : SignalSummary).
              x.anomalies ≡ tally (of_signal x.signal) (list_anomalies m "" none (pos 0)))
            (report_of m t).top_signals
        × (sum_anomalies (report_of m t).top_signals ≡ length (list_anomalies m "" none (pos 0)))
  unfolding report_of
  report_of_signals m t signal =
      let xs = list_anomalies m "" none (pos 0) in
      let counted = signal_counts [] xs in
      (
        Sorted-Pairs _ summary_less (λ x y h. ground arith) _
            (sort_slice-Sorted summary_less summary_order (summaries counted)),
        rw (tally-sort_slice (λ x. x.signal == signal) summary_less (summaries counted))
            (summaries_once counted signal (signal_counts-HasKeys [] xs tt)),
        sort_slice-All _ summary_less (summaries counted) (
            summaries-All (λ s. tally (of_signal s) xs) counted (signal_counts-HasKeys [] xs tt)
              (counted_all xs)),
        sum-sort_slice (summaries counted) ∙ sum-signal_counts [] xs ∙ omega arith,
      )
