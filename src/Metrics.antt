-- ===== src/Metrics.antt =====
-- internal/metrics/registry.go; `F` is `float64`. Counters are `uint64`.
use orbit_telemetry_orchestr.Prelude.{
  ℕ, zero, suc, ◌+◌, ◌%◌, ◌^◌, String, Option, none, some, List, [], ◌∷◌, map, if◌then◌else◌,
  ltb_text, Dict, lookup, insert, length, ◌+s◌, show_ℕ, Float,
}

pub record Registry (F : Type 0) : Type 0 where
  pub counters : Dict ℕ
  pub gauges : Dict F

unfoldable pub new_registry : {F : Type 0} → Registry F
new_registry = record { counters = []; gauges = [] }

-- The inner loop of `key`, at one index: the least of the keys from there on, and the others as the
-- swaps leave them.
unfoldable pub sweep : String → List String → String × List String
sweep x [] = (x, [])
sweep x (y ∷ ys) =
    let (least, rest) = sweep (if ltb_text y x then y else x) ys in
    (least, (if ltb_text y x then x else y) ∷ rest)

-- The outer loop, over as many indexes as there are keys.
unfoldable pub exchange_sort : ℕ → List String → List String
unfolding sweep
exchange_sort zero xs = xs
exchange_sort (suc n) [] = []
exchange_sort (suc n) (x ∷ xs) = let (least, rest) = sweep x xs in least ∷ exchange_sort n rest

-- `labels[label]`, the empty text for a missing key.
text_or_empty : Option String → String
text_or_empty none = ""
text_or_empty (some s) = s

-- The builder's loop, from the second label on.
write_labels : Dict String → List String → String
unfolding text_or_empty
write_labels labels [] = ""
write_labels labels (k ∷ ks) =
    "," +s k +s "=" +s text_or_empty (lookup k labels) +s write_labels labels ks

write_first : Dict String → List String → String
unfolding text_or_empty write_labels
write_first labels [] = ""
write_first labels (k ∷ ks) = k +s "=" +s text_or_empty (lookup k labels) +s write_labels labels ks

unfoldable pub key : String → Dict String → String
unfolding exchange_sort write_first
key name [] = name
key name labels =
    name +s "{" +s write_first labels (exchange_sort (length labels) (map (λ e. e.0) labels)) +s "}"

-- A counter, which is 0 before its first increment.
abbrev pub counter_or_zero : Option ℕ → ℕ
counter_or_zero none = 0
counter_or_zero (some n) = n

module _ {F : Type 0} where
  unfoldable pub add_counter : Registry F → String → ℕ → Dict String → Registry F
  add_counter r name value labels =
      let k = key name labels in
      record r {
        counters = insert k ((counter_or_zero (lookup k r.counters) + value) % 2 ^ 64) r.counters;
      }

  unfoldable pub inc_counter : Registry F → String → Dict String → Registry F
  unfolding add_counter
  inc_counter r name labels = add_counter r name 1 labels

  unfoldable pub set_gauge : Registry F → String → F → Dict String → Registry F
  set_gauge r name value labels = record r { gauges = insert (key name labels) value r.gauges }

-- The loops of `Prometheus` over the snapshot, in the order in which each `range` meets the entries.
unfoldable pub counter_lines : Dict ℕ → String
counter_lines [] = ""
counter_lines ((name, n) ∷ rest) = name +s " " +s show_ℕ n +s "\n" +s counter_lines rest

module _ {F : Type 0} ⦃fl : Float F⦄ where
  unfoldable pub gauge_lines : Dict F → String
  gauge_lines [] = ""
  gauge_lines ((name, x) ∷ rest) = name +s " " +s fl.show_f4 x +s "\n" +s gauge_lines rest

  unfoldable pub prometheus : Registry F → String
  unfolding counter_lines gauge_lines
  prometheus r = counter_lines r.counters +s gauge_lines r.gauges
