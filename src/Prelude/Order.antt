-- ===== src/Prelude/Order.antt =====
-- The order of texts, Go's `<` on strings: a strict total order.
use Prim.Native.Nat.{Ordering}
use Prim.Native.String.{String, compare}
use Prim.Native.String.compare
use mathlib.Core.Path.{◌≡◌}
use mathlib.Core.Bool.{Bool, true, false}
use native.Mathlib.Omega.{arith}
use text.Mathlib.TextEquality.{path_by_compare}
use orbit_telemetry_orchestr.Prelude.Bools.{ltb_text}

-- `less` orders strictly, and what is not less than what is not less is not less.
pub record StrictOrder {ℓ} {A : Type ℓ} (less : A → A → Bool) : Type ℓ where
  pub asymm : (a b : A) → less a b ≡ true → less b a ≡ false
  pub not_trans : (a b c : A) → less a b ≡ false → less b c ≡ false → less a c ≡ false

text_asymm : (a b : String) → ltb_text a b ≡ true → ltb_text b a ≡ false
text_asymm String.[] String.[] h = ground (arith, compare.nil-nil)
text_asymm String.[] (String.◌∷◌ d t) h = ground (arith, compare.cons-nil d t)
text_asymm (String.◌∷◌ c s) String.[] h = ground (arith, compare.cons-nil c s)
text_asymm (String.◌∷◌ c s) (String.◌∷◌ d t) h =
    ground (arith, compare.cons-cons c d s t, compare.cons-cons d c t s, text_asymm s t)

text_not_trans :
    (a b c : String) → ltb_text a b ≡ false → ltb_text b c ≡ false → ltb_text a c ≡ false
text_not_trans String.[] b String.[] h k = ground (arith, compare.nil-nil)
text_not_trans String.[] String.[] (String.◌∷◌ e u) h k = k
text_not_trans String.[] (String.◌∷◌ d t) c h k = ground (arith, compare.nil-cons d t)
text_not_trans (String.◌∷◌ d s) b String.[] h k = ground (arith, compare.cons-nil d s)
text_not_trans (String.◌∷◌ d s) String.[] (String.◌∷◌ e u) h k =
    ground (arith, compare.nil-cons e u)
text_not_trans (String.◌∷◌ d s) (String.◌∷◌ e t) (String.◌∷◌ f u) h k = ground (
  arith,
  compare.cons-cons d e s t,
  compare.cons-cons e f t u,
  compare.cons-cons d f s u,
  text_not_trans s t u,
)

pub text_order : StrictOrder ltb_text
text_order = record { asymm = text_asymm; not_trans = text_not_trans }

compare_of_not_less :
    (a b : String) → ltb_text a b ≡ false → ltb_text b a ≡ false → compare a b ≡ Ordering.eq
compare_of_not_less String.[] String.[] h k = compare.nil-nil
compare_of_not_less String.[] (String.◌∷◌ d t) h k = ground (arith, compare.nil-cons d t)
compare_of_not_less (String.◌∷◌ c s) String.[] h k = ground (arith, compare.nil-cons c s)
compare_of_not_less (String.◌∷◌ c s) (String.◌∷◌ d t) h k =
    ground (arith, compare.cons-cons c d s t, compare.cons-cons d c t s, compare_of_not_less s t)

-- Two texts of which neither is less are one.
pub text_connex : (a b : String) → ltb_text a b ≡ false → ltb_text b a ≡ false → a ≡ b
text_connex a b h k = path_by_compare a b (compare_of_not_less a b h k)
