-- ===== src/Prelude/Floats.antt =====
-- `float64`: a parameter of the model. Its operations are an interface, and the laws that a proof
-- relies on, those of IEEE 754 for finite numbers, are named hypotheses.
use mathlib.Core.Path.{◌≡◌}
use mathlib.Core.Bool.{Bool, true, false}
use Prim.Native.Nat.{ℕ}
use Prim.Native.String.{String}

pub record Float (F : Type 0) : Type 0 where
  pub of_ℕ : ℕ → F
  pub ltf : F → F → Bool
  pub lef : F → F → Bool
  pub eqf : F → F → Bool
  -- neither NaN nor an infinity
  pub is_finite : F → Bool
  pub addf : F → F → F
  pub subf : F → F → F
  pub divf : F → F → F
  pub absf : F → F
  -- the verb `%g` of `fmt`
  pub show_g : F → String
  -- `strconv.FormatFloat` with four decimals
  pub show_f4 : F → String

-- `<` is a strict total order on the finite numbers, said of its failure.
pub record FloatLaws (F : Type 0) ⦃fl : Float F⦄ : Type 0 where
  pub lt_irrefl : (a : F) → fl.ltf a a ≡ false
  pub lt_asymm : (a b : F) → fl.ltf a b ≡ true → fl.ltf b a ≡ false
  pub not_lt_trans :
      (a b c : F)
      → fl.is_finite a ≡ true
      → fl.is_finite b ≡ true
      → fl.is_finite c ≡ true
      → fl.ltf a b ≡ false
      → fl.ltf b c ≡ false
      → fl.ltf a c ≡ false
