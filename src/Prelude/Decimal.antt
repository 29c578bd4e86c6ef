-- ===== src/Prelude/Decimal.antt =====
-- Decimal numerals: the verb `%d` of `fmt`, and text that is joined by `+`.
use Prim.Native.Nat.{ℕ, zero, suc, ◌/◌, ◌%◌}
use Prim.Native.Char.{Char}
use Prim.Native.String.{String, ◌++◌ as append_text}
use mathlib.Core.Path.{◌≡◌, refl}
use mathlib.Core.List.{List, [], ◌∷◌}
use orbit_telemetry_orchestr.Prelude.Bools.{eqb, if◌then◌else◌}
use orbit_telemetry_orchestr.Prelude.Int.{ℤ, pos, negsuc}

abbrev pub digit_char : ℕ → Char
digit_char d =
    if eqb d 0
    then "0"
    else if eqb d 1
    then "1"
    else if eqb d 2
    then "2"
    else if eqb d 3
    then "3"
    else if eqb d 4
    then "4"
    else if eqb d 5
    then "5"
    else if eqb d 6
    then "6"
    else if eqb d 7
    then "7"
    else if eqb d 8
    then "8"
    else "9"

-- The text of a list of digits, the first one first.
unfoldable pub digits_text : List ℕ → String
digits_text [] = ""
digits_text (d ∷ ds) = String.◌∷◌ (digit_char d) (digits_text ds)

-- `for value > 0 { … value%10 …; value /= 10 }`, which fills a buffer of `room` bytes from its end.
unfoldable pub fill_digits : ℕ → ℕ → List ℕ → List ℕ
fill_digits zero value buffer = buffer
fill_digits (suc room) value buffer =
    let rest = fill_digits room (value / 10) ((value % 10) ∷ buffer) in
    if eqb value 0 then buffer else rest

-- `%d` of a number of at most `2 ^ 64`.
unfoldable pub show_ℕ : ℕ → String
unfolding digits_text fill_digits
show_ℕ n = if eqb n 0 then "0" else digits_text (fill_digits 20 n [])

unfoldable pub show_ℤ : ℤ → String
unfolding show_ℕ
show_ℤ (pos n) = show_ℕ n
show_ℤ (negsuc n) = append_text "-" (show_ℕ (suc n))

infixr 66 ◌+s◌
abbrev pub ◌+s◌ : String → String → String
◌+s◌ = append_text

show_example : show_ℕ 1205 ≡ "1205"
unfolding show_ℕ
show_example = refl
