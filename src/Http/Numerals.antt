-- ===== src/Http/Numerals.antt =====
-- `strconv.Atoi` on what `itoa` of app.go writes.
use orbit_telemetry_orchestr.Prelude.{
  ℕ, zero, suc, ◌+◌, ◌*◌, ◌-◌, ◌/◌, ◌%◌, ◌≤◌, ◌<◌, String, ◌≡◌, refl, ◌∙◌, ap, ◌≢◌, true, some,
  List, [], ◌∷◌, All, arith, inl, inr, Bool-cases, eqb, ℤ, pos, negsuc, max_int64, InInt64,
  digit_char, digits_text, fill_digits, ◌+s◌,
}
use Prim.Native.Char.{code}
use Prim.Native.String.append
use orbit_telemetry_orchestr.Service.{itoa}
use orbit_telemetry_orchestr.Http.{is_digit, digits_value, unsigned, atoi}

abbrev IsDigit : ℕ → Type 0
IsDigit d = d ≤ 9

-- The number of a list of digits after those that make `n`.
abbrev number : List ℕ → ℕ → ℕ
number [] n = n
number (d ∷ ds) n = number ds (n * 10 + d)

code-digit_char : (d : ℕ) → IsDigit d → code (digit_char d) ≡ 48 + d
code-digit_char zero h = refl
code-digit_char (suc zero) h = refl
code-digit_char (suc (suc zero)) h = refl
code-digit_char (suc (suc (suc zero))) h = refl
code-digit_char (suc (suc (suc (suc zero)))) h = refl
code-digit_char (suc (suc (suc (suc (suc zero))))) h = refl
code-digit_char (suc (suc (suc (suc (suc (suc zero)))))) h = refl
code-digit_char (suc (suc (suc (suc (suc (suc (suc zero))))))) h = refl
code-digit_char (suc (suc (suc (suc (suc (suc (suc (suc zero)))))))) h = refl
code-digit_char (suc (suc (suc (suc (suc (suc (suc (suc (suc zero))))))))) h = refl
code-digit_char (suc (suc (suc (suc (suc (suc (suc (suc (suc (suc d)))))))))) h =
    absurd (omega arith)

digits_value-digits_text :
    (ds : List ℕ) (n : ℕ) → All IsDigit ds → digits_value (digits_text ds) n ≡ some (number ds n)
unfolding digits_value digits_text
digits_value-digits_text [] n all = refl
digits_value-digits_text (d ∷ ds) n all =
    let read : n * 10 + (code (digit_char d) - 48) ≡ n * 10 + d =
      omega (arith, code-digit_char d all.0) in
    let digit : is_digit (code (digit_char d)) ≡ true =
      rw (code-digit_char d all.0) (ground (arith, all.0)) in
    rw (digit, read) (digits_value-digits_text ds (n * 10 + d) all.1)

-- The numbers of at most so many digits are below it.
abbrev tens : ℕ → ℕ
tens zero = 1
tens (suc n) = tens n * 10

fill_digits-All : (room n : ℕ) (ds : List ℕ) → All IsDigit ds → All IsDigit (fill_digits room n ds)
unfolding fill_digits
fill_digits-All zero n ds all = all
fill_digits-All (suc room) n ds all = elim (Bool-cases (eqb n 0)) [
  | inl none_left ↦ rw none_left all
  | inr more ↦ rw more (fill_digits-All room (n / 10) ((n % 10) ∷ ds) (omega arith, all))
]

number-fill_digits :
    (room n : ℕ) (ds : List ℕ) → n < tens room → number (fill_digits room n ds) 0 ≡ number ds n
unfolding fill_digits
number-fill_digits zero n ds h = ap (number ds) (omega arith)
number-fill_digits (suc room) n ds h = elim (Bool-cases (eqb n 0)) [
  | inl none_left ↦ rw none_left (ap (number ds) (ground arith))
  | inr more ↦ rw more (
      number-fill_digits room (n / 10) ((n % 10) ∷ ds) (omega arith) ∙ ap (number ds) (omega arith))
]

-- The text of a number above 0.
numeral :
    (n : ℕ) → 0 < n → n < tens 20 → digits_value (digits_text (fill_digits 20 n [])) 0 ≡ some n
numeral n above below =
    digits_value-digits_text _ 0 (fill_digits-All 20 n [] tt)
    ∙ ap some (number-fill_digits 20 n [] below)

-- The text of a numeral is not empty, and its first character is a digit.
unsigned-numeral :
    (n : ℕ) → 0 < n → n < tens 20 → unsigned (digits_text (fill_digits 20 n [])) ≡ some n
unfolding unsigned
unsigned-numeral n above below =
    unsigned_some (digits_text (fill_digits 20 n [])) n above (numeral n above below)
  where
    unsigned_some : (s : String) (n : ℕ) → 0 < n → digits_value s 0 ≡ some n → unsigned s ≡ some n
    unsigned_some String.[] n above e = absurd (unfold digits_value in ground (arith, e))
    unsigned_some (String.◌∷◌ c s) n above e = e

atoi-unsigned : (s : String) (n : ℕ) → n ≤ max_int64 → unsigned s ≡ some n → atoi s ≡ some (pos n)
unfolding atoi unsigned
atoi-unsigned String.[] n h e = absurd (ground arith)
atoi-unsigned (String.◌∷◌ c s) n h e = elim (Bool-cases (is_digit (code c))) [
  | inl digit ↦ rw e (ground (arith, digit))
  | inr other ↦ absurd (unfold digits_value in ground (arith, other))
]

atoi_minus :
    (s : String) (n : ℕ)
    → n ≤ max_int64
    → unsigned s ≡ some (n + 1)
    → atoi ("-" +s s) ≡ some (negsuc n)
unfolding atoi
atoi_minus s n h e =
    let joined : ("-" +s s) ≡ String.◌∷◌ "-" s =
      append.cons "-" String.[] s ∙ ap (String.◌∷◌ "-") (append.nil s) in
    rw (joined, e) (ground (arith, h))

-- `strconv.Atoi` reads the text that `itoa` writes of an `int` as that `int`, but for the smallest
-- one.
pub atoi-itoa : (x : ℤ) → InInt64 x → x ≢ negsuc max_int64 → atoi (itoa x) ≡ some x
unfolding itoa
atoi-itoa (pos n) h other = elim (Bool-cases (eqb n 0)) [
  | inl none_left ↦ rw none_left (unfold atoi unsigned digits_value in ground arith)
  | inr more ↦ rw more (
      atoi-unsigned (digits_text (fill_digits 20 n [])) n (omega arith)
        (unsigned-numeral n (ground arith) (omega arith)))
]
atoi-itoa (negsuc n) h other = elim (Bool-cases (eqb n max_int64)) [
  | inl least ↦ absurd (other (ap negsuc (ground arith)))
  | inr more ↦ rw more (
      atoi_minus (digits_text (fill_digits 20 (n + 1) [])) n (omega arith)
        (unsigned-numeral (n + 1) (omega arith) (omega arith)))
]
