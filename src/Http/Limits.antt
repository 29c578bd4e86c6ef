-- ===== src/Http/Limits.antt =====
-- The limits that requests name: `serviceLimit` of codec.go and `parseLimit` of validation.go, and the
-- decimal numerals that `itoa` of app.go writes.
use orbit_telemetry_orchestr.Prelude.{
  ℕ, ◌+◌, ◌*◌, ◌-◌, ◌≤◌, String, ◌≡◌, refl, false, ◌||◌, Option, none, some, arith, inl, inr,
  Bool-cases, ltb, ◌==◌, string_eq, ℤ, pos, negsuc, ◌<ℤ◌, max_int64,
}
use Prim.Native.Char.{code}
use orbit_telemetry_orchestr.Service.Validation.{parse_limit, limit_loop}
use orbit_telemetry_orchestr.Http.{is_digit, digits_value, unsigned, atoi, limited, service_limit}

-- From 1 to 1000.
abbrev IsLimit : ℤ → Type 0
IsLimit n = ((n <ℤ pos 1) ≡ false) × ((pos 1000 <ℤ n) ≡ false)

limit_loop-IsLimit :
    (s : String) (n : ℕ) (fallback : ℤ)
    → n ≤ 1000
    → IsLimit fallback
    → IsLimit (limit_loop s n fallback)
unfolding limit_loop
limit_loop-IsLimit String.[] n fallback h f = ground arith
limit_loop-IsLimit (String.◌∷◌ c s) n fallback h f =
    let next = n * 10 + (code c - 48) in
    elim (Bool-cases (ltb (code c) 48 || ltb 57 (code c))) [
      | inl other ↦ rw other f
      | inr digit ↦ elim (Bool-cases (ltb 1000 next)) [
        | inl great ↦ rw (digit, great) (refl, refl)
        | inr small ↦ rw (digit, small) (limit_loop-IsLimit s next fallback (ground arith) f)
      ]
    ]

-- Whatever the text, the two limits are 1 to 1000, where the fallback is.
limits_bounded :
    (s : String) (fallback : ℤ)
    → IsLimit fallback
    → IsLimit (service_limit s fallback) × IsLimit (parse_limit s fallback)
unfolding service_limit parse_limit
limits_bounded s fallback f = elim (Bool-cases (s == "")) [
  | inl empty ↦ rw empty (f, f)
  | inr given ↦ rw given (limited_bounded (atoi s), limit_loop-IsLimit s 0 fallback (omega arith) f)
]
  where
    limited_bounded : (o : Option ℤ) → IsLimit (limited o fallback)
    limited_bounded none = f
    limited_bounded (some (pos n)) = ground arith
    limited_bounded (some (negsuc n)) = ground arith

-- A numeral is at least what its first digits make.
digits_value-le : (s : String) (m n : ℕ) → digits_value s m ≡ some n → m ≤ n
unfolding digits_value
digits_value-le String.[] m n h = ground arith
digits_value-le (String.◌∷◌ c s) m n h = elim (Bool-cases (is_digit (code c))) [
  | inl digit ↦ omega (arith, digits_value-le s (m * 10 + (code c - 48)) n (rw digit at h))
  | inr other ↦ absurd (ground (arith, other))
]

limit_loop_value :
    (s : String) (m n : ℕ) (fallback : ℤ)
    → m ≤ 1000
    → digits_value s m ≡ some n
    → limit_loop s m fallback ≡ limited (some (pos n)) fallback
unfolding limit_loop digits_value
limit_loop_value String.[] m n fallback h e = ground arith
limit_loop_value (String.◌∷◌ c s) m n fallback h e =
    let next = m * 10 + (code c - 48) in
    elim (Bool-cases (is_digit (code c))) [
      | inr other ↦ absurd (ground (arith, other))
      | inl digit ↦
          let rest : digits_value s next ≡ some n = rw digit at e in
          let bound = digits_value-le s next n rest in
          elim (Bool-cases (ltb 1000 next)) [
            | inl great ↦ ground (arith, bound, great, digit)
            | inr small ↦
                let later = limit_loop_value s next n fallback (ground arith) rest in
                ground (arith, later, small, digit)
          ]
    ]

atoi_digits :
    (s : String) (n : ℕ)
    → (s == "") ≡ false
    → digits_value s 0 ≡ some n
    → n ≤ max_int64
    → atoi s ≡ some (pos n)
unfolding atoi unsigned
atoi_digits String.[] n given e h = absurd (ground (arith, given))
atoi_digits (String.◌∷◌ c s) n given e h = elim (Bool-cases (is_digit (code c))) [
  | inl digit ↦ rw e (ground (arith, digit))
  | inr other ↦ absurd (unfold digits_value in ground (arith, other))
]

-- On a text of decimal digits, at least one, whose number an `int64` holds, the two functions agree.
pub limits_agree :
    (s : String) (n : ℕ) (fallback : ℤ)
    → (s == "") ≡ false
    → digits_value s 0 ≡ some n
    → n ≤ max_int64
    → parse_limit s fallback ≡ service_limit s fallback
unfolding parse_limit service_limit
limits_agree s n fallback given e h =
    rw (given, atoi_digits s n given e h) (limit_loop_value s 0 n fallback (omega arith) e)
