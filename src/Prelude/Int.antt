-- ===== src/Prelude/Int.antt =====
-- Go's signed 64-bit integers (`int`, `int64`, `time.Duration`): the integer, with the wrap-around
-- of `++` and `-1` written out. A value from outside is any integer; the code keeps it in range.
use Prim.Native.Nat.{◌-◌, ◌*◌, ◌^◌, ◌%◌, ℕ, zero, suc, ◌+◌, ◌≤◌}
use mathlib.Core.Path.{◌≡◌, refl}
use mathlib.Core.Logic.{◌↔◌}
use mathlib.Core.Bool.{Bool, true, false}
use native.Mathlib.Omega.{arith}
use orbit_telemetry_orchestr.Prelude.Bools.{ltb, leb, eqb, Eq, if◌then◌else◌}

-- `negsuc n` is -(n + 1).
pub data ℤ : Type 0 where
  pos : ℕ → ℤ
  negsuc : ℕ → ℤ

abbrev pub pos_part : ℤ → ℕ
pos_part (pos n) = n
pos_part (negsuc n) = 0

abbrev pub neg_part : ℤ → ℕ
neg_part (pos n) = 0
neg_part (negsuc n) = suc n

infix 50 ◌<ℤ◌ ◌≤ℤ◌
abbrev pub ◌<ℤ◌ : ℤ → ℤ → Bool
a <ℤ b = ltb (pos_part a + neg_part b) (pos_part b + neg_part a)

abbrev pub ◌≤ℤ◌ : ℤ → ℤ → Bool
a ≤ℤ b = leb (pos_part a + neg_part b) (pos_part b + neg_part a)

abbrev pub eqb_ℤ : ℤ → ℤ → Bool
eqb_ℤ (pos a) (pos b) = eqb a b
eqb_ℤ (negsuc a) (negsuc b) = eqb a b
eqb_ℤ _ _ = false

pub eqb_ℤ_iff : (a b : ℤ) → (eqb_ℤ a b ≡ true) ↔ (a ≡ b)
eqb_ℤ_iff (pos a) (pos b) = ground arith
eqb_ℤ_iff (negsuc a) (negsuc b) = ground arith
eqb_ℤ_iff (pos a) (negsuc b) = ground arith
eqb_ℤ_iff (negsuc a) (pos b) = ground arith

instance abbrev pub int_eq : Eq ℤ
int_eq = record { beq = eqb_ℤ; beq_iff = eqb_ℤ_iff }

-- The largest `int64`.
abbrev pub max_int64 : ℕ
max_int64 = 9223372036854775807

-- `x++` on an `int64`: the largest value wraps to the smallest.
abbrev pub inc64 : ℤ → ℤ
inc64 (pos n) = if eqb n max_int64 then negsuc max_int64 else pos (n + 1)
inc64 (negsuc zero) = pos 0
inc64 (negsuc (suc n)) = negsuc n

-- `x - 1` on an `int64`: the smallest value wraps to the largest.
abbrev pub dec64 : ℤ → ℤ
dec64 (pos zero) = negsuc 0
dec64 (pos (suc n)) = pos n
dec64 (negsuc n) = if eqb n max_int64 then pos max_int64 else negsuc (n + 1)

-- The `int64` with a pattern of 64 bits.
abbrev pub of_bits64 : ℕ → ℤ
of_bits64 n = if ltb max_int64 n then negsuc (2 ^ 64 - n - 1) else pos n

-- `x * k` on `int64`, which wraps.
unfoldable pub product_int64 : ℤ → ℕ → ℤ
product_int64 (pos n) k = of_bits64 ((n * k) % 2 ^ 64)
product_int64 (negsuc n) k = of_bits64 ((2 ^ 64 - (suc n * k) % 2 ^ 64) % 2 ^ 64)

-- What an `int64` can hold.
abbrev pub InInt64 : ℤ → Type 0
InInt64 (pos n) = n ≤ max_int64
InInt64 (negsuc n) = n ≤ max_int64

pub dec64-inc64 : (a : ℤ) → InInt64 a → dec64 (inc64 a) ≡ a
dec64-inc64 (pos n) h = ground arith
dec64-inc64 (negsuc zero) h = refl
dec64-inc64 (negsuc (suc n)) h = ground arith

pub inc64-InInt64 : (a : ℤ) → InInt64 a → InInt64 (inc64 a)
inc64-InInt64 (pos n) h = ground arith
inc64-InInt64 (negsuc zero) h = omega arith
inc64-InInt64 (negsuc (suc n)) h = omega arith
