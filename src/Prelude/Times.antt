-- ===== src/Prelude/Times.antt =====
-- `time.Time` and `time.Duration`. A time is the number of nanoseconds since the first instant that
-- a `time.Time` can hold, so that the zero Time, `IsZero`, lies 2^63 seconds later. `UTC` changes the
-- location only, which the program never reads. Overflow at the ends of the range is left out.
use Prim.Native.Nat.{ℕ, suc, ◌+◌, ◌-◌}
use mathlib.Core.Bool.{Bool}
use orbit_telemetry_orchestr.Prelude.Bools.{ltb, eqb}
use orbit_telemetry_orchestr.Prelude.Int.{ℤ, pos, negsuc}

abbrev pub Time : Type 0
Time = ℕ

abbrev pub zero_time : Time
zero_time = 9223372036854775808000000000

abbrev pub is_zero : Time → Bool
is_zero t = eqb t zero_time

-- `a.Before(b)`; `a.After(b)` is `before b a`.
abbrev pub before : Time → Time → Bool
before a b = ltb a b

abbrev pub Duration : Type 0
Duration = ℤ

abbrev pub add : Time → Duration → Time
add t (pos n) = t + n
add t (negsuc n) = t - suc n

-- Nanoseconds in a second and in a minute.
abbrev pub second : ℕ
second = 1000000000

abbrev pub minute : ℕ
minute = 60000000000
