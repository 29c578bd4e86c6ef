-- ===== src/RateLimit.antt =====
-- internal/ratelimit/limiter.go
pub mod Requests
pub mod Windows
use orbit_telemetry_orchestr.Prelude.{
  ℕ, ◌+◌, ◌-◌, String, Bool, true, false, ◌||◌, not, Option, none, some, [], if◌then◌else◌, leb,
  ltb, ℤ, pos, ◌<ℤ◌, ◌≤ℤ◌, pos_part, Dict, lookup, insert, Time, Duration, zero_time, is_zero,
  before, add, minute,
}

pub record Bucket : Type 0 where
  pub start : Time
  pub count : ℕ

-- `limit` is an `int` that `New` makes at least 1.
pub record Limiter : Type 0 where
  pub limit : ℕ
  pub window : Duration
  pub values : Dict Bucket

unfoldable pub new_limiter : ℤ → Duration → Limiter
new_limiter limit window = record {
  limit = if limit <ℤ pos 1 then 1 else pos_part limit;
  window = if window ≤ℤ pos 0 then pos minute else window;
  values = [];
}

-- `l.values[key]`, the zero bucket for a missing key.
abbrev pub bucket_or_zero : Option Bucket → Bucket
bucket_or_zero none = record { start = zero_time; count = 0 }
bucket_or_zero (some b) = b

-- `current.start.IsZero() || !now.Before(current.start.Add(l.window))`
abbrev pub has_ended : Limiter → Bucket → Time → Bool
has_ended l b now = is_zero b.start || not (before now (add b.start l.window))

-- The bucket that counts at `now`.
abbrev pub current_bucket : Limiter → String → Time → Bucket
current_bucket l key now =
    let b = bucket_or_zero (lookup key l.values) in
    if has_ended l b now then record { start = now; count = 0 } else b

unfoldable pub allow : Limiter → String → Time → Bool × Limiter
allow l key now =
    let current = current_bucket l key now in
    if leb l.limit current.count
    then (false, record l { values = insert key current l.values })
    else (
      true,
      record l { values = insert key (record current { count = current.count + 1 }) l.values },
    )

-- The source's `if remaining < 0 { return 0 }` is the subtraction on ℕ, which stops at 0.
unfoldable pub remaining : Limiter → String → Time → ℕ
remaining l key now =
    let b = bucket_or_zero (lookup key l.values) in
    if has_ended l b now then l.limit else l.limit - b.count
