-- ===== src/RateLimit/Requests.antt =====
-- What one call of limiter.go's Allow does to what remains for each key.
use orbit_telemetry_orchestr.Prelude.{
  ◌+◌, ◌-◌, ◌<◌, String, ◌≡◌, refl, sym, ap, ◌∙◌, true, false, arith, eq_refl, if◌then◌else◌, ◌==◌,
  string_eq, ltb, leb, pos, negsuc, ◌<ℤ◌, lookup, insert, lookup-insert, Time, Duration, is_zero,
  add, Bool-cases, inl, inr,
}
use orbit_telemetry_orchestr.RateLimit.{
  Bucket, Limiter, bucket_or_zero, has_ended, current_bucket, allow, remaining,
}

lt-add : (t : Time) (d : Duration) → (pos 0 <ℤ d) ≡ true → t < add t d
lt-add t (pos n) h = ground arith
lt-add t (negsuc n) h = ground arith

-- Two limiters that differ in their buckets only.
abbrev pub with_bucket : Limiter → String → Bucket → Limiter
with_bucket l key b = record l { values = insert key b l.values }

bucket_of_key :
    (l : Limiter) (key : String) (b : Bucket)
    → bucket_or_zero (lookup key (with_bucket l key b).values) ≡ b
bucket_of_key l key b = rw (lookup-insert key key b l.values, eq_refl key)

bucket_of_other :
    (l : Limiter) (key other : String) (b : Bucket)
    → (key == other) ≡ false
    → bucket_or_zero (lookup other (with_bucket l key b).values)
      ≡ bucket_or_zero (lookup other l.values)
bucket_of_other l key other b h = rw (lookup-insert key other b l.values, h)

remaining_lem :
    (l : Limiter) (key : String) (now : Time)
    → remaining l key now ≡ l.limit - (current_bucket l key now).count
unfolding remaining
remaining_lem l key now = ground arith

-- The bucket that counts has not ended.
current-open :
    (l : Limiter) (key : String) (now : Time)
    → is_zero now ≡ false
    → (pos 0 <ℤ l.window) ≡ true
    → has_ended l (current_bucket l key now) now ≡ false
current-open l key now real opened =
    elim (Bool-cases (has_ended l (bucket_or_zero (lookup key l.values)) now)) [
      | inl ended ↦ rw ended (ground (arith, lt-add now l.window))
      | inr running ↦ rw running running
    ]

-- A bucket that has not ended is the one that counts.
current-with_bucket :
    (l : Limiter) (key : String) (b : Bucket) (now : Time)
    → has_ended l b now ≡ false
    → current_bucket (with_bucket l key b) key now ≡ b
current-with_bucket l key b now running = rw (bucket_of_key l key b, running) refl

current-other :
    (l : Limiter) (key other : String) (b : Bucket) (now : Time)
    → (key == other) ≡ false
    → current_bucket (with_bucket l key b) other now ≡ current_bucket l other now
current-other l key other b now h = rw (bucket_of_other l key other b h) refl

abbrev pub bumped : Bucket → Bucket
bumped b = record b { count = b.count + 1 }

-- What a request does to what remains.
allow_all :
    (l : Limiter) (key other : String) (now : Time)
    → is_zero now ≡ false
    → (pos 0 <ℤ l.window) ≡ true
    → ((allow l key now).0 ≡ ltb 0 (remaining l key now))
      × (remaining (allow l key now).1 key now ≡ remaining l key now - 1)
      × ((key == other) ≡ false → remaining (allow l key now).1 other now ≡ remaining l other now)
unfolding allow
allow_all l key other now real opened =
    let c = current_bucket l key now in
    let running = current-open l key now real opened in
    elim (Bool-cases (leb l.limit c.count)) [
      | inl full ↦ rw full (
        ground (arith, remaining_lem l key now),
        ground (
          arith,
          remaining_lem l key now,
          remaining_lem (with_bucket l key c) key now,
          current-with_bucket l key c now running,
        ),
        λ h.
            remaining_lem (with_bucket l key c) other now
            ∙ ap (λ (b : Bucket). l.limit - b.count) (current-other l key other c now h)
            ∙ sym (remaining_lem l other now),
      )
      | inr free ↦ rw free (
        ground (arith, remaining_lem l key now),
        ground (
          arith,
          remaining_lem l key now,
          remaining_lem (with_bucket l key (bumped c)) key now,
          current-with_bucket l key (bumped c) now running,
        ),
        λ h.
            remaining_lem (with_bucket l key (bumped c)) other now
            ∙ ap (λ (b : Bucket). l.limit - b.count) (current-other l key other (bumped c) now h)
            ∙ sym (remaining_lem l other now),
      )
    ]

-- A request, at a time other than the zero Time and with a positive window, is allowed exactly if
-- some remain for its key; then one less remains for it.
pub allow_lem :
    (l : Limiter) (key : String) (now : Time)
    → is_zero now ≡ false
    → (pos 0 <ℤ l.window) ≡ true
    → ((allow l key now).0 ≡ ltb 0 (remaining l key now))
      × (remaining (allow l key now).1 key now ≡ remaining l key now - 1)
allow_lem l key now real positive =
    let all = allow_all l key key now real positive in (all.0, all.1)

-- A request, at a time other than the zero Time and with a positive window, leaves what remains for
-- any other key as it is.
allow_other :
    (l : Limiter) (key other : String) (now : Time)
    → is_zero now ≡ false
    → (pos 0 <ℤ l.window) ≡ true
    → (key == other) ≡ false
    → remaining (allow l key now).1 other now ≡ remaining l other now
allow_other l key other now real positive distinct =
    (allow_all l key other now real positive).2 distinct

pub allow_cases :
    (l : Limiter) (key : String) (now : Time) (b : Bucket)
    → current_bucket l key now ≡ b
    → allow l key now ≡ (
        if leb l.limit b.count
        then (false, with_bucket l key b)
        else (true, with_bucket l key (bumped b)))
unfolding allow
allow_cases l key now b e = rw e refl

pub limit-allow :
    (l : Limiter) (key : String) (now : Time)
    → ((allow l key now).1.limit ≡ l.limit) × ((allow l key now).1.window ≡ l.window)
unfolding allow
limit-allow l key now = ground arith

pub lookup-allow :
    (l : Limiter) (k key : String) (now : Time)
    → (k == key) ≡ false
    → lookup key (allow l k now).1.values ≡ lookup key l.values
unfolding allow
lookup-allow l k key now h = elim (Bool-cases (leb l.limit (current_bucket l k now).count)) [
  | inl full ↦ rw full (rw (lookup-insert k key (current_bucket l k now) l.values, h) refl)
  | inr free ↦ rw free (rw (lookup-insert k key (bumped (current_bucket l k now)) l.values, h) refl)
]
