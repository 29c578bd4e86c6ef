-- ===== src/RateLimit/Windows.antt =====
-- How many requests of one key limiter.go allows in one window.
use Prim.Native.Nat.{min}
use orbit_telemetry_orchestr.Prelude.{
  ℕ, suc, ◌+◌, ◌-◌, ◌≤◌, String, ◌≡◌, refl, ◌∙◌, true, false, ◌&&◌, some, List, [], ◌∷◌, arith,
  eq_iff, eq_refl, if◌then◌else◌, ◌==◌, string_eq, leb, lookup, lookup-insert, Time, is_zero,
  before, add, Bool-cases, leb→le, not_leb→lt, lt→not_leb, inl, inr, All,
}
use orbit_telemetry_orchestr.RateLimit.{
  Bucket, Limiter, bucket_or_zero, has_ended, current_bucket, allow,
}
use orbit_telemetry_orchestr.RateLimit.Requests.{
  with_bucket, bumped, allow_cases, limit-allow, lookup-allow,
}

-- The number of allowed requests of `key` among a list of requests.
unfoldable pub allowed_of : String → Limiter → List (String × Time) → ℕ
allowed_of key l [] = 0
allowed_of key l ((k, now) ∷ rest) =
    (if (k == key) && (allow l k now).0 then 1 else 0) + allowed_of key (allow l k now).1 rest

abbrev pub requests_of : String → List (String × Time) → ℕ
requests_of key [] = 0
requests_of key ((k, now) ∷ rest) = (if k == key then 1 else 0) + requests_of key rest

-- The requests of `key` come before `end`; those of other keys at any time.
abbrev pub AllBefore : String → Time → List (String × Time) → Type 0
AllBefore key end = All (λ (r : String × Time). (r.0 == key) ≡ true → before r.1 end ≡ true)

current-found :
    (l : Limiter) (key : String) (now : Time) (b : Bucket)
    → lookup key l.values ≡ some b
    → is_zero b.start ≡ false
    → before now (add b.start l.window) ≡ true
    → current_bucket l key now ≡ b
current-found l key now b found real inside = rw (found, real, inside) refl

lookup-with_bucket :
    (l : Limiter) (k key : String) (b : Bucket)
    → (k == key) ≡ true
    → lookup key (with_bucket l k b).values ≡ some b
lookup-with_bucket l k key b own = rw (lookup-insert k key b l.values, own) refl

-- In an open window what is left of the limit is allowed, and no more.
allowed_of-open :
    (key : String) (l : Limiter) (b : Bucket) (requests : List (String × Time))
    → lookup key l.values ≡ some b
    → is_zero b.start ≡ false
    → AllBefore key (add b.start l.window) requests
    → allowed_of key l requests ≡ min (l.limit - b.count) (requests_of key requests)
unfolding allowed_of
allowed_of-open key l b [] found real inside = omega arith
allowed_of-open key l b ((k, now) ∷ rest) found real inside = elim (Bool-cases (k == key)) [
  | inr other ↦
      let l' = (allow l k now).1 in
      let same = limit-allow l k now in
      rw other (
        omega (
          arith,
          same.0,
          allowed_of-open key l' b rest (lookup-allow l k key now other ∙ found) real
              (rw same.1 inside.1),
        ))
  | inl own ↦
      let found_k : lookup k l.values ≡ some b = rw ((eq_iff k key).0 own) found in
      let step = allow_cases l k now b (current-found l k now b found_k real (inside.0 own)) in
      elim (Bool-cases (leb l.limit b.count)) [
        | inl full ↦
            rw (step, own, full)
              (omega (
                arith,
                leb→le l.limit b.count full,
                allowed_of-open key (with_bucket l k b) b rest (lookup-with_bucket l k key b own)
                    real inside.1,
              ))
        | inr free ↦
            rw (step, own, free)
              (omega (
                arith,
                not_leb→lt l.limit b.count free,
                allowed_of-open key (with_bucket l k (bumped b)) (bumped b) rest
                    (lookup-with_bucket l k key (bumped b) own) real inside.1,
              ))
      ]
]

-- A window that begins with a request of `key` at `start`, which is not the zero Time and after the
-- end of any earlier window of the key, a limit of at least 1, and requests of any keys after it, those of `key` before the window's end: of all the requests of `key` exactly so
-- many are allowed as there are, up to the limit.
pub window_lem :
    (key : String) (l : Limiter) (start : Time) (requests : List (String × Time))
    → 1 ≤ l.limit
    → is_zero start ≡ false
    → has_ended l (bucket_or_zero (lookup key l.values)) start ≡ true
    → AllBefore key (add start l.window) requests
    → allowed_of key l ((key, start) ∷ requests) ≡ min l.limit (suc (requests_of key requests))
unfolding allowed_of
window_lem key l start requests some_ real ended inside =
    let b : Bucket = record { start = start; count = 0 } in
    let step = allow_cases l key start b (rw ended refl) in
    rw (step, eq_refl key, lt→not_leb 0 l.limit some_)
      (omega (
        arith,
        allowed_of-open key (with_bucket l key (bumped b)) (bumped b) requests
            (lookup-with_bucket l key key (bumped b) (eq_refl key)) real inside,
      ))
