-- ===== src/Http/Admission.antt =====
-- What the rate limiter lets through to the handlers.
use orbit_telemetry_orchestr.Prelude.{
  ◌+◌, ◌-◌, eqb, ◌≡◌, refl, true, false, inl, inr, Bool-cases, arith, if◌then◌else◌, pos, ◌<ℤ◌,
  is_zero, Float,
}
use orbit_telemetry_orchestr.Prelude.Errors.{rate_limited}
use orbit_telemetry_orchestr.RateLimit.{allow, remaining}
use orbit_telemetry_orchestr.RateLimit.Requests.{allow_lem}
use orbit_telemetry_orchestr.Http.{Request, Decoders, write_error}
use orbit_telemetry_orchestr.Http.Routes.{Server, client_key, mux, serve}

module _ {F : Type 0} ⦃fl : Float F⦄ where
  -- At a time other than the zero Time and with a positive window: where nothing remains for the
  -- client's key, the answer is 429 and the app only reads its clock; where some remain, the answer and
  -- the app after it are those of the routes; and one less remains for the key, if any did.
  pub serve_lem :
      (d : Decoders F) (r : Request) (s : Server F)
      → is_zero (s.app.clock s.app.reads) ≡ false
      → (pos 0 <ℤ s.limiter.window) ≡ true
      → let t = s.app.clock s.app.reads in
        let left = remaining s.limiter (client_key r) t in
        let read = record s.app { reads = s.app.reads + 1 } in
        ((serve d r s).0 ≡ (if eqb left 0 then write_error 429 rate_limited else (mux d r read).0))
        × ((serve d r s).1.app ≡ (if eqb left 0 then read else (mux d r read).1))
        × (remaining (serve d r s).1.limiter (client_key r) t ≡ left - 1)
  unfolding serve
  serve_lem d r s real positive =
      let key = client_key r in
      let t = s.app.clock s.app.reads in
      let allowed = allow_lem s.limiter key t real positive in
      elim (Bool-cases (eqb (remaining s.limiter key t) 0)) [
        | inl spent ↦
            let refused : (allow s.limiter key t).0 ≡ false = ground (arith, allowed.0, spent) in
            rw (spent, refused) (refl, refl, allowed.1)
        | inr some_left ↦
            let passed : (allow s.limiter key t).0 ≡ true = ground (arith, allowed.0, some_left) in
            rw (some_left, passed) (refl, refl, allowed.1)
      ]
