-- ===== src/Tests/Requests.antt =====
-- A limiter of two requests in a window.
use Prim.Native.Nat.{min}
use orbit_telemetry_orchestr.Prelude.{
  lookup, suc, ◌≡◌, refl, [], ◌∷◌, arith, pos, string_eq, second,
}
use orbit_telemetry_orchestr.RateLimit.{Limiter}
use orbit_telemetry_orchestr.RateLimit.Windows.{window_lem, allowed_of, requests_of}

abbrev two_each : Limiter
two_each = record { limit = 2; window = pos second; values = [] }

window_lem_example :
    allowed_of "ann" two_each (("ann", 5) ∷ ("ann", 6) ∷ ("bob", 7) ∷ ("ann", 8) ∷ [])
    ≡ min 2 (suc (requests_of "ann" (("ann", 6) ∷ ("bob", 7) ∷ ("ann", 8) ∷ [])))
unfolding lookup
window_lem_example =
    window_lem "ann" two_each 5 (("ann", 6) ∷ ("bob", 7) ∷ ("ann", 8) ∷ []) (omega arith) refl refl
      ((λ e. refl), ((λ e. refl), ((λ e. refl), tt)))
