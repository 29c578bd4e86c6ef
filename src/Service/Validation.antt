-- ===== src/Service/Validation.antt =====
-- internal/service/validation.go
use orbit_telemetry_orchestr.Prelude.{
  ℕ, ◌+◌, ◌*◌, ◌-◌, String, ◌||◌, if◌then◌else◌, ltb, eqb, ◌==◌, string_eq, ℤ, pos, Result,
  trim_space, is_blank,
}
use Prim.Native.Char.{code}
use orbit_telemetry_orchestr.Prelude.Errors.{refuse_if, actor_required}

unfoldable pub require_actor : String → Result (Unit {0})
require_actor actor = refuse_if (is_blank actor) actor_required

-- The loop of `parseLimit` from a number on; `'0' <= character` and `character <= '9'` are tests of
-- code points.
unfoldable pub limit_loop : String → ℕ → ℤ → ℤ
limit_loop String.[] result fallback = if eqb result 0 then fallback else pos result
limit_loop (String.◌∷◌ c s) result fallback =
    let next = result * 10 + (code c - 48) in
    let rest = limit_loop s next fallback in
    if ltb (code c) 48 || ltb 57 (code c)
    then fallback
    else if ltb 1000 next
    then pos 1000
    else rest

unfoldable pub parse_limit : String → ℤ → ℤ
parse_limit value fallback = if value == "" then fallback else limit_loop value 0 fallback

-- `header` is the value of `x-orbit-actor`, the empty text where there is none.
unfoldable pub actor_from_header : String → String
actor_from_header header = if is_blank header then "anonymous" else trim_space header
