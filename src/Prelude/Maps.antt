-- ===== src/Prelude/Maps.antt =====
-- Go's `map[string]V`, as a list of its entries, in the order in which their keys were inserted. A
-- `range` over it takes that order, which is one of those that Go may take, or that order from some
-- entry on (`rotated`).
use Prim.Native.Nat.{◌+◌}
use Prim.Native.String.{String}
use mathlib.Core.Path.{◌≡◌, refl, subst}
use mathlib.Core.Bool.{Bool, true, false, ◌||◌}
use mathlib.Core.Option.{Option, none, some}
use mathlib.Core.List.{List, [], ◌∷◌}
use native.Mathlib.Omega.{arith}
use text.Mathlib.TextEquality.{eq_iff}
use mathlib.Core.Logic.{inl, inr}
use text.Mathlib.TextPositions.{eq_refl}
use orbit_telemetry_orchestr.Prelude.Bools.{Bool-cases, if◌then◌else◌, ◌==◌, string_eq}
use orbit_telemetry_orchestr.Prelude.Lists.{length, All}
use orbit_telemetry_orchestr.Prelude.Errors.{Result, ok, err, not_found}

abbrev pub Dict {ℓ} : Type ℓ → Type ℓ
Dict V = List (String × V)

abbrev pub is_some {ℓ} : {V : Type ℓ} → Option V → Bool
is_some none = false
is_some (some v) = true

-- `v, ok := m[k]; if !ok { return ErrNotFound }`
abbrev pub or_not_found {ℓ} : {V : Type ℓ} → Option V → Result V
or_not_found none = err not_found
or_not_found (some v) = ok v

pub or_not_found-ok {ℓ} : {V : Type ℓ} (o : Option V) {v : V} → or_not_found o ≡ ok v → o ≡ some v
or_not_found-ok none h = ground arith
or_not_found-ok (some w) h = ground arith

module _ {ℓ} {V : Type ℓ} where
  unfoldable pub lookup : String → Dict V → Option V
  lookup key [] = none
  lookup key ((own, value) ∷ rest) = if own == key then some value else lookup key rest

  -- `m[k] = v`
  unfoldable pub insert : String → V → Dict V → Dict V
  insert key value [] = (key, value) ∷ []
  insert key value ((own, old) ∷ rest) =
      if own == key then (own, value) ∷ rest else (own, old) ∷ insert key value rest

  -- `delete(m, k)`
  unfoldable pub remove : String → Dict V → Dict V
  remove k [] = []
  remove k ((j, w) ∷ m) = let rest = remove k m in if j == k then rest else (j, w) ∷ rest

  unfoldable pub values : Dict V → List V
  values [] = []
  values ((k, v) ∷ m) = v ∷ values m

  pub lookup-insert :
      (key wanted : String) (value : V) (dict : Dict V)
      → lookup wanted (insert key value dict)
        ≡ (if key == wanted then some value else lookup wanted dict)
  unfolding lookup insert
  lookup-insert key wanted value [] = refl
  lookup-insert key wanted value ((own, old) ∷ rest) =
      let tail = lookup-insert key wanted value rest in
      ground (arith, tail, eq_iff own key, eq_iff own wanted, eq_iff key wanted)

  pub lookup-remove :
      (k j : String) (m : Dict V) → lookup j (remove k m) ≡ (if k == j then none else lookup j m)
  unfolding lookup remove
  lookup-remove k j [] = ground arith
  lookup-remove k j ((i, w) ∷ m) =
      ground (arith, eq_iff k j, eq_iff i k, eq_iff i j, lookup-remove k j m)

  -- A new key adds an entry, an old one keeps their number.
  pub length-insert :
      (k : String) (v : V) (m : Dict V)
      → length (insert k v m) ≡ (if is_some (lookup k m) then length m else length m + 1)
  unfolding lookup insert
  length-insert k v [] = ground arith
  length-insert k v ((i, w) ∷ m) = ground (arith, length-insert k v m)

  abbrev pub key_in : String → Dict V → Bool
  key_in k [] = false
  key_in k ((j, v) ∷ m) = j == k || key_in k m

  -- Every key stands once.
  abbrev pub HasKeys : Dict V → Type 0
  HasKeys [] = Unit
  HasKeys ((k, v) ∷ m) = (key_in k m ≡ false) × HasKeys m

  key_in-insert :
      (k j : String) (v : V) (m : Dict V) → key_in j (insert k v m) ≡ (k == j || key_in j m)
  unfolding insert
  key_in-insert k j v [] = ground arith
  key_in-insert k j v ((i, w) ∷ m) =
      ground (arith, eq_iff k j, eq_iff i k, eq_iff i j, key_in-insert k j v m)

  pub insert-HasKeys : (k : String) (v : V) (m : Dict V) → HasKeys m → HasKeys (insert k v m)
  unfolding insert
  insert-HasKeys k v [] h = (refl, tt)
  insert-HasKeys k v ((i, w) ∷ m) h =
      ground (arith, eq_iff i k, eq_iff k i, key_in-insert k i v m, insert-HasKeys k v m)

  pub lookup_of_not_key : (k : String) (m : Dict V) → key_in k m ≡ false → lookup k m ≡ none
  unfolding lookup
  lookup_of_not_key k [] h = refl
  lookup_of_not_key k ((j, v) ∷ m) h = ground (arith, lookup_of_not_key k m)

module _ {ℓ κ} {V : Type ℓ} (P : V → Type κ) where
  -- What holds of every value holds of each that is looked up.
  pub All-lookup : (k : String) (m : Dict V) {v : V} → All P (values m) → lookup k m ≡ some v → P v
  unfolding values lookup
  All-lookup k [] all h = ground arith
  All-lookup k ((j, w) ∷ m) {v} all h = elim (Bool-cases (j == k)) [
    | inl e ↦ let same : w ≡ v = ground arith in subst P same all.0
    | inr n ↦ All-lookup k m all.1 (rw n at h)
  ]

  -- What holds of each value that a key leads to holds of every value.
  pub All-of_lookup :
      (m : Dict V)
      → HasKeys m
      → ((k : String) (v : V) → lookup k m ≡ some v → P v)
      → All P (values m)
  unfolding values lookup
  All-of_lookup [] d h = tt
  All-of_lookup ((k, w) ∷ m) d h = (
    h k w (rw (eq_refl k)),
    All-of_lookup m d.1 (λ j v e. h j v (ground (arith, eq_iff k j, lookup_of_not_key k m d.0))),
  )
