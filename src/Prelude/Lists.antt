-- ===== src/Prelude/Lists.antt =====
-- Lists measured by native numbers, and Boolean searches over them.
use Prim.Native.Nat.{ℕ, zero, suc, ◌+◌, ◌-◌, min}
use mathlib.Core.Path.{◌≡◌, refl, sym, ◌∙◌}
use mathlib.Core.Bool.{false≢true, true, Bool, false, ◌||◌}
use mathlib.Core.List.{List, [], ◌∷◌, ◌++◌}
use mathlib.Core.Logic.{inl, inr}
use native.Mathlib.Omega.{arith}
use orbit_telemetry_orchestr.Prelude.Bools.{Bool-cases, if◌then◌else◌, Eq, ◌==◌}

module _ {ℓ} {A : Type ℓ} where
  abbrev pub length : List A → ℕ
  length [] = 0
  length (x ∷ xs) = suc (length xs)

  abbrev pub take : ℕ → List A → List A
  take zero xs = []
  take (suc n) [] = []
  take (suc n) (x ∷ xs) = x ∷ take n xs

  abbrev pub drop : ℕ → List A → List A
  drop zero xs = xs
  drop (suc n) [] = []
  drop (suc n) (x ∷ xs) = drop n xs

  pub length-append : (xs ys : List A) → length (xs ++ ys) ≡ length xs + length ys
  length-append [] ys = omega arith
  length-append (x ∷ xs) ys = omega (arith, length-append xs ys)

  pub length-take : (n : ℕ) (xs : List A) → length (take n xs) ≡ min n (length xs)
  length-take zero xs = omega arith
  length-take (suc n) [] = omega arith
  length-take (suc n) (x ∷ xs) = omega (arith, length-take n xs)

  pub length-drop : (n : ℕ) (xs : List A) → length (drop n xs) ≡ length xs - n
  length-drop zero xs = omega arith
  length-drop (suc n) [] = omega arith
  length-drop (suc n) (x ∷ xs) = omega (arith, length-drop n xs)

  pub take-append-drop : (n : ℕ) (xs : List A) → take n xs ++ drop n xs ≡ xs
  take-append-drop zero xs = refl
  take-append-drop (suc n) [] = refl
  take-append-drop (suc n) (x ∷ xs) = rw (take-append-drop n xs)

  -- The items that pass a test, in order.
  abbrev pub keep : (A → Bool) → List A → List A
  keep p [] = []
  keep p (x ∷ xs) = let rest = keep p xs in if p x then x ∷ rest else rest

-- Everything in the list has the property.
abbrev pub All {ℓ κ} : {A : Type ℓ} → (A → Type κ) → List A → Type κ
All P [] = Unit
All P (x ∷ xs) = P x × All P xs

module _ {ℓ κ μ} {A : Type ℓ} {P : A → Type κ} {Q : A → Type μ} where
  pub All-imp : ((a : A) → P a → Q a) → (xs : List A) → All P xs → All Q xs
  All-imp f [] all = tt
  All-imp f (x ∷ xs) all = (f x all.0, All-imp f xs all.1)

module _ {ℓ κ} {A : Type ℓ} (P : A → Type κ) where
  pub All-every : ((a : A) → P a) → (xs : List A) → All P xs
  All-every f [] = tt
  All-every f (x ∷ xs) = (f x, All-every f xs)

  -- What holds of all items holds of the kept ones.
  pub keep-All_items : (p : A → Bool) (xs : List A) → All P xs → All P (keep p xs)
  keep-All_items p [] all = tt
  keep-All_items p (x ∷ xs) all = elim (Bool-cases (p x)) [
    | inl passes ↦ rw passes (all.0, keep-All_items p xs all.1)
    | inr fails ↦ rw fails (keep-All_items p xs all.1)
  ]

  -- What holds of all items that pass holds of the kept ones, and the other way round.
  pub keep-All : (p : A → Bool) (xs : List A) → All (λ a. p a ≡ true → P a) xs → All P (keep p xs)
  keep-All p [] all = tt
  keep-All p (x ∷ xs) all = elim (Bool-cases (p x)) [
    | inl passes ↦ rw passes (all.0 passes, keep-All p xs all.1)
    | inr fails ↦ rw fails (keep-All p xs all.1)
  ]

  pub All-of_keep :
      (p : A → Bool) (xs : List A) → All P (keep p xs) → All (λ a. p a ≡ true → P a) xs
  All-of_keep p [] all = tt
  All-of_keep p (x ∷ xs) all = elim (Bool-cases (p x)) [
    | inl passes ↦ let all' = rw passes at all in ((λ _. all'.0), All-of_keep p xs all'.1)
    | inr fails ↦
        ((λ passes. absurd (false≢true (sym fails ∙ passes))), All-of_keep p xs (rw fails at all))
  ]

module _ {ℓ} {A : Type ℓ} where
  -- From the item `n` on, and then those before it; from the first one where there is no such item.
  abbrev pub rotated : ℕ → List A → List A
  rotated n xs = drop n xs ++ take n xs

module _ {ℓ κ} {A : Type ℓ} (P : A → Type κ) where
  pub append-All : (xs ys : List A) → All P xs → All P ys → All P (xs ++ ys)
  append-All [] ys h k = k
  append-All (x ∷ xs) ys h k = (h.0, append-All xs ys h.1 k)

  take-All : (n : ℕ) (xs : List A) → All P xs → All P (take n xs)
  take-All zero xs h = tt
  take-All (suc n) [] h = tt
  take-All (suc n) (x ∷ xs) h = (h.0, take-All n xs h.1)

  drop-All : (n : ℕ) (xs : List A) → All P xs → All P (drop n xs)
  drop-All zero xs h = h
  drop-All (suc n) [] h = tt
  drop-All (suc n) (x ∷ xs) h = drop-All n xs h.1

  -- A rotation invents nothing.
  pub rotated-All : (n : ℕ) (xs : List A) → All P xs → All P (rotated n xs)
  rotated-All n xs h = append-All (drop n xs) (take n xs) (drop-All n xs h) (take-All n xs h)

-- The kept items pass.
pub keep-passes {ℓ} : {A : Type ℓ} (p : A → Bool) (xs : List A) → All (λ a. p a ≡ true) (keep p xs)
keep-passes p xs = keep-All (λ a. p a ≡ true) p xs (All-every _ (λ a h. h) xs)

module _ {ℓ} {A : Type ℓ} ⦃e : Eq A⦄ where
  -- `for _, existing := range xs { if existing == a { return true } }`
  abbrev pub contains : A → List A → Bool
  contains a [] = false
  contains a (x ∷ xs) = x == a || contains a xs

  -- No item occurs twice.
  abbrev pub Distinct : List A → Type 0
  Distinct [] = Unit
  Distinct (x ∷ xs) = (contains x xs ≡ false) × Distinct xs

  pub contains-append :
      (a : A) (xs ys : List A) → contains a (xs ++ ys) ≡ (contains a xs || contains a ys)
  contains-append a [] ys = refl
  contains-append a (x ∷ xs) ys = ground (arith, contains-append a xs ys)

  pub Distinct-snoc :
      (a : A) (xs : List A) → contains a xs ≡ false → Distinct xs → Distinct (xs ++ a ∷ [])
  Distinct-snoc a [] h d = (refl, tt)
  Distinct-snoc a (x ∷ xs) h d = (
    ground (arith, contains-append x xs (a ∷ []), e.beq_iff x a, e.beq_iff a x, d.0),
    Distinct-snoc a xs (ground arith) d.1,
  )
