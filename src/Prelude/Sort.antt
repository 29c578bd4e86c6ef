-- ===== src/Prelude/Sort.antt =====
-- `sort.Slice`, and what its callers use of it. The library's sort may leave items that are equal in
-- any order; here they keep the order that they came in.
use Prim.Native.Nat.{ℕ, suc, ◌+◌}
use mathlib.Core.Path.{◌≡◌, refl, ap, ◌∙◌, subst}
use mathlib.Core.Bool.{Bool, true, false}
use mathlib.Core.Option.{Option, none, some}
use mathlib.Core.List.{List, [], ◌∷◌, ◌++◌}
use native.Mathlib.Omega.{arith}
use orbit_telemetry_orchestr.Prelude.Bools.{if◌then◌else◌, Bool-cases}
use orbit_telemetry_orchestr.Prelude.Lists.{length, All, All-imp}
use orbit_telemetry_orchestr.Prelude.Order.{StrictOrder}
use mathlib.Core.Logic.{inl, inr}

module _ {ℓ} {A : Type ℓ} where
  unfoldable pub insert_by : (A → A → Bool) → A → List A → List A
  insert_by less x [] = x ∷ []
  insert_by less x (y ∷ ys) =
      let rest = insert_by less x ys in if less y x then y ∷ rest else x ∷ y ∷ ys

  unfoldable pub sort_slice : (A → A → Bool) → List A → List A
  unfolding insert_by
  sort_slice less [] = []
  sort_slice less (x ∷ xs) = insert_by less x (sort_slice less xs)

  -- No item is less than one that stands before it.
  abbrev pub Sorted : (A → A → Bool) → List A → Type ℓ
  Sorted less [] = Unit
  Sorted less (x ∷ xs) = All (λ y. less y x ≡ false) xs × Sorted less xs

  -- Each item stands in the relation to every one after it.
  abbrev pub Pairs {κ} : (A → A → Type κ) → List A → Type (ℓ ⊔ κ)
  Pairs R [] = Unit
  Pairs R (x ∷ xs) = All (R x) xs × Pairs R xs

  pub Sorted-Pairs {κ} :
      (R : A → A → Type κ) (less : A → A → Bool)
      → ((x y : A) → less y x ≡ false → R x y)
      → (xs : List A) → Sorted less xs
      → Pairs R xs
  Sorted-Pairs R less h [] s = tt
  Sorted-Pairs R less h (x ∷ xs) s = (All-imp (λ y. h x y) xs s.0, Sorted-Pairs R less h xs s.1)

  -- `for _, x := range xs { if p(x) { return x } }`
  abbrev pub find_first : (A → Bool) → List A → Option A
  find_first p [] = none
  find_first p (x ∷ xs) = let rest = find_first p xs in if p x then some x else rest

  length-insert_by :
      (less : A → A → Bool) (x : A) (xs : List A) → length (insert_by less x xs) ≡ suc (length xs)
  unfolding insert_by
  length-insert_by less x [] = refl
  length-insert_by less x (y ∷ ys) = ground (arith, length-insert_by less x ys)

  pub length-sort_slice :
      (less : A → A → Bool) (xs : List A) → length (sort_slice less xs) ≡ length xs
  unfolding sort_slice
  length-sort_slice less [] = refl
  length-sort_slice less (x ∷ xs) =
      length-insert_by less x (sort_slice less xs) ∙ ap suc (length-sort_slice less xs)

module _ {ℓ κ} {A : Type ℓ} (P : A → Type κ) (less : A → A → Bool) where
  pub insert_by-All : (x : A) (xs : List A) → P x → All P xs → All P (insert_by less x xs)
  unfolding insert_by
  insert_by-All x [] p all = (p, tt)
  insert_by-All x (y ∷ ys) p all = elim (Bool-cases (less y x)) [
    | inl lt ↦ rw lt (all.0, insert_by-All x ys p all.1)
    | inr ge ↦ rw ge (p, all)
  ]

  pub All-of_insert_by : (x : A) (xs : List A) → All P (insert_by less x xs) → P x × All P xs
  unfolding insert_by
  All-of_insert_by x [] all = all
  All-of_insert_by x (y ∷ ys) all = elim (Bool-cases (less y x)) [
    | inl lt ↦
        let all' = rw lt at all in
        let rest = All-of_insert_by x ys all'.1 in (rest.0, (all'.0, rest.1))
    | inr ge ↦ rw ge at all
  ]

  -- Sorting loses and invents nothing.
  pub sort_slice-All : (xs : List A) → All P xs → All P (sort_slice less xs)
  unfolding sort_slice
  sort_slice-All [] all = tt
  sort_slice-All (x ∷ xs) all = insert_by-All x (sort_slice less xs) all.0 (sort_slice-All xs all.1)

  pub All-of_sort_slice : (xs : List A) → All P (sort_slice less xs) → All P xs
  unfolding sort_slice
  All-of_sort_slice [] all = tt
  All-of_sort_slice (x ∷ xs) all =
      let parts = All-of_insert_by x (sort_slice less xs) all in
      (parts.0, All-of_sort_slice xs parts.1)

module _ {ℓ} {A : Type ℓ} (less : A → A → Bool) (order : StrictOrder less) where
  All-not_trans :
      (x y : A) (ys : List A)
      → less y x ≡ false
      → All (λ z. less z y ≡ false) ys
      → All (λ z. less z x ≡ false) ys
  All-not_trans x y [] h all = tt
  All-not_trans x y (z ∷ zs) h all = (order.not_trans z y x all.0 h, All-not_trans x y zs h all.1)

  insert_by-Sorted : (x : A) (xs : List A) → Sorted less xs → Sorted less (insert_by less x xs)
  unfolding insert_by
  insert_by-Sorted x [] s = (tt, tt)
  insert_by-Sorted x (y ∷ ys) s = elim (Bool-cases (less y x)) [
    | inl lt ↦ rw lt (
      insert_by-All (λ z. less z y ≡ false) less x ys (order.asymm y x lt) s.0,
      insert_by-Sorted x ys s.1,
    )
    | inr ge ↦ rw ge ((ge, All-not_trans x y ys ge s.0), s)
  ]

  pub sort_slice-Sorted : (xs : List A) → Sorted less (sort_slice less xs)
  unfolding sort_slice
  sort_slice-Sorted [] = tt
  sort_slice-Sorted (x ∷ xs) = insert_by-Sorted x (sort_slice less xs) (sort_slice-Sorted xs)

module _ {ℓ} {A : Type ℓ} where
  -- The first item of a sorted list that passes is the least that passes.
  pub find_first_least :
      (less : A → A → Bool) (p : A → Bool) (xs : List A) (a : A)
      → ((b : A) → less b b ≡ false)
      → Sorted less xs
      → find_first p xs ≡ some a
      → All (λ b. p b ≡ true → less b a ≡ false) xs
  find_first_least less p [] a irrefl s h = tt
  find_first_least less p (x ∷ xs) a irrefl s h = elim (Bool-cases (p x)) [
    | inl passes ↦
        let same : x ≡ a = ground arith in
        subst (λ c. All (λ b. p b ≡ true → less b c ≡ false) (x ∷ xs)) same
          ((λ _. irrefl x), All-imp (λ b k _. k) xs s.0)
    | inr fails ↦ ((λ passes. ground arith), find_first_least less p xs a irrefl s.1 (ground arith))
  ]

  pub find_first_passes :
      (p : A → Bool) (xs : List A) (a : A) → find_first p xs ≡ some a → p a ≡ true
  find_first_passes p [] a h = ground arith
  find_first_passes p (x ∷ xs) a h = ground (arith, find_first_passes p xs a)

  pub find_first-All :
      (p : A → Bool) (xs : List A) → find_first p xs ≡ none → All (λ a. p a ≡ false) xs
  find_first-All p [] h = tt
  find_first-All p (x ∷ xs) h = (ground arith, find_first-All p xs (ground arith))

  -- What holds of all items holds of the one that is found.
  pub All-find_first {κ} :
      (P : A → Type κ) (p : A → Bool) (xs : List A) (a : A)
      → All P xs
      → find_first p xs ≡ some a
      → P a
  All-find_first P p [] a all h = ground arith
  All-find_first P p (x ∷ xs) a all h = elim (Bool-cases (p x)) [
    | inl passes ↦ let same : x ≡ a = ground arith in subst P same all.0
    | inr fails ↦ All-find_first P p xs a all.1 (ground arith)
  ]

  pub find_first-none :
      (p : A → Bool) (xs : List A) → All (λ a. p a ≡ false) xs → find_first p xs ≡ none
  find_first-none p [] all = refl
  find_first-none p (x ∷ xs) all = ground (arith, find_first-none p xs all.1, all.0)

module _ {ℓ} {A : Type ℓ} (p : A → Bool) where
  -- How many items pass.
  abbrev pub tally : List A → ℕ
  tally [] = 0
  tally (x ∷ xs) = if p x then tally xs + 1 else tally xs

  pub tally-append : (xs ys : List A) → tally (xs ++ ys) ≡ tally xs + tally ys
  tally-append [] ys = omega arith
  tally-append (x ∷ xs) ys = ground (arith, tally-append xs ys)

  tally-insert_by :
      (less : A → A → Bool) (x : A) (xs : List A)
      → tally (insert_by less x xs) ≡ (if p x then tally xs + 1 else tally xs)
  unfolding insert_by
  tally-insert_by less x [] = refl
  tally-insert_by less x (y ∷ ys) = ground (arith, tally-insert_by less x ys)

  -- Sorting is a rearrangement: as many items pass after it as before it.
  pub tally-sort_slice : (less : A → A → Bool) (xs : List A) → tally (sort_slice less xs) ≡ tally xs
  unfolding sort_slice
  tally-sort_slice less [] = refl
  tally-sort_slice less (x ∷ xs) =
      ground (arith, tally-insert_by less x (sort_slice less xs), tally-sort_slice less xs)
