-- ===== src/Store/Policies/Newest.antt =====
-- `ActivePolicy` of memory.go, and the versions of the policies in force.
use orbit_telemetry_orchestr.Prelude.{
  ap, ◌⊎◌, inl, inr, Option-cases, String, ◌≡◌, refl, sym, ◌∙◌, ◌≢◌, true, false, Option, none,
  some, List, arith, eq_iff, eq_refl, string_eq, ◌<ℤ◌, All, keep, values, lookup, or_not_found,
  All-lookup, All-of_keep, keep-passes, keep-All_items, find_first_least, find_first_passes,
  find_first-All, All-find_first, sort_slice, find_first, Sorted, StrictOrder, text_order,
  text_connex, sort_slice-Sorted, sort_slice-All, All-of_sort_slice, Time, ok, err,
}
use orbit_telemetry_orchestr.Prelude.Errors.{not_found}
use orbit_telemetry_orchestr.Domain.Policy.{CollectionPolicy, active_at}
use orbit_telemetry_orchestr.Store.{Memory, cap_list}
use orbit_telemetry_orchestr.Store.Policies.{
  policy_less, policy_matches, list_policies, active_policy,
}

module _ {F : Type 0} where
  policy_less_asymm : (a b : CollectionPolicy F) → policy_less a b ≡ true → policy_less b a ≡ false
  policy_less_asymm a b h = ground (
    arith,
    eq_iff a.device_id b.device_id,
    eq_iff b.device_id a.device_id,
    text_order.asymm a.device_id b.device_id,
  )

  policy_less_not_trans :
      (a b c : CollectionPolicy F)
      → policy_less a b ≡ false
      → policy_less b c ≡ false
      → policy_less a c ≡ false
  policy_less_not_trans a b c h k = ground (
    arith,
    eq_iff a.device_id b.device_id,
    eq_iff b.device_id c.device_id,
    eq_iff a.device_id c.device_id,
    text_order.not_trans a.device_id b.device_id c.device_id,
    text_connex a.device_id b.device_id,
  )

  policy_order : StrictOrder (policy_less {F = F})
  policy_order = record { asymm = policy_less_asymm; not_trans = policy_less_not_trans }

  policy_less_irrefl : (p : CollectionPolicy F) → policy_less p p ≡ false
  policy_less_irrefl p = ground (arith, eq_refl p.device_id)

  -- The list that `ActivePolicy` searches, before it is cut, which it is not.
  all_policies : Memory F → String → List (CollectionPolicy F)
  all_policies m device_id =
      sort_slice policy_less (keep (policy_matches device_id none) (values m.policies))

  active_policy_lem :
      (m : Memory F) (device_id : String) (now : Time)
      → active_policy m device_id now
        ≡ or_not_found (find_first (λ p. active_at p now) (all_policies m device_id))
  unfolding active_policy list_policies all_policies cap_list
  active_policy_lem m device_id now = refl

  -- What holds of every policy of the device in the list holds of each that is stored.
  stored_of_listed :
      (P : CollectionPolicy F → Type 0) (m : Memory F) (device_id : String)
      → All P (all_policies m device_id)
      → (id : String) (q : CollectionPolicy F) → lookup id m.policies ≡ some q
      → q.device_id ≡ device_id
      → P q
  unfolding all_policies
  stored_of_listed P m device_id all id q found same =
      All-lookup _ id m.policies
        (All-of_keep P (policy_matches device_id none) (values m.policies)
          (All-of_sort_slice P policy_less _ all))
        found (ground (arith, eq_iff q.device_id device_id))

  all_policies-match :
      (m : Memory F) (device_id : String)
      → All
          (λ (p : CollectionPolicy F). policy_matches device_id none p ≡ true)
          (all_policies m device_id)
  unfolding all_policies
  all_policies-match m device_id =
      sort_slice-All _ policy_less _
        (keep-passes (policy_matches device_id none) (values m.policies))

  all_policies-All :
      (P : CollectionPolicy F → Type 0) (m : Memory F) (device_id : String)
      → All P (values m.policies)
      → All P (all_policies m device_id)
  unfolding all_policies
  all_policies-All P m device_id all = sort_slice-All P policy_less _ (keep-All_items P _ _ all)

  all_policies-Sorted :
      (m : Memory F) (device_id : String) → Sorted policy_less (all_policies m device_id)
  unfolding all_policies
  all_policies-Sorted m device_id = sort_slice-Sorted policy_less policy_order _

  or_not_found-err : (o : Option (CollectionPolicy F)) → or_not_found o ≡ err not_found → o ≡ none
  or_not_found-err none h = refl
  or_not_found-err (some q) h = ground arith

  or_not_found-ok :
      (o : Option (CollectionPolicy F)) {p : CollectionPolicy F}
      → or_not_found o ≡ ok p
      → o ≡ some p
  or_not_found-ok none h = ground arith
  or_not_found-ok (some q) h = ground arith

  module _ (m : Memory F) (device_id : String) (now : Time) where
    -- Of a device whose id is not empty: the policy that is found is one of the device and in force,
    -- and no policy of the device that is in force has a greater version.
    pub active_policy_newest :
        {p : CollectionPolicy F}
        → device_id ≢ ""
        → active_policy m device_id now ≡ ok p
        → (p.device_id ≡ device_id)
          × (active_at p now ≡ true)
          × ((id : String) (q : CollectionPolicy F)
              → lookup id m.policies ≡ some q
              → q.device_id ≡ device_id
              → active_at q now ≡ true
              → (p.version <ℤ q.version) ≡ false)
    active_policy_newest {p} named h =
        let active = λ (q : CollectionPolicy F). active_at q now in
        let listed = all_policies m device_id in
        let found : find_first active listed ≡ some p =
          or_not_found-ok _ (sym (active_policy_lem m device_id now) ∙ h) in
        let wanted : policy_matches device_id none p ≡ true =
          All-find_first _ active listed p (all_policies-match m device_id) found in
        let mine : p.device_id ≡ device_id =
          ground (arith, eq_iff device_id "", eq_iff p.device_id device_id) in
        let least =
          find_first_least policy_less active listed p policy_less_irrefl
            (all_policies-Sorted m device_id) found in
        (
          mine,
          find_first_passes active listed p found,
          λ id q stored same force.
              let fewer : policy_less q p ≡ false =
                stored_of_listed _ m device_id least id q stored same force in
              ground (arith, eq_iff q.device_id p.device_id),
        )

    -- Where none is found, no policy of the device is in force.
    pub active_policy_none :
        active_policy m device_id now ≡ err not_found
        → (id : String) (q : CollectionPolicy F) → lookup id m.policies ≡ some q
        → q.device_id ≡ device_id
        → active_at q now ≡ false
    active_policy_none h = stored_of_listed _ m device_id (
        find_first-All (λ (q : CollectionPolicy F). active_at q now) (all_policies m device_id)
          (or_not_found-err _ (sym (active_policy_lem m device_id now) ∙ h)))

    -- The only error is that no policy was found.
    pub active_policy_cases :
        ((p : CollectionPolicy F) × (active_policy m device_id now ≡ ok p))
        ⊎ (active_policy m device_id now ≡ err not_found)
    active_policy_cases =
        elim (Option-cases
          (find_first (λ (q : CollectionPolicy F). active_at q now) (all_policies m device_id))) [
            | inl e ↦ inr (active_policy_lem m device_id now ∙ ap or_not_found e)
            | inr (p, e) ↦ inl (p, active_policy_lem m device_id now ∙ ap or_not_found e)
          ]

    -- What holds of every stored policy holds of the one that is found.
    pub active_policy-All :
        (P : CollectionPolicy F → Type 0) {p : CollectionPolicy F}
        → All P (values m.policies)
        → active_policy m device_id now ≡ ok p
        → P p
    active_policy-All P {p} all h =
        All-find_first P (λ (q : CollectionPolicy F). active_at q now) (all_policies m device_id) p
          (all_policies-All P m device_id all)
          (or_not_found-ok _ (sym (active_policy_lem m device_id now) ∙ h))
