-- ===== src/Domain/Device/Labels.antt =====
-- `NormalizeLabels` of device.go against an independent description.
use orbit_telemetry_orchestr.Prelude.{
  String, ◌≡◌, refl, sym, ◌∙◌, Bool, false, ◌||◌, List, [], ◌∷◌, ◌++◌, arith, eq_iff, ◌==◌,
  string_eq, if◌then◌else◌, trim_space, contains, Distinct, contains-append, Distinct-snoc,
  Bool-cases, inl, inr,
}
use orbit_telemetry_orchestr.Domain.Device.{normalize_from, normalize_labels}

-- Some value of the list becomes the label, which is not empty.
abbrev pub given : (String → String) → String → List String → Bool
given to_lower label [] = false
given to_lower label (value ∷ values) =
    (to_lower (trim_space value) == label) || given to_lower label values

same_snoc :
    (v : String) (seen result : List String)
    → ((a : String) → contains a seen ≡ contains a result)
    → (a : String) → contains a (v ∷ seen) ≡ contains a (result ++ v ∷ [])
same_snoc v seen result same a = ground (arith, contains-append a result (v ∷ []), same a)

module _ (to_lower : String → String) where
  -- The labels of the loop's result: those that it held, and the normal forms of what is left.
  contains-normalize_from :
      (label : String) (seen result values : List String)
      → ((a : String) → contains a seen ≡ contains a result)
      → contains label (normalize_from to_lower seen result values)
        ≡ (contains label result || (if label == "" then false else given to_lower label values))
  unfolding normalize_from
  contains-normalize_from label seen result [] same = ground arith
  contains-normalize_from label seen result (value ∷ values) same =
      let v = to_lower (trim_space value) in
      ground (
        arith,
        contains-normalize_from label seen result values same,
        contains-normalize_from label (v ∷ seen) (result ++ v ∷ []) values
            (same_snoc v seen result same),
        contains-append label result (v ∷ []),
        same v,
        eq_iff v label,
        eq_iff v "",
        eq_iff label "",
      )

  normalize_from-Distinct :
      (seen result values : List String)
      → ((a : String) → contains a seen ≡ contains a result)
      → Distinct result
      → Distinct (normalize_from to_lower seen result values)
  unfolding normalize_from
  normalize_from-Distinct seen result [] same d = d
  normalize_from-Distinct seen result (value ∷ values) same d =
      let v = to_lower (trim_space value) in
      elim (Bool-cases (v == "")) [
        | inl blank ↦ rw blank (normalize_from-Distinct seen result values same d)
        | inr fresh ↦ rw fresh (elim (Bool-cases (contains v seen)) [
          | inl old ↦ rw old (normalize_from-Distinct seen result values same d)
          | inr new ↦ rw new (
              normalize_from-Distinct (v ∷ seen) (result ++ v ∷ []) values
                (same_snoc v seen result same) (Distinct-snoc v result (sym (same v) ∙ new) d))
        ])
      ]

  -- The labels are distinct, and a text is among them exactly when it is not empty and is the
  -- trimmed, lower-case form of some value.
  pub normalize_labels_lem :
      (values : List String)
      → Distinct (normalize_labels to_lower values)
        × ((label : String)
            → contains label (normalize_labels to_lower values)
              ≡ (if label == "" then false else given to_lower label values))
  unfolding normalize_labels
  normalize_labels_lem values = (
    normalize_from-Distinct [] [] values (λ a. refl) tt,
    λ label. contains-normalize_from label [] [] values (λ a. refl),
  )
