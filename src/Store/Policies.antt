-- ===== src/Store/Policies.antt =====
-- The policies of internal/store/memory.go.
pub mod Newest
use orbit_telemetry_orchestr.Prelude.{
  String, ◌≡◌, Bool, true, false, ◌&&◌, ◌||◌, Option, none, some, List, if◌then◌else◌, ◌==◌, ◌!=◌,
  string_eq, ℤ, pos, ◌<ℤ◌, ltb_text, is_some, or_not_found, lookup, insert, values, keep,
  sort_slice, find_first, Time, Result, ok, err,
}
use orbit_telemetry_orchestr.Prelude.Errors.{not_found, conflict, exists}
use orbit_telemetry_orchestr.Domain.Policy.{
  CollectionPolicy, PolicyStatus, policy_status_eq, active_at,
}
use orbit_telemetry_orchestr.Store.{Memory, Update, is_stale, matches_id, cap_list}

module _ {F : Type 0} where
  unfoldable pub put_policy : CollectionPolicy F → Update F
  put_policy p m =
      if is_some (lookup p.id m.policies)
      then (err exists, m)
      else (ok tt, record m { policies = insert p.id p m.policies })

  unfoldable pub get_policy : Memory F → String → Result (CollectionPolicy F)
  get_policy m id = or_not_found (lookup id m.policies)

  unfoldable pub update_policy : CollectionPolicy F → ℤ → Update F
  update_policy p expected m = elim (lookup p.id m.policies) [
    | none ↦ (err not_found, m)
    | some current ↦
        if is_stale current.version expected
        then (err conflict, m)
        else (ok tt, record m { policies = insert p.id p m.policies })
  ]

  -- `status` is `none` where the filter is the empty text.
  abbrev pub policy_matches : String → Option PolicyStatus → CollectionPolicy F → Bool
  policy_matches device_id none p = matches_id device_id p.device_id
  policy_matches device_id (some status) p = matches_id device_id p.device_id && p.status == status

  -- By device, and the newest version of a device first.
  abbrev pub policy_less : CollectionPolicy F → CollectionPolicy F → Bool
  policy_less a b =
      if a.device_id == b.device_id
      then b.version <ℤ a.version
      else ltb_text a.device_id b.device_id

  unfoldable pub list_policies :
      Memory F → String → Option PolicyStatus → ℤ → List (CollectionPolicy F)
  list_policies m device_id status limit =
      cap_list (sort_slice policy_less (keep (policy_matches device_id status) (values m.policies)))
        limit

  unfoldable pub active_policy : Memory F → String → Time → Result (CollectionPolicy F)
  active_policy m device_id now =
      or_not_found (find_first (λ p. active_at p now) (list_policies m device_id none (pos 0)))
