-- ===== src/Tests/Storage.antt =====
-- The repository of the test data.
use Prim.Native.Nat.{min}
use mathlib.Core.List.{reverse}
use orbit_telemetry_orchestr.Prelude.{
  ℕ, String, values, sort_slice, ◌≡◌, refl, true, false, some, [], ◌∷◌, ◌++◌, List, arith, pos,
  ◌<ℤ◌, ok, err, lookup, keep, length, ◌==◌, string_eq, if◌then◌else◌, eq_iff,
}
use orbit_telemetry_orchestr.Prelude.Errors.{conflict, exists}
use orbit_telemetry_orchestr.Domain.Action.{ResponseAction}
use orbit_telemetry_orchestr.Domain.Telemetry.{Sample}
use orbit_telemetry_orchestr.Domain.Policy.{CollectionPolicy, active_at}
use orbit_telemetry_orchestr.Store.{Memory}
use orbit_telemetry_orchestr.Store.Devices.{get_device, update_device}
use orbit_telemetry_orchestr.Store.Devices.Versions.{second_writer_conflicts}
use orbit_telemetry_orchestr.Store.Policies.{active_policy, list_policies}
use orbit_telemetry_orchestr.Store.Policies.Newest.{active_policy_newest}
use orbit_telemetry_orchestr.Store.Samples.{add_samples, list_samples, sample_matches, max_samples}
use orbit_telemetry_orchestr.Store.Samples.Bounds.{add_samples_lem, list_samples_lem, limited}
use orbit_telemetry_orchestr.Store.Actions.{put_action}
use orbit_telemetry_orchestr.Store.Actions.Idempotency.{
  Inv, put_action-Inv, put_action_again, new_memory-Inv,
}
use orbit_telemetry_orchestr.Store.{new_memory, cap_list}
use orbit_telemetry_orchestr.Tests.{fleet, probe, queued_action, first_policy, sample_at}

abbrev second_action : ResponseAction
second_action = record queued_action { id = "r2" }

-- The empty repository, and the one with the action of the test data.
abbrev empty : Memory ℕ
empty = new_memory

-- The invariant of the repository with one action.
abbrev single : Memory ℕ
single = (put_action queued_action empty).1

single-Inv : Inv single
single-Inv = put_action-Inv queued_action empty new_memory-Inv

put_action_again_example :
    put_action second_action single
    ≡ ((if ◌==◌ {A = String} "r1" "r2" then err exists else err conflict), single)
unfolding put_action new_memory lookup
put_action_again_example = put_action_again queued_action second_action empty refl refl

second_writer_conflicts_example :
    let first = record probe { site = "south"; version = pos 3 } in
    let second = record probe { site = "east"; version = pos 3 } in
    let (r, m) = update_device first (pos 2) fleet in
    (r ≡ ok tt)
    × (get_device m "d1" ≡ ok first)
    × (update_device second (pos 2) m ≡ (err conflict, m))
unfolding get_device lookup
second_writer_conflicts_example =
    second_writer_conflicts fleet probe (record probe { site = "south"; version = pos 3 })
      (record probe { site = "east"; version = pos 3 }) 1 refl refl refl refl refl

active_policy_newest_example :
    (◌≡◌ {A = String} "d1" "d1")
    × (active_at first_policy 10 ≡ true)
    × ((id : String) (q : CollectionPolicy ℕ)
        → lookup id fleet.policies ≡ some q
        → q.device_id ≡ "d1"
        → active_at q 10 ≡ true
        → (pos 1 <ℤ q.version) ≡ false)
unfolding active_policy list_policies active_at cap_list lookup values sort_slice
active_policy_newest_example =
    active_policy_newest fleet "d1" 10 {p = first_policy}
      (λ e. ground (arith, (eq_iff "d1" "").1 e)) refl

add_samples_lem_example :
    let kept = (add_samples (sample_at 3 50 ∷ []) fleet).samples in
    (length kept ≡ min max_samples 2)
    × ((dropped : List (Sample ℕ)) × (dropped ++ kept ≡ sample_at 2 40 ∷ sample_at 3 50 ∷ []))
add_samples_lem_example = add_samples_lem fleet (sample_at 3 50 ∷ [])

list_samples_lem_example :
    list_samples fleet "s1" 1 9 (pos 5)
    ≡ limited (pos 5) (keep (sample_matches "s1" 1 9) (reverse (sample_at 2 40 ∷ [])))
list_samples_lem_example = list_samples_lem fleet "s1" 1 9 (pos 5)
