-- ===== src/Service/Policies.antt =====
-- internal/service/policies.go; `F` is `float64`.
pub mod Publishing
use orbit_telemetry_orchestr.Prelude.{
  String, Bool, false, Option, List, [], ◌∷◌, ◌==◌, ℤ, ◌≤ℤ◌, Time, Float, Result, ok, err,
}
use orbit_telemetry_orchestr.Prelude.Errors.{refuse_if, retired_policy, version_not_above_active}
use orbit_telemetry_orchestr.Prelude.Exec.{Exec, ◌>>=◌, ◌>>◌, return, lift}
use orbit_telemetry_orchestr.Domain.Device.{DeviceStatus, device_status_eq}
use orbit_telemetry_orchestr.Domain.Policy.{
  Rule, ResponsePlan, CollectionPolicy, PolicyStatus, new_policy, publish, lock,
}
use orbit_telemetry_orchestr.Store.Devices.{get_device}
use orbit_telemetry_orchestr.Store.Policies.{
  put_policy, get_policy, update_policy, list_policies, active_policy,
}
use orbit_telemetry_orchestr.Events.{Value}
use orbit_telemetry_orchestr.Service.{
  App, Context, now, ensure_context, query, update, emit, record_audit,
}

pub record PolicyInput (F : Type 0) : Type 0 where
  pub id : String
  pub name : String
  pub device_id : String
  pub version : ℤ
  pub effective_from : Time
  pub rules : List (Rule F)
  pub response : ResponsePlan

-- `currentErr == nil && current.Version >= policy.Version`
abbrev pub is_superseded : {F : Type 0} → Result (CollectionPolicy F) → ℤ → Bool
is_superseded (err e) version = false
is_superseded (ok current) version = version ≤ℤ current.version

module _ {F : Type 0} ⦃fl : Float F⦄ where
  unfoldable pub create_policy :
      Context → String → PolicyInput F → Exec (App F) (CollectionPolicy F)
  create_policy ctx actor input = do
    ensure_context ctx
    device ← query (λ m. get_device m input.device_id)
    lift (refuse_if (device.status == DeviceStatus.retired) retired_policy)
    t ← now
    policy ← lift (
        new_policy input.id input.name input.device_id actor input.version input.rules
          input.response input.effective_from t)
    update (put_policy policy)
    record_audit actor "create" "policy" policy.id "collection policy created" []
    return policy

module _ {F : Type 0} where
  unfoldable pub get_policy_by_id : Context → String → Exec (App F) (CollectionPolicy F)
  get_policy_by_id ctx id = do ensure_context ctx; query (λ m. get_policy m id)

  unfoldable pub policies_listed :
      Context → String → Option PolicyStatus → ℤ → Exec (App F) (List (CollectionPolicy F))
  policies_listed ctx device_id status limit = do
    ensure_context ctx
    query (λ m. ok (list_policies m device_id status limit))

  unfoldable pub publish_policy : Context → String → String → Exec (App F) (CollectionPolicy F)
  publish_policy ctx actor id = do
    ensure_context ctx
    draft ← query (λ m. get_policy m id)
    t ← now
    current ← query (λ m. ok (active_policy m draft.device_id t))
    lift (refuse_if (is_superseded current draft.version) version_not_above_active)
    t' ← now
    policy ← lift (publish draft t')
    update (update_policy policy policy.version)
    record_audit actor "publish" "policy" id "collection policy published" []
    emit "policy.published" id actor
        (("device_id", Value.text policy.device_id) ∷ ("version", Value.number policy.version) ∷ [])
    return policy

  unfoldable pub lock_policy : Context → String → String → Exec (App F) (CollectionPolicy F)
  unfolding get_policy_by_id
  lock_policy ctx actor id = do
    published ← get_policy_by_id ctx id
    t ← now
    policy ← lift (lock published t)
    update (update_policy policy policy.version)
    record_audit actor "lock" "policy" id "policy locked" []
    return policy

  unfoldable pub active_policy_of : Context → String → Exec (App F) (CollectionPolicy F)
  active_policy_of ctx device_id = do
    ensure_context ctx
    t ← now
    query (λ m. active_policy m device_id t)
