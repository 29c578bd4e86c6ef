-- ===== src/Service/Soundness/Policies.antt =====
-- The methods of policies.go that write, against the invariant of the repository.
use orbit_telemetry_orchestr.Prelude.{String, ◌≡◌, subst, List, Float, Time, arith, All, ℤ}
use orbit_telemetry_orchestr.Prelude.Exec.{Exec, ◌>>=◌, lift}
use orbit_telemetry_orchestr.Domain.Policy.{
  CollectionPolicy, Rule, ResponsePlan, new_policy, publish, lock,
}
use orbit_telemetry_orchestr.Domain.Policy.Rules.{IsSound, new_policy_lem}
use orbit_telemetry_orchestr.Store.Sound.{Sound}
use orbit_telemetry_orchestr.Service.{App, Context}
use orbit_telemetry_orchestr.Service.Policies.{
  PolicyInput, create_policy, publish_policy, lock_policy, get_policy_by_id,
}
use orbit_telemetry_orchestr.Service.Contracts.{bind-Meets, then-Meets, ensure_context-Meets}
use orbit_telemetry_orchestr.Service.Soundness.{
  get_policy-IsSound, Keeps, keeping_rules, lift_then-Keeps, get_policy_then-Keeps,
  put_policy-Keeps, update_policy-Keeps, get_policy-IsSound,
}

module _ {F : Type 0} ⦃fl : Float F⦄ where
  abbrev HasSoundRules : CollectionPolicy F → Type 0
  HasSoundRules p = All IsSound p.rules

  publish_then-Keeps :
      {B : Type 0} (p : CollectionPolicy F) (t : Time) (f : CollectionPolicy F → Exec (App F) B)
      → HasSoundRules p
      → ((q : CollectionPolicy F) → HasSoundRules q → Keeps (f q))
      → Keeps (lift (publish p t) >>= f)
  unfolding publish
  publish_then-Keeps p t f h k =
      lift_then-Keeps HasSoundRules (publish p t) f
        (λ q e. let same : p.rules ≡ q.rules = ground arith in subst (All IsSound) same h) k

  lock_then-Keeps :
      {B : Type 0} (p : CollectionPolicy F) (t : Time) (f : CollectionPolicy F → Exec (App F) B)
      → HasSoundRules p
      → ((q : CollectionPolicy F) → HasSoundRules q → Keeps (f q))
      → Keeps (lift (lock p t) >>= f)
  unfolding lock
  lock_then-Keeps p t f h k =
      lift_then-Keeps HasSoundRules (lock p t) f
        (λ q e. let same : p.rules ≡ q.rules = ground arith in subst (All IsSound) same h) k

  new_policy_then-Keeps :
      {B : Type 0} (id name device_id creator : String) (version : ℤ) (rules : List (Rule F))
      (response : ResponsePlan) (from t : Time) (f : CollectionPolicy F → Exec (App F) B)
      → ((q : CollectionPolicy F) → HasSoundRules q → Keeps (f q))
      → Keeps (lift (new_policy id name device_id creator version rules response from t) >>= f)
  new_policy_then-Keeps id name device_id creator version rules response from t f k =
      lift_then-Keeps HasSoundRules _ f
        (λ q e.
          (new_policy_lem id name device_id creator version rules response from t {p = q} e).3)
        k

  pub create_policy-Keeps :
      (ctx : Context) (actor : String) (input : PolicyInput F)
      → Keeps (create_policy ctx actor input)
  unfolding create_policy
  create_policy-Keeps ctx actor input =
      search (new_policy_then-Keeps, keeping_rules, put_policy-Keeps) depth 30

  pub publish_policy-Keeps :
      (ctx : Context) (actor id : String) → Keeps (publish_policy {F = F} ctx actor id)
  unfolding publish_policy
  publish_policy-Keeps ctx actor id =
      search (get_policy_then-Keeps, publish_then-Keeps, keeping_rules, update_policy-Keeps) depth
        30

  get_policy_by_id_then-Keeps :
      {B : Type 0} (ctx : Context) (id : String) (f : CollectionPolicy F → Exec (App F) B)
      → ((q : CollectionPolicy F) → HasSoundRules q → Keeps (f q))
      → Keeps (get_policy_by_id ctx id >>= f)
  unfolding get_policy_by_id
  get_policy_by_id_then-Keeps ctx id f k =
      bind-Meets HasSoundRules _ f
        (then-Meets _ _ (ensure_context-Meets Sound ctx) λ u. get_policy-IsSound id) k

  pub lock_policy-Keeps :
      (ctx : Context) (actor id : String) → Keeps (lock_policy {F = F} ctx actor id)
  unfolding lock_policy
  lock_policy-Keeps ctx actor id =
      search (get_policy_by_id_then-Keeps, lock_then-Keeps, keeping_rules, update_policy-Keeps)
        depth 30
