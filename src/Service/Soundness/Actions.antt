-- ===== src/Service/Soundness/Actions.antt =====
-- The methods of actions.go that write, against the invariant of the repository.
use orbit_telemetry_orchestr.Prelude.{
  String, ◌≡◌, refl, sym, ◌∙◌, ap, Bool, Float, some, ok, err, Time, arith, lookup, inl, inr, ℤ,
  Bool-cases, Result-cases,
}
use orbit_telemetry_orchestr.Prelude.Exec.{Exec, ◌>>=◌, lift}
use orbit_telemetry_orchestr.Prelude.{
  lookup-insert, insert, eq_refl, string_eq, Option-cases, is_some,
}
use orbit_telemetry_orchestr.Prelude.Errors.{context_required, context_done}
use orbit_telemetry_orchestr.Domain.Incident.{Incident, attach_action}
use orbit_telemetry_orchestr.Domain.Incident.Invariant.{Inv, attach_action-Inv}
use orbit_telemetry_orchestr.Domain.Action.{
  ActionType, skipped, ResponseAction, new_action, start, finish,
}
use orbit_telemetry_orchestr.Store.{Memory}
use orbit_telemetry_orchestr.Store.Actions.{put_action, get_action, update_action}
use orbit_telemetry_orchestr.Store.Sound.{Sound, Bounded}
use orbit_telemetry_orchestr.Store.Sound.Methods.{put_action-Sound, update_action-Sound}
use orbit_telemetry_orchestr.Service.{App, Context, nil, live, done, ensure_context, query, update}
use orbit_telemetry_orchestr.Service.Actions.{
  ActionInput, attached, create_action, execute_action, run_action, retry, cancel_action,
  get_action_by_id,
}
use orbit_telemetry_orchestr.Service.Contracts.{
  Meets, Anything, Stored, bind-Meets, update-Meets, any_lift-Meets, lift-Meets,
}
use orbit_telemetry_orchestr.Service.Soundness.{
  Keeps, keeping_rules, get_incident_then-Keeps, lift_then-Keeps, update_incident-Keeps,
}

attached-Inv :
    (i : Incident) (id : String) (t : Time) → Inv i → Inv (attached (attach_action i id t) i)
attached-Inv i id t v = elim (Result-cases (attach_action i id t)) [
  | inl (i', e) ↦ rw e (attach_action-Inv i id t {i' = i'} v e)
  | inr (c, e) ↦ rw e v
]

new_action-Bounded :
    (id incident_id device_id : String) (type : ActionType) (most : ℤ) (key reason : String)
    (t : Time) {a : ResponseAction}
    → new_action id incident_id device_id type most key reason t ≡ ok a
    → Bounded a
unfolding new_action
new_action-Bounded id incident_id device_id type most key reason t h = ground arith

-- A version of the action: the same id and the same key, within its attempts.
record Version (a b : ResponseAction) : Type 0 where
  same_id : b.id ≡ a.id
  same_key : b.idempotency ≡ a.idempotency
  within : Bounded b

start-Version :
    (a : ResponseAction) (t : Time) {b : ResponseAction} → start a t ≡ ok b → Version a b
unfolding start
start-Version a t h = record {
  same_id = ground arith;
  same_key = ground arith;
  within = ground arith;
}

finish-Version :
    (a b : ResponseAction) (success : Bool) (result : String) (t : Time)
    → Version a b
    → Version a (finish b success result t)
unfolding finish
finish-Version a b success result t v = record {
  same_id = v.same_id;
  same_key = v.same_key;
  within = v.within;
}

cancelled-Version :
    (a : ResponseAction) (t : Time)
    → Bounded a
    → Version a (record a { status = skipped; result = "cancelled by operator"; updated_at = t })
cancelled-Version a t b = record { same_id = refl; same_key = refl; within = b }

module _ {F : Type 0} ⦃fl : Float F⦄ where
  -- The repository is sound, and the action that it has under the id of `a` has the key of `a`.
  record Owned (a : ResponseAction) (m : Memory F) : Type 0 where
    sound : Sound m
    owned :
        (old : ResponseAction) → lookup a.id m.actions ≡ some old → a.idempotency ≡ old.idempotency

  abbrev KeepsOwn : {A : Type 0} → ResponseAction → Exec (App F) A → Type 0
  KeepsOwn a m = Meets (Stored (Owned a)) Anything m

  update_action-Owned :
      (a b : ResponseAction) (m : Memory F)
      → Version a b
      → Owned a m
      → Owned a (update_action b m).1
  update_action-Owned a b m v o = record {
    sound =
        update_action-Sound b m v.within (λ old h. v.same_key ∙ o.owned old (rw⁻¹ v.same_id h))
          o.sound;
    owned = λ old h. elim (Bool-cases (is_some (lookup b.id m.actions))) [
      | inr missing ↦ o.owned old (unfold update_action in rw missing at h)
      | inl there ↦
          let stored : lookup a.id (insert b.id b m.actions) ≡ some old =
            unfold update_action in rw there at h in
          let same : b ≡ old =
            ground (arith, lookup-insert b.id a.id b m.actions, v.same_id, eq_refl a.id) in
          sym v.same_key ∙ ap (λ x. x.idempotency) same
    ];
  }

  update_action-KeepsOwn :
      (a b : ResponseAction) → Version a b → KeepsOwn a (update (update_action {F = F} b))
  update_action-KeepsOwn a b v =
      update-Meets (Owned a) (update_action b) (λ m. update_action-Owned a b m v)

  start_then-KeepsOwn :
      {B : Type 0} (a : ResponseAction) (t : Time) (f : ResponseAction → Exec (App F) B)
      → ((b : ResponseAction) → Version a b → KeepsOwn a (f b))
      → KeepsOwn a (lift (start a t) >>= f)
  start_then-KeepsOwn a t f k =
      bind-Meets (Version a) _ f (lift-Meets (start a t) (λ b e. start-Version a t {b = b} e)) k

  run_action-KeepsOwn : (a : ResponseAction) → KeepsOwn a (run_action a)
  unfolding run_action retry
  run_action-KeepsOwn a =
      search (start_then-KeepsOwn, keeping_rules, update_action-KeepsOwn, finish-Version) depth 30

  -- The rest of a method that reads an action first.
  get_action_then-Keeps :
      {B : Type 0} (id : String) (f : ResponseAction → Exec (App F) B)
      → ((a : ResponseAction) → Bounded a → KeepsOwn a (f a))
      → Keeps (query (λ m. get_action m id) >>= f)
  unfolding get_action
  get_action_then-Keeps id f h = record {
    keeps = λ s p. elim (Option-cases (lookup id s.repository.actions)) [
      | inl missing ↦ rw missing p
      | inr (a, found) ↦
          let here : a.id ≡ id = p.actions_indexed.keyed id a found in
          let owned : Owned a s.repository = record {
            sound = p;
            owned = λ old e. ground (arith, here, found);
          } in
          rw found ((h a (p.actions_bounded id a found)).keeps s owned).sound
    ];
    gives = λ s p x e. tt;
  }

  pub execute_action-Keeps : (ctx : Context) (id : String) → Keeps (execute_action {F = F} ctx id)
  unfolding execute_action
  execute_action-Keeps ctx id =
      search (get_action_then-Keeps, keeping_rules, run_action-KeepsOwn) depth 30

  get_action_by_id_then-Keeps :
      {B : Type 0} (ctx : Context) (id : String) (f : ResponseAction → Exec (App F) B)
      → ((a : ResponseAction) → Bounded a → KeepsOwn a (f a))
      → Keeps (get_action_by_id ctx id >>= f)
  unfolding get_action_by_id ensure_context
  get_action_by_id_then-Keeps nil id f h = any_lift-Meets (err context_required)
  get_action_by_id_then-Keeps done id f h = any_lift-Meets (err context_done)
  get_action_by_id_then-Keeps live id f h = get_action_then-Keeps id f h

  pub cancel_action-Keeps :
      (ctx : Context) (actor id : String) → Keeps (cancel_action {F = F} ctx actor id)
  unfolding cancel_action
  cancel_action-Keeps ctx actor id =
      search (get_action_by_id_then-Keeps, keeping_rules, update_action-KeepsOwn, cancelled-Version)
        depth 30

  new_action_then-Keeps :
      {B : Type 0} (id incident_id device_id : String) (type : ActionType) (most : ℤ)
      (key reason : String) (t : Time) (f : ResponseAction → Exec (App F) B)
      → ((a : ResponseAction) → Bounded a → Keeps (f a))
      → Keeps (lift (new_action id incident_id device_id type most key reason t) >>= f)
  new_action_then-Keeps id incident_id device_id type most key reason t f k =
      lift_then-Keeps Bounded _ f
        (λ a e. new_action-Bounded id incident_id device_id type most key reason t {a = a} e) k

  put_action-Keeps : (a : ResponseAction) → Bounded a → Keeps (update (put_action {F = F} a))
  put_action-Keeps a b = update-Meets Sound (put_action a) (λ m. put_action-Sound a m b)

  pub create_action-Keeps :
      (ctx : Context) (actor : String) (input : ActionInput)
      → Keeps (create_action {F = F} ctx actor input)
  unfolding create_action
  create_action-Keeps ctx actor input =
      search
        (
          get_incident_then-Keeps, new_action_then-Keeps, keeping_rules, put_action-Keeps,
          update_incident-Keeps, attached-Inv,
        )
        depth 30
