-- ===== src/Store/Actions/Idempotency.antt =====
-- The index of idempotency keys that memory.go keeps beside the actions.
use orbit_telemetry_orchestr.Prelude.{
  String, ◌≡◌, ◌⊎◌, inl, inr, none, some, arith, eq_iff, eq_refl, if◌then◌else◌, ◌==◌, string_eq,
  lookup, insert, lookup-insert, Option-cases, Bool-cases, ok, err,
}
use orbit_telemetry_orchestr.Prelude.Errors.{conflict, exists}
use orbit_telemetry_orchestr.Domain.Action.{ResponseAction}
use orbit_telemetry_orchestr.Store.{Memory, new_memory}
use orbit_telemetry_orchestr.Store.Actions.{put_action, update_action}

module _ {F : Type 0} where
  -- Every stored action stands under its own id, and the index of idempotency keys leads from each
  -- key to the one action that has it.
  pub record Inv (m : Memory F) : Type 0 where
    pub keyed : (id : String) (a : ResponseAction) → lookup id m.actions ≡ some a → a.id ≡ id
    pub indexed :
        (id : String) (a : ResponseAction)
        → lookup id m.actions ≡ some a
        → lookup a.idempotency m.idempotency ≡ some a.id
    pub backed :
        (key id : String)
        → lookup key m.idempotency ≡ some id
        → (a : ResponseAction) × (lookup id m.actions ≡ some a) × (a.idempotency ≡ key)

  pub new_memory-Inv : Inv (new_memory {F = F})
  unfolding new_memory lookup
  new_memory-Inv = record {
    keyed = λ id a h. ground arith;
    indexed = λ id a h. ground arith;
    backed = λ key id h. absurd (ground arith);
  }

  -- In a repository with that invariant, two stored actions with one idempotency key are one.
  one_for_each_key :
      (m : Memory F) (id other : String) (a b : ResponseAction)
      → Inv m
      → lookup id m.actions ≡ some a
      → lookup other m.actions ≡ some b
      → a.idempotency ≡ b.idempotency
      → id ≡ other
  one_for_each_key m id other a b v ha hb same =
      ground (arith, v.keyed id a ha, v.keyed other b hb, v.indexed id a ha, v.indexed other b hb)

  pub put_action_ok :
      (a : ResponseAction) (m : Memory F)
      → ((lookup a.idempotency m.idempotency ≡ none)
          × (lookup a.id m.actions ≡ none)
          × (put_action a m ≡ (
            ok tt,
            record m {
              actions = insert a.id a m.actions;
              idempotency = insert a.idempotency a.id m.idempotency;
            },
          )))
        ⊎ ((put_action a m).1 ≡ m)
  unfolding put_action
  put_action_ok a m = elim (Option-cases (lookup a.idempotency m.idempotency)) [
    | inr (id, e) ↦ inr (ground arith)
    | inl fresh ↦ elim (Option-cases (lookup a.id m.actions)) [
      | inr (b, e) ↦ inr (ground arith)
      | inl free ↦ inl (fresh, free, ground arith)
    ]
  ]

  pub inserted-Inv :
      (a : ResponseAction) (m : Memory F)
      → Inv m
      → lookup a.idempotency m.idempotency ≡ none
      → lookup a.id m.actions ≡ none
      → Inv (record m {
        actions = insert a.id a m.actions;
        idempotency = insert a.idempotency a.id m.idempotency;
      })
  inserted-Inv a m v fresh free = record {
    keyed =
        λ id b h. ground (arith, lookup-insert a.id id a m.actions, eq_iff a.id id, v.keyed id b);
    indexed = λ id b h. ground (
      arith,
      lookup-insert a.id id a m.actions,
      lookup-insert a.idempotency b.idempotency a.id m.idempotency,
      eq_iff a.idempotency b.idempotency,
      eq_refl a.idempotency,
      v.indexed id b,
    );
    backed = λ key id h. elim (Bool-cases (a.idempotency == key)) [
      | inl own ↦ (
        a,
        ground (
          arith,
          lookup-insert a.idempotency key a.id m.idempotency,
          lookup-insert a.id id a m.actions,
          eq_iff a.id id,
        ),
        ground (arith, eq_iff a.idempotency key),
      )
      | inr older ↦
          let (b, found, same) =
            v.backed key id (ground (arith, lookup-insert a.idempotency key a.id m.idempotency)) in
          (b, ground (arith, lookup-insert a.id id a m.actions, eq_iff a.id id), same)
    ];
  }

  -- Storing an action, whether it is accepted or not, keeps the invariant: each stored action stands
  -- under its id, and the index leads from each key to the one action that has it.
  pub put_action-Inv : (a : ResponseAction) (m : Memory F) → Inv m → Inv (put_action a m).1
  put_action-Inv a m v = elim (put_action_ok a m) [
    | inl (fresh, free, stored) ↦ rw stored (inserted-Inv a m v fresh free)
    | inr same ↦ rw same v
  ]

  replaced-Inv :
      (a old : ResponseAction) (m : Memory F)
      → Inv m
      → lookup a.id m.actions ≡ some old
      → a.idempotency ≡ old.idempotency
      → Inv (record m { actions = insert a.id a m.actions })
  replaced-Inv a old m v there same = record {
    keyed =
        λ id b h. ground (arith, lookup-insert a.id id a m.actions, eq_iff a.id id, v.keyed id b);
    indexed = λ id b h. ground (
      arith,
      lookup-insert a.id id a m.actions,
      eq_iff a.id id,
      v.indexed id b,
      v.indexed a.id old there,
      v.keyed a.id old there,
    );
    backed = λ key id h.
        let (b, found, key_eq) = v.backed key id h in
        elim (Bool-cases (a.id == id)) [
          | inl own ↦ (
            a,
            ground (arith, lookup-insert a.id id a m.actions, eq_iff a.id id),
            ground (arith, eq_iff a.id id),
          )
          | inr other ↦ (b, ground (arith, lookup-insert a.id id a m.actions), key_eq)
        ];
  }

  -- Updating an action, whether it is accepted or not, keeps that invariant, if the stored action, where
  -- there is one, has the same idempotency key.
  pub update_action-Inv :
      (a : ResponseAction) (m : Memory F)
      → Inv m
      → ((old : ResponseAction)
          → lookup a.id m.actions ≡ some old
          → a.idempotency ≡ old.idempotency)
      → Inv (update_action a m).1
  unfolding update_action
  update_action-Inv a m v same = elim (Option-cases (lookup a.id m.actions)) [
    | inl missing ↦ rw missing v
    | inr (old, there) ↦ rw there (replaced-Inv a old m v there (same old there))
  ]

  put_action_key :
      (a : ResponseAction) (m : Memory F)
      → (put_action a m).0 ≡ ok tt
      → lookup a.idempotency (put_action a m).1.idempotency ≡ some a.id
  unfolding put_action
  put_action_key a m h =
      ground
        (arith, lookup-insert a.idempotency a.idempotency a.id m.idempotency, eq_refl a.idempotency)

  put_action_present :
      (b : ResponseAction) (m : Memory F) (id : String)
      → lookup b.idempotency m.idempotency ≡ some id
      → put_action b m ≡ ((if id == b.id then err exists else err conflict), m)
  unfolding put_action
  put_action_present b m id h = ground arith

  -- Once an action is stored, storing any action with its idempotency key changes nothing: it is
  -- refused as existing if it has the same id, and as a conflict otherwise.
  pub put_action_again :
      (a b : ResponseAction) (m : Memory F)
      → (put_action a m).0 ≡ ok tt
      → b.idempotency ≡ a.idempotency
      → put_action b (put_action a m).1
        ≡ ((if a.id == b.id then err exists else err conflict), (put_action a m).1)
  put_action_again a b m stored same =
      put_action_present b (put_action a m).1 a.id (rw same (put_action_key a m stored))
