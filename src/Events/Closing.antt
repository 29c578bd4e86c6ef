-- ===== src/Events/Closing.antt =====
-- How the calls of `Close` of bus.go end, on a subscription and on its bus.
use orbit_telemetry_orchestr.Prelude.{
  ◌+◌, ◌%◌, ◌^◌, String, ◌≡◌, refl, ap, true, false, some, List, [], ◌∷◌, ◌++◌, map, length,
}
use orbit_telemetry_orchestr.Events.{
  Bus, Subscription, Outcome, returns, panics, subscribe, close_at, close_bus, close_found,
  close_subscription, put_back, replace_at, sub_at, shut,
}

sub_at-last :
    (xs : List Subscription) (s : Subscription) → sub_at (length xs) (xs ++ s ∷ []) ≡ some s
unfolding sub_at
sub_at-last [] s = refl
sub_at-last (x ∷ xs) s = sub_at-last xs s

sub_at-shut :
    (xs : List Subscription) (s : Subscription)
    → sub_at (length xs) (map shut (xs ++ s ∷ [])) ≡ some (shut s)
unfolding sub_at
sub_at-shut [] s = refl
sub_at-shut (x ∷ xs) s = sub_at-shut xs s

replace_at-last :
    (xs : List Subscription) (s t : Subscription)
    → replace_at (length xs) t (xs ++ s ∷ []) ≡ xs ++ t ∷ []
unfolding replace_at
replace_at-last [] s t = refl
replace_at-last (x ∷ xs) s t = ap (◌∷◌ x) (replace_at-last xs s t)

-- The subscription that an open bus makes.
abbrev fresh : Bus → String → Subscription
fresh b topic = record {
  id = (b.next_id + 1) % 2 ^ 64;
  topic = topic;
  events = [];
  closed = false;
  done = false;
  in_bus = true;
  has_bus = true;
}

-- The open bus after it.
abbrev with_fresh : Bus → String → Bus
with_fresh b topic = record b {
  next_id = (b.next_id + 1) % 2 ^ 64;
  subs = b.subs ++ fresh b topic ∷ [];
}

subscribe_lem :
    (b : Bus) (topic : String) → b.closed ≡ false → subscribe b topic ≡ with_fresh b topic
unfolding subscribe
subscribe_lem b topic running = rw running refl

-- On an open bus a new subscription can be closed, which closes its channel and takes it off the bus
-- and leaves the other subscriptions as they are; closing it again changes nothing.
close_at-subscribe :
    (b : Bus) (topic : String)
    → b.closed ≡ false
    → (b' : Bus) × (close_at (subscribe b topic) (length b.subs) ≡ returns b')
      × (close_at b' (length b.subs) ≡ returns b')
      × ((s : Subscription) × (b'.subs ≡ b.subs ++ s ∷ []) × (s.closed ≡ true) × (s.in_bus ≡ false))
unfolding close_at close_found put_back close_subscription
close_at-subscribe b topic running =
    let shut_one : Subscription = record (fresh b topic) {
      closed = true;
      done = true;
      in_bus = false;
    } in
    let b' : Bus = record (with_fresh b topic) { subs = b.subs ++ shut_one ∷ [] } in
    let with_subs : List Subscription → Outcome = λ xs. returns (record b' { subs = xs }) in
    (
      b',
      rw (subscribe_lem b topic running) (
          rw (sub_at-last b.subs (fresh b topic))
            (ap with_subs (replace_at-last b.subs (fresh b topic) shut_one))),
      rw (sub_at-last b.subs shut_one) (ap with_subs (replace_at-last b.subs shut_one shut_one)),
      (shut_one, refl, refl, refl),
    )

-- To close a subscription after its bus, which was open when it was made, panics.
pub close_at-close_bus :
    (b : Bus) (topic : String)
    → b.closed ≡ false
    → close_at (close_bus (subscribe b topic)) (length b.subs) ≡ panics
unfolding close_at close_bus close_found put_back close_subscription shut
close_at-close_bus b topic running =
    rw (subscribe_lem b topic running) (rw running (rw (sub_at-shut b.subs (fresh b topic)) refl))
