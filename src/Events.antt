-- ===== src/Events.antt =====
-- internal/events/bus.go and event.go. A `*Subscription` is shared by the bus and its reader: the
-- model keeps every subscription object in one list, and a reader's pointer is its place there.
pub mod Closing
use orbit_telemetry_orchestr.Prelude.{
  ℕ, zero, suc, ◌+◌, ◌%◌, ◌^◌, String, Bool, true, false, ◌&&◌, ◌||◌, not, Option, none, some, List,
  [], ◌∷◌, ◌++◌, map, if◌then◌else◌, ◌==◌, string_eq, ltb, ℤ, pos, ◌<ℤ◌, pos_part, Time, length,
  show_ℕ, ◌+s◌,
}

-- What the service puts into a payload.
pub data Value : Type 0 where
  text : String → Value
  number : ℤ → Value

pub record Event : Type 0 where
  pub id : String
  pub type : String
  pub subject : String
  pub actor : String
  pub payload : List (String × Value)
  pub created_at : Time

-- `in_bus` says that the bus's map has the subscription, and `has_bus` that its field `bus` is not
-- nil; `events` is the channel's buffer, `closed` the channel's state, `done` that `once` has run.
pub record Subscription : Type 0 where
  pub id : ℕ
  pub topic : String
  pub events : List Event
  pub closed : Bool
  pub done : Bool
  pub in_bus : Bool
  pub has_bus : Bool

pub record Bus : Type 0 where
  pub buffer : ℕ
  pub drop_when_full : Bool
  pub next_id : ℕ
  pub subs : List Subscription
  pub closed : Bool

unfoldable pub new_bus : ℤ → Bool → Bus
new_bus buffer drop_when_full = record {
  buffer = if buffer <ℤ pos 1 then 32 else pos_part buffer;
  drop_when_full = drop_when_full;
  next_id = 0;
  subs = [];
  closed = false;
}

abbrev pub wants : Event → Subscription → Bool
wants e s = s.in_bus && (s.topic == "" || s.topic == e.type)

-- One turn of the loop of `Publish`; `none` is a send that waits for a reader.
offer : Bus → Event → Subscription → Option Subscription
offer b e s =
    if not (wants e s)
    then some s
    else if ltb (length s.events) b.buffer
    then some (record s { events = s.events ++ e ∷ [] })
    else if b.drop_when_full
    then some s
    else none

abbrev pub cons? : Option Subscription → Option (List Subscription) → Option (List Subscription)
cons? none r = none
cons? (some s) none = none
cons? (some s) (some ss) = some (s ∷ ss)

offer_all : Bus → Event → List Subscription → Option (List Subscription)
unfolding offer
offer_all b e [] = some []
offer_all b e (s ∷ ss) = cons? (offer b e s) (offer_all b e ss)

abbrev pub with_subs : Bus → Option (List Subscription) → Option Bus
with_subs b none = none
with_subs b (some ss) = some (record b { subs = ss })

-- `none` where the call waits on a full channel.
unfoldable pub publish : Bus → Event → Option Bus
unfolding offer_all
publish b e = if b.closed then some b else with_subs b (offer_all b e b.subs)

unfoldable pub new_event :
    Bus → String → String → String → List (String × Value) → Time → Event × Bus
new_event b type subject actor payload now =
    let n = (b.next_id + 1) % 2 ^ 64 in
    (
      record {
        id = "evt-" +s show_ℕ n;
        type = type;
        subject = subject;
        actor = actor;
        payload = payload;
        created_at = now;
      },
      record b { next_id = n },
    )

-- The reader's pointer is the place in `subs` at which the subscription is put, the last one.
unfoldable pub subscribe : Bus → String → Bus
subscribe b topic =
    if b.closed
    then record b {
      subs =
          b.subs
          ++ record {
            id = 0;
            topic = "";
            events = [];
            closed = true;
            done = false;
            in_bus = false;
            has_bus = false;
          }
            ∷ [];
    }
    else let n = (b.next_id + 1) % 2 ^ 64 in
      record b {
        next_id = n;
        subs =
            b.subs
            ++ record {
              id = n;
              topic = topic;
              events = [];
              closed = false;
              done = false;
              in_bus = true;
              has_bus = true;
            }
              ∷ [];
      }

-- How a call ends.
pub data Outcome : Type 0 where
  returns : Bus → Outcome
  panics : Outcome

unfoldable pub close_subscription : Subscription → Option Subscription
close_subscription s =
    if s.done
    then some s
    else if not s.has_bus
    then none
    else if s.closed
    then none
    else some (record s { closed = true; done = true; in_bus = false })

replace_at : ℕ → Subscription → List Subscription → List Subscription
replace_at i t [] = []
replace_at zero t (s ∷ ss) = t ∷ ss
replace_at (suc i) t (s ∷ ss) = s ∷ replace_at i t ss

sub_at : ℕ → List Subscription → Option Subscription
sub_at i [] = none
sub_at zero (s ∷ ss) = some s
sub_at (suc i) (s ∷ ss) = sub_at i ss

put_back : Bus → ℕ → Option Subscription → Outcome
put_back b i none = panics
put_back b i (some t) = returns (record b { subs = replace_at i t b.subs })

close_found : Bus → ℕ → Option Subscription → Outcome
unfolding put_back replace_at
close_found b i none = panics
close_found b i (some s) = put_back b i (close_subscription s)

-- `s.Close()` for the subscription at place `i`: to close a closed channel panics, and so does the
-- call on a subscription whose field `bus` is nil.
unfoldable pub close_at : Bus → ℕ → Outcome
unfolding close_found sub_at
close_at b i = close_found b i (sub_at i b.subs)

shut : Subscription → Subscription
shut s = if s.in_bus then record s { closed = true; in_bus = false } else s

unfoldable pub close_bus : Bus → Bus
unfolding shut
close_bus b = if b.closed then b else record b { closed = true; subs = map shut b.subs }
