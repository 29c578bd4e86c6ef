-- ===== src/Queue.antt =====
-- internal/queue/queue.go: the state that `Submit` and the workers share.
pub mod Workers
pub mod Scheduler
use orbit_telemetry_orchestr.Prelude.{
  ℕ, ◌+◌, ◌%◌, ◌^◌, String, Bool, true, false, List, [], ◌∷◌, ◌++◌, if◌then◌else◌, eqb, ltb, ℤ, pos,
  ◌<ℤ◌, pos_part, Time, length, contains, string_eq, not, Result, ok, err, digits_text, fill_digits,
  ◌+s◌,
}
use orbit_telemetry_orchestr.Prelude.Errors.{queue_stopped, queue_full}

-- What the service submits; `foreign` stands for a payload of any other type.
pub data Payload : Type 0 where
  incident_evaluation : String → String → Payload
  response_action : String → Payload
  evidence_rollup : String → Payload
  foreign : Payload

pub record Job : Type 0 where
  pub id : String
  pub type : String
  pub payload : Payload
  pub created : Time

-- `jobs` is the channel, the oldest job first; `handlers` are the names that have a handler;
-- `cancelled` says that the context is done.
pub record Queue : Type 0 where
  pub workers : ℕ
  pub buffer : ℕ
  pub jobs : List Job
  pub handlers : List String
  pub next_id : ℕ
  pub running : Bool
  pub cancelled : Bool

unfoldable pub new_queue : ℤ → ℤ → Queue
new_queue workers buffer = record {
  workers = if workers <ℤ pos 1 then 1 else pos_part workers;
  buffer = if buffer <ℤ pos 1 then 16 else pos_part buffer;
  jobs = [];
  handlers = [];
  next_id = 0;
  running = false;
  cancelled = false;
}

unfoldable pub register : Queue → String → Queue
register q name = if contains name q.handlers then q else record q { handlers = name ∷ q.handlers }

unfoldable pub start : Queue → Queue
start q = record q { running = true }

unfoldable pub stop : Queue → Queue
stop q = if q.running then record q { running = false; cancelled = true } else q

-- `itoa` of a `uint64`, through its buffer of 20 bytes.
unfoldable pub itoa : ℕ → String
itoa value = if eqb value 0 then "0" else digits_text (fill_digits 20 value [])

unfoldable pub submit : Queue → String → Payload → Time → Result String × Queue
submit q type payload now =
    if not q.running
    then (err queue_stopped, q)
    else let n = (q.next_id + 1) % 2 ^ 64 in
      let job : Job = record {
        id = "job-" +s itoa n;
        type = type;
        payload = payload;
        created = now;
      } in
      if ltb (length q.jobs) q.buffer
      then (ok job.id, record q { next_id = n; jobs = q.jobs ++ job ∷ [] })
      else (err queue_full, record q { next_id = n })
