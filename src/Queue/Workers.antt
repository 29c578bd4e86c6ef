-- ===== src/Queue/Workers.antt =====
-- The workers of internal/queue/queue.go: `Submit`, `Start`, `Stop` and the loop of `worker` as steps,
-- in any order.
pub mod Delivery
use orbit_telemetry_orchestr.Prelude.{
  ℕ, ◌+◌, ◌-◌, ◌<◌, String, ◌≡◌, Bool, true, false, List, [], ◌∷◌, ◌++◌, if◌then◌else◌, Time,
  Result, ok, err,
}
use orbit_telemetry_orchestr.Queue.{Queue, Job, Payload, new_queue, start, stop, submit}

-- The queue; the number of workers that run; and, for the account, the jobs that `Submit` told its
-- callers that it accepted and those that a worker took, both oldest first.
pub record Pool : Type 0 where
  pub queue : Queue
  pub alive : ℕ
  pub accepted : List Job
  pub taken : List Job

-- The job that a call of `Submit` stands for, by the result that the caller sees: one with the id that
-- was returned, and none where an error was.
abbrev pub accepted_job : Result String → String → Payload → Time → List Job
accepted_job (ok id) type payload t =
    record { id = id; type = type; payload = payload; created = t } ∷ []
accepted_job (err e) type payload t = []

unfoldable pub submits : Pool → String → Payload → Time → Pool
submits p type payload t =
    let (result, q) = submit p.queue type payload t in
    record p { queue = q; accepted = p.accepted ++ accepted_job result type payload t }

-- `Start` launches its workers unless the queue runs already.
unfoldable pub starts : Pool → Pool
starts p =
    if p.queue.running
    then p
    else record p { queue = start p.queue; alive = p.alive + p.queue.workers }

unfoldable pub stops : Pool → Pool
stops p = record p { queue = stop p.queue }

pub data Step : Pool → Pool → Type 0 where
  submit_step :
      (p : Pool) (type : String) (payload : Payload) (t : Time) → Step p (submits p type payload t)
  start_step : (p : Pool) → Step p (starts p)
  stop_step : (p : Pool) → Step p (stops p)
  -- `case job := <-q.jobs`, by some worker, even once the context is done
  take_step :
      (p : Pool) (job : Job) (rest : List Job)
      → 0 < p.alive
      → p.queue.jobs ≡ job ∷ rest
      → Step p (record p { queue = record p.queue { jobs = rest }; taken = p.taken ++ job ∷ [] })
  -- `case <-q.ctx.Done(): return`
  exit_step :
      (p : Pool)
      → 0 < p.alive
      → p.queue.cancelled ≡ true
      → Step p (record p { alive = p.alive - 1 })

pub data Reach : Pool → Pool → Type 0 where
  here : (p : Pool) → Reach p p
  after : {p q r : Pool} → Reach p q → Step q r → Reach p r
