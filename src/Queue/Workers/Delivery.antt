-- ===== src/Queue/Workers/Delivery.antt =====
-- What the workers do with the jobs that `Submit` accepts.
use orbit_telemetry_orchestr.Prelude.{
  ◌≤◌, String, ◌≡◌, refl, ◌∙◌, sym, ap, ◌⊎◌, inl, inr, Bool, true, false, Bool-cases, [], ◌∷◌, ◌++◌,
  arith, if◌then◌else◌, Time, ltb, length, length-append, ◌+◌, ℤ,
}
use mathlib.Core.List.{append-nil, append_assoc}
use orbit_telemetry_orchestr.Queue.{Queue, Payload, new_queue, start, stop, submit}
use orbit_telemetry_orchestr.Queue.Workers.{
  Pool, accepted_job, submits, starts, stops, Step, submit_step, start_step, stop_step, take_step,
  exit_step, Reach, here, after,
}

-- The channel holds no more than its buffer; the accepted jobs are those that were taken and then those
-- that wait, in order; and, until the queue is stopped, all its workers run once it is started, and none
-- before.
pub record Inv (p : Pool) : Type 0 where
  pub within : length p.queue.jobs ≤ p.queue.buffer
  pub in_order : p.accepted ≡ p.taken ++ p.queue.jobs
  pub workers_run :
      p.queue.cancelled ≡ false → p.alive ≡ (if p.queue.running then p.queue.workers else 0)

-- A pool of a new queue.
abbrev pub new_pool : ℤ → ℤ → Pool
new_pool workers buffer = record {
  queue = new_queue workers buffer;
  alive = 0;
  accepted = [];
  taken = [];
}

new_pool-Inv : (workers buffer : ℤ) → Inv (new_pool workers buffer)
unfolding new_queue
new_pool-Inv workers buffer = record {
  within = ground arith;
  in_order = refl;
  workers_run = λ e. refl;
}

-- `Submit` adds the job whose id it returns, and with an error none; the rest stays, but for `next_id`.
submit_cases :
    (q : Queue) (type : String) (payload : Payload) (t : Time)
    → let (r, q') = submit q type payload t in
      let job = accepted_job r type payload t in
      (q'.buffer ≡ q.buffer)
      × (q'.workers ≡ q.workers)
      × (q'.running ≡ q.running)
      × (q'.cancelled ≡ q.cancelled)
      × (q'.jobs ≡ q.jobs ++ job)
      × ((length job ≡ 0) ⊎ (length q.jobs + length job ≤ q.buffer))
unfolding submit
submit_cases q type payload t = elim (Bool-cases q.running) [
  | inr idle ↦ rw idle (refl, refl, refl, refl, sym (append-nil q.jobs), inl refl)
  | inl runs ↦ elim (Bool-cases (ltb (length q.jobs) q.buffer)) [
    | inl room ↦ rw (runs, room) (refl, refl, refl, refl, refl, inr (ground arith))
    | inr full ↦ rw (runs, full) (refl, refl, refl, refl, sym (append-nil q.jobs), inl refl)
  ]
]

submits-Inv :
    (p : Pool) (type : String) (payload : Payload) (t : Time)
    → Inv p
    → Inv (submits p type payload t)
unfolding submits
submits-Inv p type payload t v =
    let c = submit_cases p.queue type payload t in
    let old = p.queue.jobs in
    let r = (submit p.queue type payload t).0 in
    let job = accepted_job r type payload t in
    record {
      within = rw (c.4, c.0, length-append old job) (ground (arith, c.5, v.within));
      in_order = rw c.4 (ap (λ js. js ++ job) v.in_order ∙ append_assoc p.taken old job);
      workers_run = rw (c.1, c.2, c.3) v.workers_run;
    }

-- Either branch of a test.
by_test :
    {A : Type 0} (P : A → Type 0) (b : Bool) (x y : A)
    → (b ≡ true → P x)
    → (b ≡ false → P y)
    → P (if b then x else y)
by_test P true x y h k = h refl
by_test P false x y h k = k refl

starts-Inv : (p : Pool) → Inv p → Inv (starts p)
unfolding starts start
starts-Inv p v =
    by_test Inv p.queue.running p _ (λ runs. v)
      λ idle. record {
        within = v.within;
        in_order = v.in_order;
        workers_run = λ e. ground (arith, v.workers_run e, idle);
      }

stops-Inv : (p : Pool) → Inv p → Inv (stops p)
unfolding stops stop
stops-Inv p v =
    by_test (λ q. Inv (record p { queue = q })) p.queue.running _ p.queue
      (λ runs. record {
        within = v.within;
        in_order = v.in_order;
        workers_run = λ e. absurd (ground (arith, e));
      })
      (λ idle. record { within = v.within; in_order = v.in_order; workers_run = v.workers_run })

step-Inv : {p q : Pool} → Step p q → Inv p → Inv q
step-Inv (submit_step p type payload t) v = submits-Inv p type payload t v
step-Inv (start_step p) v = starts-Inv p v
step-Inv (stop_step p) v = stops-Inv p v
step-Inv (take_step p job rest lives first) v = record {
  within = ground (arith, v.within, first);
  in_order =
      v.in_order ∙ ap (λ js. p.taken ++ js) first ∙ sym (append_assoc p.taken (job ∷ []) rest);
  workers_run = v.workers_run;
}
step-Inv (exit_step p lives ended) v = record {
  within = v.within;
  in_order = v.in_order;
  workers_run = λ e. absurd (ground (arith, e, ended));
}

reach-keeps : {p q : Pool} → Reach p q → Inv p → Inv q
reach-keeps (here p) v = v
reach-keeps (after way move) v = step-Inv move (reach-keeps way v)

-- From a new queue, in any order of calls of `Submit`, `Start` and `Stop` and of turns of the workers:
-- the channel never holds more than its buffer; every job that was accepted was taken once or waits, and
-- jobs are taken in the order in which they were accepted; and until the queue is stopped, all its
-- workers run once it is started.
pub reach-Inv : (workers buffer : ℤ) {p : Pool} → Reach (new_pool workers buffer) p → Inv p
reach-Inv workers buffer way = reach-keeps way (new_pool-Inv workers buffer)
