-- ===== src/Tests/Serving.antt =====
-- Requests to the server and turns of the workers over the test data.
use orbit_telemetry_orchestr.Prelude.{
  ℕ, ◌+◌, ◌-◌, String, ◌≡◌, refl, false, Option, some, none, [], ◌∷◌, List, arith, pos, negsuc, eqb,
  if◌then◌else◌, minute, keep, remove,
}
use orbit_telemetry_orchestr.Prelude.Errors.{rate_limited}
use orbit_telemetry_orchestr.RateLimit.{remaining, new_limiter}
use orbit_telemetry_orchestr.Queue.{Payload}
use orbit_telemetry_orchestr.Queue.Workers.{here, after, start_step, submit_step, starts, submits}
use orbit_telemetry_orchestr.Queue.Workers.Delivery
use orbit_telemetry_orchestr.Queue.Workers.Delivery.{new_pool, reach-Inv}
use orbit_telemetry_orchestr.Queue.{new_queue}
use orbit_telemetry_orchestr.Queue.Scheduler.{Scheduler, Timer, schedule, settle, cancel}
use orbit_telemetry_orchestr.Queue.Scheduler.Rescheduling.{started, rescheduled_lost}
use orbit_telemetry_orchestr.Store.Sound.{Sound}
use orbit_telemetry_orchestr.Service.{live, itoa}
use orbit_telemetry_orchestr.Service.Validation.{parse_limit}
use orbit_telemetry_orchestr.Http.{
  Request, get, post, Decoders, write_error, service_limit, atoi, digits_value,
}
use orbit_telemetry_orchestr.Http.Limits.{limits_agree}
use orbit_telemetry_orchestr.Http.Numerals.{atoi-itoa}
use orbit_telemetry_orchestr.Http.Gets.{Unchanged, mux_get}
use orbit_telemetry_orchestr.Http.Admission.{serve_lem}
use orbit_telemetry_orchestr.Http.Routes.{Server, mux, serve, client_key}
use orbit_telemetry_orchestr.System.{boot, run, request, turn}
use orbit_telemetry_orchestr.System.Reaching.{run-boot-Sound}
use orbit_telemetry_orchestr.Tests.{nat_float, orbit, reading}

abbrev no_body : {A : Type 0} → List ℕ → Option A
no_body bytes = none

-- Every body is one reading of the heat stream, or a device.
abbrev readers : Decoders ℕ
readers = record {
  device_input = λ bytes.
      some (record { id = "d2"; name = "valve"; site = "south"; model = "m2"; labels = [] });
  device_status = no_body;
  stream_input = no_body;
  stream_status = no_body;
  policy_input = no_body;
  telemetry_batch = λ bytes. some (reading ∷ []);
  incident_status = no_body;
  action_input = no_body;
  evidence_input = no_body;
}

abbrev to : List String → Request
to path = record {
  method = post;
  path = path;
  query = [];
  headers = [];
  remote_addr = "10.0.0.1";
  body = 123 ∷ [];
  context = live;
}

abbrev asking : List String → Request
asking path = record (to path) { method = get }

abbrev orbit_server : Server ℕ
orbit_server = record { app = orbit; limiter = new_limiter (pos 2) (pos minute) }

run-boot-Sound_example :
    Sound
      (run readers
        (request (to ("v1" ∷ "devices" ∷ [])) ∷ turn ∷ request (asking ("metrics" ∷ [])) ∷ [])
        (boot (λ n. n + 1) (λ s. s) (λ n. n))).app.repository
run-boot-Sound_example =
    run-boot-Sound readers (λ n. n + 1) (λ s. s) (λ n. n)
      (request (to ("v1" ∷ "devices" ∷ [])) ∷ turn ∷ request (asking ("metrics" ∷ [])) ∷ [])

mux_get_example : Unchanged orbit (mux readers (asking ("v1" ∷ "devices" ∷ "d1" ∷ [])) orbit).1
mux_get_example = mux_get readers (asking ("v1" ∷ "devices" ∷ "d1" ∷ [])) orbit refl

serve_lem_example :
    let r = asking ("healthz" ∷ []) in
    let s = orbit_server in
    let t = s.app.clock s.app.reads in
    let left = remaining s.limiter (client_key r) t in
    let read = record s.app { reads = s.app.reads + 1 } in
    ((serve readers r s).0
      ≡ (if eqb left 0 then write_error 429 rate_limited else (mux readers r read).0))
    × ((serve readers r s).1.app ≡ (if eqb left 0 then read else (mux readers r read).1))
    × (remaining (serve readers r s).1.limiter (client_key r) t ≡ left - 1)
unfolding new_limiter
serve_lem_example = serve_lem readers (asking ("healthz" ∷ [])) orbit_server refl refl

limits_agree_example : parse_limit "250" (pos 100) ≡ service_limit "250" (pos 100)
unfolding digits_value
limits_agree_example = limits_agree "250" 250 (pos 100) refl refl (omega arith)

atoi-itoa_example : atoi (itoa (negsuc 41)) ≡ some (negsuc 41)
atoi-itoa_example = atoi-itoa (negsuc 41) (omega arith) (λ e. ground arith)

reach-Inv_example :
    Delivery.Inv (
      submits
        (starts (new_pool (pos 2) (pos 4)))
        "evidence-rollup"
        (Payload.evidence_rollup "i1")
        5)
reach-Inv_example = reach-Inv (pos 2) (pos 4) (
    after (after (here (new_pool (pos 2) (pos 4))) (start_step (new_pool (pos 2) (pos 4)))) (
      submit_step (starts (new_pool (pos 2) (pos 4))) "evidence-rollup"
        (Payload.evidence_rollup "i1") 5))

abbrev timer_of : ℕ → String → Timer
timer_of n key = record {
  id = n;
  key = key;
  job_type = "evidence-rollup";
  payload = Payload.evidence_rollup "i1";
}

-- The timer of "k" has fired, and its callback is waiting, when "k" is scheduled again.
abbrev fired : Scheduler
fired = record {
  queue = new_queue (pos 2) (pos 4);
  timers = ("k", 0) ∷ ("other", 1) ∷ [];
  next_timer = 2;
  pending = timer_of 1 "other" ∷ [];
  firing = timer_of 0 "k" ∷ [];
}

rescheduled_lost_example :
    let s = settle (schedule fired "k" "evidence-rollup" (Payload.evidence_rollup "i2")) in
    (keep (λ (u : Timer). eqb u.id 2) s.pending
      ≡ started fired "k" "evidence-rollup" (Payload.evidence_rollup "i2") ∷ [])
    × (cancel s "k" ≡ (false, s))
    × (s.timers ≡ remove "k" fired.timers)
rescheduled_lost_example =
    rescheduled_lost fired (timer_of 0 "k") [] "evidence-rollup" (Payload.evidence_rollup "i2") refl
      (omega arith, tt)
