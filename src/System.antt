-- ===== src/System.antt =====
-- The program as main.go puts it together: the server with its app and limiter, and its steps, which
-- are a request and a worker's turn, one after another.
pub mod Reaching
use orbit_telemetry_orchestr.Prelude.{
  ℕ, String, List, [], ◌∷◌, ℤ, pos, true, some, minute, Time, Float,
}
use orbit_telemetry_orchestr.Store.{new_memory}
use orbit_telemetry_orchestr.Audit.{new_log}
use orbit_telemetry_orchestr.Metrics.{new_registry}
use orbit_telemetry_orchestr.Events.{new_bus}
use orbit_telemetry_orchestr.Queue.{new_queue, register, start}
use orbit_telemetry_orchestr.RateLimit.{new_limiter}
use orbit_telemetry_orchestr.Service.{App}
use orbit_telemetry_orchestr.Service.Jobs.{seed, work}
use orbit_telemetry_orchestr.Http.{Request, Decoders}
use orbit_telemetry_orchestr.Http.Routes.{Server, serve}

module _ {F : Type 0} where
  -- The parts that `main` builds, for a clock, `strings.ToLower` and the starts of the ranges.
  unfoldable pub new_app : (ℕ → Time) → (String → String) → (ℕ → ℕ) → App F
  new_app clock to_lower range_from = record {
    repository = new_memory;
    bus = new_bus (pos 256) true;
    audit = new_log (pos 5000);
    queue = some (
        start (
          register
            (register (register (new_queue (pos 4) (pos 128)) "incident-evaluation")
              "response-action")
            "evidence-rollup"));
    metrics = new_registry;
    clock = clock;
    reads = 0;
    sequence = 0;
    to_lower = to_lower;
    range_from = range_from;
  }

  -- The server when it begins to listen: the demonstration device is seeded.
  unfoldable pub boot : (ℕ → Time) → (String → String) → (ℕ → ℕ) → Server F
  unfolding new_app
  boot clock to_lower range_from = record {
    app = (seed (new_app clock to_lower range_from)).1;
    limiter = new_limiter (pos 120) (pos minute);
  }

-- A request that arrives, or the turn of a worker.
pub data Step : Type 0 where
  request : Request → Step
  turn : Step

module _ {F : Type 0} ⦃fl : Float F⦄ where
  unfoldable pub step : Decoders F → Step → Server F → Server F
  step d (request r) s = (serve d r s).1
  step d turn s = record s { app = work s.app }

  unfoldable pub run : Decoders F → List Step → Server F → Server F
  unfolding step
  run d [] s = s
  run d (x ∷ xs) s = run d xs (step d x s)
