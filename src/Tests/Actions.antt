-- ===== src/Tests/Actions.antt =====
-- Runs of the action of the test data, which has two attempts.
use orbit_telemetry_orchestr.Prelude.{◌+◌, ◌≡◌, refl, inl, arith}
use Prim.Native.Nat.{min}
use orbit_telemetry_orchestr.Domain.Action.Attempts.{
  Attempted, history, failing_rounds, failing_rounds_lem,
}
use orbit_telemetry_orchestr.Tests.{queued_action}

queued-Attempted : Attempted 0 2 queued_action
queued-Attempted = record {
  attempt_eq = refl;
  max_attempts_eq = refl;
  within = omega arith;
  unused = λ e. refl;
  stamped = λ e. ground arith;
}

failing_rounds_lem_example :
    (history queued_action 0 (failing_rounds 3 "timed out" 9)).1 ≡ min (0 + 3) 2
failing_rounds_lem_example =
    failing_rounds_lem 3 0 2 queued_action "timed out" 9 (omega arith) queued-Attempted (inl refl)
