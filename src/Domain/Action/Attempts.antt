-- ===== src/Domain/Action/Attempts.antt =====
-- How often an action can run: histories of `Start` and `Finish`.
use orbit_telemetry_orchestr.Prelude.{
  ℕ, zero, ◌⊎◌, ltb, inr, suc, ◌+◌, ◌≤◌, String, ◌≡◌, refl, ◌∙◌, ◌≢◌, Bool, true, false, none, List,
  [], ◌∷◌, arith, if◌then◌else◌, pos, max_int64, Time, Result, ok, err,
}
use Prim.Native.Nat.{min}
use orbit_telemetry_orchestr.Domain.Action.{
  ActionType, queued, succeeded, failed, ResponseAction, new_action, start, finish, can_retry,
  action_status_eq,
}

-- The operations on an action, with their arguments.
pub data Op : Type 0 where
  start_at : Time → Op
  finish_with : Bool → String → Time → Op

abbrev pub is_ok : Result ResponseAction → Bool
is_ok (ok a) = true
is_ok (err e) = false

abbrev pub after : Result ResponseAction → ResponseAction → ResponseAction
after (ok a') a = a'
after (err e) a = a

unfoldable pub apply : ResponseAction → Op → ResponseAction
apply a (start_at now) = after (start a now) a
apply a (finish_with success result now) = finish a success result now

-- One if the operation is a start that succeeds.
abbrev pub started : ResponseAction → Op → ℕ
started a (start_at now) = if is_ok (start a now) then 1 else 0
started a (finish_with success result now) = 0

-- The action after a list of operations, and the number of starts that succeeded.
unfoldable pub history : ResponseAction → ℕ → List Op → ResponseAction × ℕ
history a n [] = (a, n)
history a n (op ∷ ops) = history (apply a op) (n + started a op) ops

-- `used` of at most `most` attempts are used; an action that is queued has used none.
pub record Attempted (used most : ℕ) (a : ResponseAction) : Type 0 where
  pub attempt_eq : a.attempt ≡ pos used
  pub max_attempts_eq : a.max_attempts ≡ pos most
  pub within : used ≤ most
  pub unused : a.status ≡ queued → used ≡ 0
  pub stamped : a.status ≡ succeeded → a.finished_at ≢ none

-- A new action allows the attempts that were asked for, and one where fewer than one were.
new_action-Attempted :
    (id incident_id device_id : String) (type : ActionType) (max_attempts : ℕ) (key reason : String)
    (now : Time) {a : ResponseAction}
    → new_action id incident_id device_id type (pos max_attempts) key reason now ≡ ok a
    → Attempted 0 (if ltb max_attempts 1 then 1 else max_attempts) a
unfolding new_action
new_action-Attempted id incident_id device_id type max_attempts key reason now h = ground arith

apply-Attempted :
    (used most : ℕ) (a : ResponseAction) (op : Op)
    → most ≤ max_int64
    → Attempted used most a
    → Attempted (used + started a op) most (apply a op)
unfolding apply start finish
apply-Attempted used most a (start_at now) r v = ground arith
apply-Attempted used most a (finish_with success result now) r v = ground arith

-- With a maximum within an `int64` and the invariant at the outset, any list of starts and finishes
-- keeps it: the attempts used are the starts that succeeded, they never pass the maximum, a queued
-- action has used none, and an action that succeeded has its time of finishing.
history-Attempted :
    (used most : ℕ) (a : ResponseAction) (ops : List Op)
    → most ≤ max_int64
    → Attempted used most a
    → Attempted (history a used ops).1 most (history a used ops).0
unfolding history
history-Attempted used most a [] r v = v
history-Attempted used most a (op ∷ ops) r v =
    history-Attempted (used + started a op) most (apply a op) ops r
      (apply-Attempted used most a op r v)

-- `CanRetry` says of a failed action whether it can be started.
can_retry-eq-start :
    (a : ResponseAction) (now : Time) → a.status ≡ failed → can_retry a ≡ is_ok (start a now)
unfolding can_retry start
can_retry-eq-start a now h = ground arith

-- `k` rounds of a start and a failing finish.
unfoldable pub failing_rounds : ℕ → String → Time → List Op
failing_rounds zero result now = []
failing_rounds (suc k) result now =
    start_at now ∷ finish_with false result now ∷ failing_rounds k result now

started_ready :
    (used most : ℕ) (a : ResponseAction) (now : Time)
    → Attempted used most a
    → (a.status ≡ queued) ⊎ (a.status ≡ failed)
    → started a (start_at now) ≡ (if ltb used most then 1 else 0)
unfolding start
started_ready used most a now v s = ground arith

status-finish :
    (a : ResponseAction) (result : String) (now : Time)
    → (apply a (finish_with false result now)).status ≡ failed
unfolding apply finish
status-finish a result now = refl

-- An action with that invariant that is queued or failed, and that fails each time, is started as often
-- as it is tried, up to its maximum, which lies within an `int64`: the attempts used after `k` rounds
-- are those before and `k`, or the maximum if that is less.
pub failing_rounds_lem :
    (k used most : ℕ) (a : ResponseAction) (result : String) (now : Time)
    → most ≤ max_int64
    → Attempted used most a
    → (a.status ≡ queued) ⊎ (a.status ≡ failed)
    → (history a used (failing_rounds k result now)).1 ≡ min (used + k) most
unfolding history failing_rounds
failing_rounds_lem zero used most a result now r v s = omega (arith, v.within)
failing_rounds_lem (suc k) used most a result now r v s =
    let once = start_at now in
    let twice = finish_with false result now in
    let b = apply a once in
    let v' =
      apply-Attempted (used + started a once) most b twice r
        (apply-Attempted used most a once r v) in
    let rest =
      failing_rounds_lem k (used + started a once + 0) most (apply b twice) result now r v'
        (inr (status-finish b result now)) in
    rest ∙ count
  where
    count : min (used + started a (start_at now) + 0 + k) most ≡ min (used + suc k) most
    count = ground (arith, started_ready used most a now v s, v.within)
