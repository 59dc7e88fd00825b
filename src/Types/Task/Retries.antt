-- ===== src/Types/Task/Retries.antt =====
-- How often a task of task.rs is retried, over any sequence of its operations.
use spica.Base.{ℕ, ◌+◌, ◌≡◌, refl, List, [], ◌∷◌, arith, Str, Result, ok, err}
use spica.Machinery.Timestamp.{Timestamp}
use spica.Types.Error.{ExecutionError}
use spica.Types.Task.{
  Floats, Task, TaskRefusal, FailureOutcome, retried, terminal, claim, mark_cancelled,
  mark_completed, handle_failure,
}
use spica.Types.Task.Failure.{
  remaining, handle_failure_exact, remaining-terminal, remaining-handle_failure,
}

-- An operation on the row of a task.
pub data TaskStep (V : Type 0) : Type 0 where
  claimed : (worker : Str) (lease at : Timestamp) → TaskStep V
  reported : (worker : Str) (error : ExecutionError V) (at : Timestamp) → TaskStep V
  settled : (worker : Str) (at : Timestamp) → TaskStep V
  cancelled : (at : Timestamp) → TaskStep V

-- The retries that an answer to a failure report grants.
abbrev pub granted : Result TaskRefusal FailureOutcome → ℕ
granted (ok retried) = 1
granted (ok terminal) = 0
granted (err e) = 0

-- The retries that the plan of a task still grants.
abbrev pub still_allowed : {V : Type 0} → Task V → ℕ
still_allowed t = remaining t.retry_plan t.retry_state.retrier_attempts

module _ {V : Type 0} (f : Floats) where
  -- The row after an operation, and the retries that it granted.
  unfoldable pub perform : TaskStep V → Task V → Task V × ℕ
  unfolding claim mark_completed mark_cancelled handle_failure
  perform (claimed w lease at) t = (claim w lease at t, 0)
  perform (reported w e at) t = let (t', r) = handle_failure f w e at t in (t', granted r)
  perform (settled w at) t = ((mark_completed w at t).0, 0)
  perform (cancelled at) t = ((mark_cancelled at t).0, 0)

  -- The row after a sequence of operations, and the retries that they granted.
  unfoldable pub perform_all : List (TaskStep V) → Task V → Task V × ℕ
  unfolding perform
  perform_all [] t = (t, 0)
  perform_all (s ∷ ss) t =
      let (t1, n) = perform s t in let (t2, m) = perform_all ss t1 in (t2, n + m)

  still_allowed-report :
      (w : Str) (e : ExecutionError V) (at : Timestamp) (t : Task V)
      (r : Result TaskRefusal FailureOutcome)
      → (handle_failure f w e at t).1 ≡ r
      → still_allowed (handle_failure f w e at t).0 + granted r ≡ still_allowed t
  still_allowed-report w e at t (ok retried) h = (remaining-handle_failure f w e at t h).1
  still_allowed-report w e at t (ok terminal) h = omega (arith, remaining-terminal f w e at t h)
  still_allowed-report w e at t (err x) h =
      let same = (handle_failure_exact f w e at t).1 (λ k. grind arith) (λ k. grind arith) in
      rw same (omega arith)

  still_allowed-perform :
      (s : TaskStep V) (t : Task V)
      → still_allowed (perform s t).0 + (perform s t).1 ≡ still_allowed t
  unfolding perform claim mark_completed mark_cancelled
  still_allowed-perform (claimed w lease at) t = omega arith
  still_allowed-perform (reported w e at) t =
      still_allowed-report w e at t (handle_failure f w e at t).1 refl
  still_allowed-perform (settled w at) t = ground arith
  still_allowed-perform (cancelled at) t = ground arith

  -- Over any sequence of claims, failure reports, settlements and cancellations of a task, whatever
  -- answers they get, the retries that are granted and the retries that the plan still allows at the
  -- end add up to the ones that it allowed at the start, so no more are granted than those. A
  -- retrier allows the low 32 bits of its MaxAttempts, which is MaxAttempts itself when that fits a
  -- `u32`, or nothing when it is negative, less the attempts that it has counted.
  pub still_allowed-perform_all :
      (ss : List (TaskStep V)) (t : Task V)
      → still_allowed (perform_all ss t).0 + (perform_all ss t).1 ≡ still_allowed t
  unfolding perform_all
  still_allowed-perform_all [] t = omega arith
  still_allowed-perform_all (s ∷ ss) t =
      omega (arith, still_allowed-perform s t, still_allowed-perform_all ss (perform s t).0)
