-- ===== src/Types/Task/Failure.antt =====
-- Failure reports, retries and their budget: `Task::handle_failure` of task.rs.
use spica.Base.{
  ℕ, zero, suc, ◌+◌, ◌-◌, ◌*◌, ◌%◌, ◌≤◌, ◌<◌, ◌≡◌, refl, ◌≢◌, ◌↔◌, ◌⊎◌, inl, inr, true, false,
  Option, none, some, List, [], ◌∷◌, arith, leb, Bool-cases, Str, get_elem?, ok, pos_part,
}
use spica.Machinery.Timestamp.{Timestamp, checked_add}
use spica.Types.Error.{ExecutionError, matches_error_names}
use spica.Types.Task.{
  Floats, Task, RetryPolicy, RetrierAttemptState, FailureOutcome, retried, terminal, pending,
  running, is_terminal, u32_mod, has_budget_after, find_policy, decide_retry, released, attempts_of,
  set_attempts, handle_failure, is_claimable_at, or_now, backoff_for_attempt,
}

-- The budget of one retrier, as the code computes it.
abbrev pub allowance : RetryPolicy → ℕ
allowance p = pos_part p.max_attempts % u32_mod

-- The retries that a plan still grants, given the attempts that each retrier has used.
pub remaining : List RetryPolicy → List RetrierAttemptState → ℕ
remaining [] used = 0
remaining (p ∷ ps) [] = allowance p + remaining ps []
remaining (p ∷ ps) (a ∷ used) = (allowance p - a.attempt_count) + remaining ps used

remaining-set :
    (k : ℕ) (p : RetryPolicy) (ps : List RetryPolicy) (used : List RetrierAttemptState)
    (a : RetrierAttemptState)
    → get_elem? ps k ≡ some p
    → attempts_of (get_elem? used k) < allowance p
    → a.attempt_count ≡ attempts_of (get_elem? used k) + 1
    → remaining ps (set_attempts k a used) + 1 ≡ remaining ps used
unfolding remaining set_attempts
remaining-set k p [] used a h lt e = cc
remaining-set zero p (q ∷ ps) [] a h lt e = ground arith
remaining-set zero p (q ∷ ps) (u ∷ used) a h lt e = ground arith
remaining-set (suc k) p (q ∷ ps) [] a h lt e = ground (arith, remaining-set k p ps [] a h)
remaining-set (suc k) p (q ∷ ps) (u ∷ used) a h lt e = ground (arith, remaining-set k p ps used a h)

-- The backoff gate of a retry: an instant that overflows falls back to `now`.
abbrev pub gate_after : Floats → RetryPolicy → ℕ → Timestamp → Timestamp
gate_after f p used now = or_now (checked_add now (backoff_for_attempt f p used * 1000)) now

module _ {V : Type 0} where
  find_policy-found :
      (e : ExecutionError V) (i j : ℕ) (p : RetryPolicy) (ps : List RetryPolicy)
      → find_policy e i ps ≡ some (j, p)
      → (i ≤ j) × (get_elem? ps (j - i) ≡ some p) × (matches_error_names e p.error_equals ≡ true)
  find_policy-found e i j p [] h = cc
  find_policy-found e i j p (q ∷ ps) h = elim (Bool-cases (matches_error_names e q.error_equals)) [
    | inl hit ↦
        let at : j - i ≡ 0 = ground arith in (ground arith, rw at (ground arith), ground arith)
    | inr miss ↦
        let (le, at, m) = find_policy-found e (i + 1) j p ps (rw miss at h) in
        let step : j - i ≡ suc (j - (i + 1)) = omega arith in (omega arith, rw step at, m)
  ]

  decide_retry_total :
      (f : Floats) (found : Option (ℕ × RetryPolicy)) (now : Timestamp) (t : Task V)
      → ((decide_retry f found now t).1 ≡ ok retried)
        ⊎ ((decide_retry f found now t).1 ≡ ok terminal)
  unfolding decide_retry
  decide_retry_total f none now t = inr refl
  decide_retry_total f (some (i, p)) now t = ground arith

  -- A failure report is retried or ends the task exactly when the task is not settled and the report
  -- is the engine's own or comes from the worker that the running task is leased to; with any other
  -- answer the task is as it was.
  pub handle_failure_exact :
      (f : Floats) (worker : Str) (error : ExecutionError V) (now : Timestamp) (t : Task V)
      → let (t', r) = handle_failure f worker error now t in
        (((r ≡ ok retried) ⊎ (r ≡ ok terminal)) ↔ (
          (is_terminal t.status ≡ false)
          × ((worker ≡ []) ⊎ ((t.status ≡ running) × (t.worker_id ≡ some worker)))))
        × ((r ≢ ok retried) → (r ≢ ok terminal) → t' ≡ t)
  unfolding handle_failure
  handle_failure_exact f [] error now t =
      ground (arith, decide_retry_total f (find_policy error 0 t.retry_plan) now (released now t))
  handle_failure_exact f (c ∷ worker) error now t =
      ground (arith, decide_retry_total f (find_policy error 0 t.retry_plan) now (released now t))

  handle_failure_taken :
      (f : Floats) (worker : Str) (error : ExecutionError V) (now : Timestamp) (t : Task V)
      (o : FailureOutcome)
      → (handle_failure f worker error now t).1 ≡ ok o
      → handle_failure f worker error now t
        ≡ decide_retry f (find_policy error 0 t.retry_plan) now (released now t)
  unfolding handle_failure
  handle_failure_taken f worker error now t o h = ground arith

  remaining-decide_retry :
      (f : Floats) (found : Option (ℕ × RetryPolicy)) (now : Timestamp) (t : Task V)
      → ((i : ℕ) (p : RetryPolicy) → found ≡ some (i, p) → get_elem? t.retry_plan i ≡ some p)
      → (decide_retry f found now t).1 ≡ ok retried
      → let t' = (decide_retry f found now t).0 in
        (t'.retry_plan ≡ t.retry_plan)
        × (remaining t'.retry_plan t'.retry_state.retrier_attempts + 1
            ≡ remaining t.retry_plan t.retry_state.retrier_attempts)
  unfolding decide_retry has_budget_after
  remaining-decide_retry f none now t at h = cc
  remaining-decide_retry f (some (i, p)) now t at h =
      let used = attempts_of (get_elem? t.retry_state.retrier_attempts i) in
      ground (
        arith,
        remaining-set i p t.retry_plan t.retry_state.retrier_attempts
            (record { attempt_count = (used + 1) % u32_mod; last_retry_at = some now })
            (at i p refl),
      )

  first_match :
      (error : ExecutionError V) (plan : List RetryPolicy) (i : ℕ) (p : RetryPolicy)
      → find_policy error 0 plan ≡ some (i, p)
      → get_elem? plan i ≡ some p
  first_match error plan i p h =
      let same : i - 0 ≡ i = omega arith in rw same at (find_policy-found error 0 i p plan h).1

  pub remaining-handle_failure :
      (f : Floats) (worker : Str) (error : ExecutionError V) (now : Timestamp) (t : Task V)
      → (handle_failure f worker error now t).1 ≡ ok retried
      → let t' = (handle_failure f worker error now t).0 in
        (t'.retry_plan ≡ t.retry_plan)
        × (remaining t'.retry_plan t'.retry_state.retrier_attempts + 1
            ≡ remaining t.retry_plan t.retry_state.retrier_attempts)
  remaining-handle_failure f worker error now t h =
      let taken = handle_failure_taken f worker error now t retried h in
      rw taken (
        remaining-decide_retry f (find_policy error 0 t.retry_plan) now (released now t)
          (first_match error t.retry_plan) (rw taken at h))

  remaining-decide_terminal :
      (f : Floats) (found : Option (ℕ × RetryPolicy)) (now : Timestamp) (t : Task V)
      → (decide_retry f found now t).1 ≡ ok terminal
      → let t' = (decide_retry f found now t).0 in
        remaining t'.retry_plan t'.retry_state.retrier_attempts
        ≡ remaining t.retry_plan t.retry_state.retrier_attempts
  unfolding decide_retry
  remaining-decide_terminal f none now t h = refl
  remaining-decide_terminal f (some (i, p)) now t h = ground arith

  -- A failure that ends the task leaves the attempts that its plan still allows.
  pub remaining-terminal :
      (f : Floats) (worker : Str) (error : ExecutionError V) (now : Timestamp) (t : Task V)
      → (handle_failure f worker error now t).1 ≡ ok terminal
      → let t' = (handle_failure f worker error now t).0 in
        remaining t'.retry_plan t'.retry_state.retrier_attempts
        ≡ remaining t.retry_plan t.retry_state.retrier_attempts
  remaining-terminal f worker error now t h =
      let taken = handle_failure_taken f worker error now t terminal h in
      rw taken (
        remaining-decide_terminal f (find_policy error 0 t.retry_plan) now (released now t)
          (rw taken at h))

  retry_gate_decide_retry :
      (f : Floats) (found : Option (ℕ × RetryPolicy)) (now : Timestamp) (t : Task V)
      → (decide_retry f found now t).1 ≡ ok retried
      → (i : ℕ) × (p : RetryPolicy) × (found ≡ some (i, p))
        × (has_budget_after p (attempts_of (get_elem? t.retry_state.retrier_attempts i)) ≡ true)
        × ((decide_retry f found now t).0.status ≡ pending)
        × ((decide_retry f found now t).0.retry_state.next_available_at
            ≡ some (gate_after f p (attempts_of (get_elem? t.retry_state.retrier_attempts i)) now))
  unfolding decide_retry
  retry_gate_decide_retry f none now t h = absurd (ground arith)
  retry_gate_decide_retry f (some (i, p)) now t h =
      (i, p, refl, ground arith, ground arith, ground arith)

  -- A retry is granted by the first retrier that matches the error, which had budget left by its own
  -- count. The task is pending again with its lease released, and it is offered exactly from its
  -- backoff gate on.
  pub retry_gate :
      (f : Floats) (worker : Str) (error : ExecutionError V) (now : Timestamp) (t : Task V)
      → (handle_failure f worker error now t).1 ≡ ok retried
      → let t' = (handle_failure f worker error now t).0 in
        (i : ℕ) × (p : RetryPolicy) × (find_policy error 0 t.retry_plan ≡ some (i, p))
        × (has_budget_after p (attempts_of (get_elem? t.retry_state.retrier_attempts i)) ≡ true)
        × (t'.status ≡ pending)
        × ((later : Timestamp)
            → is_claimable_at t' later
              ≡ leb
                  (gate_after f p (attempts_of (get_elem? t.retry_state.retrier_attempts i)) now)
                  later)
  unfolding is_claimable_at
  retry_gate f worker error now t h =
      let taken = handle_failure_taken f worker error now t retried h in
      let (i, p, found, budget, status, gate) =
        retry_gate_decide_retry f (find_policy error 0 t.retry_plan) now (released now t)
          (rw taken at h) in
      (i, p, found, budget, rw taken status, λ later. rw (taken, status, gate) (ground arith))
