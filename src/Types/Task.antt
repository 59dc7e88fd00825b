-- ===== src/Types/Task.antt =====
-- crates/engine-types/src/types/task.rs: one external call, its lease and its retries. A `u32`
-- counter wraps as in a release build. An `f64` is its bit pattern, and the operations on it are a
-- parameter.
pub mod Claims
pub mod Failure
pub mod Retries
use spica.Base.{
  ℕ, zero, suc, ◌+◌, ◌*◌, ◌%◌, ◌^◌, Bool, true, false, not, ◌&&◌, ◌||◌, Option, none, some, List,
  [], ◌∷◌, ltb, leb, if◌then◌else◌, holds, Str, codes, Str-discrete, get_elem?, Result, ok, err, ℤ,
  pos, negsuc, pos_part,
}
use spica.Machinery.Timestamp.{Timestamp, checked_add}
use spica.Types.Meta.{ObjectMeta, ObjectRef, execution, task, with_update_at}
use spica.Types.Error.{ExecutionError, matches_error_names}

abbrev pub F64 : Type 0
F64 = ℕ

-- The arithmetic of `f64` that the backoff uses.
pub record Floats : Type 0 where
  pub of_i64 : ℤ → F64
  pub mul : F64 → F64 → F64
  pub powf : F64 → F64 → F64
  pub fmin : F64 → F64 → F64
  pub fmax : F64 → F64 → F64
  pub ceil : F64 → F64
  pub to_u64 : F64 → ℕ

abbrev pub u32_mod : ℕ
u32_mod = 2 ^ 32

pub record RetrierAttemptState : Type 0 where
  pub attempt_count : ℕ
  pub last_retry_at : Option Timestamp

-- `RetrierAttemptState::default()`.
abbrev pub no_attempts : RetrierAttemptState
no_attempts = record { attempt_count = 0; last_retry_at = none }

pub record RetryPolicy : Type 0 where
  pub error_equals : List Str
  pub interval_seconds : ℤ
  pub max_attempts : ℤ
  pub backoff_rate : F64
  pub max_delay_seconds : Option ℤ

abbrev pub cap_delay : Floats → Option ℤ → F64 → F64
cap_delay f none raw = raw
cap_delay f (some (pos zero)) raw = raw
cap_delay f (some (pos (suc m))) raw = f.fmin raw (f.of_i64 (pos (suc m)))
cap_delay f (some (negsuc m)) raw = raw

-- Seconds before the retry that follows `attempt` earlier ones.
unfoldable pub backoff_for_attempt : Floats → RetryPolicy → ℕ → ℕ
backoff_for_attempt f p attempt =
    let rate = f.powf p.backoff_rate (f.of_i64 (pos attempt)) in
    let raw = f.mul (f.of_i64 p.interval_seconds) rate in
    f.to_u64 (f.fmax (f.ceil (cap_delay f p.max_delay_seconds raw)) (f.of_i64 (pos 1)))

-- `attempts < self.max_attempts.max(0) as u32`: the cast keeps the low 32 bits.
unfoldable pub has_budget_after : RetryPolicy → ℕ → Bool
has_budget_after p attempts = ltb attempts (pos_part p.max_attempts % u32_mod)

pub record RetryState : Type 0 where
  pub attempts : ℕ
  pub retrier_attempts : List RetrierAttemptState
  pub next_available_at : Option Timestamp

-- `RetryState::default()`.
abbrev pub no_retries : RetryState
no_retries = record { attempts = 0; retrier_attempts = []; next_available_at = none }

pub data TaskStatus : Type 0 where
  pending running completed failed cancelled : TaskStatus

abbrev pub is_pending : TaskStatus → Bool
is_pending pending = true
is_pending _ = false

abbrev pub is_running : TaskStatus → Bool
is_running running = true
is_running _ = false

abbrev pub is_terminal : TaskStatus → Bool
is_terminal completed = true
is_terminal failed = true
is_terminal cancelled = true
is_terminal _ = false

abbrev pub is_in_flight : TaskStatus → Bool
is_in_flight s = not (is_terminal s)

unfoldable pub phase : TaskStatus → Str
phase pending = codes "Pending"
phase running = codes "Running"
phase completed = codes "Completed"
phase failed = codes "Failed"
phase cancelled = codes "Cancelled"

pub record Task (V : Type 0) : Type 0 where
  pub meta : ObjectMeta task
  pub execution : ObjectRef execution
  pub resource : Str
  pub arguments : V
  pub status : TaskStatus
  pub deadline : Option Timestamp
  pub worker_id : Option Str
  pub lease_expires_at : Option Timestamp
  pub retry_plan : List RetryPolicy
  pub retry_state : RetryState

pub data FailureOutcome : Type 0 where
  retried terminal : FailureOutcome

-- A declined operation: the phase that the task is in, or the holder of its lease.
pub data TaskRefusal : Type 0 where
  not_in_phase : (phase : Str) → TaskRefusal
  not_leased_to : (phase : Str) (holder : Option Str) (worker : Str) → TaskRefusal

abbrev pub gate_is_open : Option Timestamp → Timestamp → Bool
gate_is_open none now = true
gate_is_open (some at) now = not (ltb now at)

abbrev pub lease_is_over : Option Timestamp → Timestamp → Bool
lease_is_over none now = false
lease_is_over (some at) now = leb at now

abbrev pub claimable : TaskStatus → Option Timestamp → Option Timestamp → Timestamp → Bool
claimable pending gate lease now = gate_is_open gate now
claimable running gate lease now = lease_is_over lease now
claimable _ gate lease now = false

-- `self.worker_id.as_deref() == Some(worker_id)`.
abbrev pub is_holder : Option Str → Str → Bool
is_holder none w = false
is_holder (some h) w = holds (Str-discrete h w)

abbrev pub is_empty : Str → Bool
is_empty [] = true
is_empty (c ∷ s) = false

-- The first retrier whose `ErrorEquals` matches, with its position.
abbrev pub find_policy :
    {V : Type 0} → ExecutionError V → ℕ → List RetryPolicy → Option (ℕ × RetryPolicy)
find_policy e i [] = none
find_policy e i (p ∷ ps) =
    if matches_error_names e p.error_equals then some (i, p) else find_policy e (i + 1) ps

abbrev pub attempts_of : Option RetrierAttemptState → ℕ
attempts_of none = 0
attempts_of (some a) = a.attempt_count

-- `retrier_attempts[index] = entry`, after growing the vector with defaults up to `index`.
unfoldable pub set_attempts :
    ℕ → RetrierAttemptState → List RetrierAttemptState → List RetrierAttemptState
set_attempts zero a [] = a ∷ []
set_attempts zero a (x ∷ xs) = a ∷ xs
set_attempts (suc i) a [] = no_attempts ∷ set_attempts i a []
set_attempts (suc i) a (x ∷ xs) = x ∷ set_attempts i a xs

abbrev pub or_now : Option Timestamp → Timestamp → Timestamp
or_now none now = now
or_now (some at) now = at

module _ {V : Type 0} where
  unfoldable pub is_claimable_at : Task V → Timestamp → Bool
  is_claimable_at t now = claimable t.status t.retry_state.next_available_at t.lease_expires_at now

  unfoldable pub claim : Str → Timestamp → Timestamp → Task V → Task V
  claim worker_id lease_expires_at at t = record t {
    status = running;
    worker_id = some worker_id;
    lease_expires_at = some lease_expires_at;
    meta = with_update_at at t.meta;
    retry_state = record t.retry_state { next_available_at = none };
  }

  unfoldable pub mark_cancelled : Timestamp → Task V → Task V × Result TaskRefusal Unit
  mark_cancelled at t =
      if is_terminal t.status
      then (t, err (not_in_phase (phase t.status)))
      else (record t { status = cancelled; meta = with_update_at at t.meta }, ok tt)

  unfoldable pub mark_completed : Str → Timestamp → Task V → Task V × Result TaskRefusal Unit
  mark_completed worker_id at t =
      if not (is_running t.status)
      then (t, err (not_in_phase (phase t.status)))
      else if is_empty worker_id || not (is_holder t.worker_id worker_id)
      then (t, err (not_leased_to (phase t.status) t.worker_id worker_id))
      else (
        record t {
          status = completed;
          worker_id = none;
          lease_expires_at = none;
          meta = with_update_at at t.meta;
        },
        ok tt,
      )

  -- The lease is released and the stamp moved, on a retry and on a terminal failure alike.
  abbrev pub released : Timestamp → Task V → Task V
  released now t = record t {
    worker_id = none;
    lease_expires_at = none;
    meta = with_update_at now t.meta;
  }

  abbrev pub fail_terminally : Task V → Task V × Result TaskRefusal FailureOutcome
  fail_terminally t = (
    record t { status = failed; retry_state = record t.retry_state { next_available_at = none } },
    ok terminal,
  )

  abbrev pub requeue :
      ℕ → ℕ → Timestamp → Timestamp → Task V → Task V × Result TaskRefusal FailureOutcome
  requeue index attempts now gate t = (
    record t {
      status = pending;
      retry_state = record {
        attempts = (t.retry_state.attempts + 1) % u32_mod;
        retrier_attempts =
            set_attempts index
              (record { attempt_count = (attempts + 1) % u32_mod; last_retry_at = some now })
              t.retry_state.retrier_attempts;
        next_available_at = some gate;
      };
    },
    ok retried,
  )

  -- What a matching retrier does, if one matches and has budget.
  unfoldable pub decide_retry :
      Floats
      → Option (ℕ × RetryPolicy)
      → Timestamp
      → Task V
      → Task V × Result TaskRefusal FailureOutcome
  decide_retry f none now t = fail_terminally t
  decide_retry f (some (index, policy)) now t =
      let attempts = attempts_of (get_elem? t.retry_state.retrier_attempts index) in
      let gate = or_now (checked_add now (backoff_for_attempt f policy attempts * 1000)) now in
      if has_budget_after policy attempts
      then requeue index attempts now gate t
      else fail_terminally t

  -- `Task::handle_failure`. An empty worker id is the engine's own report.
  unfoldable pub handle_failure :
      Floats
      → Str
      → ExecutionError V
      → Timestamp
      → Task V
      → Task V × Result TaskRefusal FailureOutcome
  handle_failure f worker_id error now t =
      if is_terminal t.status
      then (t, err (not_in_phase (phase t.status)))
      else if not (is_empty worker_id)
          && (not (is_running t.status) || not (is_holder t.worker_id worker_id))
      then (t, err (not_leased_to (phase t.status) t.worker_id worker_id))
      else decide_retry f (find_policy error 0 t.retry_plan) now (released now t)
