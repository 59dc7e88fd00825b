-- ===== src/Types/Activity.antt =====
-- crates/engine-types/src/types/activity.rs: the execution of one state, and what a container or a
-- waiting state keeps beside the shared fields.
pub mod Lifecycle
use spica.Base.{
  ℕ, Bool, true, false, ◌||◌, Option, none, some, List, if◌then◌else◌, Str, codes, Result, ok, err,
}
use spica.HashMap.{HashMap}
use spica.Machinery.Timestamp.{Timestamp}
use spica.Types.Meta.{ObjectMeta, ObjectRef, activity, execution, thread, with_update_at}
use spica.Types.Error.{TerminationReason}
use spica.Types.Execution.{Refusal, wrong_phase}
use spica.Types.Thread.{StatePath}
use spica.Types.Task.{RetryState}

pub data ActivityStatus (V : Type 0) : Type 0 where
  running completing : ActivityStatus V
  terminating : TerminationReason V → ActivityStatus V
  completed : ActivityStatus V
  terminated : TerminationReason V → ActivityStatus V

module _ {V : Type 0} where
  abbrev pub is_running : ActivityStatus V → Bool
  is_running running = true
  is_running _ = false

  abbrev pub is_completing : ActivityStatus V → Bool
  is_completing completing = true
  is_completing _ = false

  abbrev pub is_terminating : ActivityStatus V → Bool
  is_terminating (terminating r) = true
  is_terminating _ = false

  abbrev pub is_terminal : ActivityStatus V → Bool
  is_terminal completed = true
  is_terminal (terminated r) = true
  is_terminal _ = false

  unfoldable pub phase : ActivityStatus V → Str
  phase running = codes "Running"
  phase completing = codes "Completing"
  phase (terminating r) = codes "Terminating"
  phase completed = codes "Completed"
  phase (terminated r) = codes "Terminated"

-- Branch index to thread.
pub record ParallelActivityState : Type 0 where
  pub branches : HashMap ℕ (ObjectRef thread)

pub record WaitActivityState : Type 0 where
  pub resume_at : Timestamp

pub record MapActivityState (V : Type 0) : Type 0 where
  pub items : List V
  pub total : ℕ
  pub max_concurrency : ℕ
  pub children : HashMap ℕ (ObjectRef thread)

pub data ActivityState (V : Type 0) : Type 0 where
  parallel : ParallelActivityState → ActivityState V
  map_state : MapActivityState V → ActivityState V
  wait : WaitActivityState → ActivityState V

pub record Activity (V : Type 0) : Type 0 where
  pub meta : ObjectMeta activity
  pub execution : ObjectRef execution
  pub state_path : StatePath
  pub status : ActivityStatus V
  pub raw_input : V
  pub input : Option V
  pub raw_output : Option V
  pub activity_state : Option (ActivityState V)
  pub retry_state : Option RetryState
  pub output : Option V

abbrev retries : Option RetryState → ℕ
retries none = 0
retries (some r) = r.attempts

module _ {V : Type 0} where
  abbrev pub retry_count : Activity V → ℕ
  retry_count a = retries a.retry_state

  unfoldable pub mark_completing : V → Timestamp → Activity V → Activity V × Result Refusal Unit
  mark_completing raw_output at a =
      if is_running a.status
      then (
        record a {
          status = completing;
          raw_output = some raw_output;
          meta = with_update_at at a.meta;
        },
        ok tt,
      )
      else (a, err (wrong_phase (phase a.status)))

  unfoldable pub mark_completed : V → Timestamp → Activity V → Activity V × Result Refusal Unit
  mark_completed output at a =
      if is_completing a.status
      then (
        record a { status = completed; output = some output; meta = with_update_at at a.meta },
        ok tt,
      )
      else (a, err (wrong_phase (phase a.status)))

  unfoldable pub mark_terminating :
      TerminationReason V → Timestamp → Activity V → Activity V × Result Refusal Unit
  mark_terminating reason at a =
      if is_terminating a.status || is_terminal a.status
      then (a, err (wrong_phase (phase a.status)))
      else (record a { status = terminating reason; meta = with_update_at at a.meta }, ok tt)

  abbrev pub terminate_from :
      ActivityStatus V → Timestamp → Activity V → Activity V × Result Refusal Unit
  terminate_from (terminating reason) at a =
      (record a { status = terminated reason; meta = with_update_at at a.meta }, ok tt)
  terminate_from other at a = (a, err (wrong_phase (phase other)))

  unfoldable pub mark_terminated : Timestamp → Activity V → Activity V × Result Refusal Unit
  mark_terminated at a = terminate_from a.status at a
