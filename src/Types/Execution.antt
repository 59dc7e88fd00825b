-- ===== src/Types/Execution.antt =====
-- crates/engine-types/src/types/execution.rs: the top-level run and its lifecycle marks. A mark
-- takes `&mut self`: it returns the row and, when it declines, the refusal with the row untouched.
pub mod Lifecycle
use spica.Base.{Bool, true, false, Option, none, some, if◌then◌else◌, Str, codes, Result, ok, err}
use spica.Machinery.Timestamp.{Timestamp}
use spica.Types.Meta.{ObjectMeta, ObjectRef, execution, flow_version, with_update_at}
use spica.Types.Error.{TerminationReason}

pub data ExecutionStatus (V : Type 0) : Type 0 where
  running completing : ExecutionStatus V
  terminating : TerminationReason V → ExecutionStatus V
  completed : ExecutionStatus V
  terminated : TerminationReason V → ExecutionStatus V

-- A declined mark names the phase that the object is in.
pub data Refusal : Type 0 where
  wrong_phase : (phase : Str) → Refusal

module _ {V : Type 0} where
  abbrev pub is_running : ExecutionStatus V → Bool
  is_running running = true
  is_running _ = false

  abbrev pub is_completing : ExecutionStatus V → Bool
  is_completing completing = true
  is_completing _ = false

  abbrev pub is_terminating : ExecutionStatus V → Bool
  is_terminating (terminating r) = true
  is_terminating _ = false

  abbrev pub is_terminal : ExecutionStatus V → Bool
  is_terminal completed = true
  is_terminal (terminated r) = true
  is_terminal _ = false

  abbrev pub termination_reason : ExecutionStatus V → Option (TerminationReason V)
  termination_reason (terminating r) = some r
  termination_reason (terminated r) = some r
  termination_reason _ = none

  unfoldable pub phase : ExecutionStatus V → Str
  phase running = codes "Running"
  phase completing = codes "Completing"
  phase (terminating r) = codes "Terminating"
  phase completed = codes "Completed"
  phase (terminated r) = codes "Terminated"

pub record Execution (V : Type 0) : Type 0 where
  pub meta : ObjectMeta execution
  pub flow_version : ObjectRef flow_version
  pub status : ExecutionStatus V
  pub deadline : Option Timestamp
  pub input : V
  pub output : Option V

module _ {V : Type 0} where
  unfoldable pub mark_completing : V → Timestamp → Execution V → Execution V × Result Refusal Unit
  mark_completing output at e =
      if is_running e.status
      then (
        record e { status = completing; output = some output; meta = with_update_at at e.meta },
        ok tt,
      )
      else (e, err (wrong_phase (phase e.status)))

  unfoldable pub mark_completed : Timestamp → Execution V → Execution V × Result Refusal Unit
  mark_completed at e =
      if is_completing e.status
      then (record e { status = completed; meta = with_update_at at e.meta }, ok tt)
      else (e, err (wrong_phase (phase e.status)))

  unfoldable pub mark_terminating :
      TerminationReason V → Timestamp → Execution V → Execution V × Result Refusal Unit
  mark_terminating reason at e =
      if is_running e.status
      then (record e { status = terminating reason; meta = with_update_at at e.meta }, ok tt)
      else (e, err (wrong_phase (phase e.status)))

  abbrev terminate_from :
      ExecutionStatus V → Timestamp → Execution V → Execution V × Result Refusal Unit
  terminate_from (terminating reason) at e =
      (record e { status = terminated reason; meta = with_update_at at e.meta }, ok tt)
  terminate_from other at e = (e, err (wrong_phase (phase other)))

  unfoldable pub mark_terminated : Timestamp → Execution V → Execution V × Result Refusal Unit
  mark_terminated at e = terminate_from e.status at e
