-- ===== src/Elements/Settle.antt =====
-- The `Container` implementations of crates/engine/src/elements/execution.rs and thread.rs: how a run
-- and a thread react to a child that settled.
use spica.Types.Meta.{ObjectRef, RawObjectRef, ObjectKind, as_raw_object_ref, activity}
use spica.Types.Meta
use spica.Types.Error.{StorageError, TerminationReason, not_found, invalid_state}
use spica.Types.Command
use spica.Types.Execution.{ExecutionStatus}
use spica.Types.Execution
use spica.Types.Thread.{Thread, ThreadStatus}
use spica.Types.Thread
use spica.Types.Activity.{Activity, ActivityStatus}
use spica.Types.Activity
use spica.Elements.Interface.{Engine}
use spica.Elements.Handle.{
  Handle, pure, stop, panic, refuse, read, try_read, some_or_refuse, append_command, ◌>>=◌,
}
use spica.Base.{Option, none, some, Result, ok, err}

-- `RawObjectRef::typed`, of a reference whose kind the caller has matched.
abbrev pub typed : (k : ObjectKind) → RawObjectRef → ObjectRef k
typed k r = record { name = r.name; uid = r.uid }

module _ {V S : Type 0} where
  abbrev pub converted :
      {k : ObjectKind} → Result Meta.KindMismatch (ObjectRef k) → Handle V S (ObjectRef k)
  converted (ok r) = pure r
  converted (err e) = stop panic

  -- `RawObjectRef::typed`, of any reference: another kind panics.
  unfoldable pub typed_or_panic : (k : ObjectKind) → RawObjectRef → Handle V S (ObjectRef k)
  typed_or_panic k r = converted (Meta.try_from k r)

abbrev pub or_else {ℓ} : {A : Type ℓ} → A → Option A → A
or_else d none = d
or_else d (some a) = a

module _ {V : Type 0} where
  -- The output of a settled root thread; a failed read counts as no output.
  abbrev pub thread_output : V → Result StorageError (Option (Thread V)) → V
  thread_output null (ok (some t)) = or_else null t.output
  thread_output null (ok none) = null
  thread_output null (err e) = null

  abbrev pub activity_output : V → Option (Activity V) → V
  activity_output null none = null
  activity_output null (some a) = or_else null a.output

  -- `ThreadStatus::termination_reason`.
  abbrev pub termination_reason : ThreadStatus V → Option (TerminationReason V)
  termination_reason (Thread.terminating r) = some r
  termination_reason (Thread.terminated r) = some r
  termination_reason _ = none

  abbrev pub thread_reason : Result StorageError (Option (Thread V)) → Option (TerminationReason V)
  thread_reason (ok (some t)) = termination_reason t.status
  thread_reason (ok none) = none
  thread_reason (err e) = none

  abbrev pub terminated_reason : ActivityStatus V → Option (TerminationReason V)
  terminated_reason (Activity.terminated r) = some r
  terminated_reason _ = none

  abbrev pub activity_reason : Option (Activity V) → Option (TerminationReason V)
  activity_reason none = none
  activity_reason (some a) = terminated_reason a.status

module _ {V S : Type 0} (engine : Engine V S) where
  open engine use {storage, json}

  -- `ExecutionElementBehavior::open`.
  unfoldable pub open_execution : ObjectRef Meta.execution → Handle V S (ObjectRef Meta.execution)
  open_execution owner = do
    found ← read (storage.get_execution owner)
    row ← some_or_refuse not_found found
    pure owner

  abbrev pub run_child_completed :
      ObjectRef Meta.execution → RawObjectRef → ObjectKind → ExecutionStatus V → Handle V S Unit
  run_child_completed run child Meta.thread Execution.running = do
    found ← try_read (storage.get_thread (typed Meta.thread child))
    append_command engine (Command.complete_execution run (thread_output json.null found))
  run_child_completed run child Meta.thread (Execution.terminating r) =
      append_command engine (Command.continue_terminate (as_raw_object_ref run))
  run_child_completed run child kind status = refuse invalid_state

  -- `after_child_completed` of an execution.
  unfoldable pub execution_child_completed :
      ObjectRef Meta.execution → RawObjectRef → Handle V S Unit
  execution_child_completed run child = do
    found ← read (storage.get_execution run)
    exec ← some_or_refuse invalid_state found
    run_child_completed run child child.kind exec.status

  abbrev pub terminate_run :
      ObjectRef Meta.execution → Option (TerminationReason V) → Handle V S Unit
  terminate_run run none = pure tt
  terminate_run run (some reason) =
      append_command engine (Command.terminate_execution run.name (some run.uid) reason)

  abbrev pub run_child_terminated :
      ObjectRef Meta.execution → RawObjectRef → ObjectKind → ExecutionStatus V → Handle V S Unit
  run_child_terminated run child Meta.thread Execution.running = do
    found ← try_read (storage.get_thread (typed Meta.thread child))
    terminate_run run (thread_reason found)
  run_child_terminated run child Meta.thread (Execution.terminating r) =
      append_command engine (Command.continue_terminate (as_raw_object_ref run))
  run_child_terminated run child kind status = refuse invalid_state

  -- `after_child_terminated` of an execution.
  unfoldable pub execution_child_terminated :
      ObjectRef Meta.execution → RawObjectRef → Handle V S Unit
  execution_child_terminated run child = do
    found ← read (storage.get_execution run)
    exec ← some_or_refuse invalid_state found
    run_child_terminated run child child.kind exec.status

  -- `ThreadElementBehavior::open`.
  unfoldable pub open_thread : ObjectRef Meta.thread → Handle V S (ObjectRef Meta.thread)
  open_thread owner = do
    found ← read (storage.get_thread owner)
    row ← some_or_refuse not_found found
    pure owner

  abbrev pub scope_child_completed :
      ObjectRef Meta.thread → RawObjectRef → ThreadStatus V → Handle V S Unit
  scope_child_completed scope child Thread.running = do
    r ← typed_or_panic activity child
    found ← read (storage.get_activity r)
    append_command engine (Command.complete_thread scope (activity_output json.null found))
  scope_child_completed scope child Thread.completing =
      append_command engine (Command.continue_complete (as_raw_object_ref scope))
  scope_child_completed scope child (Thread.terminating r) =
      append_command engine (Command.continue_terminate (as_raw_object_ref scope))
  scope_child_completed scope child Thread.completed = refuse invalid_state
  scope_child_completed scope child (Thread.terminated r) = refuse invalid_state

  -- `after_child_completed` of a thread.
  unfoldable pub thread_child_completed : ObjectRef Meta.thread → RawObjectRef → Handle V S Unit
  thread_child_completed scope child = do
    found ← read (storage.get_thread scope)
    row ← some_or_refuse invalid_state found
    scope_child_completed scope child row.status

  abbrev pub terminate_scope :
      ObjectRef Meta.thread → Option (TerminationReason V) → Handle V S Unit
  terminate_scope scope none = pure tt
  terminate_scope scope (some reason) =
      append_command engine (Command.terminate_thread scope reason)

  abbrev pub scope_child_terminated :
      ObjectRef Meta.thread → RawObjectRef → ThreadStatus V → Handle V S Unit
  scope_child_terminated scope child Thread.running = do
    r ← typed_or_panic activity child
    found ← read (storage.get_activity r)
    terminate_scope scope (activity_reason found)
  scope_child_terminated scope child Thread.completing =
      append_command engine (Command.continue_complete (as_raw_object_ref scope))
  scope_child_terminated scope child (Thread.terminating r) =
      append_command engine (Command.continue_terminate (as_raw_object_ref scope))
  scope_child_terminated scope child Thread.completed = refuse invalid_state
  scope_child_terminated scope child (Thread.terminated r) = refuse invalid_state

  -- `after_child_terminated` of a thread.
  unfoldable pub thread_child_terminated : ObjectRef Meta.thread → RawObjectRef → Handle V S Unit
  thread_child_terminated scope child = do
    found ← read (storage.get_thread scope)
    row ← some_or_refuse invalid_state found
    scope_child_terminated scope child row.status
