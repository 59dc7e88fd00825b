-- ===== src/Elements/Keeps/Settle.antt =====
-- A property that the primitive steps keep, through the reactions to a settled child
-- (crates/engine/src/elements).
use spica.Types.Meta.{ObjectRef, RawObjectRef, ObjectKind, as_raw_object_ref, activity}
use spica.Types.Meta
use spica.Types.Error.{TerminationReason}
use spica.Types.Execution.{ExecutionStatus}
use spica.Types.Execution
use spica.Types.Thread.{Thread, ThreadStatus}
use spica.Types.Thread
use spica.Elements.Interface.{Engine}
use spica.Elements.Settle.{
  converted, execution_child_completed, execution_child_terminated, open_execution, open_thread,
  run_child_completed, run_child_terminated, scope_child_completed, scope_child_terminated,
  terminate_run, terminate_scope, thread_child_completed, thread_child_terminated, typed_or_panic,
}
use spica.Elements.Keeps.{Keeps, Kept, keeps_rules, append_command-Keeps}
use spica.Elements.Handle.{Work}
use spica.Base.{Option, none, some, Result, ok, err}

module _ {V S : Type 0} {P : Work V S → Type 0} {engine : Engine V S} (kept : Kept P engine) where
  pub converted-Keeps :
      {k : ObjectKind} (x : Result Meta.KindMismatch (ObjectRef k)) → Keeps P (converted x)
  converted-Keeps (ok r) = search keeps_rules
  converted-Keeps (err e) = search keeps_rules

  pub typed_or_panic-Keeps : (k : ObjectKind) (x : RawObjectRef) → Keeps P (typed_or_panic k x)
  unfolding typed_or_panic
  typed_or_panic-Keeps k r = search (keeps_rules, converted-Keeps)

  pub open_execution-Keeps : (x : ObjectRef Meta.execution) → Keeps P (open_execution engine x)
  unfolding open_execution
  open_execution-Keeps owner = search keeps_rules

  pub run_child_completed-Keeps :
      (x : ObjectRef Meta.execution) (y : RawObjectRef) (z : ObjectKind) (u : ExecutionStatus V)
      → Keeps P (run_child_completed engine x y z u)
  run_child_completed-Keeps run child Meta.thread Execution.running =
      search (keeps_rules, append_command-Keeps)
  run_child_completed-Keeps run child Meta.thread (Execution.terminating r) =
      search (keeps_rules, append_command-Keeps)
  run_child_completed-Keeps run child kind status = search keeps_rules

  pub execution_child_completed-Keeps :
      (x : ObjectRef Meta.execution) (y : RawObjectRef)
      → Keeps P (execution_child_completed engine x y)
  unfolding execution_child_completed
  execution_child_completed-Keeps run child = search (keeps_rules, run_child_completed-Keeps)

  pub terminate_run-Keeps :
      (x : ObjectRef Meta.execution) (y : Option (TerminationReason V))
      → Keeps P (terminate_run engine x y)
  terminate_run-Keeps run none = search keeps_rules
  terminate_run-Keeps run (some reason) = search (keeps_rules, append_command-Keeps)

  pub run_child_terminated-Keeps :
      (x : ObjectRef Meta.execution) (y : RawObjectRef) (z : ObjectKind) (u : ExecutionStatus V)
      → Keeps P (run_child_terminated engine x y z u)
  run_child_terminated-Keeps run child Meta.thread Execution.running =
      search (keeps_rules, terminate_run-Keeps)
  run_child_terminated-Keeps run child Meta.thread (Execution.terminating r) =
      search (keeps_rules, append_command-Keeps)
  run_child_terminated-Keeps run child kind status = search keeps_rules

  pub execution_child_terminated-Keeps :
      (x : ObjectRef Meta.execution) (y : RawObjectRef)
      → Keeps P (execution_child_terminated engine x y)
  unfolding execution_child_terminated
  execution_child_terminated-Keeps run child = search (keeps_rules, run_child_terminated-Keeps)

  pub open_thread-Keeps : (x : ObjectRef Meta.thread) → Keeps P (open_thread engine x)
  unfolding open_thread
  open_thread-Keeps owner = search keeps_rules

  pub scope_child_completed-Keeps :
      (x : ObjectRef Meta.thread) (y : RawObjectRef) (z : ThreadStatus V)
      → Keeps P (scope_child_completed engine x y z)
  scope_child_completed-Keeps scope child Thread.running =
      search (keeps_rules, append_command-Keeps, typed_or_panic-Keeps)
  scope_child_completed-Keeps scope child Thread.completing =
      search (keeps_rules, append_command-Keeps)
  scope_child_completed-Keeps scope child (Thread.terminating r) =
      search (keeps_rules, append_command-Keeps)
  scope_child_completed-Keeps scope child Thread.completed = search keeps_rules
  scope_child_completed-Keeps scope child (Thread.terminated r) = search keeps_rules

  pub thread_child_completed-Keeps :
      (x : ObjectRef Meta.thread) (y : RawObjectRef) → Keeps P (thread_child_completed engine x y)
  unfolding thread_child_completed
  thread_child_completed-Keeps scope child = search (keeps_rules, scope_child_completed-Keeps)

  pub terminate_scope-Keeps :
      (x : ObjectRef Meta.thread) (y : Option (TerminationReason V))
      → Keeps P (terminate_scope engine x y)
  terminate_scope-Keeps scope none = search keeps_rules
  terminate_scope-Keeps scope (some reason) = search (keeps_rules, append_command-Keeps)

  pub scope_child_terminated-Keeps :
      (x : ObjectRef Meta.thread) (y : RawObjectRef) (z : ThreadStatus V)
      → Keeps P (scope_child_terminated engine x y z)
  scope_child_terminated-Keeps scope child Thread.running =
      search (keeps_rules, terminate_scope-Keeps, typed_or_panic-Keeps)
  scope_child_terminated-Keeps scope child Thread.completing =
      search (keeps_rules, append_command-Keeps)
  scope_child_terminated-Keeps scope child (Thread.terminating r) =
      search (keeps_rules, append_command-Keeps)
  scope_child_terminated-Keeps scope child Thread.completed = search keeps_rules
  scope_child_terminated-Keeps scope child (Thread.terminated r) = search keeps_rules

  pub thread_child_terminated-Keeps :
      (x : ObjectRef Meta.thread) (y : RawObjectRef) → Keeps P (thread_child_terminated engine x y)
  unfolding thread_child_terminated
  thread_child_terminated-Keeps scope child = search (keeps_rules, scope_child_terminated-Keeps)
