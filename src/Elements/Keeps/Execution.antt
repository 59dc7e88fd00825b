-- ===== src/Elements/Keeps/Execution.antt =====
-- A property that the primitive steps keep, through the commands on a run
-- (crates/engine/src/elements).
use spica.Machinery.Timestamp.{Timestamp}
use spica.Machinery.Name.{ObjectName}
use spica.Types.Meta.{
  ObjectRef, RawObjectRef, ObjectKind, Ulid, no_owner, execution_owner, raw_object_ref,
  as_raw_object_ref,
}
use spica.Types.Meta
use spica.Types.Error.{TerminationReason, StorageError, ExecutionError}
use spica.Types.Command.{CreateExecution}
use spica.Types.Execution.{
  Execution, ExecutionStatus, is_terminating, is_completing, mark_completing, mark_completed,
  mark_terminating, mark_terminated, Refusal,
}
use spica.Types.Execution
use spica.Asl.{StateMachine}
use spica.Elements.Interface.{Engine}
use spica.Elements.Execution.{
  cancel_root, check_incarnation, complete_drained, complete_execution, continue_complete_execution,
  continue_terminate_execution, create_execution, deadline_of, end_completing, end_terminating,
  execution_deadline_fired, expect_marked, expire_run, or_invalid, refuse_existing, run_deadline,
  sweep_roots, terminate_drained, terminate_execution,
}
use spica.Elements.Keeps.Context.{machine-Keeps}
use spica.Elements.Keeps.StateHandler.{marked-Keeps}
use spica.Elements.Keeps.Finish.{debug_mark-Keeps}
use spica.Elements.Keeps.{
  Keeps, Kept, keeps_rules, append_command-Keeps, event-Keeps, now-Keeps, mint-Keeps, seq-Keeps,
}
use spica.Elements.Handle.{Work}
use spica.Base.{zero, suc, Option, none, some, List, [], ◌∷◌, Result, ok, err, ℤ, pos, negsuc}

module _ {V S : Type 0} {P : Work V S → Type 0} {engine : Engine V S} (kept : Kept P engine) where
  pub expire_run-Keeps :
      (x : ObjectRef Meta.execution) (y : Timestamp) (z : ExecutionStatus V)
      → Keeps P (expire_run engine x y z)
  expire_run-Keeps r deadline Execution.running =
      search (keeps_rules, append_command-Keeps) depth 12
  expire_run-Keeps r deadline Execution.completing =
      search (keeps_rules, append_command-Keeps) depth 12
  expire_run-Keeps r deadline (Execution.terminating reason) =
      search (keeps_rules, append_command-Keeps) depth 12
  expire_run-Keeps r deadline Execution.completed = search keeps_rules
  expire_run-Keeps r deadline (Execution.terminated reason) = search keeps_rules

  pub execution_deadline_fired-Keeps :
      (x : ObjectRef Meta.execution) (y : Timestamp) → Keeps P (execution_deadline_fired engine x y)
  unfolding execution_deadline_fired
  execution_deadline_fired-Keeps r deadline = search (keeps_rules, expire_run-Keeps) depth 12

  pub check_incarnation-Keeps :
      (x : Option Ulid) (y : Ulid) → Keeps P (check_incarnation engine x y)
  check_incarnation-Keeps none uid = search keeps_rules
  check_incarnation-Keeps (some want) uid = search keeps_rules

  pub cancel_root-Keeps : (x : RawObjectRef) (y : ObjectKind) → Keeps P (cancel_root engine x y)
  cancel_root-Keeps child Meta.thread = search (keeps_rules, append_command-Keeps) depth 12
  cancel_root-Keeps child kind = search keeps_rules

  pub sweep_roots-Keeps : (x : List RawObjectRef) → Keeps P (sweep_roots engine x)
  unfolding sweep_roots
  sweep_roots-Keeps = search (keeps_rules, cancel_root-Keeps) depth 12

  pub expect_marked-Keeps :
      (x : Execution V × Result Refusal Unit) → Keeps P (expect_marked engine x)
  expect_marked-Keeps (e, ok u) = search keeps_rules
  expect_marked-Keeps (e, err x) = search keeps_rules

  pub terminate_drained-Keeps :
      (x : Execution V) (y : List RawObjectRef) → Keeps P (terminate_drained engine x y)
  terminate_drained-Keeps exec [] =
      search (keeps_rules, event-Keeps, now-Keeps, expect_marked-Keeps) depth 12
  terminate_drained-Keeps exec (c ∷ cs) = search (keeps_rules, sweep_roots-Keeps) depth 12

  pub terminate_execution-Keeps :
      (x : ObjectName) (y : Option Ulid) (z : TerminationReason V)
      → Keeps P (terminate_execution engine x y z)
  unfolding terminate_execution
  terminate_execution-Keeps name uid reason =
      search
        (
          keeps_rules, event-Keeps, now-Keeps, check_incarnation-Keeps, marked-Keeps,
          terminate_drained-Keeps,
        )
        depth 12

  pub complete_drained-Keeps :
      (x : Execution V) (y : List RawObjectRef) → Keeps P (complete_drained engine x y)
  complete_drained-Keeps exec [] = search (keeps_rules, event-Keeps, debug_mark-Keeps) depth 12
  complete_drained-Keeps exec (c ∷ cs) = search keeps_rules

  pub complete_execution-Keeps :
      (x : ObjectRef Meta.execution) (y : V) → Keeps P (complete_execution engine x y)
  unfolding complete_execution
  complete_execution-Keeps execution output =
      search (keeps_rules, event-Keeps, now-Keeps, complete_drained-Keeps, marked-Keeps) depth 12

  pub end_terminating-Keeps :
      (x : Execution V) (y : List RawObjectRef) → Keeps P (end_terminating engine x y)
  end_terminating-Keeps exec [] =
      search (keeps_rules, event-Keeps, now-Keeps, marked-Keeps) depth 12
  end_terminating-Keeps exec (c ∷ cs) = search (keeps_rules, sweep_roots-Keeps) depth 12

  pub continue_terminate_execution-Keeps :
      (x : ObjectRef Meta.execution) → Keeps P (continue_terminate_execution engine x)
  unfolding continue_terminate_execution
  continue_terminate_execution-Keeps node = search (keeps_rules, end_terminating-Keeps) depth 12

  pub end_completing-Keeps :
      (x : Execution V) (y : List RawObjectRef) → Keeps P (end_completing engine x y)
  end_completing-Keeps exec [] = search (keeps_rules, event-Keeps, now-Keeps, marked-Keeps) depth 12
  end_completing-Keeps exec (c ∷ cs) = search keeps_rules

  pub continue_complete_execution-Keeps :
      (x : ObjectRef Meta.execution) → Keeps P (continue_complete_execution engine x)
  unfolding continue_complete_execution
  continue_complete_execution-Keeps node = search (keeps_rules, end_completing-Keeps) depth 12

  pub refuse_existing-Keeps :
      (x : Result StorageError (Option (Execution V))) → Keeps P (refuse_existing engine x)
  refuse_existing-Keeps (ok (some e)) = search keeps_rules
  refuse_existing-Keeps (ok none) = search keeps_rules
  refuse_existing-Keeps (err e) = search keeps_rules

  pub or_invalid-Keeps :
      (x : Result (ExecutionError V) (StateMachine V)) → Keeps P (or_invalid engine x)
  or_invalid-Keeps (ok m) = search keeps_rules
  or_invalid-Keeps (err e) = search keeps_rules

  pub deadline_of-Keeps : (x : Option Timestamp) → Keeps P (deadline_of engine x)
  deadline_of-Keeps none = search keeps_rules
  deadline_of-Keeps (some at) = search keeps_rules

  pub run_deadline-Keeps : (x : Option ℤ) → Keeps P (run_deadline engine x)
  unfolding run_deadline
  run_deadline-Keeps none = search keeps_rules
  run_deadline-Keeps (some (negsuc n)) = search keeps_rules
  run_deadline-Keeps (some (pos zero)) = search keeps_rules
  run_deadline-Keeps (some (pos (suc n))) =
      search (keeps_rules, now-Keeps, deadline_of-Keeps) depth 12

  pub create_execution-Keeps : (x : CreateExecution V) → Keeps P (create_execution engine x)
  unfolding create_execution
  create_execution-Keeps p =
      search
        (
          keeps_rules, event-Keeps, now-Keeps, mint-Keeps, seq-Keeps, append_command-Keeps,
          machine-Keeps, or_invalid-Keeps, refuse_existing-Keeps, run_deadline-Keeps,
        )
        depth 30
