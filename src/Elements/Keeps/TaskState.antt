-- ===== src/Elements/Keeps/TaskState.antt =====
-- A property that the primitive steps keep, through the state `Task` (crates/engine/src/elements).
use spica.Machinery.Timestamp.{Timestamp}
use spica.Types.Meta.{
  ObjectRef, RawObjectRef, ObjectKind, object_ref, raw_object_ref, with_update_at,
}
use spica.Types.Meta
use spica.Types.Error.{ExecutionError}
use spica.Types.Event.{Variables}
use spica.Types.Activity.{Activity}
use spica.Asl.{TaskState, Catcher, IntOrExpr, int}
use spica.Elements.Interface.{Engine}
use spica.Elements.States.Task.{
  cancel_tasks, catch_failure, catch_output, catch_with, caught_with_error, invoke, land_caught,
  resolve_task_deadline, settle_by_kind, task_child_completed, task_completing, task_terminating,
  terminate_pending,
}
use spica.Elements.Keeps.Expression.{eval_string_or_expr-Keeps}
use spica.Elements.Keeps.StateHandler.{fail_state-Keeps, apply_assign-Keeps}
use spica.Elements.Keeps.Finish.{process-Keeps, finish_result-Keeps, land_terminated-Keeps}
use spica.Elements.Keeps.{
  Keeps, Kept, keeps_rules, append_command-Keeps, event-Keeps, now-Keeps, mint-Keeps, seq-Keeps,
}
use spica.Elements.Handle.{Work}
use spica.Base.{Option, none, some, List, [], ◌∷◌, Result, ok, err}

module _ {V S : Type 0} {P : Work V S → Type 0} {engine : Engine V S} (kept : Kept P engine) where
  pub resolve_task_deadline-Keeps :
      (x : Option IntOrExpr) (y : Variables V) (z : V) (u : Timestamp)
      → Keeps P (resolve_task_deadline engine x y z u)
  unfolding resolve_task_deadline
  resolve_task_deadline-Keeps none variables states at = search keeps_rules
  resolve_task_deadline-Keeps (some (int n)) variables states at = search keeps_rules
  resolve_task_deadline-Keeps (some (IntOrExpr.expr text)) variables states at =
      search (keeps_rules, eval_string_or_expr-Keeps) depth 12

  pub invoke-Keeps :
      (x : TaskState V) (y : Activity V) (z : Variables V) (u : V) → Keeps P (invoke engine x y z u)
  unfolding invoke
  invoke-Keeps s a variables states =
      search
        (
          keeps_rules, now-Keeps, mint-Keeps, seq-Keeps, append_command-Keeps,
          resolve_task_deadline-Keeps,
        )
        depth 12

  pub settle_by_kind-Keeps :
      (x : ObjectRef Meta.activity) (y : Activity V) (z : ObjectKind)
      → Keeps P (settle_by_kind engine x y z)
  settle_by_kind-Keeps activity a Meta.task = search (keeps_rules, append_command-Keeps) depth 12
  settle_by_kind-Keeps activity a kind = search keeps_rules

  pub task_child_completed-Keeps :
      (x : ObjectRef Meta.activity) (y : Activity V) (z : RawObjectRef)
      → Keeps P (task_child_completed engine x y z)
  unfolding task_child_completed
  task_child_completed-Keeps activity a child = search (keeps_rules, settle_by_kind-Keeps) depth 12

  pub task_completing-Keeps :
      (x : TaskState V) (y : Activity V) (z : Variables V) → Keeps P (task_completing engine x y z)
  unfolding task_completing
  task_completing-Keeps s a variables =
      search (keeps_rules, finish_result-Keeps, process-Keeps) depth 12

  pub cancel_tasks-Keeps : (x : List (ObjectRef Meta.task)) → Keeps P (cancel_tasks engine x)
  cancel_tasks-Keeps = search (keeps_rules, append_command-Keeps) depth 12

  pub terminate_pending-Keeps :
      (x : Activity V) (y : List (ObjectRef Meta.task)) → Keeps P (terminate_pending engine x y)
  terminate_pending-Keeps a [] = search (keeps_rules, land_terminated-Keeps) depth 12
  terminate_pending-Keeps a (r ∷ rs) = search (keeps_rules, cancel_tasks-Keeps) depth 12

  pub task_terminating-Keeps : (x : Activity V) → Keeps P (task_terminating engine x)
  unfolding task_terminating
  task_terminating-Keeps a = search (keeps_rules, terminate_pending-Keeps) depth 12

  pub land_caught-Keeps :
      (x : Activity V) (y : Catcher V) (z : V) → Keeps P (land_caught engine x y z)
  land_caught-Keeps a c output =
      search (keeps_rules, event-Keeps, now-Keeps, append_command-Keeps, cancel_tasks-Keeps) depth
        12

  pub caught_with_error-Keeps :
      (x : Activity V) (y : ExecutionError V) → Keeps P (caught_with_error engine x y)
  caught_with_error-Keeps a e = search (keeps_rules, fail_state-Keeps) depth 12

  pub catch_output-Keeps :
      (x : Activity V) (y : Catcher V) (z : V) (u : Result (ExecutionError V) (Variables V))
      → Keeps P (catch_output engine x y z u)
  catch_output-Keeps a c states (err e) = search (keeps_rules, caught_with_error-Keeps) depth 12
  catch_output-Keeps a c states (ok scope) =
      search (keeps_rules, caught_with_error-Keeps, land_caught-Keeps) depth 12

  pub catch_with-Keeps :
      (x : Activity V) (y : ExecutionError V) (z : Option (Catcher V))
      → Keeps P (catch_with engine x y z)
  catch_with-Keeps a e none = search keeps_rules
  catch_with-Keeps a e (some c) =
      search (keeps_rules, apply_assign-Keeps, catch_output-Keeps) depth 12

  pub catch_failure-Keeps :
      (x : TaskState V) (y : Activity V) (z : ExecutionError V)
      → Keeps P (catch_failure engine x y z)
  unfolding catch_failure
  catch_failure-Keeps s a e = search (keeps_rules, catch_with-Keeps) depth 12
