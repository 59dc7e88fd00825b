-- ===== src/Elements/Keeps/Task.antt =====
-- A property that the primitive steps keep, through the commands on a task
-- (crates/engine/src/elements).
use spica.Types.Meta.{ObjectRef, as_raw_object_ref}
use spica.Types.Meta
use spica.Types.Error.{ExecutionError}
use spica.Types.Command.{ActivateTask, ClaimTasks, CompleteTask, FailTask}
use spica.Types.Task.{Task, TaskRefusal, FailureOutcome, retried, terminal}
use spica.Elements.Interface.{Engine}
use spica.Elements.Task.{
  activate_task, cancel_task, claim_tasks, complete_task, fail_task, route_failure,
}
use spica.Elements.Keeps.StateHandler.{marked-Keeps}
use spica.Elements.Keeps.Activity.{open_activity-Keeps, activity_child_settled-Keeps}
use spica.Elements.Keeps.{Keeps, Kept, keeps_rules, append_command-Keeps, event-Keeps, now-Keeps}
use spica.Elements.Handle.{Work}
use spica.Base.{Result, ok, err}

module _ {V S : Type 0} {P : Work V S → Type 0} {engine : Engine V S} (kept : Kept P engine) where
  pub activate_task-Keeps : (x : ActivateTask V) → Keeps P (activate_task engine x)
  unfolding activate_task
  activate_task-Keeps p = search (keeps_rules, event-Keeps, now-Keeps) depth 12

  pub complete_task-Keeps : (x : CompleteTask V) → Keeps P (complete_task engine x)
  unfolding complete_task
  complete_task-Keeps p =
      search
        (
          keeps_rules, event-Keeps, now-Keeps, activity_child_settled-Keeps, marked-Keeps,
          open_activity-Keeps,
        )
        depth 12

  pub route_failure-Keeps :
      (x : Task V) (y : ExecutionError V) (z : Task V × Result TaskRefusal FailureOutcome)
      → Keeps P (route_failure engine x y z)
  route_failure-Keeps row e (t, err why) = search keeps_rules
  route_failure-Keeps row e (t, ok retried) = search (keeps_rules, event-Keeps) depth 12
  route_failure-Keeps row e (t, ok terminal) =
      search (keeps_rules, event-Keeps, append_command-Keeps) depth 12

  pub fail_task-Keeps : (x : FailTask V) → Keeps P (fail_task engine x)
  unfolding fail_task
  fail_task-Keeps p = search (keeps_rules, now-Keeps, route_failure-Keeps) depth 12

  pub cancel_task-Keeps : (x : ObjectRef Meta.task) → Keeps P (cancel_task engine x)
  unfolding cancel_task
  cancel_task-Keeps task =
      search
        (
          keeps_rules, event-Keeps, now-Keeps, activity_child_settled-Keeps, marked-Keeps,
          open_activity-Keeps,
        )
        depth 12

  pub claim_tasks-Keeps : (x : ClaimTasks) → Keeps P (claim_tasks engine x)
  unfolding claim_tasks
  claim_tasks-Keeps p = search (keeps_rules, event-Keeps, now-Keeps) depth 12
