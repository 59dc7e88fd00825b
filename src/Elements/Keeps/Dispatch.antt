-- ===== src/Elements/Keeps/Dispatch.antt =====
-- A property that the primitive steps keep, through the dispatch of a command
-- (crates/engine/src/handlers).
use spica.Machinery.Timestamp.{Timestamp}
use spica.Types.Meta.{RawObjectRef, ObjectKind}
use spica.Types.Meta
use spica.Types.Deadline.{DeadlineTarget}
use spica.Types.Deadline
use spica.Types.Command.{Command}
use spica.Elements.Interface.{Engine}
use spica.Elements.Dispatch.{
  continue_complete, continue_complete_kind, continue_terminate, continue_terminate_kind,
  dispatch_command, fire_deadline,
}
use spica.Elements.Keeps.Settle.{open_execution-Keeps}
use spica.Elements.Keeps.Activity.{
  open_activity-Keeps, activity_deadline_fired-Keeps, continue_terminate_activity-Keeps,
  continue_complete_activity-Keeps, activate_state-Keeps, complete_state-Keeps,
  terminate_state-Keeps,
}
use spica.Elements.Keeps.Thread.{
  terminate_thread-Keeps, complete_thread-Keeps, continue_terminate_thread-Keeps,
  continue_complete_thread-Keeps, spawn_thread-Keeps,
}
use spica.Elements.Keeps.Execution.{
  execution_deadline_fired-Keeps, terminate_execution-Keeps, complete_execution-Keeps,
  continue_terminate_execution-Keeps, continue_complete_execution-Keeps, create_execution-Keeps,
}
use spica.Elements.Keeps.Task.{
  activate_task-Keeps, complete_task-Keeps, fail_task-Keeps, cancel_task-Keeps, claim_tasks-Keeps,
}
use spica.Elements.Keeps.Flow.{create_flow-Keeps}
use spica.Elements.Keeps.{Keeps, Kept, keeps_rules}
use spica.Elements.Handle.{Work}
use spica.Base.{Str}

module _ {V S : Type 0} {P : Work V S → Type 0} {engine : Engine V S} (reason : Str)
    (kept : Kept P engine) where
  pub fire_deadline-Keeps :
      (x : DeadlineTarget) (y : Timestamp) → Keeps P (fire_deadline engine reason x y)
  unfolding fire_deadline
  fire_deadline-Keeps (Deadline.execution r) deadline =
      search (keeps_rules, execution_deadline_fired-Keeps, open_execution-Keeps) depth 12
  fire_deadline-Keeps (Deadline.activity r) deadline =
      search (keeps_rules, activity_deadline_fired-Keeps, open_activity-Keeps) depth 12

  pub continue_complete_kind-Keeps :
      (x : RawObjectRef) (y : ObjectKind) → Keeps P (continue_complete_kind engine reason x y)
  continue_complete_kind-Keeps r Meta.activity =
      search (keeps_rules, continue_complete_activity-Keeps) depth 12
  continue_complete_kind-Keeps r Meta.thread =
      search (keeps_rules, continue_complete_thread-Keeps) depth 12
  continue_complete_kind-Keeps r Meta.execution =
      search (keeps_rules, continue_complete_execution-Keeps) depth 12
  continue_complete_kind-Keeps r kind = search keeps_rules

  pub continue_complete-Keeps : (x : RawObjectRef) → Keeps P (continue_complete engine reason x)
  unfolding continue_complete
  continue_complete-Keeps r = search (keeps_rules, continue_complete_kind-Keeps) depth 12

  pub continue_terminate_kind-Keeps :
      (x : RawObjectRef) (y : ObjectKind) → Keeps P (continue_terminate_kind engine reason x y)
  continue_terminate_kind-Keeps r Meta.activity =
      search (keeps_rules, continue_terminate_activity-Keeps) depth 12
  continue_terminate_kind-Keeps r Meta.thread =
      search (keeps_rules, continue_terminate_thread-Keeps) depth 12
  continue_terminate_kind-Keeps r Meta.execution =
      search (keeps_rules, continue_terminate_execution-Keeps) depth 12
  continue_terminate_kind-Keeps r kind = search keeps_rules

  pub continue_terminate-Keeps : (x : RawObjectRef) → Keeps P (continue_terminate engine reason x)
  unfolding continue_terminate
  continue_terminate-Keeps r = search (keeps_rules, continue_terminate_kind-Keeps) depth 12

  pub dispatch_command-Keeps : (x : Command V) → Keeps P (dispatch_command engine reason x)
  unfolding dispatch_command
  dispatch_command-Keeps (Command.create_flow p) = search (keeps_rules, create_flow-Keeps) depth 12
  dispatch_command-Keeps (Command.create_execution p) =
      search (keeps_rules, create_execution-Keeps) depth 12
  dispatch_command-Keeps (Command.spawn_thread p) =
      search (keeps_rules, spawn_thread-Keeps) depth 12
  dispatch_command-Keeps (Command.complete_execution r v) =
      search (keeps_rules, complete_execution-Keeps) depth 12
  dispatch_command-Keeps (Command.complete_thread r v) =
      search (keeps_rules, complete_thread-Keeps) depth 12
  dispatch_command-Keeps (Command.terminate_execution n u t) =
      search (keeps_rules, terminate_execution-Keeps) depth 12
  dispatch_command-Keeps (Command.terminate_thread r t) =
      search (keeps_rules, terminate_thread-Keeps) depth 12
  dispatch_command-Keeps (Command.activate_state p) =
      search (keeps_rules, activate_state-Keeps) depth 12
  dispatch_command-Keeps (Command.complete_state r v) =
      search (keeps_rules, complete_state-Keeps) depth 12
  dispatch_command-Keeps (Command.terminate_state r t) =
      search (keeps_rules, terminate_state-Keeps) depth 12
  dispatch_command-Keeps (Command.activate_task p) =
      search (keeps_rules, activate_task-Keeps) depth 12
  dispatch_command-Keeps (Command.claim_tasks p) = search (keeps_rules, claim_tasks-Keeps) depth 12
  dispatch_command-Keeps (Command.complete_task p) =
      search (keeps_rules, complete_task-Keeps) depth 12
  dispatch_command-Keeps (Command.fail_task p) = search (keeps_rules, fail_task-Keeps) depth 12
  dispatch_command-Keeps (Command.trigger_deadline target deadline) =
      search (keeps_rules, fire_deadline-Keeps) depth 12
  dispatch_command-Keeps (Command.cancel_task r) = search (keeps_rules, cancel_task-Keeps) depth 12
  dispatch_command-Keeps (Command.continue_complete owner) =
      search (keeps_rules, continue_complete-Keeps) depth 12
  dispatch_command-Keeps (Command.continue_terminate owner) =
      search (keeps_rules, continue_terminate-Keeps) depth 12
