-- ===== src/Elements/Dispatch.antt =====
-- crates/engine/src/handlers: dispatch.rs, continue_complete.rs and continue_terminate.rs: a command
-- goes to its handler.
use spica.Machinery.Timestamp.{Timestamp}
use spica.Types.Meta.{RawObjectRef, ObjectKind}
use spica.Types.Meta
use spica.Types.Deadline.{DeadlineTarget}
use spica.Types.Deadline
use spica.Types.Command.{Command}
use spica.Elements.Interface.{Engine}
use spica.Elements.Handle.{Handle, stop, panic, ◌>>=◌}
use spica.Elements.Settle.{typed, open_execution}
use spica.Elements.Activity.{
  open_activity, activity_deadline_fired, continue_complete_activity, continue_terminate_activity,
  activate_state, complete_state, terminate_state,
}
use spica.Elements.Thread.{
  terminate_thread, complete_thread, continue_complete_thread, continue_terminate_thread,
  spawn_thread,
}
use spica.Elements.Execution.{
  execution_deadline_fired, terminate_execution, complete_execution, continue_complete_execution,
  continue_terminate_execution, create_execution,
}
use spica.Elements.Task.{activate_task, complete_task, fail_task, cancel_task, claim_tasks}
use spica.Elements.Flow.{create_flow}
use spica.Base.{Str}

module _ {V S : Type 0} (engine : Engine V S) (reason : Str) where
  -- `fire_deadline`.
  unfoldable pub fire_deadline : DeadlineTarget → Timestamp → Handle V S Unit
  fire_deadline (Deadline.execution r) deadline = do
    container ← open_execution engine r
    execution_deadline_fired engine container deadline
  fire_deadline (Deadline.activity r) deadline = do
    container ← open_activity engine r
    activity_deadline_fired engine container deadline

  abbrev pub continue_complete_kind : RawObjectRef → ObjectKind → Handle V S Unit
  continue_complete_kind r Meta.activity = continue_complete_activity engine (typed Meta.activity r)
  continue_complete_kind r Meta.thread = continue_complete_thread engine (typed Meta.thread r)
  continue_complete_kind r Meta.execution =
      continue_complete_execution engine (typed Meta.execution r)
  continue_complete_kind r kind = stop panic

  -- `ContinueCompleteHandler::handle`.
  unfoldable pub continue_complete : RawObjectRef → Handle V S Unit
  continue_complete r = continue_complete_kind r r.kind

  abbrev pub continue_terminate_kind : RawObjectRef → ObjectKind → Handle V S Unit
  continue_terminate_kind r Meta.activity =
      continue_terminate_activity engine (typed Meta.activity r)
  continue_terminate_kind r Meta.thread = continue_terminate_thread engine (typed Meta.thread r)
  continue_terminate_kind r Meta.execution =
      continue_terminate_execution engine (typed Meta.execution r)
  continue_terminate_kind r kind = stop panic

  -- `ContinueTerminateHandler::handle`.
  unfoldable pub continue_terminate : RawObjectRef → Handle V S Unit
  continue_terminate r = continue_terminate_kind r r.kind

  -- `dispatch_command`.
  unfoldable pub dispatch_command : Command V → Handle V S Unit
  dispatch_command (Command.create_flow p) = create_flow engine reason p
  dispatch_command (Command.create_execution p) = create_execution engine p
  dispatch_command (Command.spawn_thread p) = spawn_thread engine p
  dispatch_command (Command.complete_execution r v) = complete_execution engine r v
  dispatch_command (Command.complete_thread r v) = complete_thread engine r v
  dispatch_command (Command.terminate_execution n u t) = terminate_execution engine n u t
  dispatch_command (Command.terminate_thread r t) = terminate_thread engine r t
  dispatch_command (Command.activate_state p) = activate_state engine p
  dispatch_command (Command.complete_state r v) = complete_state engine r v
  dispatch_command (Command.terminate_state r t) = terminate_state engine r t
  dispatch_command (Command.activate_task p) = activate_task engine p
  dispatch_command (Command.claim_tasks p) = claim_tasks engine p
  dispatch_command (Command.complete_task p) = complete_task engine p
  dispatch_command (Command.fail_task p) = fail_task engine p
  dispatch_command (Command.trigger_deadline target deadline) = fire_deadline target deadline
  dispatch_command (Command.cancel_task r) = cancel_task engine r
  dispatch_command (Command.continue_complete owner) = continue_complete owner
  dispatch_command (Command.continue_terminate owner) = continue_terminate owner
