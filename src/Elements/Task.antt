-- ===== src/Elements/Task.antt =====
-- crates/engine/src/elements/task.rs: what a worker asks of a task, and its cancellation.
use spica.Machinery.Timestamp.{checked_add}
use spica.Types.Meta.{ObjectRef, as_raw_object_ref}
use spica.Types.Meta
use spica.Types.Error.{ExecutionError, not_found, invalid_state, invalid_argument, failed}
use spica.Types.Event
use spica.Types.Command.{ActivateTask, ClaimTasks, CompleteTask, FailTask}
use spica.Types.Command
use spica.Types.Task.{
  Task, TaskRefusal, FailureOutcome, retried, terminal, pending, no_retries, claim, mark_completed,
  mark_cancelled, handle_failure,
}
use spica.Elements.Interface.{Engine}
use spica.Elements.Handle.{
  Handle, refuse, read, some_or_refuse, append_command, append_event, now, ◌>>=◌, ◌>>◌,
}
use spica.Elements.StateHandler.{born_at, marked}
use spica.Elements.Activity.{open_activity, activity_child_settled}
use spica.Base.{◌*◌, none, map, Result, ok, err}

module _ {V S : Type 0} (engine : Engine V S) where
  open engine use {storage, floats}

  -- `activate`: the task that the command names, claimable at once.
  unfoldable pub activate_task : ActivateTask V → Handle V S Unit
  activate_task p = do
    at ← now engine
    append_event engine (
        Event.task_activated (record {
          meta = born_at p.task.uid p.task.name at p.owner;
          execution = p.execution;
          resource = p.resource;
          arguments = p.arguments;
          status = pending;
          deadline = p.deadline;
          worker_id = none;
          lease_expires_at = none;
          retry_plan = p.retry_plan;
          retry_state = no_retries;
        }))

  -- `complete`: the lease is checked before the owner, and the owner before the event.
  unfoldable pub complete_task : CompleteTask V → Handle V S Unit
  complete_task p = do
    found ← read (storage.get_task p.task)
    row ← some_or_refuse not_found found
    at ← now engine
    settled ← marked (mark_completed p.worker_id at row)
    container ← open_activity engine row.meta.owner
    append_event engine (Event.task_completed p.request_id settled p.output)
    activity_child_settled engine container (as_raw_object_ref p.task)

  abbrev pub route_failure :
      Task V → ExecutionError V → Task V × Result TaskRefusal FailureOutcome → Handle V S Unit
  route_failure row e (t, err why) = refuse invalid_state
  route_failure row e (t, ok retried) = append_event engine (Event.task_failed t e)
  route_failure row e (t, ok terminal) = do
    append_event engine (Event.task_failed t e)
    append_command engine (Command.terminate_state row.meta.owner (failed e))

  -- `fail`: only a terminal failure reaches the state.
  unfoldable pub fail_task : FailTask V → Handle V S Unit
  fail_task p = do
    found ← read (storage.get_task p.task)
    row ← some_or_refuse not_found found
    at ← now engine
    route_failure row p.error (handle_failure floats p.worker_id p.error at row)

  -- `cancel`.
  unfoldable pub cancel_task : ObjectRef Meta.task → Handle V S Unit
  cancel_task task = do
    found ← read (storage.get_task task)
    row ← some_or_refuse not_found found
    at ← now engine
    cancelled ← marked (mark_cancelled at row)
    container ← open_activity engine cancelled.meta.owner
    append_event engine (Event.task_cancelled cancelled)
    activity_child_settled engine container (as_raw_object_ref task)

  -- `claim`: the tasks that are offered at this instant, all with one lease.
  unfoldable pub claim_tasks : ClaimTasks → Handle V S Unit
  claim_tasks p = do
    at ← now engine
    lease ← some_or_refuse invalid_argument (checked_add at (p.lease_seconds * 1000))
    tasks ← read (storage.activatable_tasks p.resource at p.max_tasks)
    append_event engine (Event.tasks_claimed p.request_id (map (claim p.worker_id lease at) tasks))
