-- ===== src/Types/Event.antt =====
-- crates/engine-types/src/types/event.rs: the facts of the log.
use spica.Base.{List, Str}
use spica.HashMap.{HashMap}
use spica.Types.Meta.{ObjectRef, thread, activity}
use spica.Types.Error.{RequestId, ExecutionError}
use spica.Types.Execution.{Execution}
use spica.Types.Thread.{Thread, StatePath}
use spica.Types.Activity.{Activity}
use spica.Types.Task.{Task}
use spica.Types.Flow.{Flow, FlowVersion}

-- crates/engine-types/src/types/variables.rs: variable name to JSON value.
abbrev pub Variables : Type 0 → Type 0
Variables V = HashMap Str V

pub data Event (V : Type 0) : Type 0 where
  flow_created : RequestId → Flow → Event V
  flow_version_created : RequestId → FlowVersion → Event V
  execution_created : RequestId → Execution V → Event V
  execution_completing : Execution V → Event V
  execution_completed : Execution V → Event V
  execution_terminating : Execution V → Event V
  execution_terminated : Execution V → Event V
  thread_created : Thread V → Event V
  thread_completing : Thread V → Event V
  thread_completed : Thread V → Event V
  thread_terminating : Thread V → Event V
  thread_terminated : Thread V → Event V
  state_activating : Activity V → Event V
  state_activated : Activity V → Event V
  state_completing : Activity V → Event V
  state_completed : Activity V → Event V
  state_terminating : Activity V → Event V
  state_terminated : Activity V → Event V
  variables_assigned : (scope : ObjectRef thread) → Variables V → Event V
  state_transitioned : (source : ObjectRef activity) (next : StatePath) → Event V
  task_activated : Task V → Event V
  tasks_claimed : RequestId → List (Task V) → Event V
  task_completed : RequestId → Task V → (output : V) → Event V
  task_failed : Task V → ExecutionError V → Event V
  task_cancelled : Task V → Event V
