-- ===== src/Types/Command.antt =====
-- crates/engine-types/src/types/command.rs: the requests of the log.
use spica.Base.{ℕ, Option, none, some, List, Str}
use spica.Machinery.Timestamp.{Timestamp}
use spica.Machinery.Name.{ObjectName}
use spica.Types.Meta.{
  ObjectRef, RawObjectRef, Ulid, execution, thread, activity, task, flow_version,
}
use spica.Types.Error.{RequestId, ExecutionError, TerminationReason}
use spica.Types.Thread.{StatePath}
use spica.Types.Flow.{FlowName}
use spica.Types.Task.{RetryPolicy}
use spica.Types.Deadline.{DeadlineTarget}

pub record ActivateState (V : Type 0) : Type 0 where
  pub execution : ObjectRef execution
  pub owner : ObjectRef thread
  pub state_path : StatePath
  pub input : V

pub record CreateFlow : Type 0 where
  pub request_id : RequestId
  pub name : FlowName
  pub definition : Str

pub record CreateExecution (V : Type 0) : Type 0 where
  pub request_id : RequestId
  pub name : ObjectName
  pub flow_version : ObjectRef flow_version
  pub input : V

pub record SpawnThread (V : Type 0) : Type 0 where
  pub owner : ObjectRef activity
  pub execution : ObjectRef execution
  pub state_path : Option StatePath
  pub index : ℕ
  pub start_at : Str
  pub input : V

pub record ActivateTask (V : Type 0) : Type 0 where
  pub execution : ObjectRef execution
  pub owner : ObjectRef activity
  pub task : ObjectRef task
  pub resource : Str
  pub arguments : V
  pub retry_plan : List RetryPolicy
  pub deadline : Option Timestamp

pub record ClaimTasks : Type 0 where
  pub request_id : RequestId
  pub worker_id : Str
  pub resource : Str
  pub max_tasks : ℕ
  pub lease_seconds : ℕ

pub record CompleteTask (V : Type 0) : Type 0 where
  pub request_id : RequestId
  pub task : ObjectRef task
  pub worker_id : Str
  pub output : V

pub record FailTask (V : Type 0) : Type 0 where
  pub task : ObjectRef task
  pub worker_id : Str
  pub error : ExecutionError V

pub data Command (V : Type 0) : Type 0 where
  create_flow : CreateFlow → Command V
  create_execution : CreateExecution V → Command V
  spawn_thread : SpawnThread V → Command V
  complete_execution : (execution : ObjectRef execution) (output : V) → Command V
  complete_thread : (thread : ObjectRef thread) (output : V) → Command V
  terminate_execution :
      (name : ObjectName) (uid : Option Ulid) (reason : TerminationReason V) → Command V
  terminate_thread : (thread : ObjectRef thread) (reason : TerminationReason V) → Command V
  activate_state : ActivateState V → Command V
  complete_state : (activity : ObjectRef activity) (output : V) → Command V
  terminate_state : (activity : ObjectRef activity) (reason : TerminationReason V) → Command V
  trigger_deadline : DeadlineTarget → (deadline : Timestamp) → Command V
  activate_task : ActivateTask V → Command V
  claim_tasks : ClaimTasks → Command V
  complete_task : CompleteTask V → Command V
  fail_task : FailTask V → Command V
  cancel_task : ObjectRef task → Command V
  continue_complete : (owner : RawObjectRef) → Command V
  continue_terminate : (owner : RawObjectRef) → Command V

-- The caller that waits on a command's outcome.
unfoldable pub request_id : {V : Type 0} → Command V → Option RequestId
request_id (create_flow p) = some p.request_id
request_id (create_execution p) = some p.request_id
request_id (claim_tasks p) = some p.request_id
request_id (complete_task p) = some p.request_id
request_id _ = none
