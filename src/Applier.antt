-- ===== src/Applier.antt =====
-- crates/engine/src/applier.rs: `dispatch_event` routes an event to the fold of its variant.
pub mod Rows
pub mod GeneratedSeq
pub mod Execution
pub mod Flow
pub mod State
pub mod Thread
pub mod Task
pub mod Simulation
pub mod Keyed
pub mod Births
pub mod Claims
pub mod Scopes
use spica.Base.{}
use spica.Machinery.Timestamp.{Timestamp}
use spica.Types.Event
use spica.Types.Event.{Event}
use spica.Storage.Fold.{Fold}
use spica.Storage.Contract.{StorageTxn}

module _ {V S : Type 0} (storage : StorageTxn V S) where
  unfoldable pub dispatch_event : Timestamp → Event V → Fold S Unit
  dispatch_event now (Event.execution_created q e) = Execution.execution_created storage e
  dispatch_event now (Event.execution_completing e) = Execution.execution_completing storage e
  dispatch_event now (Event.execution_completed e) = Execution.execution_completed storage e
  dispatch_event now (Event.execution_terminating e) = Execution.execution_terminating storage e
  dispatch_event now (Event.execution_terminated e) = Execution.execution_terminated storage e
  dispatch_event now (Event.flow_created q f) = Flow.flow_created storage f
  dispatch_event now (Event.flow_version_created q v) = Flow.flow_version_created storage now v
  dispatch_event now (Event.state_activating a) = State.state_activating storage a
  dispatch_event now (Event.state_activated a) = State.state_activated storage a
  dispatch_event now (Event.state_completing a) = State.state_completing storage a
  dispatch_event now (Event.state_completed a) = State.state_completed storage a
  dispatch_event now (Event.state_terminating a) = State.state_terminating storage a
  dispatch_event now (Event.state_terminated a) = State.state_terminated storage a
  dispatch_event now (Event.variables_assigned r vs) = State.variables_assigned storage r vs
  dispatch_event now (Event.state_transitioned r p) = State.state_transitioned storage r p
  dispatch_event now (Event.task_activated t) = Task.task_activated storage t
  dispatch_event now (Event.tasks_claimed q ts) = Task.tasks_claimed storage now ts
  dispatch_event now (Event.task_completed q t o) = Task.task_completed storage now t o
  dispatch_event now (Event.task_failed t e) = Task.task_failed storage now t
  dispatch_event now (Event.task_cancelled t) = Task.task_cancelled storage t
  dispatch_event now (Event.thread_created t) = Thread.thread_created storage now t
  dispatch_event now (Event.thread_completing t) = Thread.thread_completing storage t
  dispatch_event now (Event.thread_completed t) = Thread.thread_completed storage t
  dispatch_event now (Event.thread_terminating t) = Thread.thread_terminating storage t
  dispatch_event now (Event.thread_terminated t) = Thread.thread_terminated storage t
