-- ===== src/Applier/Simulation.antt =====
-- Every applier is a fold over the store's contract alone: over two stores of which one simulates the
-- other, it gives the same result and the viewed state.
use spica.Base.{List, [], ◌∷◌}
use spica.Machinery.Timestamp.{Timestamp}
use spica.Machinery.Name.{ObjectName}
use spica.Types.Meta.{ThreadOwner, execution_owner, activity_owner}
use spica.Types.Event.{Event}
use spica.Types.Execution.{Execution}
use spica.Types.Thread.{Thread}
use spica.Types.Activity.{Activity}
use spica.Types.Task.{Task}
use spica.Types.Flow.{FlowVersion}
use spica.Storage.Fold.Sim.{Sim, Sim-bind, Sim-pure, sim_rules}
use spica.Storage.Contract.{StorageTxn}
use spica.Storage.Simulates.{FoldSimulates}
use spica.Applier.GeneratedSeq.{bump_generated_seq}
use spica.Applier.Execution
use spica.Applier.Flow
use spica.Applier.State
use spica.Applier.Thread
use spica.Applier.Task
use spica.Applier.{dispatch_event}

module _ {V S T : Type 0} {view : S → T} {Inv : S → Type 0} {a : StorageTxn V S}
    {b : StorageTxn V T} (sim : FoldSimulates view Inv a b) where
  bump-Sim : (n : ObjectName) → Sim view Inv (bump_generated_seq a n) (bump_generated_seq b n)
  unfolding bump_generated_seq
  bump-Sim n = search (sim_rules, sim.raise_generated_seq)

  flow_version_created-Sim :
      (now : Timestamp) (v : FlowVersion)
      → Sim view Inv (Flow.flow_version_created a now v) (Flow.flow_version_created b now v)
  unfolding Flow.flow_version_created
  flow_version_created-Sim now v =
      search (sim_rules, sim.put_flow_version, sim.get_flow_by_name, sim.put_flow)

  state_activating-Sim :
      (x : Activity V) → Sim view Inv (State.state_activating a x) (State.state_activating b x)
  unfolding State.state_activating
  state_activating-Sim x = search (sim_rules, sim.put_activity, bump-Sim, sim.add_child)

  overwrite-Sim :
      (x : Activity V) → Sim view Inv (State.state_activated a x) (State.state_activated b x)
  unfolding State.state_activated
  overwrite-Sim x = search (sim_rules, sim.get_activity, sim.put_activity)

  settle-Sim :
      (x : Activity V) → Sim view Inv (State.state_completed a x) (State.state_completed b x)
  unfolding State.state_completed
  settle-Sim x = search (sim_rules, sim.get_activity, sim.put_activity, sim.remove_child)

  inherit_scope-Sim :
      (t : Thread V) (o : ThreadOwner)
      → Sim view Inv (Thread.inherit_scope a t o) (Thread.inherit_scope b t o)
  unfolding Thread.inherit_scope
  inherit_scope-Sim t (execution_owner r) = search sim_rules
  inherit_scope-Sim t (activity_owner r) =
      search (sim_rules, sim.get_activity, sim.get_variables, sim.put_variables)

  fan_out-Sim :
      (now : Timestamp) (t : Thread V) (o : ThreadOwner)
      → Sim view Inv (Thread.fan_out a now t o) (Thread.fan_out b now t o)
  unfolding Thread.fan_out
  fan_out-Sim now t (execution_owner r) = search sim_rules
  fan_out-Sim now t (activity_owner r) = search (sim_rules, sim.get_activity, sim.put_activity)

  thread_created-Sim :
      (now : Timestamp) (t : Thread V)
      → Sim view Inv (Thread.thread_created a now t) (Thread.thread_created b now t)
  unfolding Thread.thread_created
  thread_created-Sim now t =
      search
        (sim_rules, sim.put_thread, inherit_scope-Sim t, bump-Sim, sim.add_child, fan_out-Sim now t)
        depth 8

  fold_claim-Sim :
      (now : Timestamp) (t : Task V)
      → Sim view Inv (Task.fold_claim a now t) (Task.fold_claim b now t)
  unfolding Task.fold_claim
  fold_claim-Sim now t = search (sim_rules, sim.get_task, sim.put_task)

  tasks_claimed-Sim :
      (now : Timestamp) (ts : List (Task V))
      → Sim view Inv (Task.tasks_claimed a now ts) (Task.tasks_claimed b now ts)
  unfolding Task.tasks_claimed
  tasks_claimed-Sim now [] = search sim_rules
  tasks_claimed-Sim now (t ∷ ts) =
      Sim-bind (Task.fold_claim a now t) (Task.fold_claim b now t)
        (λ u. Task.tasks_claimed a now ts) (λ u. Task.tasks_claimed b now ts) (fold_claim-Sim now t)
        (λ u. tasks_claimed-Sim now ts)

  task_completed-Sim :
      (now : Timestamp) (t : Task V) (o : V)
      → Sim view Inv (Task.task_completed a now t o) (Task.task_completed b now t o)
  unfolding Task.task_completed
  task_completed-Sim now t o =
      search
        (
          sim_rules, sim.get_task, sim.put_task, sim.get_activity, sim.put_activity,
          sim.remove_child,
        )
        depth 8

  mirror_attempts-Sim :
      (now : Timestamp) (x t : Task V)
      → Sim view Inv (Task.mirror_attempts a now x t) (Task.mirror_attempts b now x t)
  unfolding Task.mirror_attempts
  mirror_attempts-Sim now x t = search (sim_rules, sim.get_activity, sim.put_activity)

  task_failed-Sim :
      (now : Timestamp) (t : Task V)
      → Sim view Inv (Task.task_failed a now t) (Task.task_failed b now t)
  unfolding Task.task_failed
  task_failed-Sim now t =
      search (sim_rules, sim.get_task, sim.put_task, mirror_attempts-Sim, sim.remove_child)

  execution_completing-Sim :
      (e : Execution V)
      → Sim view Inv (Execution.execution_completing a e) (Execution.execution_completing b e)
  unfolding Execution.execution_completing
  execution_completing-Sim e = search (sim_rules, sim.get_execution, sim.put_execution)

  execution_completed-Sim :
      (e : Execution V)
      → Sim view Inv (Execution.execution_completed a e) (Execution.execution_completed b e)
  unfolding Execution.execution_completed
  execution_completed-Sim e = search (sim_rules, sim.get_execution, sim.put_execution)

  execution_terminating-Sim :
      (e : Execution V)
      → Sim view Inv (Execution.execution_terminating a e) (Execution.execution_terminating b e)
  unfolding Execution.execution_terminating
  execution_terminating-Sim e = search (sim_rules, sim.get_execution, sim.put_execution)

  execution_terminated-Sim :
      (e : Execution V)
      → Sim view Inv (Execution.execution_terminated a e) (Execution.execution_terminated b e)
  unfolding Execution.execution_terminated
  execution_terminated-Sim e = search (sim_rules, sim.get_execution, sim.put_execution)

  thread_completing-Sim :
      (t : Thread V) → Sim view Inv (Thread.thread_completing a t) (Thread.thread_completing b t)
  unfolding Thread.thread_completing
  thread_completing-Sim t = search (sim_rules, sim.get_thread, sim.put_thread)

  thread_completed-Sim :
      (t : Thread V) → Sim view Inv (Thread.thread_completed a t) (Thread.thread_completed b t)
  unfolding Thread.thread_completed
  thread_completed-Sim t = search (sim_rules, sim.get_thread, sim.put_thread, sim.remove_child)

  thread_terminating-Sim :
      (t : Thread V) → Sim view Inv (Thread.thread_terminating a t) (Thread.thread_terminating b t)
  unfolding Thread.thread_terminating
  thread_terminating-Sim t = search (sim_rules, sim.get_thread, sim.put_thread)

  thread_terminated-Sim :
      (t : Thread V) → Sim view Inv (Thread.thread_terminated a t) (Thread.thread_terminated b t)
  unfolding Thread.thread_terminated
  thread_terminated-Sim t = search (sim_rules, sim.get_thread, sim.put_thread, sim.remove_child)

  state_completing-Sim :
      (x : Activity V) → Sim view Inv (State.state_completing a x) (State.state_completing b x)
  unfolding State.state_completing
  state_completing-Sim x = search (sim_rules, sim.get_activity, sim.put_activity)

  state_terminating-Sim :
      (x : Activity V) → Sim view Inv (State.state_terminating a x) (State.state_terminating b x)
  unfolding State.state_terminating
  state_terminating-Sim x = search (sim_rules, sim.get_activity, sim.put_activity)

  state_terminated-Sim :
      (x : Activity V) → Sim view Inv (State.state_terminated a x) (State.state_terminated b x)
  unfolding State.state_terminated
  state_terminated-Sim x = search (sim_rules, sim.get_activity, sim.put_activity, sim.remove_child)

  task_activated-Sim :
      (t : Task V) → Sim view Inv (Task.task_activated a t) (Task.task_activated b t)
  unfolding Task.task_activated
  task_activated-Sim t = search (sim_rules, sim.put_task, bump-Sim, sim.add_child)

  task_cancelled-Sim :
      (t : Task V) → Sim view Inv (Task.task_cancelled a t) (Task.task_cancelled b t)
  unfolding Task.task_cancelled
  task_cancelled-Sim t = search (sim_rules, sim.get_task, sim.put_task, sim.remove_child)

  -- Over two stores of which one simulates the other, folding any one event gives the same result on
  -- both and leads to corresponding states, whatever the event is and wherever a fault or a panic
  -- strikes.
  pub dispatch_event-Sim :
      (now : Timestamp) (e : Event V)
      → Sim view Inv (dispatch_event a now e) (dispatch_event b now e)
  unfolding dispatch_event Execution.execution_created Flow.flow_created State.variables_assigned
      State.state_transitioned
  dispatch_event-Sim now (Event.execution_created q e) = sim.put_execution e
  dispatch_event-Sim now (Event.execution_completing e) = execution_completing-Sim e
  dispatch_event-Sim now (Event.execution_completed e) = execution_completed-Sim e
  dispatch_event-Sim now (Event.execution_terminating e) = execution_terminating-Sim e
  dispatch_event-Sim now (Event.execution_terminated e) = execution_terminated-Sim e
  dispatch_event-Sim now (Event.flow_created q f) = sim.put_flow f
  dispatch_event-Sim now (Event.flow_version_created q v) = flow_version_created-Sim now v
  dispatch_event-Sim now (Event.state_activating x) = state_activating-Sim x
  dispatch_event-Sim now (Event.state_activated x) = overwrite-Sim x
  dispatch_event-Sim now (Event.state_completing x) = state_completing-Sim x
  dispatch_event-Sim now (Event.state_completed x) = settle-Sim x
  dispatch_event-Sim now (Event.state_terminating x) = state_terminating-Sim x
  dispatch_event-Sim now (Event.state_terminated x) = state_terminated-Sim x
  dispatch_event-Sim now (Event.variables_assigned r vs) = sim.put_variables r vs
  dispatch_event-Sim now (Event.state_transitioned r p) = Sim-pure tt
  dispatch_event-Sim now (Event.task_activated t) = task_activated-Sim t
  dispatch_event-Sim now (Event.tasks_claimed q ts) = tasks_claimed-Sim now ts
  dispatch_event-Sim now (Event.task_completed q t o) = task_completed-Sim now t o
  dispatch_event-Sim now (Event.task_failed t e) = task_failed-Sim now t
  dispatch_event-Sim now (Event.task_cancelled t) = task_cancelled-Sim t
  dispatch_event-Sim now (Event.thread_created t) = thread_created-Sim now t
  dispatch_event-Sim now (Event.thread_completing t) = thread_completing-Sim t
  dispatch_event-Sim now (Event.thread_completed t) = thread_completed-Sim t
  dispatch_event-Sim now (Event.thread_terminating t) = thread_terminating-Sim t
  dispatch_event-Sim now (Event.thread_terminated t) = thread_terminated-Sim t
