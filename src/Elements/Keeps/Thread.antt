-- ===== src/Elements/Keeps/Thread.antt =====
-- A property that the primitive steps keep, through the commands on a thread
-- (crates/engine/src/elements).
use spica.Types.Meta.{
  ObjectRef, RawObjectRef, ObjectKind, ThreadOwner, execution_owner, activity_owner, object_ref,
  raw_object_ref, as_raw_object_ref, with_update_at,
}
use spica.Types.Meta
use spica.Types.Error.{TerminationReason}
use spica.Types.Command.{SpawnThread}
use spica.Types.Thread.{Thread, StatePath}
use spica.Elements.Interface.{Engine}
use spica.Elements.Handle.{Handle, Stop, error, rejected, unexpected, panic}
use spica.Elements.Thread.{
  cancel_state, complete_drained, complete_thread, completed_under, continue_complete_thread,
  continue_terminate_thread, end_completing, end_terminating, expect_path, forget, if_open,
  spawn_thread, sweep_states, tell_completed, tell_terminated, terminate_drained, terminate_thread,
  terminated_under, unless_gone,
}
use spica.Elements.Keeps.Settle.{
  open_execution-Keeps, execution_child_completed-Keeps, execution_child_terminated-Keeps,
}
use spica.Elements.Keeps.StateHandler.{marked-Keeps}
use spica.Elements.Keeps.Activity.{open_activity-Keeps, activity_child_settled-Keeps}
use spica.Elements.Keeps.{
  Keeps, Kept, keeps_rules, append_command-Keeps, event-Keeps, now-Keeps, mint-Keeps, seq-Keeps,
}
use spica.Elements.Handle.{Work}
use spica.Base.{Option, none, some, List, [], ◌∷◌, Result, ok, err}

module _ {V S : Type 0} {P : Work V S → Type 0} {engine : Engine V S} (kept : Kept P engine) where
  pub unless_gone-Keeps :
      (x : Result (Stop V) Unit) (m : Handle V S Unit) → Keeps P m → Keeps P (unless_gone x m)
  unless_gone-Keeps (ok u) m h = h
  unless_gone-Keeps (err (error (rejected t))) m h = search keeps_rules
  unless_gone-Keeps (err (error (unexpected e))) m h = search keeps_rules
  unless_gone-Keeps (err panic) m h = search keeps_rules

  pub if_open-Keeps :
      {A : Type 0} (opening : Handle V S A) (m : Handle V S Unit)
      → Keeps P opening
      → Keeps P m
      → Keeps P (if_open opening m)
  unfolding if_open
  if_open-Keeps opening m ho hm = record {
    at = λ w p. (unless_gone-Keeps (forget (opening w).0) m hm).at (opening w).1 (ho.at w p);
  }

  pub cancel_state-Keeps : (x : RawObjectRef) (y : ObjectKind) → Keeps P (cancel_state engine x y)
  cancel_state-Keeps child Meta.activity = search (keeps_rules, append_command-Keeps) depth 12
  cancel_state-Keeps child kind = search keeps_rules

  pub sweep_states-Keeps : (x : List RawObjectRef) → Keeps P (sweep_states engine x)
  unfolding sweep_states
  sweep_states-Keeps = search (keeps_rules, cancel_state-Keeps) depth 12

  pub terminated_under-Keeps :
      (x : ThreadOwner) (y : Thread V) (z : RawObjectRef) → Keeps P (terminated_under engine x y z)
  terminated_under-Keeps (execution_owner r) t child =
      search (keeps_rules, event-Keeps, execution_child_terminated-Keeps, open_execution-Keeps)
        depth 12
  terminated_under-Keeps (activity_owner r) t child =
      search (keeps_rules, event-Keeps, activity_child_settled-Keeps, open_activity-Keeps) depth 12

  pub terminate_drained-Keeps :
      (x : Thread V) (y : TerminationReason V) (z : List RawObjectRef)
      → Keeps P (terminate_drained engine x y z)
  terminate_drained-Keeps row reason [] =
      search (keeps_rules, now-Keeps, terminated_under-Keeps) depth 12
  terminate_drained-Keeps row reason (c ∷ cs) = search (keeps_rules, sweep_states-Keeps) depth 12

  pub terminate_thread-Keeps :
      (x : ObjectRef Meta.thread) (y : TerminationReason V) → Keeps P (terminate_thread engine x y)
  unfolding terminate_thread
  terminate_thread-Keeps thread reason =
      search (keeps_rules, event-Keeps, now-Keeps, marked-Keeps, terminate_drained-Keeps) depth 12

  pub completed_under-Keeps :
      (x : ThreadOwner) (y : Thread V) (z : RawObjectRef) → Keeps P (completed_under engine x y z)
  completed_under-Keeps (execution_owner r) t child =
      search (keeps_rules, event-Keeps, execution_child_completed-Keeps, open_execution-Keeps) depth
        12
  completed_under-Keeps (activity_owner r) t child =
      search (keeps_rules, event-Keeps, activity_child_settled-Keeps, open_activity-Keeps) depth 12

  pub complete_drained-Keeps :
      (x : Thread V) (y : V) (z : List RawObjectRef) → Keeps P (complete_drained engine x y z)
  complete_drained-Keeps row output [] =
      search (keeps_rules, now-Keeps, completed_under-Keeps) depth 12
  complete_drained-Keeps row output (c ∷ cs) = search keeps_rules

  pub complete_thread-Keeps :
      (x : ObjectRef Meta.thread) (y : V) → Keeps P (complete_thread engine x y)
  unfolding complete_thread
  complete_thread-Keeps thread output =
      search (keeps_rules, event-Keeps, now-Keeps, complete_drained-Keeps) depth 12

  pub tell_terminated-Keeps :
      (x : ThreadOwner) (y : RawObjectRef) → Keeps P (tell_terminated engine x y)
  unfolding tell_terminated
  tell_terminated-Keeps (execution_owner r) child =
      search (keeps_rules, execution_child_terminated-Keeps, if_open-Keeps, open_execution-Keeps)
        depth 12
  tell_terminated-Keeps (activity_owner r) child =
      search (keeps_rules, activity_child_settled-Keeps, if_open-Keeps, open_activity-Keeps) depth
        12

  pub tell_completed-Keeps :
      (x : ThreadOwner) (y : RawObjectRef) → Keeps P (tell_completed engine x y)
  unfolding tell_completed
  tell_completed-Keeps (execution_owner r) child =
      search (keeps_rules, execution_child_completed-Keeps, if_open-Keeps, open_execution-Keeps)
        depth 12
  tell_completed-Keeps (activity_owner r) child =
      search (keeps_rules, activity_child_settled-Keeps, if_open-Keeps, open_activity-Keeps) depth
        12

  pub end_terminating-Keeps :
      (x : ObjectRef Meta.thread) (y : Thread V) (z : TerminationReason V) (u : List RawObjectRef)
      → Keeps P (end_terminating engine x y z u)
  end_terminating-Keeps node row reason [] =
      search (keeps_rules, event-Keeps, now-Keeps, tell_terminated-Keeps) depth 12
  end_terminating-Keeps node row reason (c ∷ cs) = search (keeps_rules, sweep_states-Keeps) depth 12

  pub continue_terminate_thread-Keeps :
      (x : ObjectRef Meta.thread) → Keeps P (continue_terminate_thread engine x)
  unfolding continue_terminate_thread
  continue_terminate_thread-Keeps node = search (keeps_rules, end_terminating-Keeps) depth 12

  pub end_completing-Keeps :
      (x : ObjectRef Meta.thread) (y : Thread V) (z : List RawObjectRef)
      → Keeps P (end_completing engine x y z)
  end_completing-Keeps node row [] =
      search (keeps_rules, event-Keeps, now-Keeps, tell_completed-Keeps) depth 12
  end_completing-Keeps node row (c ∷ cs) = search (keeps_rules, sweep_states-Keeps) depth 12

  pub continue_complete_thread-Keeps :
      (x : ObjectRef Meta.thread) → Keeps P (continue_complete_thread engine x)
  unfolding continue_complete_thread
  continue_complete_thread-Keeps node = search (keeps_rules, end_completing-Keeps) depth 12

  pub expect_path-Keeps : (x : Option StatePath) → Keeps P (expect_path engine x)
  expect_path-Keeps none = search keeps_rules
  expect_path-Keeps (some p) = search keeps_rules

  pub spawn_thread-Keeps : (x : SpawnThread V) → Keeps P (spawn_thread engine x)
  unfolding spawn_thread
  spawn_thread-Keeps p =
      search
        (
          keeps_rules, event-Keeps, now-Keeps, mint-Keeps, seq-Keeps, append_command-Keeps,
          expect_path-Keeps,
        )
        depth 12
