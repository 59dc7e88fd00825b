-- ===== src/Elements/Keeps/Activity.antt =====
-- A property that the primitive steps keep, through the commands on an activity, and the hooks of
-- every state type (crates/engine/src/elements).
use spica.Machinery.Timestamp.{Timestamp}
use spica.Types.Meta.{
  ObjectRef, RawObjectRef, ObjectKind, ObjectKind-discrete, object_ref, raw_object_ref,
  as_raw_object_ref,
}
use spica.Types.Meta
use spica.Types.Error.{TerminationReason}
use spica.Types.Command.{ActivateState}
use spica.Types.Thread.{Thread}
use spica.Types.Activity.{Activity, ActivityStatus, is_running, is_completing, is_terminating}
use spica.Types.Activity
use spica.Asl.{State, pass, wait, succeed, fail, task, choice, parallel, map_state}
use spica.Elements.Interface.{Engine}
use spica.Elements.Handle.{Handle}
use spica.Elements.StateHandler.{StateHandler}
use spica.Elements.StateHandler
use spica.Elements.States.Simple.{simple}
use spica.Elements.Activity.{
  activate_state, activity_child_settled, activity_deadline_fired, complete_state,
  continue_complete_activity, continue_complete_of, continue_terminate_activity,
  continue_terminate_of, drained_completing, drained_terminating, expire, expire_in, handler_of,
  open_activity, resolve_and_terminate, settle_child, settle_in, state_of, sweep_child,
  terminate_state,
}
use spica.Elements.Keeps.Context.{state_definition-Keeps}
use spica.Elements.Keeps.StateHandler.{activate-Keeps, complete-Keeps, terminate-Keeps}
use spica.Elements.Keeps.Finish.{land_terminated-Keeps}
use spica.Elements.Keeps.Simple.{
  raw_input-Keeps, nothing_more-Keeps, uncaught-Keeps, pass_completing-Keeps,
  succeed_completing-Keeps, fail_completing-Keeps, wait_input-Keeps, wait_completing-Keeps,
}
use spica.Elements.Keeps.Choice.{choice_completing-Keeps}
use spica.Elements.Keeps.Container.{container_completing-Keeps, container_terminating-Keeps}
use spica.Elements.Keeps.Parallel.{
  fan_out_branches-Keeps, parallel_child_completed-Keeps, arguments_input-Keeps,
}
use spica.Elements.Keeps.Map.{map_input-Keeps, fan_out_items-Keeps, map_child_completed-Keeps}
use spica.Elements.Keeps.TaskState.{
  invoke-Keeps, task_child_completed-Keeps, task_completing-Keeps, task_terminating-Keeps,
  catch_failure-Keeps,
}
use spica.Elements.Keeps.{Keeps, Kept, keeps_rules, Keeps-pure, append_command-Keeps}
use spica.Elements.Handle.{Work}
use spica.Base.{Option, none, some, List, [], ◌∷◌}
use spica.Elements.Keeps.StateHandler.{KeptHandler, activate-Keeps, complete-Keeps, terminate-Keeps}
use spica.Types.Event.{Variables}

module _ {V S : Type 0} {P : Work V S → Type 0} {engine : Engine V S} (kept : Kept P engine) where
  simple-Kept :
      (f : Activity V → Variables V → Handle V S Unit)
      → ((a : Activity V) (vs : Variables V) → Keeps P (f a vs))
      → KeptHandler P (simple engine f)
  simple-Kept f h = record {
    process_input = λ a vs v at. raw_input-Keeps kept a vs v at;
    after_activated = λ a vs v. nothing_more-Keeps kept a vs v;
    child_completed = λ r a c. Keeps-pure tt;
    after_completing = h;
    after_terminating = λ a vs. land_terminated-Keeps kept a;
    on_failed = λ a e. uncaught-Keeps kept a e;
  }

  pub handler_of-Kept : (s : State V) → KeptHandler P (handler_of engine s)
  unfolding handler_of
  handler_of-Kept (pass s) = simple-Kept _ (λ a vs. pass_completing-Keeps kept s a vs)
  handler_of-Kept (succeed s) = simple-Kept _ (λ a vs. succeed_completing-Keeps kept s a vs)
  handler_of-Kept (fail s) = simple-Kept _ (λ a vs. fail_completing-Keeps kept s a vs)
  handler_of-Kept (choice s) = simple-Kept _ (λ a vs. choice_completing-Keeps kept s a vs)
  handler_of-Kept (wait s) = record {
    process_input = λ a vs v at. wait_input-Keeps kept s a vs v at;
    after_activated = λ a vs v. nothing_more-Keeps kept a vs v;
    child_completed = λ r a c. Keeps-pure tt;
    after_completing = λ a vs. wait_completing-Keeps kept s a vs;
    after_terminating = λ a vs. land_terminated-Keeps kept a;
    on_failed = λ a e. uncaught-Keeps kept a e;
  }
  handler_of-Kept (task s) = record {
    process_input = λ a vs v at. arguments_input-Keeps kept s.arguments a vs v at;
    after_activated = λ a vs v. invoke-Keeps kept s a vs v;
    child_completed = λ r a c. task_child_completed-Keeps kept r a c;
    after_completing = λ a vs. task_completing-Keeps kept s a vs;
    after_terminating = λ a vs. task_terminating-Keeps kept a;
    on_failed = λ a e. catch_failure-Keeps kept s a e;
  }
  handler_of-Kept (parallel s bs) = record {
    process_input = λ a vs v at. arguments_input-Keeps kept s.arguments a vs v at;
    after_activated = λ a vs v. fan_out_branches-Keeps kept bs a vs v;
    child_completed = λ r a c. parallel_child_completed-Keeps kept r a c;
    after_completing = λ a vs. container_completing-Keeps kept s.assign s.output s.end s.next a vs;
    after_terminating = λ a vs. container_terminating-Keeps kept a;
    on_failed = λ a e. uncaught-Keeps kept a e;
  }
  handler_of-Kept (map_state s m) = record {
    process_input = λ a vs v at. map_input-Keeps kept s a vs v at;
    after_activated = λ a vs v. fan_out_items-Keeps kept m a vs v;
    child_completed = λ r a c. map_child_completed-Keeps kept m r a c;
    after_completing = λ a vs. container_completing-Keeps kept s.assign s.output s.end s.next a vs;
    after_terminating = λ a vs. container_terminating-Keeps kept a;
    on_failed = λ a e. uncaught-Keeps kept a e;
  }

  child_completed-Keeps :
      (s : State V) (r : ObjectRef Meta.activity) (a : Activity V) (c : RawObjectRef)
      → Keeps P ((handler_of engine s).child_completed r a c)
  child_completed-Keeps s r a c = (handler_of-Kept s).child_completed r a c

  after_completing-Keeps :
      (s : State V) (a : Activity V) (vs : Variables V)
      → Keeps P ((handler_of engine s).after_completing a vs)
  after_completing-Keeps s a vs = (handler_of-Kept s).after_completing a vs

  after_terminating-Keeps :
      (s : State V) (a : Activity V) (vs : Variables V)
      → Keeps P ((handler_of engine s).after_terminating a vs)
  after_terminating-Keeps s a vs = (handler_of-Kept s).after_terminating a vs

  of_state-activate-Keeps :
      (s : State V) (p : ActivateState V) (t : Thread V)
      → Keeps P (StateHandler.activate engine (handler_of engine s) p t)
  of_state-activate-Keeps s p t = activate-Keeps kept (handler_of-Kept s) p t

  of_state-complete-Keeps :
      (s : State V) (v : V) (a : Activity V) (t : Thread V)
      → Keeps P (StateHandler.complete engine (handler_of engine s) v a t)
  of_state-complete-Keeps s v a t = complete-Keeps kept (handler_of-Kept s) v a t

  of_state-terminate-Keeps :
      (s : State V) (r : TerminationReason V) (a : Activity V) (t : Thread V)
      → Keeps P (StateHandler.terminate engine (handler_of engine s) r a t)
  of_state-terminate-Keeps s r a t = terminate-Keeps kept (handler_of-Kept s) r a t

  pub open_activity-Keeps : (x : ObjectRef Meta.activity) → Keeps P (open_activity engine x)
  unfolding open_activity
  open_activity-Keeps owner = search keeps_rules

  pub state_of-Keeps : (x : Activity V) → Keeps P (state_of engine x)
  unfolding state_of
  state_of-Keeps a = search (keeps_rules, state_definition-Keeps) depth 12

  pub continue_complete_of-Keeps :
      (x : ObjectRef Meta.activity) → Keeps P (continue_complete_of engine x)
  continue_complete_of-Keeps r = search (keeps_rules, append_command-Keeps) depth 12

  pub continue_terminate_of-Keeps :
      (x : ObjectRef Meta.activity) → Keeps P (continue_terminate_of engine x)
  continue_terminate_of-Keeps r = search (keeps_rules, append_command-Keeps) depth 12

  pub expire-Keeps :
      (x : ObjectRef Meta.activity) (y : Activity V) (z : Timestamp) (u : State V)
      → Keeps P (expire engine x y z u)
  expire-Keeps r a deadline (wait s) = search (keeps_rules, append_command-Keeps) depth 12
  expire-Keeps r a deadline (task s) = search (keeps_rules, append_command-Keeps) depth 12
  expire-Keeps r a deadline (pass s) = search keeps_rules
  expire-Keeps r a deadline (succeed s) = search keeps_rules
  expire-Keeps r a deadline (fail s) = search keeps_rules
  expire-Keeps r a deadline (choice s) = search keeps_rules
  expire-Keeps r a deadline (parallel s bs) = search keeps_rules
  expire-Keeps r a deadline (map_state s m) = search keeps_rules

  pub expire_in-Keeps :
      (x : ObjectRef Meta.activity) (y : Activity V) (z : Timestamp) (u : ActivityStatus V)
      → Keeps P (expire_in engine x y z u)
  expire_in-Keeps r a deadline Activity.running =
      search (keeps_rules, expire-Keeps, state_of-Keeps) depth 12
  expire_in-Keeps r a deadline Activity.completing =
      search (keeps_rules, continue_complete_of-Keeps) depth 12
  expire_in-Keeps r a deadline (Activity.terminating reason) =
      search (keeps_rules, continue_terminate_of-Keeps) depth 12
  expire_in-Keeps r a deadline Activity.completed = search keeps_rules
  expire_in-Keeps r a deadline (Activity.terminated reason) = search keeps_rules

  pub activity_deadline_fired-Keeps :
      (x : ObjectRef Meta.activity) (y : Timestamp) → Keeps P (activity_deadline_fired engine x y)
  unfolding activity_deadline_fired
  activity_deadline_fired-Keeps r deadline = search (keeps_rules, expire_in-Keeps) depth 12

  pub settle_in-Keeps :
      (x : ObjectRef Meta.activity) (y : Activity V) (z : Thread V) (u : State V) (v : RawObjectRef)
      (w : ActivityStatus V)
      → Keeps P (settle_in engine x y z u v w)
  settle_in-Keeps r a thread s child Activity.running =
      search (keeps_rules, child_completed-Keeps) depth 12
  settle_in-Keeps r a thread s child Activity.completing =
      search (keeps_rules, continue_complete_of-Keeps) depth 12
  settle_in-Keeps r a thread s child (Activity.terminating reason) =
      search (keeps_rules, continue_terminate_of-Keeps) depth 12
  settle_in-Keeps r a thread s child Activity.completed = search keeps_rules
  settle_in-Keeps r a thread s child (Activity.terminated reason) = search keeps_rules

  pub settle_child-Keeps :
      (x : ObjectRef Meta.activity) (y : Activity V) (z : Thread V) (u : State V) (v : RawObjectRef)
      (w : Option ObjectKind)
      → Keeps P (settle_child engine x y z u v w)
  settle_child-Keeps r a thread s child none = search keeps_rules
  settle_child-Keeps r a thread s child (some expected) =
      search (keeps_rules, settle_in-Keeps) depth 12

  pub activity_child_settled-Keeps :
      (x : ObjectRef Meta.activity) (y : RawObjectRef) → Keeps P (activity_child_settled engine x y)
  unfolding activity_child_settled
  activity_child_settled-Keeps r child =
      search (keeps_rules, settle_child-Keeps, state_of-Keeps) depth 12

  pub sweep_child-Keeps : (x : RawObjectRef) (y : ObjectKind) → Keeps P (sweep_child engine x y)
  sweep_child-Keeps child Meta.thread = search (keeps_rules, append_command-Keeps) depth 12
  sweep_child-Keeps child Meta.task = search (keeps_rules, append_command-Keeps) depth 12
  sweep_child-Keeps child kind = search keeps_rules

  pub drained_terminating-Keeps :
      (x : Activity V) (y : List RawObjectRef) → Keeps P (drained_terminating engine x y)
  drained_terminating-Keeps a (c ∷ cs) = search (keeps_rules, sweep_child-Keeps) depth 12
  drained_terminating-Keeps a [] =
      search (keeps_rules, after_terminating-Keeps, state_of-Keeps) depth 12

  pub continue_terminate_activity-Keeps :
      (x : ObjectRef Meta.activity) → Keeps P (continue_terminate_activity engine x)
  unfolding continue_terminate_activity
  continue_terminate_activity-Keeps r = search (keeps_rules, drained_terminating-Keeps) depth 12

  pub drained_completing-Keeps :
      (x : Activity V) (y : List RawObjectRef) → Keeps P (drained_completing engine x y)
  drained_completing-Keeps a (c ∷ cs) = search (keeps_rules, sweep_child-Keeps) depth 12
  drained_completing-Keeps a [] =
      search (keeps_rules, after_completing-Keeps, state_of-Keeps) depth 12

  pub continue_complete_activity-Keeps :
      (x : ObjectRef Meta.activity) → Keeps P (continue_complete_activity engine x)
  unfolding continue_complete_activity
  continue_complete_activity-Keeps r = search (keeps_rules, drained_completing-Keeps) depth 12

  pub activate_state-Keeps : (x : ActivateState V) → Keeps P (activate_state engine x)
  unfolding activate_state
  activate_state-Keeps p =
      search (keeps_rules, state_definition-Keeps, of_state-activate-Keeps) depth 12

  pub complete_state-Keeps :
      (x : ObjectRef Meta.activity) (y : V) → Keeps P (complete_state engine x y)
  unfolding complete_state
  complete_state-Keeps r output =
      search (keeps_rules, state_of-Keeps, of_state-complete-Keeps) depth 12

  pub resolve_and_terminate-Keeps :
      (x : TerminationReason V) (y : Activity V) → Keeps P (resolve_and_terminate engine x y)
  resolve_and_terminate-Keeps reason a =
      search (keeps_rules, state_of-Keeps, of_state-terminate-Keeps) depth 12

  pub terminate_state-Keeps :
      (x : ObjectRef Meta.activity) (y : TerminationReason V) → Keeps P (terminate_state engine x y)
  unfolding terminate_state
  terminate_state-Keeps r reason = search (keeps_rules, resolve_and_terminate-Keeps) depth 12
