-- ===== src/Elements/Activity.antt =====
-- crates/engine/src/elements/activity.rs, and the three handlers of crates/engine/src/handlers on an
-- activity: activate_state.rs, complete_state.rs and terminate_state.rs. A definition's state is looked
-- up in the registry of state types, which has them all.
use spica.Machinery.Timestamp.{Timestamp}
use spica.Machinery.Decimal.{format_u64}
use spica.Types.Meta.{
  ObjectRef, RawObjectRef, ObjectKind, ObjectKind-discrete, object_ref, raw_object_ref,
  as_raw_object_ref,
}
use spica.Types.Meta
use spica.Types.Error.{TerminationReason, RuntimeError, failed, runtime, not_found, invalid_state}
use spica.Types.Command.{ActivateState}
use spica.Types.Command
use spica.Types.Thread.{Thread}
use spica.Types.Thread
use spica.Types.Activity.{Activity, ActivityStatus, is_running, is_completing, is_terminating}
use spica.Types.Activity
use spica.Asl.{State, pass, wait, succeed, fail, task, choice, parallel, map_state}
use spica.Elements.Interface.{Engine}
use spica.Elements.Expression.{or_value}
use spica.Elements.Handle.{
  Handle, match_option, pure, stop, panic, refuse, read, some_or_refuse, for_each, append_command,
  ◌>>=◌, ◌>>◌,
}
use spica.Elements.Context.{state_definition}
use spica.Elements.Settle.{typed}
use spica.Elements.StateHandler.{StateHandler}
use spica.Elements.StateHandler
use spica.Elements.States.Simple.{
  simple, pass_completing, succeed_completing, fail_completing, wait_handler,
}
use spica.Elements.States.Choice.{choice_completing}
use spica.Elements.States.Task.{task_handler}
use spica.Elements.States.Parallel.{parallel_handler}
use spica.Elements.States.Map.{map_handler}
use spica.Base.{
  ite, Bool, true, false, ◌||◌, Option, none, some, List, [], ◌∷◌, ◌++◌, if◌then◌else◌, codes,
}

module _ {V S : Type 0} (engine : Engine V S) where
  open engine use {json, storage}

  -- `state_handlers.create(state)`.
  unfoldable pub handler_of : State V → StateHandler V S
  handler_of (pass s) = simple engine (pass_completing engine s)
  handler_of (wait s) = wait_handler engine s
  handler_of (succeed s) = simple engine (succeed_completing engine s)
  handler_of (fail s) = simple engine (fail_completing engine s)
  handler_of (task s) = task_handler engine s
  handler_of (choice s) = simple engine (choice_completing engine s)
  handler_of (parallel s branches) = parallel_handler engine s branches
  handler_of (map_state s m) = map_handler engine s m

  -- `ActivityElementBehavior::open`.
  unfoldable pub open_activity : ObjectRef Meta.activity → Handle V S (ObjectRef Meta.activity)
  open_activity owner = do
    found ← read (storage.get_activity owner)
    row ← some_or_refuse not_found found
    pure owner

  -- `state_of`: the thread that owns the activity, and the state that it runs.
  unfoldable pub state_of : Activity V → Handle V S (Thread V × State V)
  state_of a = do
    found ← read (storage.get_thread a.meta.owner)
    thread ← some_or_refuse not_found found
    s ← state_definition engine thread a.state_path
    pure (thread, s)

  abbrev pub continue_complete_of : ObjectRef Meta.activity → Handle V S Unit
  continue_complete_of r = append_command engine (Command.continue_complete (as_raw_object_ref r))

  abbrev pub continue_terminate_of : ObjectRef Meta.activity → Handle V S Unit
  continue_terminate_of r = append_command engine (Command.continue_terminate (as_raw_object_ref r))

  -- The deadline of a running activity: only a waiting state and a task have one.
  abbrev pub expire : ObjectRef Meta.activity → Activity V → Timestamp → State V → Handle V S Unit
  expire r a deadline (wait s) =
      append_command engine (Command.complete_state r (or_value json.null a.input))
  expire r a deadline (task s) =
      match_option a.raw_output
        (append_command engine (
          Command.terminate_state r (
            failed (
              runtime (
                RuntimeError.timed_out (
                  codes "task ran past its TimeoutSeconds deadline ("
                  ++ format_u64 deadline
                  ++ codes ")"))))))
        λ v. refuse invalid_state
  expire r a deadline (pass s) = refuse invalid_state
  expire r a deadline (succeed s) = refuse invalid_state
  expire r a deadline (fail s) = refuse invalid_state
  expire r a deadline (choice s) = refuse invalid_state
  expire r a deadline (parallel s bs) = refuse invalid_state
  expire r a deadline (map_state s m) = refuse invalid_state

  abbrev pub expire_in :
      ObjectRef Meta.activity → Activity V → Timestamp → ActivityStatus V → Handle V S Unit
  expire_in r a deadline Activity.running = do (thread, s) ← state_of a; expire r a deadline s
  expire_in r a deadline Activity.completing = continue_complete_of r
  expire_in r a deadline (Activity.terminating reason) = continue_terminate_of r
  expire_in r a deadline Activity.completed = refuse invalid_state
  expire_in r a deadline (Activity.terminated reason) = refuse invalid_state

  -- `on_deadline_fired`.
  unfoldable pub activity_deadline_fired : ObjectRef Meta.activity → Timestamp → Handle V S Unit
  activity_deadline_fired r deadline = do
    found ← read (storage.get_activity r)
    a ← some_or_refuse invalid_state found
    expire_in r a deadline a.status

  abbrev pub settle_in :
      ObjectRef Meta.activity
      → Activity V
      → Thread V
      → State V
      → RawObjectRef
      → ActivityStatus V
      → Handle V S Unit
  settle_in r a thread s child Activity.running = do
    variables ← read (storage.get_variables (object_ref thread.meta))
    (handler_of s).child_completed r a child
  settle_in r a thread s child Activity.completing = continue_complete_of r
  settle_in r a thread s child (Activity.terminating reason) = continue_terminate_of r
  settle_in r a thread s child Activity.completed = pure tt
  settle_in r a thread s child (Activity.terminated reason) = pure tt

  -- The kind of child that a state owns.
  unfoldable pub child_kind : State V → Option ObjectKind
  child_kind (task s) = some Meta.task
  child_kind (parallel s bs) = some Meta.thread
  child_kind (map_state s m) = some Meta.thread
  child_kind (pass s) = none
  child_kind (wait s) = none
  child_kind (succeed s) = none
  child_kind (fail s) = none
  child_kind (choice s) = none

  -- `settle_child`, and the refusal of a state that owns no children.
  abbrev pub settle_child :
      ObjectRef Meta.activity
      → Activity V
      → Thread V
      → State V
      → RawObjectRef
      → Option ObjectKind
      → Handle V S Unit
  settle_child r a thread s child none = refuse invalid_state
  settle_child r a thread s child (some expected) =
      ite (ObjectKind-discrete child.kind expected) (settle_in r a thread s child a.status)
        (refuse invalid_state)

  -- `after_child_completed`, and `after_child_terminated`, which is the same.
  unfoldable pub activity_child_settled : ObjectRef Meta.activity → RawObjectRef → Handle V S Unit
  activity_child_settled r child = do
    found ← read (storage.get_activity r)
    a ← some_or_refuse invalid_state found
    (thread, s) ← state_of a
    settle_child r a thread s child (child_kind s)

  -- What an activity's teardown asks of a child: any other kind panics.
  abbrev pub sweep_child : RawObjectRef → ObjectKind → Handle V S Unit
  sweep_child child Meta.thread =
      append_command engine
        (Command.terminate_thread (typed Meta.thread child) TerminationReason.cancelled)
  sweep_child child Meta.task = append_command engine (Command.cancel_task (typed Meta.task child))
  sweep_child child kind = stop panic

  abbrev pub defers_terminating : State V → Bool
  defers_terminating (task s) = true
  defers_terminating (wait s) = true
  defers_terminating (parallel s bs) = true
  defers_terminating (map_state s m) = true
  defers_terminating _ = false

  abbrev pub defers_completing : State V → Bool
  defers_completing (task s) = true
  defers_completing (parallel s bs) = true
  defers_completing (map_state s m) = true
  defers_completing _ = false

  abbrev pub drained_terminating : Activity V → List RawObjectRef → Handle V S Unit
  drained_terminating a (c ∷ cs) = for_each (λ child. sweep_child child child.kind) (c ∷ cs)
  drained_terminating a [] = do
    (thread, s) ← state_of a
    if defers_terminating s then pure tt else stop panic
    variables ← read (storage.get_variables (object_ref thread.meta))
    (handler_of s).after_terminating a variables

  -- `continue_terminate`.
  unfoldable pub continue_terminate_activity : ObjectRef Meta.activity → Handle V S Unit
  continue_terminate_activity r = do
    found ← read (storage.get_activity r)
    a ← some_or_refuse not_found found
    if is_terminating a.status then pure tt else refuse invalid_state
    children ← read (storage.get_children (raw_object_ref a.meta))
    drained_terminating a children

  abbrev pub drained_completing : Activity V → List RawObjectRef → Handle V S Unit
  drained_completing a (c ∷ cs) = for_each (λ child. sweep_child child child.kind) (c ∷ cs)
  drained_completing a [] = do
    (thread, s) ← state_of a
    if defers_completing s then pure tt else stop panic
    variables ← read (storage.get_variables (object_ref thread.meta))
    (handler_of s).after_completing a variables

  -- `continue_complete`.
  unfoldable pub continue_complete_activity : ObjectRef Meta.activity → Handle V S Unit
  continue_complete_activity r = do
    found ← read (storage.get_activity r)
    a ← some_or_refuse not_found found
    if is_completing a.status then pure tt else refuse invalid_state
    children ← read (storage.get_children (raw_object_ref a.meta))
    drained_completing a children

  -- `ActivateStateHandler::handle`.
  unfoldable pub activate_state : ActivateState V → Handle V S Unit
  activate_state p = do
    found ← read (storage.get_thread p.owner)
    thread ← some_or_refuse not_found found
    if Thread.is_running thread.status then pure tt else refuse invalid_state
    s ← state_definition engine thread p.state_path
    StateHandler.activate engine (handler_of s) p thread

  -- `CompleteStateHandler::handle`.
  unfoldable pub complete_state : ObjectRef Meta.activity → V → Handle V S Unit
  complete_state r output = do
    found ← read (storage.get_activity r)
    a ← some_or_refuse not_found found
    (thread, s) ← state_of a
    if is_running a.status then pure tt else refuse invalid_state
    if Thread.is_running thread.status then pure tt else refuse invalid_state
    StateHandler.complete engine (handler_of s) output a thread

  abbrev pub resolve_and_terminate : TerminationReason V → Activity V → Handle V S Unit
  resolve_and_terminate reason a = do
    (thread, s) ← state_of a
    StateHandler.terminate engine (handler_of s) reason a thread

  -- `TerminateStateHandler::handle`: a running or a completing activity.
  unfoldable pub terminate_state : ObjectRef Meta.activity → TerminationReason V → Handle V S Unit
  terminate_state r reason = do
    found ← read (storage.get_activity r)
    a ← some_or_refuse not_found found
    if is_running a.status || is_completing a.status then pure tt else refuse invalid_state
    resolve_and_terminate reason a
