-- ===== src/Elements/Thread.antt =====
-- crates/engine/src/elements/thread.rs: the birth, the finish and the teardown of a thread.
use spica.Machinery.Name.{generated_from_key, base}
use spica.Types.Meta.{
  ObjectRef, RawObjectRef, ObjectKind, ThreadOwner, execution_owner, activity_owner, object_ref,
  raw_object_ref, as_raw_object_ref, with_update_at,
}
use spica.Types.Meta
use spica.Types.Error.{TerminationReason, not_found, invalid_state}
use spica.Types.Event
use spica.Types.Command.{SpawnThread}
use spica.Types.Command
use spica.Types.Thread.{Thread, ThreadStatus, StatePath, is_running, mark_terminating}
use spica.Types.Thread
use spica.Types.Activity
use spica.Asl.StatePath.{state}
use spica.Elements.Interface.{Engine}
use spica.Elements.Expression.{or_value}
use spica.Elements.Handle.{
  Handle, Stop, error, rejected, unexpected, pure, stop, panic, refuse, read, some_or_refuse,
  for_each, append_command, append_event, now, mint, next_generated_seq, ◌>>=◌, ◌>>◌,
}
use spica.Elements.Settle.{
  typed, open_execution, execution_child_completed, execution_child_terminated,
}
use spica.Elements.StateHandler.{born_at, marked}
use spica.Elements.Activity.{open_activity, activity_child_settled}
use spica.Base.{
  Bool, true, false, Option, none, some, List, [], ◌∷◌, if◌then◌else◌, Result, ok, err,
}

abbrev pub forget : {V A : Type 0} → Result (Stop V) A → Result (Stop V) Unit
forget (ok a) = ok tt
forget (err e) = err e

module _ {V S : Type 0} where
  -- A container that is gone is passed over; any other error stays.
  abbrev pub unless_gone : Result (Stop V) Unit → Handle V S Unit → Handle V S Unit
  unless_gone (ok u) m = m
  unless_gone (err (error (rejected t))) m = pure tt
  unless_gone (err (error (unexpected e))) m = stop (error (unexpected e))
  unless_gone (err panic) m = stop panic

  -- `match open(…) { Ok(container) => …, Err(Rejected(..)) => {}, Err(err) => return Err(err) }`.
  unfoldable pub if_open : {A : Type 0} → Handle V S A → Handle V S Unit → Handle V S Unit
  if_open opening m w = let (r, w') = opening w in unless_gone (forget r) m w'

module _ {V S : Type 0} (engine : Engine V S) where
  open engine use {json, storage}

  -- What a thread's teardown asks of a child: only an activity, any other panics.
  abbrev pub cancel_state : RawObjectRef → ObjectKind → Handle V S Unit
  cancel_state child Meta.activity =
      append_command engine
        (Command.terminate_state (typed Meta.activity child) TerminationReason.cancelled)
  cancel_state child kind = stop panic

  unfoldable pub sweep_states : List RawObjectRef → Handle V S Unit
  sweep_states = for_each (λ child. cancel_state child child.kind)

  -- The owner is opened before the terminal event, and told after it.
  abbrev pub terminated_under : ThreadOwner → Thread V → RawObjectRef → Handle V S Unit
  terminated_under (execution_owner r) t child = do
    container ← open_execution engine r
    append_event engine (Event.thread_terminated t)
    execution_child_terminated engine container child
  terminated_under (activity_owner r) t child = do
    container ← open_activity engine r
    append_event engine (Event.thread_terminated t)
    activity_child_settled engine container child

  abbrev pub terminate_drained :
      Thread V → TerminationReason V → List RawObjectRef → Handle V S Unit
  terminate_drained row reason [] = do
    at ← now engine
    terminated_under row.meta.owner
        (record row { status = Thread.terminated reason; meta = with_update_at at row.meta })
        (raw_object_ref row.meta)
  terminate_drained row reason (c ∷ cs) = sweep_states (c ∷ cs)

  -- `terminate`.
  unfoldable pub terminate_thread : ObjectRef Meta.thread → TerminationReason V → Handle V S Unit
  terminate_thread thread reason = do
    found ← read (storage.get_thread thread)
    row ← some_or_refuse not_found found
    at ← now engine
    terminating ← marked (mark_terminating reason at row)
    append_event engine (Event.thread_terminating terminating)
    children ← read (storage.get_children (raw_object_ref row.meta))
    terminate_drained row reason children

  abbrev pub completed_under : ThreadOwner → Thread V → RawObjectRef → Handle V S Unit
  completed_under (execution_owner r) t child = do
    container ← open_execution engine r
    append_event engine (Event.thread_completed t)
    execution_child_completed engine container child
  completed_under (activity_owner r) t child = do
    container ← open_activity engine r
    append_event engine (Event.thread_completed t)
    activity_child_settled engine container child

  abbrev pub complete_drained : Thread V → V → List RawObjectRef → Handle V S Unit
  complete_drained row output [] = do
    at ← now engine
    completed_under row.meta.owner
        (record row {
          status = Thread.completed;
          output = some output;
          meta = with_update_at at row.meta;
        })
        (raw_object_ref row.meta)
  complete_drained row output (c ∷ cs) = refuse invalid_state

  -- `complete`.
  unfoldable pub complete_thread : ObjectRef Meta.thread → V → Handle V S Unit
  complete_thread thread output = do
    found ← read (storage.get_thread thread)
    row ← some_or_refuse not_found found
    if is_running row.status then pure tt else refuse invalid_state
    at ← now engine
    append_event engine (
        Event.thread_completing (record row {
          status = Thread.completing;
          output = some output;
          meta = with_update_at at row.meta;
        }))
    children ← read (storage.get_children (raw_object_ref row.meta))
    complete_drained row output children

  -- The owner is told after the terminal event, unless it is gone.
  unfoldable pub tell_terminated : ThreadOwner → RawObjectRef → Handle V S Unit
  tell_terminated (execution_owner r) child =
      if_open (open_execution engine r) (execution_child_terminated engine r child)
  tell_terminated (activity_owner r) child =
      if_open (open_activity engine r) (activity_child_settled engine r child)

  unfoldable pub tell_completed : ThreadOwner → RawObjectRef → Handle V S Unit
  tell_completed (execution_owner r) child =
      if_open (open_execution engine r) (execution_child_completed engine r child)
  tell_completed (activity_owner r) child =
      if_open (open_activity engine r) (activity_child_settled engine r child)

  abbrev pub end_terminating :
      ObjectRef Meta.thread → Thread V → TerminationReason V → List RawObjectRef → Handle V S Unit
  end_terminating node row reason [] = do
    at ← now engine
    append_event engine (
        Event.thread_terminated
          (record row { status = Thread.terminated reason; meta = with_update_at at row.meta }))
    tell_terminated row.meta.owner (as_raw_object_ref node)
  end_terminating node row reason (c ∷ cs) = sweep_states (c ∷ cs)

  abbrev pub reason_of_terminating : ThreadStatus V → Option (TerminationReason V)
  reason_of_terminating (Thread.terminating r) = some r
  reason_of_terminating _ = none

  -- `continue_terminate`.
  unfoldable pub continue_terminate_thread : ObjectRef Meta.thread → Handle V S Unit
  continue_terminate_thread node = do
    found ← read (storage.get_thread node)
    row ← some_or_refuse not_found found
    reason ← some_or_refuse invalid_state (reason_of_terminating row.status)
    children ← read (storage.get_children (raw_object_ref row.meta))
    end_terminating node row reason children

  abbrev pub is_completing : ThreadStatus V → Bool
  is_completing Thread.completing = true
  is_completing _ = false

  abbrev pub end_completing : ObjectRef Meta.thread → Thread V → List RawObjectRef → Handle V S Unit
  end_completing node row [] = do
    at ← now engine
    append_event engine (
        Event.thread_completed (record row {
          status = Thread.completed;
          output = some (or_value json.null row.output);
          meta = with_update_at at row.meta;
        }))
    tell_completed row.meta.owner (as_raw_object_ref node)
  end_completing node row (c ∷ cs) = sweep_states (c ∷ cs)

  -- `continue_complete`.
  unfoldable pub continue_complete_thread : ObjectRef Meta.thread → Handle V S Unit
  continue_complete_thread node = do
    found ← read (storage.get_thread node)
    row ← some_or_refuse not_found found
    if is_completing row.status then pure tt else refuse invalid_state
    children ← read (storage.get_children (raw_object_ref row.meta))
    end_completing node row children

  -- `state_path.expect(…)`.
  abbrev pub expect_path : Option StatePath → Handle V S StatePath
  expect_path none = stop panic
  expect_path (some p) = pure p

  -- `spawn`.
  unfoldable pub spawn_thread : SpawnThread V → Handle V S Unit
  spawn_thread p = do
    found ← read (storage.get_activity p.owner)
    owner ← some_or_refuse not_found found
    if Activity.is_running owner.status then pure tt else refuse invalid_state
    scope ← read (storage.get_thread owner.meta.owner)
    owner_thread ← some_or_refuse not_found scope
    uid ← mint engine
    seq ← next_generated_seq engine
    let name = generated_from_key (base p.execution.name) seq
    path ← expect_path p.state_path
    at ← now engine
    append_event engine (
        Event.thread_created (record {
          meta = born_at uid name at (activity_owner p.owner);
          execution = p.execution;
          state_path = path;
          start_at = p.start_at;
          index = p.index;
          status = Thread.running;
          input = p.input;
          output = none;
        }))
    append_command engine (
        Command.activate_state (record {
          execution = owner_thread.execution;
          owner = record { name = name; uid = uid };
          state_path = state path p.start_at;
          input = p.input;
        }))
