-- ===== src/Elements/Execution.antt =====
-- crates/engine/src/elements/execution.rs: the birth, the finish and the teardown of a run.
use spica.Machinery.Timestamp.{Timestamp, checked_add}
use spica.Machinery.Decimal.{format_u64}
use spica.Machinery.Name.{ObjectName, generated_from_key, base}
use spica.Types.Meta.{
  ObjectRef, RawObjectRef, ObjectKind, Ulid, no_owner, execution_owner, raw_object_ref,
  as_raw_object_ref,
}
use spica.Types.Meta
use spica.Types.Error.{
  TerminationReason, StorageError, RuntimeError, failed, runtime, not_found, invalid_state,
  invalid_argument, already_exists, ExecutionError,
}
use spica.Types.Event
use spica.Types.Command.{CreateExecution}
use spica.Types.Command
use spica.Types.Execution.{
  Execution, ExecutionStatus, is_terminating, is_completing, mark_completing, mark_completed,
  mark_terminating, mark_terminated, Refusal,
}
use spica.Types.Execution
use spica.Types.Thread
use spica.Asl.{StateMachine}
use spica.Asl.StatePath.{root, state}
use spica.Elements.Interface.{Engine}
use spica.Elements.Expression.{or_value}
use spica.Elements.Handle.{
  Handle, pure, stop, panic, refuse, read, try_read, some_or_refuse, for_each, append_command,
  append_event, now, mint, next_generated_seq, ◌>>=◌, ◌>>◌,
}
use spica.Elements.Context.{machine}
use spica.Elements.Settle.{typed}
use spica.Elements.StateHandler.{born_at, marked}
use spica.Elements.States.Finish.{debug_mark}
use spica.Base.{
  zero, suc, ◌*◌, Option, none, some, List, [], ◌∷◌, ◌++◌, ◌==◌, if◌then◌else◌, codes, Result, ok,
  err, ℤ, pos, negsuc,
}

module _ {V S : Type 0} (engine : Engine V S) where
  open engine use {storage}

  abbrev pub expire_run : ObjectRef Meta.execution → Timestamp → ExecutionStatus V → Handle V S Unit
  expire_run r deadline Execution.running = append_command engine (
      Command.terminate_execution r.name (some r.uid) (
        failed (
          runtime (
            RuntimeError.timed_out (
              codes "execution ran past its TimeoutSeconds deadline ("
              ++ format_u64 deadline
              ++ codes ")")))))
  expire_run r deadline Execution.completing =
      append_command engine (Command.continue_complete (as_raw_object_ref r))
  expire_run r deadline (Execution.terminating reason) =
      append_command engine (Command.continue_terminate (as_raw_object_ref r))
  expire_run r deadline Execution.completed = refuse invalid_state
  expire_run r deadline (Execution.terminated reason) = refuse invalid_state

  -- `on_deadline_fired`.
  unfoldable pub execution_deadline_fired : ObjectRef Meta.execution → Timestamp → Handle V S Unit
  execution_deadline_fired r deadline = do
    found ← read (storage.get_execution r)
    exec ← some_or_refuse invalid_state found
    expire_run r deadline exec.status

  -- `if let Some(want) = uid && want != uid`.
  abbrev pub check_incarnation : Option Ulid → Ulid → Handle V S Unit
  check_incarnation none uid = pure tt
  check_incarnation (some want) uid = if want == uid then pure tt else refuse invalid_state

  -- What a run's teardown asks of a child: only its root thread, any other panics.
  abbrev pub cancel_root : RawObjectRef → ObjectKind → Handle V S Unit
  cancel_root child Meta.thread =
      append_command engine
        (Command.terminate_thread (typed Meta.thread child) TerminationReason.cancelled)
  cancel_root child kind = stop panic

  unfoldable pub sweep_roots : List RawObjectRef → Handle V S Unit
  sweep_roots = for_each (λ child. cancel_root child child.kind)

  -- `mark_terminated(…).expect(…)`.
  abbrev pub expect_marked : Execution V × Result Refusal Unit → Handle V S (Execution V)
  expect_marked (e, ok u) = pure e
  expect_marked (e, err x) = stop panic

  abbrev pub terminate_drained : Execution V → List RawObjectRef → Handle V S Unit
  terminate_drained exec [] = do
    at ← now engine
    terminated ← expect_marked (mark_terminated at exec)
    append_event engine (Event.execution_terminated terminated)
  terminate_drained exec (c ∷ cs) = sweep_roots (c ∷ cs)

  -- `terminate`, by name: without a uid it is the run that has the name now.
  unfoldable pub terminate_execution :
      ObjectName → Option Ulid → TerminationReason V → Handle V S Unit
  terminate_execution name uid reason = do
    found ← read (storage.get_execution (record { name = name; uid = or_value 0 uid }))
    exec ← some_or_refuse not_found found
    check_incarnation uid exec.meta.uid
    at ← now engine
    terminating ← marked (mark_terminating reason at exec)
    append_event engine (Event.execution_terminating terminating)
    children ← read (storage.get_children (raw_object_ref exec.meta))
    terminate_drained terminating children

  abbrev pub complete_drained : Execution V → List RawObjectRef → Handle V S Unit
  complete_drained exec [] = do
    completed ← debug_mark engine mark_completed exec
    append_event engine (Event.execution_completed completed)
  complete_drained exec (c ∷ cs) = refuse invalid_state

  -- `complete`.
  unfoldable pub complete_execution : ObjectRef Meta.execution → V → Handle V S Unit
  complete_execution execution output = do
    found ← read (storage.get_execution execution)
    exec ← some_or_refuse not_found found
    at ← now engine
    completing ← marked (mark_completing output at exec)
    append_event engine (Event.execution_completing completing)
    children ← read (storage.get_children (raw_object_ref exec.meta))
    complete_drained completing children

  abbrev pub end_terminating : Execution V → List RawObjectRef → Handle V S Unit
  end_terminating exec [] = do
    at ← now engine
    terminated ← marked (mark_terminated at exec)
    append_event engine (Event.execution_terminated terminated)
  end_terminating exec (c ∷ cs) = sweep_roots (c ∷ cs)

  -- `continue_terminate`.
  unfoldable pub continue_terminate_execution : ObjectRef Meta.execution → Handle V S Unit
  continue_terminate_execution node = do
    found ← read (storage.get_execution node)
    exec ← some_or_refuse not_found found
    if is_terminating exec.status then pure tt else refuse invalid_state
    children ← read (storage.get_children (raw_object_ref exec.meta))
    end_terminating exec children

  abbrev pub end_completing : Execution V → List RawObjectRef → Handle V S Unit
  end_completing exec [] = do
    at ← now engine
    completed ← marked (mark_completed at exec)
    append_event engine (Event.execution_completed completed)
  end_completing exec (c ∷ cs) = stop panic

  -- `continue_complete`.
  unfoldable pub continue_complete_execution : ObjectRef Meta.execution → Handle V S Unit
  continue_complete_execution node = do
    found ← read (storage.get_execution node)
    exec ← some_or_refuse not_found found
    if is_completing exec.status then pure tt else refuse invalid_state
    children ← read (storage.get_children (raw_object_ref exec.meta))
    end_completing exec children

  -- `if let Ok(Some(_))`.
  abbrev pub refuse_existing : Result StorageError (Option (Execution V)) → Handle V S Unit
  refuse_existing (ok (some e)) = refuse already_exists
  refuse_existing (ok none) = pure tt
  refuse_existing (err e) = pure tt

  abbrev pub or_invalid : Result (ExecutionError V) (StateMachine V) → Handle V S (StateMachine V)
  or_invalid (ok m) = pure m
  or_invalid (err e) = refuse invalid_argument

  abbrev pub deadline_of : Option Timestamp → Handle V S (Option Timestamp)
  deadline_of none = refuse invalid_argument
  deadline_of (some at) = pure (some at)

  -- The deadline of a positive `TimeoutSeconds`, refused when it overflows.
  unfoldable pub run_deadline : Option ℤ → Handle V S (Option Timestamp)
  run_deadline none = pure none
  run_deadline (some (negsuc n)) = pure none
  run_deadline (some (pos zero)) = pure none
  run_deadline (some (pos (suc n))) = do
    at ← now engine
    deadline_of (checked_add at (suc n * 1000))

  -- `create`: the run and its root thread, and the activation of the first state.
  unfoldable pub create_execution : CreateExecution V → Handle V S Unit
  create_execution p = do
    found ← try_read (storage.get_execution (record { name = p.name; uid = 0 }))
    refuse_existing found
    uid ← mint engine
    loaded ← machine engine p.flow_version
    sm ← or_invalid loaded
    deadline ← run_deadline sm.timeout_seconds
    at ← now engine
    let run : ObjectRef Meta.execution = record { name = p.name; uid = uid }
    append_event engine (
        Event.execution_created p.request_id (record {
          meta = born_at uid p.name at no_owner;
          flow_version = p.flow_version;
          status = Execution.running;
          deadline = deadline;
          input = p.input;
          output = none;
        }))
    root_uid ← mint engine
    seq ← next_generated_seq engine
    let root_name = generated_from_key (base p.name) seq
    at' ← now engine
    append_event engine (
        Event.thread_created (record {
          meta = born_at root_uid root_name at' (execution_owner run);
          execution = run;
          state_path = root;
          start_at = sm.start_at;
          index = 0;
          status = Thread.running;
          input = p.input;
          output = none;
        }))
    append_command engine (
        Command.activate_state (record {
          execution = run;
          owner = record { name = root_name; uid = root_uid };
          state_path = state root sm.start_at;
          input = p.input;
        }))
