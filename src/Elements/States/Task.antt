-- ===== src/Elements/States/Task.antt =====
-- crates/engine/src/elements/states/task.rs: the state that hands its work to a worker, with its
-- deadline and its catchers; and the defaults of a retrier (crates/asl/src/retry.rs, and
-- `RetryPolicy::resolve` of crates/engine-types/src/types/task.rs).
pub mod Errors
unfoldable pub use spica.Elements.States.Task.Errors.{
  resolve_retrier, error_object, runtime_error_output, error_output,
}
use spica.Machinery.Timestamp.{Timestamp, checked_add}
use spica.Machinery.Name.{generated_from_key, base}
use spica.Types.Meta.{
  ObjectRef, RawObjectRef, ObjectKind, object_ref, raw_object_ref, with_update_at,
}
use spica.Types.Meta
use spica.Types.Error.{
  ExecutionError, RuntimeError, runtime, invalid_definition, matches_error_names, infra, rejected,
}
use spica.Types.Error
use spica.Types.Event.{Event, Variables}
use spica.Types.Command
use spica.Types.Activity.{Activity, retry_count}
use spica.Types.Activity
use spica.Types.Task.{RetryPolicy, F64}
use spica.Asl.{TaskState, Retrier, Catcher, IntOrExpr, int}
use spica.Asl.StatePath.{state_name, sibling}
use spica.Elements.Interface.{Engine}
use spica.Elements.Expression.{eval_string_or_expr, build_states, or_value, StatesContext}
use spica.Elements.Handle.{
  Handle, match_option, match_result, pure, try_read, for_each, append_command, append_event, now,
  mint, next_generated_seq, ◌>>=◌, ◌>>◌,
}
use spica.Elements.Settle.{typed}
use spica.Elements.StateHandler.{StateHandler, apply_assign, project_output, fail_state}
use spica.Elements.States.Finish.{process, finish_result, land_terminated, result_of}
use spica.Elements.States.Converge.{flatten}
use spica.Elements.States.Parallel.{arguments_input}
use spica.Base.{
  zero, suc, ◌*◌, ite, Bool, true, false, Option, none, some, List, [], ◌∷◌, map, if◌then◌else◌,
  Str, codes, Result, ok, err, ℤ, pos, negsuc,
}

module _ {V S : Type 0} (engine : Engine V S) where
  open engine use {json, storage, eval_json, default_backoff_rate}

  abbrev pub invalid_timeout : Str → Result (ExecutionError V) (Option Timestamp)
  invalid_timeout text = err (runtime (invalid_definition text))

  -- A positive number of seconds from an instant.
  unfoldable pub deadline_in : Option ℤ → Timestamp → Result (ExecutionError V) (Option Timestamp)
  deadline_in none at = invalid_timeout (codes "Task TimeoutSeconds must be a positive integer")
  deadline_in (some (negsuc n)) at =
      invalid_timeout (codes "Task TimeoutSeconds must be a positive integer")
  deadline_in (some (pos zero)) at =
      invalid_timeout (codes "Task TimeoutSeconds must be a positive integer")
  deadline_in (some (pos (suc n))) at = elim (checked_add at (suc n * 1000)) [
    | none ↦ invalid_timeout (codes "Task TimeoutSeconds overflows the absolute deadline")
    | some t ↦ ok (some t)
  ]

  -- `resolve_task_deadline`.
  unfoldable pub resolve_task_deadline :
      Option IntOrExpr
      → Variables V
      → V
      → Timestamp
      → Handle V S (Result (ExecutionError V) (Option Timestamp))
  resolve_task_deadline none variables states at = pure (ok none)
  resolve_task_deadline (some (int n)) variables states at = pure (deadline_in (some n) at)
  resolve_task_deadline (some (IntOrExpr.expr text)) variables states at = do
    found ← eval_string_or_expr engine text states variables
    pure (elim found [ err e ↦ err e | ok v ↦ deadline_in (json.as_whole v) at ])

  abbrev pub no_deadline_on_error :
      Result (ExecutionError V) (Option Timestamp)
      → Option Timestamp × Result (ExecutionError V) Unit
  no_deadline_on_error (ok d) = (d, ok tt)
  no_deadline_on_error (err e) = (none, err e)

  -- `after_activated`: the task is named and asked for, and a bad timeout is reported after it.
  unfoldable pub invoke :
      TaskState V → Activity V → Variables V → V → Handle V S (Result (ExecutionError V) Unit)
  invoke s a variables states = do
    at ← now engine
    found ← resolve_task_deadline s.timeout_seconds variables states at
    let (deadline, outcome) = no_deadline_on_error found
    uid ← mint engine
    seq ← next_generated_seq engine
    append_command engine (
        Command.activate_task (record {
          execution = a.execution;
          owner = object_ref a.meta;
          task = record { name = generated_from_key (base a.execution.name) seq; uid = uid };
          resource = s.resource;
          arguments = or_value json.null a.input;
          retry_plan = map (resolve_retrier default_backoff_rate) (or_value [] s.retry);
          deadline = deadline;
        }))
    pure outcome

  abbrev pub settle_by_kind : ObjectRef Meta.activity → Activity V → ObjectKind → Handle V S Unit
  settle_by_kind activity a Meta.task =
      append_command engine (Command.complete_state activity (or_value json.null a.raw_output))
  settle_by_kind activity a kind = pure tt

  -- `child_completed`.
  unfoldable pub task_child_completed :
      ObjectRef Meta.activity → Activity V → RawObjectRef → Handle V S Unit
  task_child_completed activity a child = settle_by_kind activity a child.kind

  unfoldable pub task_completing : TaskState V → Activity V → Variables V → Handle V S Unit
  task_completing s a variables = do
    found ← process engine a variables s.assign s.output s.end s.next
    finish_result engine a found

  -- The tasks among the children; a failed read counts as none.
  unfoldable pub task_children : List RawObjectRef → List (ObjectRef Meta.task)
  unfolding Meta.ObjectKind-discrete
  task_children [] = []
  task_children (c ∷ cs) =
      let rest = task_children cs in
      ite (Meta.ObjectKind-discrete c.kind Meta.task) (typed Meta.task c ∷ rest) rest

  abbrev pub children_or_none : {E : Type 0} → Result E (List RawObjectRef) → List RawObjectRef
  children_or_none (ok cs) = cs
  children_or_none (err e) = []

  abbrev pub cancel_tasks : List (ObjectRef Meta.task) → Handle V S Unit
  cancel_tasks = for_each (λ r. append_command engine (Command.cancel_task r))

  abbrev pub terminate_pending : Activity V → List (ObjectRef Meta.task) → Handle V S Unit
  terminate_pending a [] = land_terminated engine a
  terminate_pending a (r ∷ rs) = cancel_tasks (r ∷ rs)

  -- `after_terminating`: the tasks are cancelled first, and with none left the state ends.
  unfoldable pub task_terminating : Activity V → Handle V S Unit
  task_terminating a = do
    children ← try_read (storage.get_children (raw_object_ref a.meta))
    terminate_pending a (task_children (children_or_none children))

  -- The first catcher that matches.
  unfoldable pub find_catcher : ExecutionError V → List (Catcher V) → Option (Catcher V)
  find_catcher e [] = none
  find_catcher e (c ∷ cs) =
      if matches_error_names e c.error_equals then some c else find_catcher e cs

  -- The activity lands `Completed` with the output of the catcher.
  abbrev pub caught_row : Activity V → Timestamp → V → Activity V
  caught_row a at output = record a {
    status = Activity.completed;
    output = some output;
    raw_output = some (result_of engine a);
    meta = with_update_at at a.meta;
  }

  abbrev pub land_caught : Activity V → Catcher V → V → Handle V S Bool
  land_caught a c output = do
    children ← try_read (storage.get_children (raw_object_ref a.meta))
    cancel_tasks (task_children (children_or_none children))
    at ← now engine
    append_event engine (Event.state_completed (caught_row a at output))
    append_event engine (Event.state_transitioned (object_ref a.meta) (sibling a.state_path c.next))
    append_command engine (
        Command.activate_state (record {
          execution = a.execution;
          owner = a.meta.owner;
          state_path = sibling a.state_path c.next;
          input = output;
        }))
    pure true

  -- An expression of the catcher that fails ends the state with that error.
  abbrev pub caught_with_error : Activity V → ExecutionError V → Handle V S Bool
  caught_with_error a e = do fail_state engine (object_ref a.meta) e; pure true

  abbrev pub catch_output :
      Activity V → Catcher V → V → Result (ExecutionError V) (Variables V) → Handle V S Bool
  catch_output a c states (err e) = caught_with_error a e
  catch_output a c states (ok scope) =
      match_result (project_output engine c.output states scope (result_of engine a))
        (caught_with_error a) (land_caught a c)

  abbrev pub catch_context : Activity V → V → StatesContext V
  catch_context a error_out = record {
    input = a.raw_input;
    result = some (result_of engine a);
    state_name = state_name a.state_path;
    assign_ctx = some a.raw_input;
    retry_count = retry_count a;
    error_output = some error_out;
  }

  abbrev pub variables_or_none : {E : Type 0} → Result E (Variables V) → Variables V
  variables_or_none (ok vs) = vs
  variables_or_none (err e) = []

  abbrev pub catch_with : Activity V → ExecutionError V → Option (Catcher V) → Handle V S Bool
  catch_with a e none = pure false
  catch_with a e (some c) = do
    thread ← try_read (storage.get_thread a.meta.owner)
    match_option (flatten thread) (pure false) λ t. do
      let states = build_states json (catch_context a (or_value json.null (error_output engine e)))
      found ← try_read (storage.get_variables a.meta.owner)
      scope ← apply_assign engine a.meta.owner c.assign states (variables_or_none found)
      catch_output a c states scope

  -- `on_failed`.
  unfoldable pub catch_failure : TaskState V → Activity V → ExecutionError V → Handle V S Bool
  catch_failure s a e = catch_with a e (find_catcher e (or_value [] s.catch))

  abbrev pub task_handler : TaskState V → StateHandler V S
  task_handler s = record {
    initialize = λ a. a;
    process_input = arguments_input engine s.arguments;
    after_activated = invoke s;
    complete_directly = false;
    child_completed = task_child_completed;
    after_completing = task_completing s;
    after_terminating = λ a variables. task_terminating a;
    on_failed = catch_failure s;
  }
