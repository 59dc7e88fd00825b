-- ===== src/Elements/States/Finish.antt =====
-- The finish of a state in crates/engine/src/elements/states: pass.rs, wait.rs and task.rs, whose code
-- is the same, and the ends that the other types share.
use spica.Machinery.Timestamp.{Timestamp}
use spica.Types.Meta.{object_ref, raw_object_ref}
use spica.Types.Error.{ExecutionError, TerminationReason, failed, runtime, no_terminal}
use spica.Types.Event.{Event, Variables}
use spica.Types.Command.{Command}
use spica.Types.Thread.{StatePath}
use spica.Types.Activity.{Activity, mark_completed, mark_terminating, mark_terminated, retry_count}
use spica.Asl.{AssignObject}
use spica.Asl.StatePath.{state_name, sibling}
use spica.Elements.Interface.{Engine}
use spica.Elements.Expression.{StatesContext, build_states, or_value}
use spica.Elements.Handle.{
  Handle, pure, stop, panic, append_command, append_event, now, ◌>>=◌, ◌>>◌,
}
use spica.Elements.Settle.{open_thread, thread_child_terminated}
use spica.Elements.StateHandler.{apply_assign, project_output, fail_state}
use spica.Base.{Bool, true, false, Option, none, some, if◌then◌else◌, Str, Result, ok, err}

pub data Finish (V : Type 0) : Type 0 where
  next : (path : StatePath) (output : V) → Finish V
  end : (output : V) → Finish V
  no_end : Finish V

module _ {V S : Type 0} where
  abbrev pub asserted : {A E : Type 0} → A × Result E Unit → Handle V S A
  asserted (a, ok u) = pure a
  asserted (a, err e) = stop panic

module _ {V S : Type 0} (engine : Engine V S) where
  open engine use {debug_assertions, json}

  -- `debug_assert!(row.mark(…, out.now()).is_ok())`, and the row after it.
  unfoldable pub debug_mark :
      {A E : Type 0} → (Timestamp → A → A × Result E Unit) → A → Handle V S A
  debug_mark mark a =
      if debug_assertions then (do at ← now engine; asserted (mark at a)) else pure a

  -- The raw output of a completing activity, or its raw input.
  abbrev pub result_of : Activity V → V
  result_of a = or_value a.raw_input a.raw_output

  abbrev pub context_of : Activity V → Option V → StatesContext V
  context_of a result = record {
    input = a.raw_input;
    result = result;
    state_name = state_name a.state_path;
    assign_ctx = some a.raw_input;
    retry_count = retry_count a;
    error_output = none;
  }

  -- Where a state goes: `End` wins, then `Next`.
  unfoldable pub route : Activity V → Option Bool → Option Str → V → Finish V
  route a (some true) to output = end output
  route a (some false) none output = no_end
  route a (some false) (some n) output = next (sibling a.state_path n) output
  route a none none output = no_end
  route a none (some n) output = next (sibling a.state_path n) output

  abbrev pub projected :
      Activity V
      → Option V
      → Option Bool
      → Option Str
      → V
      → Result (ExecutionError V) (Variables V)
      → Result (ExecutionError V) (Finish V)
  projected a output stop_here to states (err e) = err e
  projected a output stop_here to states (ok scope) =
      elim (project_output engine output states scope (result_of a)) [
        | err e ↦ err e
        | ok v ↦ ok (route a stop_here to v)
      ]

  -- `process_pass`, `process_wait` and `process_task`: the assignment, the output and the route.
  unfoldable pub process :
      Activity V
      → Variables V
      → Option (AssignObject V)
      → Option V
      → Option Bool
      → Option Str
      → Handle V S (Result (ExecutionError V) (Finish V))
  process a variables assign output stop_here to = do
    let states = build_states json (context_of a (some (result_of a)))
    scope ← apply_assign engine a.meta.owner assign states variables
    pure (projected a output stop_here to states scope)

  -- The activity is terminated at once, and its thread told.
  unfoldable pub end_terminated : TerminationReason V → Activity V → Handle V S Unit
  end_terminated reason a = do
    container ← open_thread engine a.meta.owner
    terminating ← debug_mark (mark_terminating reason) a
    append_event engine (Event.state_terminating terminating)
    terminated ← debug_mark mark_terminated terminating
    append_event engine (Event.state_terminated terminated)
    thread_child_terminated engine container (raw_object_ref terminated.meta)

  -- `StateTransitioned` and the activation of the next state.
  unfoldable pub move_on : Activity V → StatePath → V → Handle V S Unit
  move_on a path output = do
    append_event engine (Event.state_transitioned (object_ref a.meta) path)
    append_command engine (
        Command.activate_state (record {
          execution = a.execution;
          owner = a.meta.owner;
          state_path = path;
          input = output;
        }))

  -- The activity becomes `Completed` with this output.
  unfoldable pub land_completed : Activity V → V → Handle V S Unit
  land_completed a output = do
    completed ← debug_mark (mark_completed output) a
    append_event engine (Event.state_completed completed)

  unfoldable pub finish : Activity V → Finish V → Handle V S Unit
  finish a (next path output) = do land_completed a output; move_on a path output
  finish a (end output) = do
    land_completed a output
    append_command engine (Command.complete_thread a.meta.owner output)
  finish a no_end = end_terminated (failed (runtime no_terminal)) a

  abbrev pub finish_result : Activity V → Result (ExecutionError V) (Finish V) → Handle V S Unit
  finish_result a (err e) = fail_state engine (object_ref a.meta) e
  finish_result a (ok f) = finish a f

  -- `after_terminating` of a state with no children.
  unfoldable pub land_terminated : Activity V → Handle V S Unit
  land_terminated a = do
    container ← open_thread engine a.meta.owner
    terminated ← debug_mark mark_terminated a
    append_event engine (Event.state_terminated terminated)
    thread_child_terminated engine container (raw_object_ref terminated.meta)
