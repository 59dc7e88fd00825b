-- ===== src/Elements/StateHandler.antt =====
-- crates/engine/src/elements/state_handler.rs: what every type of state shares. A state type fills the
-- hooks; the three commands on an activity are the same for all of them.
use spica.HashMap.{HashMap}
use spica.HashMap
use spica.Machinery.Timestamp.{Timestamp}
use spica.Machinery.Name.{ObjectName, generated_from_key, base}
use spica.Types.Meta.{ObjectRef, RawObjectRef, object_ref, with_update_at, ObjectMeta}
use spica.Types.Meta
use spica.Types.Flow.{default_scope}
use spica.Types.Error.{
  ExecutionError, TerminationReason, failed, invalid_state, runtime, invalid_definition,
}
use spica.Types.Event.{Event, Variables}
use spica.Types.Command.{Command, ActivateState}
use spica.Types.Thread.{Thread}
use spica.Types.Activity.{Activity, mark_completing, mark_terminating, retry_count}
use spica.Types.Activity
use spica.Asl.{AssignObject}
use spica.Asl.StatePath.{state_name}
use spica.Elements.Interface.{Engine}
use spica.Elements.Expression.{build_states}
use spica.Elements.Handle.{
  Handle, pure, refuse, read, append_command, append_event, now, mint, next_generated_seq, ◌>>=◌,
  ◌>>◌,
}
use spica.Base.{
  Bool, true, false, Option, none, some, [], ◌∷◌, if◌then◌else◌, Str, codes, Str-discrete, Result,
  ok, err,
}

-- The hooks of the trait `StateHandler`. `on_failed` says whether the failure was caught.
pub record StateHandler (V S : Type 0) : Type 0 where
  pub initialize : Activity V → Activity V
  pub process_input :
      Activity V
      → Variables V
      → V
      → Timestamp
      → Handle V S (Result (ExecutionError V) (V × Activity V))
  pub after_activated : Activity V → Variables V → V → Handle V S (Result (ExecutionError V) Unit)
  pub complete_directly : Bool
  pub child_completed : ObjectRef Meta.activity → Activity V → RawObjectRef → Handle V S Unit
  pub after_completing : Activity V → Variables V → Handle V S Unit
  pub after_terminating : Activity V → Variables V → Handle V S Unit
  pub on_failed : Activity V → ExecutionError V → Handle V S Bool

-- The metadata that the builder gives: the default scope, one instant for birth and update.
abbrev pub born_at :
    {k : Meta.ObjectKind} → Meta.Ulid → ObjectName → Timestamp → Meta.OwnedBy k → ObjectMeta k
born_at uid name at owner = record {
  tenant = default_scope;
  namespace = default_scope;
  name = name;
  uid = uid;
  created_at = at;
  updated_at = at;
  owner = owner;
}

module _ {V S : Type 0} where
  -- A mark that declines refuses the command, and otherwise gives the new row.
  unfoldable pub marked : {A E : Type 0} → A × Result E Unit → Handle V S A
  marked (a, ok u) = pure a
  marked (a, err e) = refuse invalid_state

module _ {V S : Type 0} (engine : Engine V S) where
  open engine use {json, storage, eval_json}

  -- `Command::TerminateState` with a failure.
  unfoldable pub fail_state : ObjectRef Meta.activity → ExecutionError V → Handle V S Unit
  fail_state activity e = append_command engine (Command.terminate_state activity (failed e))

  -- The variables that an assignment writes: none of them is one that was not there and not assigned.
  unfoldable pub assigned :
      ObjectRef Meta.thread
      → Variables V
      → Option (HashMap Str V)
      → Handle V S (Result (ExecutionError V) (Variables V))
  assigned owner scope none =
      pure (err (runtime (invalid_definition (codes "Assign must evaluate to a JSON object"))))
  assigned owner scope (some []) = pure (ok scope)
  assigned owner scope (some (kv ∷ kvs)) =
      let scope' = HashMap.extend Str-discrete scope (kv ∷ kvs) in
      do append_event engine (Event.variables_assigned owner scope'); pure (ok scope')

  unfoldable pub assign_evaluated :
      ObjectRef Meta.thread
      → Variables V
      → Result (ExecutionError V) V
      → Handle V S (Result (ExecutionError V) (Variables V))
  assign_evaluated owner scope (err e) = pure (err e)
  assign_evaluated owner scope (ok v) = assigned owner scope (json.as_object v)

  -- `apply_assign`: the scope with the assigned variables.
  unfoldable pub apply_assign :
      ObjectRef Meta.thread
      → Option (AssignObject V)
      → V
      → Variables V
      → Handle V S (Result (ExecutionError V) (Variables V))
  apply_assign owner none states scope = pure (ok scope)
  apply_assign owner (some assign) states scope =
      assign_evaluated owner scope (eval_json (json.object assign) states scope)

  -- `project_output`.
  unfoldable pub project_output : Option V → V → Variables V → V → Result (ExecutionError V) V
  project_output none states scope fallback = ok fallback
  project_output (some output) states scope fallback = eval_json output states scope

module _ {V S : Type 0} (engine : Engine V S) (handler : StateHandler V S) where
  open engine use {storage}

  unfoldable pub finish_activation :
      ObjectRef Meta.activity → V → Result (ExecutionError V) Unit → Handle V S Unit
  finish_activation activity input (err e) = fail_state engine activity e
  finish_activation activity input (ok u) =
      if handler.complete_directly
      then append_command engine (Command.complete_state activity input)
      else pure tt

  unfoldable pub with_input :
      ObjectRef Meta.activity
      → Variables V
      → V
      → Result (ExecutionError V) (V × Activity V)
      → Handle V S Unit
  with_input activity variables states (err e) = fail_state engine activity e
  with_input activity variables states (ok (input, a)) = do
    at ← now engine
    let a' = record a { input = some input; meta = with_update_at at a.meta }
    append_event engine (Event.state_activated a')
    done ← handler.after_activated a' variables states
    finish_activation activity input done

  -- `activate`: the birth of the activity, its input, and what its state does with it.
  unfoldable pub activate : ActivateState V → Thread V → Handle V S Unit
  activate cmd thread = do
    uid ← mint engine
    seq ← next_generated_seq engine
    at ← now engine
    let born : Activity V = record {
      meta = born_at uid (generated_from_key (base cmd.execution.name) seq) at cmd.owner;
      execution = cmd.execution;
      state_path = cmd.state_path;
      status = Activity.running;
      raw_input = cmd.input;
      input = none;
      raw_output = none;
      activity_state = none;
      retry_state = none;
      output = none;
    }
    let activity = object_ref born.meta
    variables ← read (storage.get_variables (object_ref thread.meta))
    let a = handler.initialize born
    append_event engine (Event.state_activating a)
    let states = build_states engine.json (record {
      input = a.raw_input;
      result = none;
      state_name = state_name a.state_path;
      assign_ctx = none;
      retry_count = retry_count a;
      error_output = none;
    })
    at' ← now engine
    found ← handler.process_input a variables states at'
    with_input activity variables states found

  -- `complete`.
  unfoldable pub complete : V → Activity V → Thread V → Handle V S Unit
  complete output act thread = do
    at ← now engine
    a ← marked (mark_completing output at act)
    append_event engine (Event.state_completing a)
    variables ← read (storage.get_variables (object_ref thread.meta))
    handler.after_completing a variables

  -- The part of `terminate` that a caught failure skips.
  unfoldable pub begin_terminating : TerminationReason V → Activity V → Thread V → Handle V S Unit
  begin_terminating reason act thread = do
    at ← now engine
    a ← marked (mark_terminating reason at act)
    append_event engine (Event.state_terminating a)
    variables ← read (storage.get_variables (object_ref thread.meta))
    handler.after_terminating a variables

  unfoldable pub unless_caught :
      TerminationReason V → Activity V → Thread V → Bool → Handle V S Unit
  unless_caught reason act thread true = pure tt
  unless_caught reason act thread false = begin_terminating reason act thread

  -- `terminate`.
  unfoldable pub terminate : TerminationReason V → Activity V → Thread V → Handle V S Unit
  terminate (failed error) act thread = do
    caught ← handler.on_failed act error
    unless_caught (failed error) act thread caught
  terminate TerminationReason.timed_out act thread =
      begin_terminating TerminationReason.timed_out act thread
  terminate TerminationReason.cancelled act thread =
      begin_terminating TerminationReason.cancelled act thread
