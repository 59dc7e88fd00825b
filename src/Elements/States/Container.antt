-- ===== src/Elements/States/Container.antt =====
-- crates/engine/src/elements/states: parallel.rs and map.rs, the states whose children are threads.
use spica.Types.Meta.{ObjectRef, RawObjectRef, ObjectKind, object_ref, raw_object_ref}
use spica.Types.Meta
use spica.Types.Error.{TerminationReason, not_found, invalid_state, ExecutionError}
use spica.Types.Event.{Variables}
use spica.Types.Command.{Command}
use spica.Types.Activity.{Activity}
use spica.Asl.{AssignObject}
use spica.Asl.StatePath.{sibling}
use spica.Elements.Interface.{Engine}
use spica.Elements.Expression.{build_states, or_value}
use spica.Elements.Handle.{
  Handle, match_result, pure, stop, panic, refuse, read, some_or_refuse, for_each, append_command,
  ◌>>=◌, ◌>>◌,
}
use spica.Elements.Settle.{typed}
use spica.Elements.StateHandler.{apply_assign, project_output, fail_state}
use spica.Elements.States.Finish.{context_of, land_completed, move_on, land_terminated}
use spica.Base.{
  Bool, true, false, Option, none, some, List, [], ◌∷◌, if◌then◌else◌, Str, Result, ok, err,
}

abbrev pub is_empty {ℓ} : {A : Type ℓ} → List A → Bool
is_empty [] = true
is_empty (x ∷ xs) = false

module _ {V S : Type 0} (engine : Engine V S) where
  open engine use {json, storage}

  -- `End` wins, then `Next`; a definition with neither is unreachable, and panics.
  unfoldable pub leave : Activity V → Option Bool → Option Str → V → Handle V S Unit
  leave a (some true) to output =
      append_command engine (Command.complete_thread a.meta.owner output)
  leave a (some false) none output = stop panic
  leave a (some false) (some n) output = move_on engine a (sibling a.state_path n) output
  leave a none none output = stop panic
  leave a none (some n) output = move_on engine a (sibling a.state_path n) output

  abbrev pub converge :
      Activity V
      → Option V
      → Option Bool
      → Option Str
      → V
      → V
      → Result (ExecutionError V) (Variables V)
      → Handle V S Unit
  converge a output stop_here to states result (err e) = fail_state engine (object_ref a.meta) e
  converge a output stop_here to states result (ok scope) =
      match_result (project_output engine output states scope result)
        (fail_state engine (object_ref a.meta))
        λ v. do land_completed engine a v; leave a stop_here to v

  -- `after_completing` of both: refused while a child is live.
  unfoldable pub container_completing :
      Option (AssignObject V)
      → Option V
      → Option Bool
      → Option Str
      → Activity V
      → Variables V
      → Handle V S Unit
  container_completing assign output stop_here to a variables = do
    found ← read (storage.get_activity (object_ref a.meta))
    row ← some_or_refuse not_found found
    children ← read (storage.get_children (raw_object_ref a.meta))
    if is_empty children then pure tt else refuse invalid_state
    let result = or_value (json.array []) a.raw_output
    let states = build_states json (context_of engine a (some result))
    scope ← apply_assign engine a.meta.owner assign states variables
    converge a output stop_here to states result scope

  abbrev pub cancel_thread_of : RawObjectRef → ObjectKind → Handle V S Unit
  cancel_thread_of child Meta.thread =
      append_command engine
        (Command.terminate_thread (typed Meta.thread child) TerminationReason.cancelled)
  cancel_thread_of child kind = pure tt

  abbrev pub sweep_threads : Activity V → List RawObjectRef → Handle V S Unit
  sweep_threads a [] = land_terminated engine a
  sweep_threads a (c ∷ cs) = for_each (λ child. cancel_thread_of child child.kind) (c ∷ cs)

  -- `after_terminating` of both: at once without children, and else the threads are swept.
  unfoldable pub container_terminating : Activity V → Handle V S Unit
  container_terminating a = do
    found ← read (storage.get_activity (object_ref a.meta))
    row ← some_or_refuse not_found found
    children ← read (storage.get_children (raw_object_ref a.meta))
    sweep_threads a children
