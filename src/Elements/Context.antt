-- ===== src/Elements/Context.antt =====
-- `HandlerContext` of crates/engine/src/handler.rs: the machine that a flow version or a thread runs,
-- and `resolve_thread_flow_version` of crates/engine-types/src/storage/thread.rs. A stored definition
-- that does not parse is reported without the parser's message.
use spica.HashMap
use spica.Types.Meta.{ObjectRef, flow_version, as_raw_object_ref, raw_object_ref, display_ref}
use spica.Types.Error.{
  StorageError, ExecutionError, runtime, infra, rejected, invalid_definition, storage, not_found,
}
use spica.Types.Thread.{Thread, StatePath}
use spica.Types.Execution.{Execution}
use spica.Types.Flow.{FlowVersion}
use spica.Asl.{StateMachine, State}
use spica.Asl.StatePath.{state_at}
use spica.Elements.Interface.{Engine}
use spica.Elements.Handle.{Handle, pure, fault, refuse, try_read, ◌>>=◌, ◌>>◌}
use spica.Base.{Option, none, some, ◌++◌, ℕ_discrete, Str, codes, Result, ok, err}

unfoldable pub FlowVersionRef-discrete : Discrete (ObjectRef flow_version)
FlowVersionRef-discrete = hlevel ℕ_discrete

module _ {V : Type 0} where
  abbrev pub invalid : Str → ExecutionError V
  invalid text = runtime (invalid_definition text)

  -- The run that a thread belongs to, or the error of `resolve_thread_flow_version`.
  abbrev pub bound_version :
      Thread V
      → Result StorageError (Option (Execution V))
      → Result (ExecutionError V) (ObjectRef flow_version)
  bound_version t (err e) = err (infra (storage e))
  bound_version t (ok none) = err (
      invalid (
        codes "thread "
        ++ display_ref (raw_object_ref t.meta)
        ++ codes " lost its owning execution "
        ++ display_ref (as_raw_object_ref t.execution)))
  bound_version t (ok (some e)) = ok e.flow_version

module _ {V S : Type 0} (engine : Engine V S) where
  open engine use {storage as reads, parse_machine}

  -- The machine that a stored version defines.
  abbrev pub parsed :
      ObjectRef flow_version
      → Result StorageError (Option FlowVersion)
      → Result (ExecutionError V) (StateMachine V)
  parsed r (err e) = err (infra (storage e))
  parsed r (ok none) = err (
      invalid (
        codes "flow version "
        ++ display_ref (as_raw_object_ref r)
        ++ codes " not found in storage"))
  parsed r (ok (some v)) = elim (parse_machine v.definition) [
    | none ↦ err (
        invalid (
          codes "stored flow definition for "
          ++ display_ref (as_raw_object_ref r)
          ++ codes " is not parseable"))
    | some m ↦ ok m
  ]

  -- `self.definitions.insert(…)`.
  unfoldable pub remember : ObjectRef flow_version → StateMachine V → Handle V S Unit
  remember r m w =
      (ok tt, record w { definitions = HashMap.insert FlowVersionRef-discrete r m w.definitions })

  unfoldable pub cached : ObjectRef flow_version → Handle V S (Option (StateMachine V))
  cached r w = (ok (HashMap.get FlowVersionRef-discrete r w.definitions), w)

  abbrev pub load_machine :
      ObjectRef flow_version
      → Result (ExecutionError V) (StateMachine V)
      → Handle V S (Result (ExecutionError V) (StateMachine V))
  load_machine r (err e) = pure (err e)
  load_machine r (ok m) = do remember r m; pure (ok m)

  abbrev pub machine_from :
      ObjectRef flow_version
      → Option (StateMachine V)
      → Handle V S (Result (ExecutionError V) (StateMachine V))
  machine_from r (some m) = pure (ok m)
  machine_from r none = do
    found ← try_read (reads.get_flow_version r)
    load_machine r (parsed r found)

  -- `HandlerContext::machine`: from the cache, or from the stored definition.
  unfoldable pub machine :
      ObjectRef flow_version → Handle V S (Result (ExecutionError V) (StateMachine V))
  machine r = do found ← cached r; machine_from r found

  abbrev pub machine_of_version :
      Result (ExecutionError V) (ObjectRef flow_version)
      → Handle V S (Result (ExecutionError V) (StateMachine V))
  machine_of_version (err e) = pure (err e)
  machine_of_version (ok r) = machine r

  -- `HandlerContext::machine_for_thread`.
  unfoldable pub machine_for_thread :
      Thread V → Handle V S (Result (ExecutionError V) (StateMachine V))
  machine_for_thread t = do
    found ← try_read (reads.get_execution t.execution)
    machine_of_version (bound_version t found)

  -- A store that failed is a fault, and any other error a refusal.
  abbrev pub or_refuse : Result (ExecutionError V) (StateMachine V) → Handle V S (StateMachine V)
  or_refuse (ok m) = pure m
  or_refuse (err (infra e)) = fault (infra e)
  or_refuse (err (runtime e)) = refuse not_found
  or_refuse (err (rejected e)) = refuse not_found

  abbrev pub found_state : {E : Type 0} → Result E (State V) → Handle V S (State V)
  found_state (ok s) = pure s
  found_state (err e) = refuse not_found

  -- The definition of a thread's state, refused when its machine or the state cannot be found.
  unfoldable pub state_definition : Thread V → StatePath → Handle V S (State V)
  state_definition t path = do
    found ← machine_for_thread t
    m ← or_refuse found
    found_state (state_at m path)
