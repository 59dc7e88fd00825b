-- ===== src/Elements/Keeps/Context.antt =====
-- A property that the primitive steps keep, through finding the machine of a thread
-- (crates/engine/src/handler.rs).
use spica.Types.Meta.{ObjectRef, flow_version}
use spica.Types.Error.{ExecutionError, runtime, infra, rejected}
use spica.Types.Thread.{Thread, StatePath}
use spica.Asl.{StateMachine, State}
use spica.Elements.Interface.{Engine}
use spica.Elements.Context.{
  found_state, load_machine, machine, machine_for_thread, machine_from, machine_of_version,
  or_refuse, state_definition,
}
use spica.Elements.Keeps.{Keeps, Kept, keeps_rules}
use spica.Elements.Handle.{Work}
use spica.Base.{Option, none, some, Result, ok, err}

module _ {V S : Type 0} {P : Work V S → Type 0} {engine : Engine V S} (kept : Kept P engine) where
  pub load_machine-Keeps :
      (x : ObjectRef flow_version) (y : Result (ExecutionError V) (StateMachine V))
      → Keeps P (load_machine engine x y)
  load_machine-Keeps r (err e) = search keeps_rules
  load_machine-Keeps r (ok m) = search (keeps_rules, kept.definition)

  pub machine_from-Keeps :
      (x : ObjectRef flow_version) (y : Option (StateMachine V)) → Keeps P (machine_from engine x y)
  machine_from-Keeps r (some m) = search keeps_rules
  machine_from-Keeps r none = search (keeps_rules, load_machine-Keeps)

  pub machine-Keeps : (x : ObjectRef flow_version) → Keeps P (machine engine x)
  unfolding machine
  machine-Keeps r = search (keeps_rules, machine_from-Keeps)

  pub machine_of_version-Keeps :
      (x : Result (ExecutionError V) (ObjectRef flow_version))
      → Keeps P (machine_of_version engine x)
  machine_of_version-Keeps (err e) = search keeps_rules
  machine_of_version-Keeps (ok r) = search (keeps_rules, machine-Keeps)

  pub machine_for_thread-Keeps : (x : Thread V) → Keeps P (machine_for_thread engine x)
  unfolding machine_for_thread
  machine_for_thread-Keeps t = search (keeps_rules, machine_of_version-Keeps)

  pub or_refuse-Keeps :
      (x : Result (ExecutionError V) (StateMachine V)) → Keeps P (or_refuse engine x)
  or_refuse-Keeps (ok m) = search keeps_rules
  or_refuse-Keeps (err (infra e)) = search keeps_rules
  or_refuse-Keeps (err (runtime e)) = search keeps_rules
  or_refuse-Keeps (err (rejected e)) = search keeps_rules

  pub found_state-Keeps : {E : Type 0} (x : Result E (State V)) → Keeps P (found_state engine x)
  found_state-Keeps (ok s) = search keeps_rules
  found_state-Keeps (err e) = search keeps_rules

  pub state_definition-Keeps :
      (x : Thread V) (y : StatePath) → Keeps P (state_definition engine x y)
  unfolding state_definition
  state_definition-Keeps t path =
      search (keeps_rules, found_state-Keeps, machine_for_thread-Keeps, or_refuse-Keeps)
