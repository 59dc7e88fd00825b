-- ===== src/Elements/Keeps/Container.antt =====
-- A property that the primitive steps keep, through what `Parallel` and `Map` share
-- (crates/engine/src/elements).
use spica.Types.Meta.{ObjectRef, RawObjectRef, ObjectKind, object_ref, raw_object_ref}
use spica.Types.Meta
use spica.Types.Error.{ExecutionError}
use spica.Types.Event.{Variables}
use spica.Types.Activity.{Activity}
use spica.Asl.{AssignObject}
use spica.Elements.Interface.{Engine}
use spica.Elements.States.Container.{
  cancel_thread_of, container_completing, container_terminating, converge, leave, sweep_threads,
}
use spica.Elements.Keeps.StateHandler.{fail_state-Keeps, apply_assign-Keeps}
use spica.Elements.Keeps.Finish.{move_on-Keeps, land_completed-Keeps, land_terminated-Keeps}
use spica.Elements.Keeps.{Keeps, Kept, keeps_rules, append_command-Keeps}
use spica.Elements.Handle.{Work}
use spica.Base.{Bool, true, false, Option, none, some, List, [], ◌∷◌, Str, Result, ok, err}

module _ {V S : Type 0} {P : Work V S → Type 0} {engine : Engine V S} (kept : Kept P engine) where
  pub leave-Keeps :
      (x : Activity V) (y : Option Bool) (z : Option Str) (u : V) → Keeps P (leave engine x y z u)
  unfolding leave
  leave-Keeps a (some true) to output = search (keeps_rules, append_command-Keeps) depth 12
  leave-Keeps a (some false) none output = search keeps_rules
  leave-Keeps a (some false) (some n) output = search (keeps_rules, move_on-Keeps) depth 12
  leave-Keeps a none none output = search keeps_rules
  leave-Keeps a none (some n) output = search (keeps_rules, move_on-Keeps) depth 12

  pub converge-Keeps :
      (x : Activity V) (y : Option V) (z : Option Bool) (u : Option Str) (v : V) (w : V)
      (p : Result (ExecutionError V) (Variables V))
      → Keeps P (converge engine x y z u v w p)
  converge-Keeps a output stop_here to states result (err e) =
      search (keeps_rules, fail_state-Keeps) depth 12
  converge-Keeps a output stop_here to states result (ok scope) =
      search (keeps_rules, fail_state-Keeps, land_completed-Keeps, leave-Keeps) depth 12

  pub container_completing-Keeps :
      (x : Option (AssignObject V)) (y : Option V) (z : Option Bool) (u : Option Str)
      (v : Activity V) (w : Variables V)
      → Keeps P (container_completing engine x y z u v w)
  unfolding container_completing
  container_completing-Keeps assign output stop_here to a variables =
      search (keeps_rules, apply_assign-Keeps, converge-Keeps) depth 12

  pub cancel_thread_of-Keeps :
      (x : RawObjectRef) (y : ObjectKind) → Keeps P (cancel_thread_of engine x y)
  cancel_thread_of-Keeps child Meta.thread = search (keeps_rules, append_command-Keeps) depth 12
  cancel_thread_of-Keeps child kind = search keeps_rules

  pub sweep_threads-Keeps :
      (x : Activity V) (y : List RawObjectRef) → Keeps P (sweep_threads engine x y)
  sweep_threads-Keeps a [] = search (keeps_rules, land_terminated-Keeps) depth 12
  sweep_threads-Keeps a (c ∷ cs) = search (keeps_rules, cancel_thread_of-Keeps) depth 12

  pub container_terminating-Keeps : (x : Activity V) → Keeps P (container_terminating engine x)
  unfolding container_terminating
  container_terminating-Keeps a = search (keeps_rules, sweep_threads-Keeps) depth 12
