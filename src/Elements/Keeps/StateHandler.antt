-- ===== src/Elements/Keeps/StateHandler.antt =====
-- A property that the primitive steps keep, through what all state types share
-- (crates/engine/src/elements).
use spica.HashMap.{HashMap}
use spica.Machinery.Timestamp.{Timestamp}
use spica.Types.Meta.{ObjectRef, RawObjectRef, object_ref, with_update_at, ObjectMeta}
use spica.Types.Meta
use spica.Types.Error.{ExecutionError, TerminationReason, failed}
use spica.Types.Event.{Variables}
use spica.Types.Command.{ActivateState}
use spica.Types.Thread.{Thread}
use spica.Types.Activity.{Activity}
use spica.Asl.{AssignObject}
use spica.Elements.Interface.{Engine}
use spica.Elements.StateHandler.{
  StateHandler, activate, apply_assign, assign_evaluated, assigned, begin_terminating, complete,
  fail_state, finish_activation, marked, terminate, unless_caught, with_input,
}
use spica.Elements.Keeps.{
  Keeps, Kept, keeps_rules, append_command-Keeps, event-Keeps, now-Keeps, mint-Keeps, seq-Keeps,
}
use spica.Elements.Handle.{Work}
use spica.Base.{Bool, true, false, Option, none, some, [], ◌∷◌, Str, Result, ok, err}

module _ {V S : Type 0} (P : Work V S → Type 0) where
  -- Every hook of a state type keeps the property.
  pub record KeptHandler (h : StateHandler V S) : Type 0 where
    pub process_input :
        (a : Activity V) (vs : Variables V) (v : V) (at : Timestamp)
        → Keeps P (h.process_input a vs v at)
    pub after_activated :
        (a : Activity V) (vs : Variables V) (v : V) → Keeps P (h.after_activated a vs v)
    pub child_completed :
        (r : ObjectRef Meta.activity) (a : Activity V) (c : RawObjectRef)
        → Keeps P (h.child_completed r a c)
    pub after_completing : (a : Activity V) (vs : Variables V) → Keeps P (h.after_completing a vs)
    pub after_terminating : (a : Activity V) (vs : Variables V) → Keeps P (h.after_terminating a vs)
    pub on_failed : (a : Activity V) (e : ExecutionError V) → Keeps P (h.on_failed a e)

module _ {V S : Type 0} {P : Work V S → Type 0} {engine : Engine V S} (kept : Kept P engine) where
  pub marked-Keeps : {A E : Type 0} (x : A × Result E Unit) → Keeps P (marked x)
  unfolding marked
  marked-Keeps (a, ok u) = search keeps_rules
  marked-Keeps (a, err e) = search keeps_rules

  pub fail_state-Keeps :
      (x : ObjectRef Meta.activity) (y : ExecutionError V) → Keeps P (fail_state engine x y)
  unfolding fail_state
  fail_state-Keeps activity e = search (keeps_rules, append_command-Keeps)

  pub assigned-Keeps :
      (x : ObjectRef Meta.thread) (y : Variables V) (z : Option (HashMap Str V))
      → Keeps P (assigned engine x y z)
  unfolding assigned
  assigned-Keeps owner scope none = search keeps_rules
  assigned-Keeps owner scope (some []) = search keeps_rules
  assigned-Keeps owner scope (some (kv ∷ kvs)) = search (keeps_rules, event-Keeps)

  pub assign_evaluated-Keeps :
      (x : ObjectRef Meta.thread) (y : Variables V) (z : Result (ExecutionError V) V)
      → Keeps P (assign_evaluated engine x y z)
  unfolding assign_evaluated
  assign_evaluated-Keeps owner scope (err e) = search keeps_rules
  assign_evaluated-Keeps owner scope (ok v) = search (keeps_rules, assigned-Keeps)

  pub apply_assign-Keeps :
      (x : ObjectRef Meta.thread) (y : Option (AssignObject V)) (z : V) (u : Variables V)
      → Keeps P (apply_assign engine x y z u)
  unfolding apply_assign
  apply_assign-Keeps owner none states scope = search keeps_rules
  apply_assign-Keeps owner (some assign) states scope = search (keeps_rules, assign_evaluated-Keeps)

module _ {V S : Type 0} {P : Work V S → Type 0} {engine : Engine V S} (kept : Kept P engine)
    {handler : StateHandler V S} (hooks : KeptHandler P handler) where
  process_input-Keeps :
      (a : Activity V) (vs : Variables V) (v : V) (at : Timestamp)
      → Keeps P (handler.process_input a vs v at)
  process_input-Keeps a vs v at = hooks.process_input a vs v at

  after_activated-Keeps :
      (a : Activity V) (vs : Variables V) (v : V) → Keeps P (handler.after_activated a vs v)
  after_activated-Keeps a vs v = hooks.after_activated a vs v

  after_completing-Keeps :
      (a : Activity V) (vs : Variables V) → Keeps P (handler.after_completing a vs)
  after_completing-Keeps a vs = hooks.after_completing a vs

  after_terminating-Keeps :
      (a : Activity V) (vs : Variables V) → Keeps P (handler.after_terminating a vs)
  after_terminating-Keeps a vs = hooks.after_terminating a vs

  on_failed-Keeps : (a : Activity V) (e : ExecutionError V) → Keeps P (handler.on_failed a e)
  on_failed-Keeps a e = hooks.on_failed a e

  pub finish_activation-Keeps :
      (x : ObjectRef Meta.activity) (y : V) (z : Result (ExecutionError V) Unit)
      → Keeps P (finish_activation engine handler x y z)
  unfolding finish_activation
  finish_activation-Keeps activity input (err e) = search (keeps_rules, fail_state-Keeps)
  finish_activation-Keeps activity input (ok u) = search (keeps_rules, append_command-Keeps)

  pub with_input-Keeps :
      (x : ObjectRef Meta.activity) (y : Variables V) (z : V)
      (u : Result (ExecutionError V) (V × Activity V))
      → Keeps P (with_input engine handler x y z u)
  unfolding with_input
  with_input-Keeps activity variables states (err e) = search (keeps_rules, fail_state-Keeps)
  with_input-Keeps activity variables states (ok (input, a)) =
      search (keeps_rules, event-Keeps, now-Keeps, finish_activation-Keeps, after_activated-Keeps)

  pub activate-Keeps : (x : ActivateState V) (y : Thread V) → Keeps P (activate engine handler x y)
  unfolding activate
  activate-Keeps cmd thread =
      search
        (
          keeps_rules, event-Keeps, now-Keeps, mint-Keeps, seq-Keeps, with_input-Keeps,
          process_input-Keeps,
        )
        depth 12

  pub complete-Keeps :
      (x : V) (y : Activity V) (z : Thread V) → Keeps P (complete engine handler x y z)
  unfolding complete
  complete-Keeps output act thread =
      search (keeps_rules, event-Keeps, now-Keeps, marked-Keeps, after_completing-Keeps)

  pub begin_terminating-Keeps :
      (x : TerminationReason V) (y : Activity V) (z : Thread V)
      → Keeps P (begin_terminating engine handler x y z)
  unfolding begin_terminating
  begin_terminating-Keeps reason act thread =
      search (keeps_rules, event-Keeps, now-Keeps, marked-Keeps, after_terminating-Keeps)

  pub unless_caught-Keeps :
      (x : TerminationReason V) (y : Activity V) (z : Thread V) (u : Bool)
      → Keeps P (unless_caught engine handler x y z u)
  unfolding unless_caught
  unless_caught-Keeps reason act thread true = search keeps_rules
  unless_caught-Keeps reason act thread false = search (keeps_rules, begin_terminating-Keeps)

  pub terminate-Keeps :
      (x : TerminationReason V) (y : Activity V) (z : Thread V)
      → Keeps P (terminate engine handler x y z)
  unfolding terminate
  terminate-Keeps (failed error) act thread =
      search (keeps_rules, unless_caught-Keeps, on_failed-Keeps)
  terminate-Keeps TerminationReason.timed_out act thread =
      search (keeps_rules, begin_terminating-Keeps)
  terminate-Keeps TerminationReason.cancelled act thread =
      search (keeps_rules, begin_terminating-Keeps)
