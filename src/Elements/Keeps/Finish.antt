-- ===== src/Elements/Keeps/Finish.antt =====
-- A property that the primitive steps keep, through how a state finishes
-- (crates/engine/src/elements).
use spica.Machinery.Timestamp.{Timestamp}
use spica.Types.Error.{ExecutionError, TerminationReason}
use spica.Types.Event.{Variables}
use spica.Types.Thread.{StatePath}
use spica.Types.Activity.{Activity}
use spica.Asl.{AssignObject}
use spica.Elements.Interface.{Engine}
use spica.Elements.States.Finish.{
  Finish, asserted, debug_mark, end, end_terminated, finish, finish_result, land_completed,
  land_terminated, move_on, next, no_end, process,
}
use spica.Elements.Keeps.Settle.{open_thread-Keeps, thread_child_terminated-Keeps}
use spica.Elements.Keeps.StateHandler.{fail_state-Keeps, apply_assign-Keeps}
use spica.Elements.Keeps.{Keeps, Kept, keeps_rules, append_command-Keeps, event-Keeps, now-Keeps}
use spica.Elements.Handle.{Work}
use spica.Base.{Bool, Option, Str, Result, ok, err}

module _ {V S : Type 0} {P : Work V S → Type 0} {engine : Engine V S} (kept : Kept P engine) where
  pub asserted-Keeps : {A E : Type 0} (x : A × Result E Unit) → Keeps P (asserted x)
  asserted-Keeps (a, ok u) = search keeps_rules
  asserted-Keeps (a, err e) = search keeps_rules

  pub debug_mark-Keeps :
      {A E : Type 0} (x : (Timestamp → A → A × Result E Unit)) (y : A)
      → Keeps P (debug_mark engine x y)
  unfolding debug_mark
  debug_mark-Keeps mark a = search (keeps_rules, now-Keeps, asserted-Keeps) depth 12

  pub process-Keeps :
      (x : Activity V) (y : Variables V) (z : Option (AssignObject V)) (u : Option V)
      (v : Option Bool) (w : Option Str)
      → Keeps P (process engine x y z u v w)
  unfolding process
  process-Keeps a variables assign output stop_here to =
      search (keeps_rules, apply_assign-Keeps) depth 12

  pub end_terminated-Keeps :
      (x : TerminationReason V) (y : Activity V) → Keeps P (end_terminated engine x y)
  unfolding end_terminated
  end_terminated-Keeps reason a =
      search
        (
          keeps_rules, event-Keeps, debug_mark-Keeps, debug_mark-Keeps, open_thread-Keeps,
          thread_child_terminated-Keeps,
        )
        depth 12

  pub move_on-Keeps : (x : Activity V) (y : StatePath) (z : V) → Keeps P (move_on engine x y z)
  unfolding move_on
  move_on-Keeps a path output = search (keeps_rules, event-Keeps, append_command-Keeps) depth 12

  pub land_completed-Keeps : (x : Activity V) (y : V) → Keeps P (land_completed engine x y)
  unfolding land_completed
  land_completed-Keeps a output =
      search (keeps_rules, event-Keeps, debug_mark-Keeps, debug_mark-Keeps) depth 12

  pub finish-Keeps : (x : Activity V) (y : Finish V) → Keeps P (finish engine x y)
  unfolding finish
  finish-Keeps a (next path output) =
      search (keeps_rules, land_completed-Keeps, move_on-Keeps) depth 12
  finish-Keeps a (end output) =
      search (keeps_rules, append_command-Keeps, land_completed-Keeps) depth 12
  finish-Keeps a no_end = search (keeps_rules, end_terminated-Keeps) depth 12

  pub finish_result-Keeps :
      (x : Activity V) (y : Result (ExecutionError V) (Finish V))
      → Keeps P (finish_result engine x y)
  finish_result-Keeps a (err e) = search (keeps_rules, fail_state-Keeps) depth 12
  finish_result-Keeps a (ok f) = search (keeps_rules, finish-Keeps) depth 12

  pub land_terminated-Keeps : (x : Activity V) → Keeps P (land_terminated engine x)
  unfolding land_terminated
  land_terminated-Keeps a =
      search
        (
          keeps_rules, event-Keeps, debug_mark-Keeps, debug_mark-Keeps, open_thread-Keeps,
          thread_child_terminated-Keeps,
        )
        depth 12
