-- ===== src/Elements/Keeps/Simple.antt =====
-- A property that the primitive steps keep, through the states `Pass`, `Succeed`, `Fail` and
-- `Wait` (crates/engine/src/elements).
use spica.Machinery.Timestamp.{Timestamp}
use spica.Types.Error.{ExecutionError, TerminationReason}
use spica.Types.Event.{Variables}
use spica.Types.Activity.{Activity}
use spica.Asl.{
  PassState, SucceedState, FailState, WaitState, WaitTimestamp, ChoiceState, ChoiceRule,
  ChoiceCondition, AssignObject, IntOrExpr,
}
use spica.Asl.{int}
use spica.Asl
use spica.Elements.Interface.{Engine}
use spica.Elements.States.Simple.{
  fail_cause, fail_completing, fail_reason, fail_with, nothing_more, optional_text, pass_completing,
  raw_input, resolve_wait_deadline, succeed_completing, succeed_with, uncaught, wait_completing,
  wait_input,
}
use spica.Elements.Keeps.Settle.{open_thread-Keeps, thread_child_completed-Keeps}
use spica.Elements.Keeps.Expression.{eval_string_or_expr-Keeps}
use spica.Elements.Keeps.StateHandler.{fail_state-Keeps}
use spica.Elements.Keeps.Finish.{
  debug_mark-Keeps, process-Keeps, end_terminated-Keeps, finish_result-Keeps,
}
use spica.Elements.Keeps.{Keeps, Kept, keeps_rules, event-Keeps}
use spica.Elements.Handle.{Work}
use spica.Base.{Option, none, some, Str, Result, ok, err}

module _ {V S : Type 0} {P : Work V S → Type 0} {engine : Engine V S} (kept : Kept P engine) where
  pub raw_input-Keeps :
      (x : Activity V) (y : Variables V) (z : V) (u : Timestamp) → Keeps P (raw_input x y z u)
  raw_input-Keeps a variables states now = search keeps_rules

  pub nothing_more-Keeps : (x : Activity V) (y : Variables V) (z : V) → Keeps P (nothing_more x y z)
  nothing_more-Keeps a variables states = search keeps_rules

  pub uncaught-Keeps : (x : Activity V) (y : ExecutionError V) → Keeps P (uncaught x y)
  uncaught-Keeps a e = search keeps_rules

  pub pass_completing-Keeps :
      (x : PassState V) (y : Activity V) (z : Variables V) → Keeps P (pass_completing engine x y z)
  unfolding pass_completing
  pass_completing-Keeps s a variables =
      search (keeps_rules, finish_result-Keeps, process-Keeps) depth 12

  pub succeed_with-Keeps :
      (x : Activity V) (y : Result (ExecutionError V) V) → Keeps P (succeed_with engine x y)
  succeed_with-Keeps a (err e) = search (keeps_rules, fail_state-Keeps) depth 12
  succeed_with-Keeps a (ok output) =
      search
        (
          keeps_rules, event-Keeps, debug_mark-Keeps, open_thread-Keeps,
          thread_child_completed-Keeps,
        )
        depth 12

  pub succeed_completing-Keeps :
      (x : SucceedState V) (y : Activity V) (z : Variables V)
      → Keeps P (succeed_completing engine x y z)
  unfolding succeed_completing
  succeed_completing-Keeps s a variables = search (keeps_rules, succeed_with-Keeps) depth 12

  pub optional_text-Keeps :
      (x : Option Str) (y : V) (z : Variables V) → Keeps P (optional_text engine x y z)
  optional_text-Keeps none states variables = search keeps_rules
  optional_text-Keeps (some s) states variables =
      search (keeps_rules, eval_string_or_expr-Keeps) depth 12

  pub fail_cause-Keeps :
      (x : FailState) (y : Activity V) (z : V) (u : Variables V) (v : Option V)
      → Keeps P (fail_cause engine x y z u v)
  fail_cause-Keeps s a states variables error = search (keeps_rules, optional_text-Keeps) depth 12

  pub fail_reason-Keeps :
      (x : FailState) (y : Activity V) (z : V) (u : Variables V)
      → Keeps P (fail_reason engine x y z u)
  unfolding fail_reason
  fail_reason-Keeps s a states variables =
      search (keeps_rules, fail_cause-Keeps, optional_text-Keeps) depth 12

  pub fail_with-Keeps :
      (x : Activity V) (y : Result (ExecutionError V) (TerminationReason V))
      → Keeps P (fail_with engine x y)
  fail_with-Keeps a (err e) = search (keeps_rules, fail_state-Keeps) depth 12
  fail_with-Keeps a (ok reason) = search (keeps_rules, end_terminated-Keeps) depth 12

  pub fail_completing-Keeps :
      (x : FailState) (y : Activity V) (z : Variables V) → Keeps P (fail_completing engine x y z)
  unfolding fail_completing
  fail_completing-Keeps s a variables =
      search (keeps_rules, fail_reason-Keeps, fail_with-Keeps) depth 12

  pub resolve_wait_deadline-Keeps :
      (x : Option IntOrExpr) (y : Option WaitTimestamp) (z : Variables V) (u : V) (v : Timestamp)
      → Keeps P (resolve_wait_deadline engine x y z u v)
  unfolding resolve_wait_deadline
  resolve_wait_deadline-Keeps (some (int n)) none variables states at = search keeps_rules
  resolve_wait_deadline-Keeps (some (IntOrExpr.expr e)) none variables states at =
      search (keeps_rules, eval_string_or_expr-Keeps) depth 12
  resolve_wait_deadline-Keeps none (some (Asl.literal s)) variables states at = search keeps_rules
  resolve_wait_deadline-Keeps none (some (WaitTimestamp.expr e)) variables states at =
      search (keeps_rules, eval_string_or_expr-Keeps) depth 12
  resolve_wait_deadline-Keeps none none variables states at = search keeps_rules
  resolve_wait_deadline-Keeps (some s) (some t) variables states at = search keeps_rules

  pub wait_input-Keeps :
      (x : WaitState V) (y : Activity V) (z : Variables V) (u : V) (v : Timestamp)
      → Keeps P (wait_input engine x y z u v)
  unfolding wait_input
  wait_input-Keeps s a variables states at =
      search (keeps_rules, resolve_wait_deadline-Keeps) depth 12

  pub wait_completing-Keeps :
      (x : WaitState V) (y : Activity V) (z : Variables V) → Keeps P (wait_completing engine x y z)
  unfolding wait_completing
  wait_completing-Keeps s a variables =
      search (keeps_rules, finish_result-Keeps, process-Keeps) depth 12
