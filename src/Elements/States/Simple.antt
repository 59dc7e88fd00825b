-- ===== src/Elements/States/Simple.antt =====
-- crates/engine/src/elements/states: pass.rs, succeed.rs, fail.rs, wait.rs and choice.rs.
use spica.HashMap.{HashMap}
use spica.Machinery.Timestamp.{Timestamp, checked_add}
use spica.Types.Meta.{object_ref, raw_object_ref}
use spica.Types.Error.{
  ExecutionError, TerminationReason, failed, runtime, state_failed, invalid_definition,
}
use spica.Types.Event.{Variables}
use spica.Types.Event
use spica.Types.Activity.{Activity, wait}
use spica.Asl.{
  PassState, SucceedState, FailState, WaitState, WaitTimestamp, ChoiceState, ChoiceRule,
  ChoiceCondition, AssignObject, IntOrExpr,
}
use spica.Asl.{int}
use spica.Asl
use spica.Asl.StatePath.{state_name}
use spica.Elements.Interface.{Engine}
use spica.Elements.Expression.{eval_string_or_expr, build_states, or_value}
use spica.Elements.Handle.{Handle, match_result, pure, stop, panic, append_event, ◌>>=◌, ◌>>◌}
use spica.Elements.Settle.{open_thread, thread_child_completed}
use spica.Elements.StateHandler.{StateHandler, project_output, fail_state}
use spica.Elements.States.Finish.{
  context_of, result_of, process, finish_result, land_terminated, end_terminated, debug_mark,
}
use spica.Types.Activity.{mark_completed}
use spica.Base.{
  ℕ, ◌*◌, Bool, true, false, Option, none, some, [], ◌∷◌, ◌++◌, leb, if◌then◌else◌, Str, codes,
  Result, ok, err, ℤ, pos, negsuc,
}

module _ {V S : Type 0} where
  -- The default hooks of the trait.
  abbrev pub raw_input :
      Activity V
      → Variables V
      → V
      → Timestamp
      → Handle V S (Result (ExecutionError V) (V × Activity V))
  raw_input a variables states now = pure (ok (a.raw_input, a))

  abbrev pub nothing_more :
      Activity V → Variables V → V → Handle V S (Result (ExecutionError V) Unit)
  nothing_more a variables states = pure (ok tt)

  abbrev pub uncaught : Activity V → ExecutionError V → Handle V S Bool
  uncaught a e = pure false

module _ {V S : Type 0} (engine : Engine V S) where
  open engine use {json, trim, eval_expr, from_rfc3339}

  -- A state with no children that completes at once.
  abbrev pub simple : (Activity V → Variables V → Handle V S Unit) → StateHandler V S
  simple completing = record {
    initialize = λ a. a;
    process_input = raw_input;
    after_activated = nothing_more;
    complete_directly = true;
    child_completed = λ r a c. pure tt;
    after_completing = completing;
    after_terminating = λ a variables. land_terminated engine a;
    on_failed = uncaught;
  }

  unfoldable pub pass_completing : PassState V → Activity V → Variables V → Handle V S Unit
  pass_completing s a variables = do
    found ← process engine a variables s.assign s.output s.end s.next
    finish_result engine a found

  abbrev pub succeed_with : Activity V → Result (ExecutionError V) V → Handle V S Unit
  succeed_with a (err e) = fail_state engine (object_ref a.meta) e
  succeed_with a (ok output) = do
    container ← open_thread engine a.meta.owner
    completed ← debug_mark engine (mark_completed output) a
    append_event engine (Event.state_completed completed)
    thread_child_completed engine container (raw_object_ref completed.meta)

  unfoldable pub succeed_completing : SucceedState V → Activity V → Variables V → Handle V S Unit
  succeed_completing s a variables =
      let result = result_of engine a in
      let states = build_states json (context_of engine a (some result)) in
      succeed_with a (project_output engine s.output states variables result)

  abbrev pub optional_text :
      Option Str → V → Variables V → Handle V S (Result (ExecutionError V) (Option V))
  optional_text none states variables = pure (ok none)
  optional_text (some s) states variables = do
    found ← eval_string_or_expr engine s states variables
    pure (elim found [ err e ↦ err e | ok v ↦ ok (some v) ])

  abbrev pub error_text : Option V → Str
  error_text none = codes "States.Fail"
  error_text (some v) = or_value (codes "States.Fail") (json.as_str v)

  abbrev pub field : Str → Option V → HashMap Str V
  field key none = []
  field key (some v) = (key, v) ∷ []

  abbrev pub fail_cause :
      FailState
      → Activity V
      → V
      → Variables V
      → Option V
      → Handle V S (Result (ExecutionError V) (TerminationReason V))
  fail_cause s a states variables error = do
    found ← optional_text s.cause states variables
    pure (elim found [
      | err e ↦ err e
      | ok cause ↦ ok (
          failed (
            runtime (
              state_failed (state_name a.state_path) (error_text error)
                (json.object (field (codes "Error") error ++ field (codes "Cause") cause)))))
    ])

  -- `fail_reason`.
  unfoldable pub fail_reason :
      FailState
      → Activity V
      → V
      → Variables V
      → Handle V S (Result (ExecutionError V) (TerminationReason V))
  fail_reason s a states variables = do
    found ← optional_text s.error states variables
    match_result found (λ e. pure (err e)) (fail_cause s a states variables)

  abbrev pub fail_with :
      Activity V → Result (ExecutionError V) (TerminationReason V) → Handle V S Unit
  fail_with a (err e) = fail_state engine (object_ref a.meta) e
  fail_with a (ok reason) = end_terminated engine reason a

  unfoldable pub fail_completing : FailState → Activity V → Variables V → Handle V S Unit
  fail_completing s a variables = do
    found ← fail_reason s a (build_states json (context_of engine a none)) variables
    fail_with a found

  abbrev pub max_wait_seconds : ℕ
  max_wait_seconds = 99999999

  abbrev pub refused_wait : Str → Result (ExecutionError V) Timestamp
  refused_wait text = err (runtime (invalid_definition text))

  -- The deadline of a number of seconds, in the accepted range.
  unfoldable pub wait_seconds : ℤ → Str → Timestamp → Result (ExecutionError V) Timestamp
  wait_seconds (negsuc n) text at = refused_wait text
  wait_seconds (pos n) text at =
      if leb n max_wait_seconds
      then elim (checked_add at (n * 1000)) [
        | none ↦ refused_wait (codes "Wait Seconds overflows the absolute deadline")
        | some t ↦ ok t
      ]
      else refused_wait text

  abbrev pub wait_evaluated :
      Timestamp → Result (ExecutionError V) V → Result (ExecutionError V) Timestamp
  wait_evaluated at (err e) = err e
  wait_evaluated at (ok v) = elim (json.as_whole v) [
    | none ↦ refused_wait (codes "Wait Seconds expression must evaluate to an integer")
    | some n ↦
        wait_seconds n
          (codes "Wait Seconds expression must evaluate to an integer in the range 0..99999999") at
  ]

  abbrev pub wait_until : Str → Str → Result (ExecutionError V) Timestamp
  wait_until text s = elim (from_rfc3339 s) [ none ↦ refused_wait (text ++ s) | some t ↦ ok t ]

  abbrev pub wait_until_evaluated :
      Result (ExecutionError V) V → Result (ExecutionError V) Timestamp
  wait_until_evaluated (err e) = err e
  wait_until_evaluated (ok v) = elim (json.as_str v) [
    | none ↦ refused_wait (codes "Wait Timestamp expression must evaluate to a string")
    | some s ↦
        wait_until (codes "Wait Timestamp expression must evaluate to a valid RFC3339 timestamp: ")
          s
  ]

  -- `resolve_wait_deadline`; a state with both fields or none is unreachable, and panics.
  unfoldable pub resolve_wait_deadline :
      Option IntOrExpr
      → Option WaitTimestamp
      → Variables V
      → V
      → Timestamp
      → Handle V S (Result (ExecutionError V) Timestamp)
  resolve_wait_deadline (some (int n)) none variables states at =
      pure (wait_seconds n (codes "Wait Seconds must be an integer in the range 0..99999999") at)
  resolve_wait_deadline (some (IntOrExpr.expr e)) none variables states at = do
    found ← eval_string_or_expr engine e states variables
    pure (wait_evaluated at found)
  resolve_wait_deadline none (some (Asl.literal s)) variables states at =
      pure (wait_until (codes "Wait Timestamp is not a valid RFC3339 timestamp: ") s)
  resolve_wait_deadline none (some (WaitTimestamp.expr e)) variables states at = do
    found ← eval_string_or_expr engine e states variables
    pure (wait_until_evaluated found)
  resolve_wait_deadline none none variables states at = stop panic
  resolve_wait_deadline (some s) (some t) variables states at = stop panic

  abbrev pub waiting :
      Activity V → Result (ExecutionError V) Timestamp → Result (ExecutionError V) (V × Activity V)
  waiting a (err e) = err e
  waiting a (ok t) =
      ok (a.raw_input, record a { activity_state = some (wait (record { resume_at = t })) })

  unfoldable pub wait_input :
      WaitState V
      → Activity V
      → Variables V
      → V
      → Timestamp
      → Handle V S (Result (ExecutionError V) (V × Activity V))
  wait_input s a variables states at = do
    found ← resolve_wait_deadline s.seconds s.timestamp variables states at
    pure (waiting a found)

  unfoldable pub wait_completing : WaitState V → Activity V → Variables V → Handle V S Unit
  wait_completing s a variables = do
    found ← process engine a variables s.assign s.output s.end s.next
    finish_result engine a found

  abbrev pub wait_handler : WaitState V → StateHandler V S
  wait_handler s = record {
    initialize = λ a. a;
    process_input = wait_input s;
    after_activated = nothing_more;
    complete_directly = false;
    child_completed = λ r a c. pure tt;
    after_completing = wait_completing s;
    after_terminating = λ a variables. land_terminated engine a;
    on_failed = uncaught;
  }
