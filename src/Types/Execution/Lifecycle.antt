-- ===== src/Types/Execution/Lifecycle.antt =====
-- The lifecycle of a run under any sequence of marks: execution.rs.
use spica.Base.{
  ◌≡◌, refl, ◌≢◌, ◌⊎◌, Bool, true, false, Option, some, List, [], ◌∷◌, arith, if◌then◌else◌, Result,
  ok,
}
use spica.Machinery.Timestamp.{Timestamp}
use spica.Types.Meta.{object_ref}
use spica.Types.Error.{TerminationReason}
use spica.Types.Execution.{
  Execution, ExecutionStatus, running, completing, terminating, completed, terminated, Refusal,
  is_terminal, mark_completing, mark_completed, mark_terminating, mark_terminated,
}

-- The four marks as calls.
pub data Mark (V : Type 0) : Type 0 where
  begin_completing : V → Timestamp → Mark V
  complete : Timestamp → Mark V
  begin_terminating : TerminationReason V → Timestamp → Mark V
  terminate : Timestamp → Mark V

-- The documented state machine.
pub data Edge {V : Type 0} : ExecutionStatus V → ExecutionStatus V → Type 0 where
  finish : Edge running completing
  finished : Edge completing completed
  teardown : {r : TerminationReason V} → Edge running (terminating r)
  torn_down : {r : TerminationReason V} → Edge (terminating r) (terminated r)

ruleset edges = (finish, finished, teardown, torn_down)

module _ {V : Type 0} where
  pub mark : Mark V → Execution V → Execution V × Result Refusal Unit
  unfolding mark_completing mark_completed mark_terminating mark_terminated
  mark (begin_completing output at) = mark_completing output at
  mark (complete at) = mark_completed at
  mark (begin_terminating reason at) = mark_terminating reason at
  mark (terminate at) = mark_terminated at

  pub run : List (Mark V) → Execution V → Execution V
  unfolding mark
  run [] e = e
  run (m ∷ ms) e = run ms (mark m e).0

  abbrev pub has_complete : List (Mark V) → Bool
  has_complete [] = false
  has_complete (complete at ∷ ms) = true
  has_complete (_ ∷ ms) = has_complete ms

  abbrev pub has_terminate : List (Mark V) → Bool
  has_terminate [] = false
  has_terminate (terminate at ∷ ms) = true
  has_terminate (_ ∷ ms) = has_terminate ms

  -- The outcome, read off the calls: the first finish or teardown that is begun decides it.
  abbrev pub outcome : Option V → List (Mark V) → ExecutionStatus V × Option V
  outcome o [] = (running, o)
  outcome o (begin_completing v at ∷ ms) =
      (if has_complete ms then completed else completing, some v)
  outcome o (begin_terminating r at ∷ ms) =
      (if has_terminate ms then terminated r else terminating r, o)
  outcome o (_ ∷ ms) = outcome o ms

  -- A terminal run never changes again.
  pub run_terminal :
      (ms : List (Mark V)) (e : Execution V) → is_terminal e.status ≡ true → run ms e ≡ e
  unfolding run
  run_terminal [] e h = refl
  run_terminal (begin_completing v at ∷ ms) e h = ground (arith, run_terminal ms e)
  run_terminal (complete at ∷ ms) e h = ground (arith, run_terminal ms e)
  run_terminal (begin_terminating r at ∷ ms) e h = ground (arith, run_terminal ms e)
  run_terminal (terminate at ∷ ms) e h = ground (arith, run_terminal ms e)

  run_completing :
      (ms : List (Mark V)) (e : Execution V)
      → e.status ≡ completing
      → ((run ms e).status ≡ (if has_complete ms then completed else completing))
        × ((run ms e).output ≡ e.output)
  unfolding run
  run_completing [] e h = ground arith
  run_completing (complete at ∷ ms) e h = ground (arith, run_terminal ms (mark (complete at) e).0)
  run_completing (begin_completing v at ∷ ms) e h = ground (arith, run_completing ms e)
  run_completing (begin_terminating r at ∷ ms) e h = ground (arith, run_completing ms e)
  run_completing (terminate at ∷ ms) e h = ground (arith, run_completing ms e)

  run_terminating :
      (r : TerminationReason V) (ms : List (Mark V)) (e : Execution V)
      → e.status ≡ terminating r
      → ((run ms e).status ≡ (if has_terminate ms then terminated r else terminating r))
        × ((run ms e).output ≡ e.output)
  unfolding run
  run_terminating r [] e h = ground arith
  run_terminating r (terminate at ∷ ms) e h =
      ground (arith, run_terminal ms (mark (terminate at) e).0)
  run_terminating r (begin_completing v at ∷ ms) e h = ground (arith, run_terminating r ms e)
  run_terminating r (complete at ∷ ms) e h = ground (arith, run_terminating r ms e)
  run_terminating r (begin_terminating q at ∷ ms) e h = ground (arith, run_terminating r ms e)

  -- From a running execution, any sequence of the four marks leaves the status and output that the
  -- first finish or teardown begun decides: later marks only take that one to its terminal state.
  pub run-outcome :
      (ms : List (Mark V)) (e : Execution V)
      → e.status ≡ running
      → ((run ms e).status, (run ms e).output) ≡ outcome e.output ms
  unfolding run
  run-outcome [] e h = ground arith
  run-outcome (begin_completing v at ∷ ms) e h =
      ground (arith, run_completing ms (mark (begin_completing v at) e).0)
  run-outcome (begin_terminating r at ∷ ms) e h =
      ground (arith, run_terminating r ms (mark (begin_terminating r at) e).0)
  run-outcome (complete at ∷ ms) e h = ground (arith, run-outcome ms e)
  run-outcome (terminate at ∷ ms) e h = ground (arith, run-outcome ms e)

  -- Every mark is refused and changes nothing, or is accepted and moves the status along one edge.
  -- It keeps the identity of the run, its creation stamp, its version, its deadline and its input.
  pub mark_moves :
      (m : Mark V) (e : Execution V)
      → let (e', r) = mark m e in
        ((e' ≡ e) × (r ≢ ok tt))
        ⊎ ((r ≡ ok tt)
            × Edge e.status e'.status
            × (object_ref e'.meta ≡ object_ref e.meta)
            × (e'.meta.created_at ≡ e.meta.created_at)
            × (e'.flow_version ≡ e.flow_version)
            × (e'.deadline ≡ e.deadline)
            × (e'.input ≡ e.input))
  unfolding mark
  mark_moves (begin_completing output at) e = grind (arith, edges)
  mark_moves (complete at) e = grind (arith, edges)
  mark_moves (begin_terminating reason at) e = grind (arith, edges)
  mark_moves (terminate at) e = grind (arith, edges)
