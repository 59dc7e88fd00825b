-- ===== src/Types/Activity/Lifecycle.antt =====
-- The lifecycle of an activity under any sequence of marks: activity.rs. A teardown may begin from a
-- finish that is under way, which a run does not allow.
use spica.Base.{◌≡◌, refl, Bool, true, false, Option, some, List, [], ◌∷◌, arith, if◌then◌else◌}
use spica.Machinery.Timestamp.{Timestamp}
use spica.Types.Error.{TerminationReason}
use spica.Types.Activity.{
  Activity, ActivityStatus, running, completing, terminating, completed, terminated, is_terminal,
  mark_completing, mark_completed, mark_terminating, mark_terminated,
}

pub data Mark (V : Type 0) : Type 0 where
  begin_completing : V → Timestamp → Mark V
  complete : V → Timestamp → Mark V
  begin_terminating : TerminationReason V → Timestamp → Mark V
  terminate : Timestamp → Mark V

module _ {V : Type 0} where
  pub mark : Mark V → Activity V → Activity V
  unfolding mark_completing mark_completed mark_terminating mark_terminated
  mark (begin_completing raw at) a = (mark_completing raw at a).0
  mark (complete output at) a = (mark_completed output at a).0
  mark (begin_terminating reason at) a = (mark_terminating reason at a).0
  mark (terminate at) a = (mark_terminated at a).0

  pub run : List (Mark V) → Activity V → Activity V
  unfolding mark
  run [] a = a
  run (m ∷ ms) a = run ms (mark m a)

  abbrev pub has_terminate : List (Mark V) → Bool
  has_terminate [] = false
  has_terminate (terminate at ∷ ms) = true
  has_terminate (_ ∷ ms) = has_terminate ms

  abbrev torn_down : TerminationReason V → List (Mark V) → ActivityStatus V
  torn_down r ms = if has_terminate ms then terminated r else terminating r

  -- The status, raw output and output after the marks that follow the start of a finish: the first
  -- completion or teardown among them decides.
  abbrev finish_outcome :
      Option V → Option V → List (Mark V) → ActivityStatus V × Option V × Option V
  finish_outcome raw o [] = (completing, raw, o)
  finish_outcome raw o (complete v at ∷ ms) = (completed, raw, some v)
  finish_outcome raw o (begin_terminating r at ∷ ms) = (torn_down r ms, raw, o)
  finish_outcome raw o (_ ∷ ms) = finish_outcome raw o ms

  -- The same from the start of the activity.
  abbrev pub outcome : Option V → Option V → List (Mark V) → ActivityStatus V × Option V × Option V
  outcome raw o [] = (running, raw, o)
  outcome raw o (begin_completing v at ∷ ms) = finish_outcome (some v) o ms
  outcome raw o (begin_terminating r at ∷ ms) = (torn_down r ms, raw, o)
  outcome raw o (_ ∷ ms) = outcome raw o ms

  abbrev pub observed : Activity V → ActivityStatus V × Option V × Option V
  observed a = (a.status, a.raw_output, a.output)

  -- A terminal activity never changes again.
  pub run_activity_terminal :
      (ms : List (Mark V)) (a : Activity V) → is_terminal a.status ≡ true → run ms a ≡ a
  unfolding run
  run_activity_terminal [] a h = refl
  run_activity_terminal (begin_completing v at ∷ ms) a h =
      ground (arith, run_activity_terminal ms a)
  run_activity_terminal (complete v at ∷ ms) a h = ground (arith, run_activity_terminal ms a)
  run_activity_terminal (begin_terminating r at ∷ ms) a h =
      ground (arith, run_activity_terminal ms a)
  run_activity_terminal (terminate at ∷ ms) a h = ground (arith, run_activity_terminal ms a)

  run_terminating :
      (r : TerminationReason V) (ms : List (Mark V)) (a : Activity V)
      → a.status ≡ terminating r
      → observed (run ms a) ≡ (torn_down r ms, a.raw_output, a.output)
  unfolding run
  run_terminating r [] a h = ground arith
  run_terminating r (terminate at ∷ ms) a h =
      ground (arith, run_activity_terminal ms (mark (terminate at) a))
  run_terminating r (begin_completing v at ∷ ms) a h = ground (arith, run_terminating r ms a)
  run_terminating r (complete v at ∷ ms) a h = ground (arith, run_terminating r ms a)
  run_terminating r (begin_terminating q at ∷ ms) a h = ground (arith, run_terminating r ms a)

  run_completing :
      (ms : List (Mark V)) (a : Activity V)
      → a.status ≡ completing
      → observed (run ms a) ≡ finish_outcome a.raw_output a.output ms
  unfolding run
  run_completing [] a h = ground arith
  run_completing (complete v at ∷ ms) a h =
      ground (arith, run_activity_terminal ms (mark (complete v at) a))
  run_completing (begin_terminating r at ∷ ms) a h =
      ground (arith, run_terminating r ms (mark (begin_terminating r at) a))
  run_completing (begin_completing v at ∷ ms) a h = ground (arith, run_completing ms a)
  run_completing (terminate at ∷ ms) a h = ground (arith, run_completing ms a)

  -- From a running activity, after any sequence of the four marks: while neither a finish nor a
  -- teardown has begun, completions and terminations change nothing. A teardown that begins first
  -- fixes the reason, and the activity is terminated if a termination follows and terminating if
  -- not. A finish that begins first fixes the raw output; after it the first completion or beginning
  -- of a teardown decides: the completion, that the activity is completed with the output it
  -- carries; the teardown, as above, with its reason. All other marks leave the status, the raw
  -- output and the output as they are.
  pub run_activity_outcome :
      (ms : List (Mark V)) (a : Activity V)
      → a.status ≡ running
      → observed (run ms a) ≡ outcome a.raw_output a.output ms
  unfolding run
  run_activity_outcome [] a h = ground arith
  run_activity_outcome (begin_completing v at ∷ ms) a h =
      ground (arith, run_completing ms (mark (begin_completing v at) a))
  run_activity_outcome (begin_terminating r at ∷ ms) a h =
      ground (arith, run_terminating r ms (mark (begin_terminating r at) a))
  run_activity_outcome (complete v at ∷ ms) a h = ground (arith, run_activity_outcome ms a)
  run_activity_outcome (terminate at ∷ ms) a h = ground (arith, run_activity_outcome ms a)
