-- ===== src/Types/Thread.antt =====
-- crates/engine-types/src/types/thread.rs: the scoped sub-run of a branch or an item.
use spica.Base.{ℕ, Bool, true, false, Option, List, if◌then◌else◌, Str, codes, Result, ok, err}
use spica.Machinery.Timestamp.{Timestamp}
use spica.Types.Meta.{ObjectMeta, ObjectRef, execution, thread, with_update_at}
use spica.Types.Error.{TerminationReason}
use spica.Types.Execution.{Refusal, wrong_phase}

-- A JSON pointer into the machine document (crate `jsonptr`), as its decoded tokens.
abbrev pub StatePath : Type 0
StatePath = List Str

pub data ThreadStatus (V : Type 0) : Type 0 where
  running completing : ThreadStatus V
  terminating : TerminationReason V → ThreadStatus V
  completed : ThreadStatus V
  terminated : TerminationReason V → ThreadStatus V

module _ {V : Type 0} where
  abbrev pub is_running : ThreadStatus V → Bool
  is_running running = true
  is_running _ = false

  abbrev pub is_terminal : ThreadStatus V → Bool
  is_terminal completed = true
  is_terminal (terminated r) = true
  is_terminal _ = false

  unfoldable pub phase : ThreadStatus V → Str
  phase running = codes "Running"
  phase completing = codes "Completing"
  phase (terminating r) = codes "Terminating"
  phase completed = codes "Completed"
  phase (terminated r) = codes "Terminated"

pub record Thread (V : Type 0) : Type 0 where
  pub meta : ObjectMeta thread
  pub execution : ObjectRef execution
  pub state_path : StatePath
  pub start_at : Str
  pub index : ℕ
  pub status : ThreadStatus V
  pub input : V
  pub output : Option V

module _ {V : Type 0} where
  unfoldable pub mark_terminating :
      TerminationReason V → Timestamp → Thread V → Thread V × Result Refusal Unit
  mark_terminating reason at t =
      if is_running t.status
      then (record t { status = terminating reason; meta = with_update_at at t.meta }, ok tt)
      else (t, err (wrong_phase (phase t.status)))
