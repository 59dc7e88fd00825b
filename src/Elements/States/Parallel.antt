-- ===== src/Elements/States/Parallel.antt =====
-- crates/engine/src/elements/states/parallel.rs: one thread for each branch, and the outputs in the
-- order of the branches.
use spica.Machinery.Timestamp.{Timestamp}
use spica.Types.Meta.{
  ObjectRef, RawObjectRef, object_ref, raw_object_ref, display_ref, as_raw_object_ref,
}
use spica.Types.Meta
use spica.Types.Error.{ExecutionError, TerminationReason, failed, runtime, state_not_found}
use spica.Types.Event.{Variables}
use spica.Types.Command.{Command}
use spica.Types.Thread.{Thread, is_terminal}
use spica.Types.Activity.{Activity, ActivityState, parallel, map_state, wait}
use spica.Asl.{ParallelState, Branches, no_branches, States}
use spica.Asl
use spica.Asl.StatePath.{branch}
use spica.Elements.Interface.{Engine}
use spica.Elements.Expression.{or_value}
use spica.Elements.Handle.{
  Handle, match_option, match_result, pure, try_read, append_command, ◌>>=◌, ◌>>◌,
}
use spica.Elements.Settle.{termination_reason}
use spica.Elements.StateHandler.{StateHandler}
use spica.Elements.States.Simple.{uncaught}
use spica.Elements.States.Container.{container_completing, container_terminating}
use spica.Elements.States.Converge.{sort_by_key, flatten}
use spica.Base.{
  ℕ, ◌+◌, false, Option, none, some, List, [], ◌∷◌, ◌++◌, if◌then◌else◌, codes, Result, ok, err,
}

module _ {V S : Type 0} (engine : Engine V S) where
  open engine use {json, storage, eval_json}

  -- `fail_parallel`.
  abbrev pub fail_container : Activity V → TerminationReason V → Handle V S Unit
  fail_container a reason =
      append_command engine (Command.terminate_state (object_ref a.meta) reason)

  -- The spawn of each branch, from an index on.
  unfoldable pub spawn_branches : Activity V → ℕ → Branches V → Handle V S Unit
  spawn_branches a i no_branches = pure tt
  spawn_branches a i (Asl.branch start_at below rest) = do
    append_command engine (
        Command.spawn_thread (record {
          owner = object_ref a.meta;
          execution = a.execution;
          state_path = some (branch a.state_path i);
          index = i;
          start_at = start_at;
          input = or_value json.null a.input;
        }))
    spawn_branches a (i + 1) rest

  -- `after_activated`: a state with no branches completes with no outputs.
  unfoldable pub fan_out_branches :
      Branches V → Activity V → Variables V → V → Handle V S (Result (ExecutionError V) Unit)
  fan_out_branches no_branches a variables states = do
    append_command engine (Command.complete_state (object_ref a.meta) (json.array []))
    pure (ok tt)
  fan_out_branches (Asl.branch start_at below rest) a variables states = do
    spawn_branches a 0 (Asl.branch start_at below rest)
    pure (ok tt)

  -- What is made of one branch's row while the rows are gathered; `none` when the state has failed.
  abbrev pub gathered_one :
      Activity V → ObjectRef Meta.thread → Option (Thread V) → Handle V S (Option (Thread V))
  gathered_one a r none = do
    fail_container a
        (failed (runtime (state_not_found (codes "branch " ++ display_ref (as_raw_object_ref r)))))
    pure none
  gathered_one a r (some t) =
      match_option (termination_reason t.status) (pure (some t))
        λ reason. do fail_container a reason; pure none

  -- The rows of the branches, in order.
  unfoldable pub gather :
      Activity V → List (ℕ × ObjectRef Meta.thread) → Handle V S (Option (List (Thread V)))
  gather a [] = pure (some [])
  gather a ((i, r) ∷ rs) = do
    found ← try_read (storage.get_thread r)
    one ← gathered_one a r (flatten found)
    match_option one (pure none)
        λ t. do rest ← gather a rs; pure (elim rest [ none ↦ none | some ts ↦ some (t ∷ ts) ])

  -- The outputs of threads that have all ended, or `none`.
  unfoldable pub outputs_of : List (Thread V) → Option (List V)
  outputs_of [] = some []
  outputs_of (t ∷ ts) =
      if is_terminal t.status
      then elim (outputs_of ts) [ none ↦ none | some vs ↦ some (or_value json.null t.output ∷ vs) ]
      else none

  abbrev pub complete_with :
      ObjectRef Meta.activity → Activity V → Option (List V) → Handle V S Unit
  complete_with activity a none = fail_container a TerminationReason.cancelled
  complete_with activity a (some vs) =
      append_command engine (Command.complete_state activity (json.array vs))

  abbrev pub when_drained :
      ObjectRef Meta.activity → Activity V → List (Thread V) → List RawObjectRef → Handle V S Unit
  when_drained activity a ts [] = complete_with activity a (outputs_of ts)
  when_drained activity a ts (c ∷ cs) = pure tt

  abbrev pub when_gathered :
      ObjectRef Meta.activity → Activity V → Option (List (Thread V)) → Handle V S Unit
  when_gathered activity a none = pure tt
  when_gathered activity a (some ts) = do
    children ← try_read (storage.get_children (raw_object_ref a.meta))
    match_result children (λ e. pure tt) (when_drained activity a ts)

  abbrev pub settle_parallel :
      ObjectRef Meta.activity → Activity V → Option (ActivityState V) → Handle V S Unit
  settle_parallel activity a (some (parallel progress)) = do
    rows ← gather a (sort_by_key progress.branches)
    when_gathered activity a rows
  settle_parallel activity a (some (map_state p)) = pure tt
  settle_parallel activity a (some (wait w)) = pure tt
  settle_parallel activity a none = pure tt

  -- `child_completed`.
  unfoldable pub parallel_child_completed :
      ObjectRef Meta.activity → Activity V → RawObjectRef → Handle V S Unit
  parallel_child_completed activity a child = do
    found ← try_read (storage.get_activity activity)
    match_option (flatten found) (pure tt) λ act. settle_parallel activity a act.activity_state

  -- `process_input`, of `Arguments`, for a parallel and a task state.
  unfoldable pub arguments_input :
      Option V
      → Activity V
      → Variables V
      → V
      → Timestamp
      → Handle V S (Result (ExecutionError V) (V × Activity V))
  arguments_input none a variables states at = pure (ok (a.raw_input, a))
  arguments_input (some arguments) a variables states at =
      pure (elim (eval_json arguments states variables) [ err e ↦ err e | ok v ↦ ok (v, a) ])

  abbrev pub parallel_handler : ParallelState V → Branches V → StateHandler V S
  parallel_handler s branches = record {
    initialize = λ a. record a { activity_state = some (parallel (record { branches = [] })) };
    process_input = arguments_input s.arguments;
    after_activated = fan_out_branches branches;
    complete_directly = false;
    child_completed = parallel_child_completed;
    after_completing = container_completing engine s.assign s.output s.end s.next;
    after_terminating = λ a variables. container_terminating engine a;
    on_failed = uncaught;
  }
