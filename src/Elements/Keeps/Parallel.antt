-- ===== src/Elements/Keeps/Parallel.antt =====
-- A property that the primitive steps keep, through the state `Parallel`
-- (crates/engine/src/elements).
use spica.Machinery.Timestamp.{Timestamp}
use spica.Types.Meta.{
  ObjectRef, RawObjectRef, object_ref, raw_object_ref, display_ref, as_raw_object_ref,
}
use spica.Types.Meta
use spica.Types.Error.{TerminationReason}
use spica.Types.Event.{Variables}
use spica.Types.Thread.{Thread}
use spica.Types.Activity.{Activity, ActivityState, parallel, map_state, wait}
use spica.Asl.{ParallelState, Branches, no_branches, States}
use spica.Asl
use spica.Elements.Interface.{Engine}
use spica.Elements.States.Converge.{flatten}
use spica.Elements.States.Parallel.{
  arguments_input, complete_with, fail_container, fan_out_branches, gather, gathered_one,
  parallel_child_completed, settle_parallel, spawn_branches, when_drained, when_gathered,
}
use spica.Elements.Keeps.{
  Keeps, Kept, keeps_rules, Keeps-bind, Keeps-pure, Keeps-try_read, Keeps-option,
  append_command-Keeps,
}
use spica.Elements.Handle.{Work}
use spica.Base.{ℕ, ◌+◌, Option, none, some, List, [], ◌∷◌}

module _ {V S : Type 0} {P : Work V S → Type 0} {engine : Engine V S} (kept : Kept P engine) where
  pub fail_container-Keeps :
      (x : Activity V) (y : TerminationReason V) → Keeps P (fail_container engine x y)
  fail_container-Keeps a reason = search (keeps_rules, append_command-Keeps) depth 12

  pub spawn_branches-Keeps :
      (x : Activity V) (y : ℕ) (z : Branches V) → Keeps P (spawn_branches engine x y z)
  unfolding spawn_branches
  spawn_branches-Keeps a i no_branches = search keeps_rules
  spawn_branches-Keeps a i (Asl.branch start_at below rest) =
      Keeps-bind _ _ (append_command-Keeps kept _) (λ u. spawn_branches-Keeps a (i + 1) rest)

  pub fan_out_branches-Keeps :
      (x : Branches V) (y : Activity V) (z : Variables V) (u : V)
      → Keeps P (fan_out_branches engine x y z u)
  unfolding fan_out_branches
  fan_out_branches-Keeps no_branches a variables states =
      search (keeps_rules, append_command-Keeps) depth 12
  fan_out_branches-Keeps (Asl.branch start_at below rest) a variables states =
      search (keeps_rules, spawn_branches-Keeps) depth 12

  pub gathered_one-Keeps :
      (x : Activity V) (y : ObjectRef Meta.thread) (z : Option (Thread V))
      → Keeps P (gathered_one engine x y z)
  gathered_one-Keeps a r none = search (keeps_rules, fail_container-Keeps) depth 12
  gathered_one-Keeps a r (some t) = search (keeps_rules, fail_container-Keeps) depth 12

  pub gather-Keeps :
      (x : Activity V) (y : List (ℕ × ObjectRef Meta.thread)) → Keeps P (gather engine x y)
  unfolding gather
  gather-Keeps a [] = search keeps_rules
  gather-Keeps a ((i, r) ∷ rs) = Keeps-bind _ _ (Keeps-try_read _) (λ found.
      Keeps-bind _ _ (gathered_one-Keeps a r (flatten found)) (λ one.
        Keeps-option one _ _ (Keeps-pure none)
          (λ t. Keeps-bind _ _ (gather-Keeps a rs) (λ rest. Keeps-pure _))))

  pub complete_with-Keeps :
      (x : ObjectRef Meta.activity) (y : Activity V) (z : Option (List V))
      → Keeps P (complete_with engine x y z)
  complete_with-Keeps activity a none = search (keeps_rules, fail_container-Keeps) depth 12
  complete_with-Keeps activity a (some vs) = search (keeps_rules, append_command-Keeps) depth 12

  pub when_drained-Keeps :
      (x : ObjectRef Meta.activity) (y : Activity V) (z : List (Thread V)) (u : List RawObjectRef)
      → Keeps P (when_drained engine x y z u)
  when_drained-Keeps activity a ts [] = search (keeps_rules, complete_with-Keeps) depth 12
  when_drained-Keeps activity a ts (c ∷ cs) = search keeps_rules

  pub when_gathered-Keeps :
      (x : ObjectRef Meta.activity) (y : Activity V) (z : Option (List (Thread V)))
      → Keeps P (when_gathered engine x y z)
  when_gathered-Keeps activity a none = search keeps_rules
  when_gathered-Keeps activity a (some ts) = search (keeps_rules, when_drained-Keeps) depth 12

  pub settle_parallel-Keeps :
      (x : ObjectRef Meta.activity) (y : Activity V) (z : Option (ActivityState V))
      → Keeps P (settle_parallel engine x y z)
  settle_parallel-Keeps activity a (some (parallel progress)) =
      search (keeps_rules, gather-Keeps, when_gathered-Keeps) depth 12
  settle_parallel-Keeps activity a (some (map_state p)) = search keeps_rules
  settle_parallel-Keeps activity a (some (wait w)) = search keeps_rules
  settle_parallel-Keeps activity a none = search keeps_rules

  pub parallel_child_completed-Keeps :
      (x : ObjectRef Meta.activity) (y : Activity V) (z : RawObjectRef)
      → Keeps P (parallel_child_completed engine x y z)
  unfolding parallel_child_completed
  parallel_child_completed-Keeps activity a child =
      search (keeps_rules, settle_parallel-Keeps) depth 12

  pub arguments_input-Keeps :
      (x : Option V) (y : Activity V) (z : Variables V) (u : V) (v : Timestamp)
      → Keeps P (arguments_input engine x y z u v)
  unfolding arguments_input
  arguments_input-Keeps none a variables states at = search keeps_rules
  arguments_input-Keeps (some arguments) a variables states at = search keeps_rules
