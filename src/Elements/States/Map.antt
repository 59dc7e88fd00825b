-- ===== src/Elements/States/Map.antt =====
-- crates/engine/src/elements/states/map.rs: one thread for each item, at most `MaxConcurrency` of them
-- at once, and the outputs in the order of the items.
pub mod Counts
pub mod Items
unfoldable pub use spica.Elements.States.Map.Counts.{
  usize_mod, sub_usize, range_from, capacity_of, to_spawn, initial_batch, start_of,
}
unfoldable pub use spica.Elements.States.Map.Items.{
  invalid_map, map_text, evaluated_items, resolve_map_items, whole_concurrency,
  resolve_max_concurrency,
}
use spica.HashMap.{HashMap}
use spica.Machinery.Timestamp.{Timestamp}
use spica.Types.Meta.{ObjectRef, RawObjectRef, RawObjectRef-discrete, object_ref, as_raw_object_ref}
use spica.Types.Meta
use spica.Types.Error.{ExecutionError, failed, runtime, state_failed, invalid_definition}
use spica.Types.Event.{Variables}
use spica.Types.Command
use spica.Types.Activity.{Activity, ActivityState, MapActivityState, parallel, map_state, wait}
use spica.Asl.{MapState, MapItems, ItemProcessor, no_processor, processor, IntOrExpr, int, array}
use spica.Asl.StatePath.{state_name, item_processor}
use spica.Elements.Interface.{Engine}
use spica.Elements.Expression.{eval_string_or_expr, or_value}
use spica.Elements.Handle.{
  Handle, match_option, pure, try_read, for_each, append_command, ◌>>=◌, ◌>>◌,
}
use spica.Elements.StateHandler.{StateHandler}
use spica.Elements.States.Simple.{uncaught}
use spica.Elements.States.Container.{container_completing, container_terminating}
use spica.Elements.States.Converge.{sort_by_key, flatten, is_successful, output_of}
use spica.Elements.States.Parallel.{fail_container}
use spica.Base.{
  ℕ, zero, suc, ◌+◌, ite, Bool, true, false, Option, none, some, List, [], ◌∷◌, ◌==◌, if◌then◌else◌,
  codes, length, get_elem?, Result, ok, err,
}

module _ {V S : Type 0} (engine : Engine V S) where
  open engine use {json, storage}

  -- `SpawnThread` of one item.
  unfoldable pub spawn_item :
      ItemProcessor V
      → Activity V
      → MapActivityState V
      → ObjectRef Meta.activity
      → ℕ
      → Handle V S Unit
  spawn_item m a progress owner index = append_command engine (
      Command.spawn_thread (record {
        owner = owner;
        execution = a.execution;
        state_path = some (item_processor a.state_path);
        index = index;
        start_at = start_of m;
        input = or_value json.null (get_elem? progress.items index);
      }))

  abbrev pub planned :
      Activity V → List V → Result (ExecutionError V) ℕ → Result (ExecutionError V) (V × Activity V)
  planned a items (err e) = err e
  planned a items (ok n) = ok (
    a.raw_input,
    record a {
      activity_state = some (
          map_state
            (record { items = items; total = length items; max_concurrency = n; children = [] }));
    },
  )

  abbrev pub plan_items :
      MapState V
      → Activity V
      → Variables V
      → V
      → Result (ExecutionError V) (List V)
      → Handle V S (Result (ExecutionError V) (V × Activity V))
  plan_items s a variables states (err e) = pure (err e)
  plan_items s a variables states (ok items) = do
    n ← resolve_max_concurrency engine s.max_concurrency variables states
    pure (planned a items n)

  -- `process_input`: the plan of the fan-out.
  unfoldable pub map_input :
      MapState V
      → Activity V
      → Variables V
      → V
      → Timestamp
      → Handle V S (Result (ExecutionError V) (V × Activity V))
  map_input s a variables states at = do
    items ← resolve_map_items engine s.items a variables states
    plan_items s a variables states items

  abbrev pub complete_if_empty : Activity V → ℕ → Handle V S Unit
  complete_if_empty a zero =
      append_command engine (Command.complete_state (object_ref a.meta) (json.array []))
  complete_if_empty a (suc n) = pure tt

  abbrev pub fan_out_plan :
      ItemProcessor V → Activity V → Option (ActivityState V) → Handle V S Unit
  fan_out_plan m a (some (map_state p)) = do
    for_each (spawn_item m a p (object_ref a.meta))
        (range_from 0 (initial_batch p.max_concurrency p.total))
    complete_if_empty a p.total
  fan_out_plan m a (some (parallel p)) = pure tt
  fan_out_plan m a (some (wait w)) = pure tt
  fan_out_plan m a none = pure tt

  -- `after_activated`: the first batch.
  unfoldable pub fan_out_items :
      ItemProcessor V → Activity V → Variables V → V → Handle V S (Result (ExecutionError V) Unit)
  fan_out_items m a variables states = do fan_out_plan m a a.activity_state; pure (ok tt)

  -- The thread among the children that has this address.
  unfoldable pub find_child :
      RawObjectRef → HashMap ℕ (ObjectRef Meta.thread) → Option (ObjectRef Meta.thread)
  find_child child [] = none
  find_child child ((i, r) ∷ rs) =
      ite (RawObjectRef-discrete (as_raw_object_ref r) child) (some r) (find_child child rs)

  -- How many of the children have ended well.
  unfoldable pub count_completed : HashMap ℕ (ObjectRef Meta.thread) → Handle V S ℕ
  count_completed [] = pure 0
  count_completed ((i, r) ∷ rs) = do
    found ← try_read (storage.get_thread r)
    n ← count_completed rs
    pure (if is_successful (flatten found) then n + 1 else n)

  unfoldable pub outputs_in_order : List (ℕ × ObjectRef Meta.thread) → Handle V S (List V)
  outputs_in_order [] = pure []
  outputs_in_order ((i, r) ∷ rs) = do
    found ← try_read (storage.get_thread r)
    vs ← outputs_in_order rs
    pure (output_of json.null (flatten found) ∷ vs)

  -- The settle of an item that ended well: the state completes, or more items start.
  unfoldable pub advance_map :
      ItemProcessor V
      → ObjectRef Meta.activity
      → Activity V
      → MapActivityState V
      → ℕ
      → Handle V S Unit
  advance_map m activity a p completed_now =
      if completed_now == p.total
      then (do
        outputs ← outputs_in_order (sort_by_key p.children)
        append_command engine (Command.complete_state activity (json.array outputs)))
      else (let spawn_count = length p.children in
          for_each (spawn_item m a p activity)
            (range_from spawn_count (to_spawn p.max_concurrency p.total spawn_count completed_now)))

  abbrev pub settle_item :
      ItemProcessor V
      → ObjectRef Meta.activity
      → Activity V
      → MapActivityState V
      → Bool
      → Handle V S Unit
  settle_item m activity a p false = fail_container engine a (
      failed (runtime (state_failed (state_name a.state_path) (codes "Map item failed") json.null)))
  settle_item m activity a p true = do n ← count_completed p.children; advance_map m activity a p n

  abbrev pub settle_known :
      ItemProcessor V
      → ObjectRef Meta.activity
      → Activity V
      → MapActivityState V
      → Option (ObjectRef Meta.thread)
      → Handle V S Unit
  settle_known m activity a p none = pure tt
  settle_known m activity a p (some r) = do
    found ← try_read (storage.get_thread r)
    settle_item m activity a p (is_successful (flatten found))

  abbrev pub settle_map :
      ItemProcessor V
      → ObjectRef Meta.activity
      → Activity V
      → RawObjectRef
      → Option (ActivityState V)
      → Handle V S Unit
  settle_map m activity a child (some (map_state p)) =
      settle_known m activity a p (find_child child p.children)
  settle_map m activity a child (some (parallel p)) = pure tt
  settle_map m activity a child (some (wait w)) = pure tt
  settle_map m activity a child none = pure tt

  -- `child_completed`.
  unfoldable pub map_child_completed :
      ItemProcessor V → ObjectRef Meta.activity → Activity V → RawObjectRef → Handle V S Unit
  map_child_completed m activity a child = do
    found ← try_read (storage.get_activity activity)
    match_option (flatten found) (pure tt) λ act. settle_map m activity a child act.activity_state

  abbrev pub no_plan : MapActivityState V
  no_plan = record { items = []; total = 0; max_concurrency = 0; children = [] }

  abbrev pub map_handler : MapState V → ItemProcessor V → StateHandler V S
  map_handler s m = record {
    initialize = λ a. record a { activity_state = some (map_state no_plan) };
    process_input = map_input s;
    after_activated = fan_out_items m;
    complete_directly = false;
    child_completed = map_child_completed m;
    after_completing = container_completing engine s.assign s.output s.end s.next;
    after_terminating = λ a variables. container_terminating engine a;
    on_failed = uncaught;
  }
