-- ===== src/Elements/Keeps/Map.antt =====
-- A property that the primitive steps keep, through the state `Map` (crates/engine/src/elements).
use spica.HashMap.{HashMap}
use spica.Machinery.Timestamp.{Timestamp}
use spica.Types.Meta.{ObjectRef, RawObjectRef, RawObjectRef-discrete, object_ref, as_raw_object_ref}
use spica.Types.Meta
use spica.Types.Error.{ExecutionError}
use spica.Types.Event.{Variables}
use spica.Types.Activity.{Activity, ActivityState, MapActivityState, parallel, map_state, wait}
use spica.Asl.{MapState, MapItems, ItemProcessor, IntOrExpr, int, array}
use spica.Elements.Interface.{Engine}
use spica.Elements.States.Map.{
  advance_map, complete_if_empty, count_completed, fan_out_items, fan_out_plan, map_child_completed,
  map_input, outputs_in_order, plan_items, resolve_map_items, resolve_max_concurrency, settle_item,
  settle_known, settle_map, spawn_item,
}
use spica.Elements.Keeps.Expression.{eval_string_or_expr-Keeps}
use spica.Elements.Keeps.Parallel.{fail_container-Keeps}
use spica.Elements.Keeps.{
  Keeps, Kept, keeps_rules, Keeps-bind, Keeps-pure, Keeps-try_read, append_command-Keeps,
}
use spica.Elements.Handle.{Work}
use spica.Base.{
  ℕ, zero, suc, Bool, true, false, Option, none, some, List, [], ◌∷◌, Result, ok, err, pos, negsuc,
}

module _ {V S : Type 0} {P : Work V S → Type 0} {engine : Engine V S} (kept : Kept P engine) where
  pub spawn_item-Keeps :
      (x : ItemProcessor V) (y : Activity V) (z : MapActivityState V) (u : ObjectRef Meta.activity)
      (v : ℕ)
      → Keeps P (spawn_item engine x y z u v)
  unfolding spawn_item
  spawn_item-Keeps m a progress owner index = search (keeps_rules, append_command-Keeps) depth 12

  pub resolve_map_items-Keeps :
      (x : Option (MapItems V)) (y : Activity V) (z : Variables V) (u : V)
      → Keeps P (resolve_map_items engine x y z u)
  unfolding resolve_map_items
  resolve_map_items-Keeps (some (array vs)) a variables states = search keeps_rules
  resolve_map_items-Keeps (some (MapItems.expr text)) a variables states =
      search (keeps_rules, eval_string_or_expr-Keeps) depth 12
  resolve_map_items-Keeps none a variables states = search keeps_rules

  pub resolve_max_concurrency-Keeps :
      (x : Option IntOrExpr) (y : Variables V) (z : V)
      → Keeps P (resolve_max_concurrency engine x y z)
  unfolding resolve_max_concurrency
  resolve_max_concurrency-Keeps none variables states = search keeps_rules
  resolve_max_concurrency-Keeps (some (int (pos n))) variables states = search keeps_rules
  resolve_max_concurrency-Keeps (some (int (negsuc n))) variables states = search keeps_rules
  resolve_max_concurrency-Keeps (some (IntOrExpr.expr text)) variables states =
      search (keeps_rules, eval_string_or_expr-Keeps) depth 12

  pub plan_items-Keeps :
      (x : MapState V) (y : Activity V) (z : Variables V) (u : V)
      (v : Result (ExecutionError V) (List V))
      → Keeps P (plan_items engine x y z u v)
  plan_items-Keeps s a variables states (err e) = search keeps_rules
  plan_items-Keeps s a variables states (ok items) =
      search (keeps_rules, resolve_max_concurrency-Keeps) depth 12

  pub map_input-Keeps :
      (x : MapState V) (y : Activity V) (z : Variables V) (u : V) (v : Timestamp)
      → Keeps P (map_input engine x y z u v)
  unfolding map_input
  map_input-Keeps s a variables states at =
      search (keeps_rules, plan_items-Keeps, resolve_map_items-Keeps) depth 12

  pub complete_if_empty-Keeps : (x : Activity V) (y : ℕ) → Keeps P (complete_if_empty engine x y)
  complete_if_empty-Keeps a zero = search (keeps_rules, append_command-Keeps) depth 12
  complete_if_empty-Keeps a (suc n) = search keeps_rules

  pub fan_out_plan-Keeps :
      (x : ItemProcessor V) (y : Activity V) (z : Option (ActivityState V))
      → Keeps P (fan_out_plan engine x y z)
  fan_out_plan-Keeps m a (some (map_state p)) =
      search (keeps_rules, complete_if_empty-Keeps, spawn_item-Keeps) depth 12
  fan_out_plan-Keeps m a (some (parallel p)) = search keeps_rules
  fan_out_plan-Keeps m a (some (wait w)) = search keeps_rules
  fan_out_plan-Keeps m a none = search keeps_rules

  pub fan_out_items-Keeps :
      (x : ItemProcessor V) (y : Activity V) (z : Variables V) (u : V)
      → Keeps P (fan_out_items engine x y z u)
  unfolding fan_out_items
  fan_out_items-Keeps m a variables states = search (keeps_rules, fan_out_plan-Keeps) depth 12

  pub count_completed-Keeps :
      (x : HashMap ℕ (ObjectRef Meta.thread)) → Keeps P (count_completed engine x)
  unfolding count_completed
  count_completed-Keeps [] = search keeps_rules
  count_completed-Keeps ((i, r) ∷ rs) =
      Keeps-bind _ _ (Keeps-try_read _)
        (λ found. Keeps-bind _ _ (count_completed-Keeps rs) (λ n. Keeps-pure _))

  pub outputs_in_order-Keeps :
      (x : List (ℕ × ObjectRef Meta.thread)) → Keeps P (outputs_in_order engine x)
  unfolding outputs_in_order
  outputs_in_order-Keeps [] = search keeps_rules
  outputs_in_order-Keeps ((i, r) ∷ rs) =
      Keeps-bind _ _ (Keeps-try_read _)
        (λ found. Keeps-bind _ _ (outputs_in_order-Keeps rs) (λ vs. Keeps-pure _))

  pub advance_map-Keeps :
      (x : ItemProcessor V) (y : ObjectRef Meta.activity) (z : Activity V) (u : MapActivityState V)
      (v : ℕ)
      → Keeps P (advance_map engine x y z u v)
  unfolding advance_map
  advance_map-Keeps m activity a p completed_now =
      search (keeps_rules, append_command-Keeps, outputs_in_order-Keeps, spawn_item-Keeps) depth 12

  pub settle_item-Keeps :
      (x : ItemProcessor V) (y : ObjectRef Meta.activity) (z : Activity V) (u : MapActivityState V)
      (v : Bool)
      → Keeps P (settle_item engine x y z u v)
  settle_item-Keeps m activity a p false = search (keeps_rules, fail_container-Keeps) depth 12
  settle_item-Keeps m activity a p true =
      search (keeps_rules, advance_map-Keeps, count_completed-Keeps) depth 12

  pub settle_known-Keeps :
      (x : ItemProcessor V) (y : ObjectRef Meta.activity) (z : Activity V) (u : MapActivityState V)
      (v : Option (ObjectRef Meta.thread))
      → Keeps P (settle_known engine x y z u v)
  settle_known-Keeps m activity a p none = search keeps_rules
  settle_known-Keeps m activity a p (some r) = search (keeps_rules, settle_item-Keeps) depth 12

  pub settle_map-Keeps :
      (x : ItemProcessor V) (y : ObjectRef Meta.activity) (z : Activity V) (u : RawObjectRef)
      (v : Option (ActivityState V))
      → Keeps P (settle_map engine x y z u v)
  settle_map-Keeps m activity a child (some (map_state p)) =
      search (keeps_rules, settle_known-Keeps) depth 12
  settle_map-Keeps m activity a child (some (parallel p)) = search keeps_rules
  settle_map-Keeps m activity a child (some (wait w)) = search keeps_rules
  settle_map-Keeps m activity a child none = search keeps_rules

  pub map_child_completed-Keeps :
      (x : ItemProcessor V) (y : ObjectRef Meta.activity) (z : Activity V) (u : RawObjectRef)
      → Keeps P (map_child_completed engine x y z u)
  unfolding map_child_completed
  map_child_completed-Keeps m activity a child = search (keeps_rules, settle_map-Keeps) depth 12
