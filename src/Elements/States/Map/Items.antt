-- ===== src/Elements/States/Map/Items.antt =====
-- The items of a `Map` and its limit (`resolve_map_items` and `resolve_max_concurrency` of
-- crates/engine/src/elements/states/map.rs).
use spica.Types.Error.{ExecutionError, runtime, invalid_definition}
use spica.Types.Event.{Variables}
use spica.Types.Activity.{Activity}
use spica.Asl.{MapItems, IntOrExpr, int, array}
use spica.Asl.StatePath.{state_name}
use spica.Elements.Interface.{Engine}
use spica.Elements.Expression.{eval_string_or_expr}
use spica.Elements.Handle.{Handle, pure, ◌>>=◌}
use spica.Base.{ℕ, Option, none, some, List, ◌++◌, Str, codes, Result, ok, err, ℤ, pos, negsuc}

module _ {V : Type 0} where
  abbrev pub invalid_map : {A : Type 0} → Str → Result (ExecutionError V) A
  invalid_map text = err (runtime (invalid_definition text))

  -- The text around a state's name.
  abbrev pub map_text : Activity V → Str → Str
  map_text a rest = codes "Map '" ++ state_name a.state_path ++ rest

module _ {V S : Type 0} (engine : Engine V S) where
  open engine use {json, storage}

  abbrev pub evaluated_items :
      Activity V → Result (ExecutionError V) V → Result (ExecutionError V) (List V)
  evaluated_items a (err e) = err e
  evaluated_items a (ok v) = elim (json.as_array v) [
    | none ↦ invalid_map (map_text a (codes "' Items expression did not evaluate to an array"))
    | some vs ↦ ok vs
  ]

  -- `resolve_map_items`.
  unfoldable pub resolve_map_items :
      Option (MapItems V)
      → Activity V
      → Variables V
      → V
      → Handle V S (Result (ExecutionError V) (List V))
  resolve_map_items (some (array vs)) a variables states = pure (ok vs)
  resolve_map_items (some (MapItems.expr text)) a variables states = do
    found ← eval_string_or_expr engine text states variables
    pure (evaluated_items a found)
  resolve_map_items none a variables states = pure (elim (json.as_array a.raw_input) [
    | none ↦ invalid_map (map_text a (codes "' has no Items and its input is not an array"))
    | some vs ↦ ok vs
  ])

  abbrev pub whole_concurrency : Option ℤ → Result (ExecutionError V) ℕ
  whole_concurrency (some (pos n)) = ok n
  whole_concurrency (some (negsuc n)) =
      invalid_map (codes "Map MaxConcurrency expression must evaluate to a non-negative integer")
  whole_concurrency none =
      invalid_map (codes "Map MaxConcurrency expression must evaluate to a non-negative integer")

  -- `resolve_max_concurrency`; the default is 0.
  unfoldable pub resolve_max_concurrency :
      Option IntOrExpr → Variables V → V → Handle V S (Result (ExecutionError V) ℕ)
  resolve_max_concurrency none variables states = pure (ok 0)
  resolve_max_concurrency (some (int (pos n))) variables states = pure (ok n)
  resolve_max_concurrency (some (int (negsuc n))) variables states =
      pure (invalid_map (codes "Map MaxConcurrency must be a non-negative integer"))
  resolve_max_concurrency (some (IntOrExpr.expr text)) variables states = do
    found ← eval_string_or_expr engine text states variables
    pure (elim found [ err e ↦ err e | ok v ↦ whole_concurrency (json.as_whole v) ])
