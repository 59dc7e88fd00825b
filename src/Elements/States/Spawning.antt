-- ===== src/Elements/States/Spawning.antt =====
-- What a `Map` of crates/engine/src/elements/states/map.rs starts when an item has ended well.
use spica.Base.{ℕ, ◌+◌, ◌-◌, ◌≤◌, ◌≡◌, ◌⊎◌, some, List, [], ◌∷◌, ◌++◌, map, length, get_elem?, ok}
use spica.Types.Meta.{ObjectRef}
use spica.Types.Meta
use spica.Types.Command
use spica.Types.Activity.{Activity, MapActivityState}
use spica.StreamProcessor.{EntryPayload}
use spica.StreamProcessor
use spica.Asl.{ItemProcessor}
use spica.Asl.StatePath.{item_processor}
use spica.Elements.Interface.{Engine}
use spica.Elements.Expression.{or_value}
use spica.Elements.Handle.{Work}
use spica.Elements.States.Converge.{sort_by_key}
use spica.Elements.Payloads.{payloads}
use spica.Elements.States.Map.{outputs_in_order}
use spica.Elements.States.Map.Counts.{range_from, capacity_of, start_of}

module _ {V S : Type 0} (engine : Engine V S) (m : ItemProcessor V)
    (owner : ObjectRef Meta.activity) (a : Activity V) (p : MapActivityState V) where
  -- The command that starts the item of this index.
  abbrev pub start_command : ℕ → EntryPayload V
  start_command index = StreamProcessor.command (
      Command.spawn_thread (record {
        owner = owner;
        execution = a.execution;
        state_path = some (item_processor a.state_path);
        index = index;
        start_at = start_of m;
        input = or_value engine.json.null (get_elem? p.items index);
      }))

  -- The outputs of the items, in order, complete the `Map`.
  abbrev pub Completes : Work V S → Work V S → Type 0
  Completes w w' =
      (vs : List V) × (outputs_in_order engine (sort_by_key p.children) w ≡ (ok vs, w))
      × (payloads w'
          ≡ payloads w
            ++ StreamProcessor.command (Command.complete_state owner (engine.json.array vs)) ∷ [])

  -- The next items that are not registered start, as many as the free slots take.
  abbrev pub Fills : ℕ → Work V S → Work V S → Type 0
  Fills done w w' =
      (n : ℕ) × (payloads w' ≡ payloads w ++ map start_command (range_from (length p.children) n))
      × (length p.children - done + n ≤ capacity_of p.max_concurrency p.total)
      × (length p.children + n ≤ p.total)
      × ((length p.children - done + n ≡ capacity_of p.max_concurrency p.total)
          ⊎ (length p.children + n ≡ p.total))
