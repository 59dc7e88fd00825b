-- ===== src/Storage/Memory/Reads.antt =====
-- The collection reads of crates/storage/src/memory.rs: the children of an object and the tasks a
-- worker may claim, in the store and in a transaction.
use spica.Base.{
  ℕ, ite, Bool, ◌&&◌, List, [], ◌∷◌, map, if◌then◌else◌, holds, Str, Str-discrete, take, filter,
}
use spica.HashMap
use spica.HashMap.{HashMap, or_else}
use spica.HashMap.HashSet
use spica.Machinery.Timestamp.{Timestamp}
use spica.Machinery.Name.{ObjectName-discrete}
use spica.Types.Meta.{RawObjectRef, RawObjectRef-discrete}
use spica.Types.Task.{Task, is_claimable_at}
use spica.Storage.View.{Edge}
use spica.Storage.Memory.{InMemoryDb, InMemoryTxn}

-- `values().filter(p).take(limit)`. The order of the list stands for the one that Rust leaves open.
unfoldable pub first_values {ℓ} : {K A : Type ℓ} → (A → Bool) → ℕ → HashMap K A → List A
first_values p limit m = take limit (filter p (map (λ e. e.1) m))

-- `InMemoryDb::children`.
unfoldable pub db_children : List Edge → RawObjectRef → List RawObjectRef
unfolding HashSet.insert
db_children [] parent = []
db_children ((p, c) ∷ es) parent =
    let rest = db_children es parent in
    ite (RawObjectRef-discrete p parent) (HashSet.insert RawObjectRef-discrete c rest) rest

-- `InMemoryBatch::children`: the stored edges under the pending decisions.
unfoldable pub batch_children : HashMap Edge Bool → List Edge → RawObjectRef → List RawObjectRef
unfolding HashSet.insert HashSet.remove db_children
batch_children [] es parent = db_children es parent
batch_children (((p, c), present) ∷ ds) es parent =
    let out = batch_children ds es parent in
    ite (RawObjectRef-discrete p parent)
      (if present
        then HashSet.insert RawObjectRef-discrete c out
        else HashSet.remove RawObjectRef-discrete c out)
      out

module _ {V : Type 0} where
  unfoldable pub get_children : RawObjectRef → InMemoryTxn V → List RawObjectRef
  unfolding batch_children
  get_children parent s = batch_children s.batch.children s.db.children parent

  abbrev pub is_activatable : Str → Timestamp → Task V → Bool
  is_activatable resource now t = holds (Str-discrete t.resource resource) && is_claimable_at t now

  -- The committed rows, a pending row winning by name.
  unfoldable pub activatable_tasks : Str → Timestamp → ℕ → InMemoryTxn V → List (Task V)
  unfolding HashMap.extend first_values
  activatable_tasks resource now limit s =
      first_values (is_activatable resource now) limit
        (HashMap.extend ObjectName-discrete s.db.tasks s.batch.tasks)

  -- The store's own scan, outside a transaction.
  unfoldable pub stored_activatable_tasks : Str → Timestamp → ℕ → InMemoryDb V → List (Task V)
  unfolding first_values
  stored_activatable_tasks resource now limit db =
      first_values (is_activatable resource now) limit db.tasks
