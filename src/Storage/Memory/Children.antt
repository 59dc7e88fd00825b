-- ===== src/Storage/Memory/Children.antt =====
-- `get_children` and `activatable_tasks` of crates/storage/src/memory.rs, against the edges and rows
-- that a transaction shows.
use spica.Base.{ℕ, ◌≡◌, refl, Bool, true, false, ◌&&◌, Option, List, [], ◌∷◌, arith, holds, Str, ℤ}
use spica.HashMap
use spica.HashMap.{HashMap, get-extend}
use spica.HashMap.Distinct.{IsDistinct, IsDistinct-extend, Serves, first-Serves}
use spica.HashMap.HashSet
use spica.HashMap.HashSet.{contains-insert, contains-remove}
use spica.Machinery.Timestamp.{Timestamp}
use spica.Machinery.Name.{ObjectName-discrete}
use spica.Types.Meta.{RawObjectRef, RawObjectRef-discrete}
use spica.Storage.View.{Edge, Edge-discrete}
use spica.Storage.Memory.{InMemoryTxn, unwrap_or}
use spica.Storage.Memory.Reads.{
  db_children, batch_children, get_children, first_values, activatable_tasks,
  stored_activatable_tasks, is_activatable,
}
use spica.Storage.Memory.Landing.{commit}
use spica.Storage.Memory.Refines.{view_txn}

Edge-holds :
    (p q c d : RawObjectRef)
    → holds (Edge-discrete (p, c) (q, d))
      ≡ (holds (RawObjectRef-discrete p q) && holds (RawObjectRef-discrete c d))
Edge-holds p q c d = ground arith

contains-db_children :
    (es : List Edge) (p c : RawObjectRef)
    → HashSet.contains RawObjectRef-discrete c (db_children es p)
      ≡ HashSet.contains Edge-discrete (p, c) es
unfolding db_children HashSet.contains
contains-db_children [] p c = refl
contains-db_children ((q, d) ∷ es) p c = ground (
  arith,
  contains-db_children es p c,
  Edge-holds q p d c,
  contains-insert RawObjectRef-discrete d c (db_children es p),
)

contains-batch_children :
    (ds : HashMap Edge Bool) (es : List Edge) (p c : RawObjectRef)
    → HashSet.contains RawObjectRef-discrete c (batch_children ds es p)
      ≡ unwrap_or (HashMap.get Edge-discrete (p, c) ds) (HashSet.contains Edge-discrete (p, c) es)
unfolding batch_children HashMap.get
contains-batch_children [] es p c = contains-db_children es p c
contains-batch_children (((q, d), true) ∷ ds) es p c = ground (
  arith,
  contains-batch_children ds es p c,
  Edge-holds q p d c,
  contains-insert RawObjectRef-discrete d c (batch_children ds es p),
)
contains-batch_children (((q, d), false) ∷ ds) es p c = ground (
  arith,
  contains-batch_children ds es p c,
  Edge-holds q p d c,
  contains-remove RawObjectRef-discrete d c (batch_children ds es p),
)

module _ {V : Type 0} where
  -- An object is among the children that a transaction reads exactly when the transaction shows the
  -- edge: the last pending decision, or else the stored edge.
  pub contains-get_children :
      (s : InMemoryTxn V) (p c : RawObjectRef)
      → HashSet.contains RawObjectRef-discrete c (get_children p s) ≡ (view_txn s).edges (p, c)
  unfolding get_children
  contains-get_children s p c = contains-batch_children s.batch.children s.db.children p c

  -- When the store binds each task's name at most once: the tasks that a transaction offers are rows
  -- that it shows, each under a name of its own, of the resource and claimable at the instant; they
  -- are at most the limit, and either as many as the limit or all such rows. The same holds of the
  -- tasks that the store offers once the transaction is committed, against what the transaction
  -- showed. Which of the rows are chosen under the limit is left open.
  pub activatable_tasks-commit :
      (s : InMemoryTxn V) (w : Option ℤ) (resource : Str) (now : Timestamp) (limit : ℕ)
      → IsDistinct ObjectName-discrete s.db.tasks
      → Serves ObjectName-discrete
          (is_activatable resource now)
          (view_txn s).tasks
          limit
          (activatable_tasks resource now limit s)
        × Serves ObjectName-discrete
            (is_activatable resource now)
            (view_txn s).tasks
            limit
            (stored_activatable_tasks resource now limit (commit s w))
  unfolding activatable_tasks stored_activatable_tasks first_values commit
  activatable_tasks-commit s w resource now limit h =
      let served =
        first-Serves ObjectName-discrete (is_activatable resource now) (view_txn s).tasks limit
          (HashMap.extend ObjectName-discrete s.db.tasks s.batch.tasks)
          (IsDistinct-extend ObjectName-discrete s.db.tasks s.batch.tasks h)
          (λ n. get-extend ObjectName-discrete n s.db.tasks s.batch.tasks) in
      (served, served)
