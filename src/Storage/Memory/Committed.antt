-- ===== src/Storage/Memory/Committed.antt =====
-- What a commit of crates/storage/src/memory.rs lands: exactly what the transaction's reads showed.
use spica.Base.{
  ◌≡◌, refl, Bool, true, false, Option, none, some, List, [], ◌∷◌, arith, ℤ, max_ℤ, max_ℤ-self,
}
use spica.HashMap
use spica.HashMap.{HashMap, or_else, lookup-extend}
use spica.HashMap.HashSet
use spica.HashMap.HashSet.{contains-insert, contains-remove}
use spica.Machinery.Name.{ObjectName-discrete, PlainName-discrete}
use spica.Storage.View.{Edge, Edge-discrete, View}
use spica.Storage.Memory.{InMemoryTxn, InMemoryDb, unwrap_or, or_default, begin_txn}
use spica.Storage.Memory.Landing.{land_edges, land_seq, commit}
use spica.Storage.Memory.Refines.{view_txn, IsAhead}

-- The rows, edges and counter of a store, as a fresh transaction shows them.
abbrev pub view_db : {V : Type 0} → InMemoryDb V → View V
view_db db = view_txn (begin_txn db)

contains-land_edges :
    (k : Edge) (ds : HashMap Edge Bool) (es : List Edge)
    → HashSet.contains Edge-discrete k (land_edges ds es)
      ≡ unwrap_or (HashMap.get Edge-discrete k ds) (HashSet.contains Edge-discrete k es)
unfolding land_edges HashMap.get
contains-land_edges k [] es = refl
contains-land_edges k ((e, true) ∷ ds) es =
    ground
      (arith, contains-land_edges k ds es, contains-insert Edge-discrete e k (land_edges ds es))
contains-land_edges k ((e, false) ∷ ds) es =
    ground
      (arith, contains-land_edges k ds es, contains-remove Edge-discrete e k (land_edges ds es))

unwrap-land_seq :
    (o : Option ℤ) (n : ℤ) → max_ℤ n (unwrap_or o n) ≡ unwrap_or o n → land_seq o n ≡ unwrap_or o n
unwrap-land_seq none n h = refl
unwrap-land_seq (some m) n h = h

-- A fresh transaction is not behind its store.
pub begin_txn-IsAhead : {V : Type 0} (db : InMemoryDb V) → IsAhead (begin_txn db)
unfolding begin_txn
begin_txn-IsAhead db = max_ℤ-self db.next_generated_seq

module _ {V : Type 0} where
  -- Committing a transaction whose counter is not behind its store's makes the store show exactly
  -- what the transaction showed: every row, scope and edge, and the counter, whatever watermark is
  -- written.
  pub view_db-commit :
      (s : InMemoryTxn V) (w : Option ℤ) → IsAhead s → view_db (commit s w) ≡ view_txn s
  unfolding begin_txn commit HashMap.get HashSet.contains
  view_db-commit s w h i = record {
    executions = lookup-extend ObjectName-discrete s.db.executions s.batch.executions i;
    threads = lookup-extend ObjectName-discrete s.db.threads s.batch.threads i;
    variables =
        λ n. or_default (lookup-extend ObjectName-discrete s.db.variables s.batch.variables i n);
    activities = lookup-extend ObjectName-discrete s.db.activities s.batch.activities i;
    tasks = lookup-extend ObjectName-discrete s.db.tasks s.batch.tasks i;
    flows = lookup-extend PlainName-discrete s.db.flows s.batch.flows i;
    flow_versions = lookup-extend ObjectName-discrete s.db.flow_versions s.batch.flow_versions i;
    seq = unwrap-land_seq s.batch.next_generated_seq s.db.next_generated_seq h i;
    edges = λ e. contains-land_edges e s.batch.children s.db.children i;
  }
