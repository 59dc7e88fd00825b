-- ===== src/Storage/Memory/Refines.antt =====
-- crates/storage/src/memory.rs against what a transaction promises (Storage/View): a read gives the
-- last write, whether the batch or the store holds it.
use spica.Base.{
  ◌≡◌, refl, sym, ap, ◌∙◌, fun_ext, Bool, true, false, Option, none, some, List, arith, ℤ, max_ℤ,
  max_ℤ-assoc, as_i64, succ_i64,
}
use spica.HashMap
use spica.HashMap.{HashMap, or_else, update, overlay-insert}
use spica.HashMap.HashSet
use spica.Machinery.Name.{ObjectName, ObjectName-discrete, PlainName-discrete, as_plain}
use spica.Types.Flow.{Flow, FlowName}
use spica.Types.Event.{Variables}
use spica.Storage.Fold.{◌>>=◌}
use spica.Storage.Fold.Sim.{Sim}
use spica.Storage.Simulates.{FoldSimulates, Simulates}
use spica.Storage.View.{Edge, Edge-discrete, View, view_ops, view_put_flow}
use spica.Storage.Memory.{InMemoryTxn, or_default, unwrap_or}
use spica.Storage.Memory.Txn.{memory_ops, txn_put_flow}

abbrev pub seq_of : {V : Type 0} → InMemoryTxn V → ℤ
seq_of s = unwrap_or s.batch.next_generated_seq s.db.next_generated_seq

-- The rows, edges and counter that a transaction's reads show.
abbrev pub view_txn : {V : Type 0} → InMemoryTxn V → View V
view_txn s = record {
  executions = HashMap.overlay ObjectName-discrete s.batch.executions s.db.executions;
  threads = HashMap.overlay ObjectName-discrete s.batch.threads s.db.threads;
  variables =
      λ n. or_default (HashMap.overlay ObjectName-discrete s.batch.variables s.db.variables n);
  activities = HashMap.overlay ObjectName-discrete s.batch.activities s.db.activities;
  tasks = HashMap.overlay ObjectName-discrete s.batch.tasks s.db.tasks;
  flows = HashMap.overlay PlainName-discrete s.batch.flows s.db.flows;
  flow_versions = HashMap.overlay ObjectName-discrete s.batch.flow_versions s.db.flow_versions;
  seq = seq_of s;
  edges = λ e.
      unwrap_or (HashMap.get Edge-discrete e s.batch.children)
        (HashSet.contains Edge-discrete e s.db.children);
}

-- The counter of a transaction is never behind the store's.
abbrev pub IsAhead : {V : Type 0} → InMemoryTxn V → Type 0
IsAhead s = max_ℤ s.db.next_generated_seq (seq_of s) ≡ seq_of s

edges-insert :
    (e : Edge) (present : Bool) (pending : HashMap Edge Bool) (es : List Edge)
    → (λ k.
        unwrap_or
          (HashMap.get Edge-discrete k (HashMap.insert Edge-discrete e present pending))
          (HashSet.contains Edge-discrete k es))
      ≡ update Edge-discrete
          (λ k.
            unwrap_or (HashMap.get Edge-discrete k pending) (HashSet.contains Edge-discrete k es))
          e
          present
edges-insert e present pending es =
    fun_ext λ k. ground (arith, HashMap.get-insert Edge-discrete e k present pending)

module _ {V : Type 0} where
  variables-insert :
      (n : ObjectName) (vs : Variables V) (pending m : HashMap ObjectName (Variables V))
      → (λ k. or_default (
          HashMap.overlay ObjectName-discrete
            (HashMap.insert ObjectName-discrete n vs pending)
            m
            k))
        ≡ update ObjectName-discrete
            (λ k. or_default (HashMap.overlay ObjectName-discrete pending m k))
            n
            vs
  variables-insert n vs pending m =
      fun_ext λ k. ground (arith, HashMap.get-insert ObjectName-discrete n k vs pending)

-- Whatever the two counters keep when the later one is raised is kept by every operation.
module _ {V : Type 0} (J : ℤ → ℤ → Type 0) (raised : (n m k : ℤ) → J n m → J n (max_ℤ m k)) where
  put_flow-Sim :
      (n : Option FlowName) (f : Flow)
      → Sim {S = InMemoryTxn V} view_txn
          (λ s. J s.db.next_generated_seq (seq_of s))
          (txn_put_flow n f)
          (view_put_flow n f)
  put_flow-Sim none f = record { at = λ s i. (refl, refl, i) }
  put_flow-Sim (some n) f = record {
    at = λ s i. (
      refl,
      ap (λ m. record (view_txn s) { flows = m })
          (overlay-insert PlainName-discrete n f s.batch.flows s.db.flows),
      i,
    );
  }

  pub memory_folds :
      FoldSimulates
        (view_txn {V = V})
        (λ s. J s.db.next_generated_seq (seq_of s))
        memory_ops
        view_ops
  unfolding ◌>>=◌
  memory_folds = record {
    get_execution = λ r. record { at = λ s i. (refl, refl, i) };
    get_thread = λ r. record { at = λ s i. (refl, refl, i) };
    get_variables = λ r. record { at = λ s i. (refl, refl, i) };
    get_activity = λ r. record { at = λ s i. (refl, refl, i) };
    get_task = λ r. record { at = λ s i. (refl, refl, i) };
    get_flow_by_name = λ n. record { at = λ s i. (refl, refl, i) };
    get_flow_version = λ r. record { at = λ s i. (refl, refl, i) };
    put_execution = λ e. record {
      at = λ s i. (
        refl,
        ap (λ m. record (view_txn s) { executions = m })
            (overlay-insert ObjectName-discrete e.meta.name e s.batch.executions s.db.executions),
        i,
      );
    };
    put_thread = λ t. record {
      at = λ s i. (
        refl,
        ap (λ m. record (view_txn s) { threads = m })
            (overlay-insert ObjectName-discrete t.meta.name t s.batch.threads s.db.threads),
        i,
      );
    };
    put_variables = λ r vs. record {
      at = λ s i. (
        refl,
        ap (λ m. record (view_txn s) { variables = m })
            (variables-insert r.name vs s.batch.variables s.db.variables),
        i,
      );
    };
    put_activity = λ x. record {
      at = λ s i. (
        refl,
        ap (λ m. record (view_txn s) { activities = m })
            (overlay-insert ObjectName-discrete x.meta.name x s.batch.activities s.db.activities),
        i,
      );
    };
    put_task = λ t. record {
      at = λ s i. (
        refl,
        ap (λ m. record (view_txn s) { tasks = m })
            (overlay-insert ObjectName-discrete t.meta.name t s.batch.tasks s.db.tasks),
        i,
      );
    };
    remove_child = λ p c. record {
      at = λ s i. (
        refl,
        ap (λ m. record (view_txn s) { edges = m })
            (edges-insert (p, c) false s.batch.children s.db.children),
        i,
      );
    };
    add_child = λ p c. record {
      at = λ s i. (
        refl,
        ap (λ m. record (view_txn s) { edges = m })
            (edges-insert (p, c) true s.batch.children s.db.children),
        i,
      );
    };
    put_flow = λ f. put_flow-Sim (as_plain f.meta.name) f;
    put_flow_version = λ v. record {
      at = λ s i. (
        refl,
        ap (λ m. record (view_txn s) { flow_versions = m })
            (overlay-insert ObjectName-discrete v.meta.name v s.batch.flow_versions
              s.db.flow_versions),
        i,
      );
    };
    raise_generated_seq = λ n. record {
      at = λ s i. (refl, refl, raised s.db.next_generated_seq (seq_of s) (succ_i64 (as_i64 n)) i);
    };
  }

module _ {V : Type 0} where
  -- The point reads and the writes of the in-memory transaction that the appliers use, and reading
  -- and raising the counter of generated names, have the same result as the operations of the
  -- abstract store on what the transaction shows, and lead to its new state, as long as the
  -- transaction's counter is not behind its store's, which they keep. Setting the counter agrees
  -- with the abstract store in the same way, whatever the counters are, but need not keep that.
  pub memory-Simulates : Simulates (view_txn {V = V}) IsAhead memory_ops view_ops
  memory-Simulates = record {
    folds =
        memory_folds (λ n m. max_ℤ n m ≡ m)
          λ n m k i. sym (max_ℤ-assoc n m k) ∙ ap (λ x. max_ℤ x k) i;
    next_generated_seq = record { at = λ s i. (refl, refl, i) };
    put_next_generated_seq = λ n s. (refl, refl);
  }

  -- The same, with nothing asked of the counter.
  pub memory_rows : FoldSimulates (view_txn {V = V}) (λ s. Unit) memory_ops view_ops
  memory_rows = memory_folds (λ n m. Unit) λ n m k i. i
