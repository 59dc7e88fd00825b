-- ===== src/Storage/Memory/Landing.antt =====
-- `InMemoryTxn::commit` of crates/storage/src/memory.rs.
use spica.Base.{Bool, Option, none, some, List, [], ◌∷◌, if◌then◌else◌, ℤ, max_ℤ}
use spica.HashMap
use spica.HashMap.{HashMap, or_else}
use spica.HashMap.HashSet
use spica.Machinery.Name.{ObjectName-discrete, PlainName-discrete}
use spica.Storage.View.{Edge, Edge-discrete}
use spica.Storage.Memory.{InMemoryDb, InMemoryTxn, unwrap_or}

-- The pending decisions, landed in the edge set.
unfoldable pub land_edges : HashMap Edge Bool → List Edge → List Edge
unfolding HashSet.insert HashSet.remove
land_edges [] es = es
land_edges ((e, present) ∷ ds) es =
    let rest = land_edges ds es in
    if present then HashSet.insert Edge-discrete e rest else HashSet.remove Edge-discrete e rest

abbrev pub land_seq : Option ℤ → ℤ → ℤ
land_seq none seq = seq
land_seq (some n) seq = max_ℤ seq n

module _ {V : Type 0} where
  unfoldable pub commit : InMemoryTxn V → Option ℤ → InMemoryDb V
  unfolding HashMap.extend land_edges
  commit s watermark = record {
    executions = HashMap.extend ObjectName-discrete s.db.executions s.batch.executions;
    threads = HashMap.extend ObjectName-discrete s.db.threads s.batch.threads;
    variables = HashMap.extend ObjectName-discrete s.db.variables s.batch.variables;
    activities = HashMap.extend ObjectName-discrete s.db.activities s.batch.activities;
    tasks = HashMap.extend ObjectName-discrete s.db.tasks s.batch.tasks;
    flows = HashMap.extend PlainName-discrete s.db.flows s.batch.flows;
    flow_versions = HashMap.extend ObjectName-discrete s.db.flow_versions s.batch.flow_versions;
    last_processed_position = unwrap_or watermark s.db.last_processed_position;
    next_generated_seq = land_seq s.batch.next_generated_seq s.db.next_generated_seq;
    children = land_edges s.batch.children s.db.children;
  }
