-- ===== src/Storage/Memory.antt =====
-- crates/storage/src/memory.rs: the in-memory store, its buffered batch and its fold transaction. The
-- lock is not modelled: one writer holds the store, so a transaction carries the rows it began on.
pub mod Reads
pub mod Txn
pub mod Landing
pub mod Refines
pub mod Committed
pub mod Direct
pub mod DirectShows
pub mod Children
use spica.Base.{Bool, Option, none, some, List, [], ℤ, pos}
use spica.HashMap
use spica.HashMap.{HashMap, or_else}
use spica.HashMap.HashSet
use spica.Machinery.Timestamp.{Timestamp}
use spica.Machinery.Name.{ObjectName, ObjectName-discrete, PlainName-discrete, as_plain}
use spica.Types.Meta.{RawObjectRef, RawObjectRef-discrete}
use spica.Types.Execution.{Execution}
use spica.Types.Thread.{Thread}
use spica.Types.Activity.{Activity}
use spica.Types.Task.{Task, is_claimable_at}
use spica.Types.Flow.{Flow, FlowName, FlowVersion, version_name}
use spica.Types.Event.{Variables}
use spica.Storage.Fold.{Fold, Fault, panicked}
use spica.Storage.Contract.{StorageTxn}
use spica.Storage.View.{Edge, Edge-discrete}

pub record InMemoryDb (V : Type 0) : Type 0 where
  pub executions : HashMap ObjectName (Execution V)
  pub threads : HashMap ObjectName (Thread V)
  pub variables : HashMap ObjectName (Variables V)
  pub activities : HashMap ObjectName (Activity V)
  pub tasks : HashMap ObjectName (Task V)
  pub flows : HashMap FlowName Flow
  pub flow_versions : HashMap ObjectName FlowVersion
  pub last_processed_position : ℤ
  pub next_generated_seq : ℤ
  pub children : List Edge

pub record InMemoryBatch (V : Type 0) : Type 0 where
  pub executions : HashMap ObjectName (Execution V)
  pub threads : HashMap ObjectName (Thread V)
  pub variables : HashMap ObjectName (Variables V)
  pub activities : HashMap ObjectName (Activity V)
  pub tasks : HashMap ObjectName (Task V)
  pub flows : HashMap FlowName Flow
  pub flow_versions : HashMap ObjectName FlowVersion
  pub next_generated_seq : Option ℤ
  pub children : HashMap Edge Bool

pub record InMemoryTxn (V : Type 0) : Type 0 where
  pub db : InMemoryDb V
  pub batch : InMemoryBatch V

-- `unwrap_or_default` and `unwrap_or`.
abbrev pub or_default {ℓ} : {A : Type ℓ} → Option (List A) → List A
or_default none = []
or_default (some xs) = xs

abbrev pub unwrap_or {ℓ} : {A : Type ℓ} → Option A → A → A
unwrap_or none a = a
unwrap_or (some b) a = b

module _ {V : Type 0} where
  abbrev pub empty_db : InMemoryDb V
  empty_db = record {
    executions = [];
    threads = [];
    variables = [];
    activities = [];
    tasks = [];
    flows = [];
    flow_versions = [];
    last_processed_position = pos 0;
    next_generated_seq = pos 0;
    children = [];
  }

  abbrev pub empty_batch : InMemoryBatch V
  empty_batch = record {
    executions = [];
    threads = [];
    variables = [];
    activities = [];
    tasks = [];
    flows = [];
    flow_versions = [];
    next_generated_seq = none;
    children = [];
  }

  unfoldable pub begin_txn : InMemoryDb V → InMemoryTxn V
  begin_txn db = record { db = db; batch = empty_batch }
