-- ===== src/Storage/Contract.antt =====
-- The trait `StorageTxn` of crates/engine-types/src/storage/mod.rs, as an interface over a store
-- `S`: the operations that folding an event uses. The two reads that return collections and `commit`
-- are of the implementation (Storage/Memory), since no applier calls them.
use spica.Base.{Option, ℤ}
use spica.Types.Meta.{ObjectRef, RawObjectRef, execution, thread, activity, task, flow_version}
use spica.Types.Execution.{Execution}
use spica.Types.Thread.{Thread}
use spica.Types.Activity.{Activity}
use spica.Types.Task.{Task}
use spica.Types.Flow.{Flow, FlowName, FlowVersion}
use spica.Types.Event.{Variables}
use spica.Storage.Fold.{Fold}

pub record StorageTxn (V S : Type 0) : Type 0 where
  pub get_execution : ObjectRef execution → Fold S (Option (Execution V))
  pub get_thread : ObjectRef thread → Fold S (Option (Thread V))
  pub get_variables : ObjectRef thread → Fold S (Variables V)
  pub get_activity : ObjectRef activity → Fold S (Option (Activity V))
  pub get_task : ObjectRef task → Fold S (Option (Task V))
  pub get_flow_by_name : FlowName → Fold S (Option Flow)
  pub get_flow_version : ObjectRef flow_version → Fold S (Option FlowVersion)
  pub put_execution : Execution V → Fold S Unit
  pub put_thread : Thread V → Fold S Unit
  pub put_variables : ObjectRef thread → Variables V → Fold S Unit
  pub put_activity : Activity V → Fold S Unit
  pub put_task : Task V → Fold S Unit
  pub remove_child : (parent child : RawObjectRef) → Fold S Unit
  pub add_child : (parent child : RawObjectRef) → Fold S Unit
  pub put_flow : Flow → Fold S Unit
  pub put_flow_version : FlowVersion → Fold S Unit
  pub next_generated_seq : Fold S ℤ
  pub put_next_generated_seq : ℤ → Fold S Unit
