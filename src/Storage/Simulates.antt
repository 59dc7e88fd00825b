-- ===== src/Storage/Simulates.antt =====
-- One implementation of `StorageTxn` simulates another: each operation has the same result and leads
-- to the viewed state.
use spica.Base.{ℕ, ◌≡◌, ℤ}
use spica.Types.Meta.{ObjectRef, RawObjectRef, execution, thread, activity, task, flow_version}
use spica.Types.Execution.{Execution}
use spica.Types.Thread.{Thread}
use spica.Types.Activity.{Activity}
use spica.Types.Task.{Task}
use spica.Types.Flow.{Flow, FlowName, FlowVersion}
use spica.Types.Event.{Variables}
use spica.Storage.Fold.Sim.{Sim}
use spica.Storage.Contract.{StorageTxn}
use spica.Applier.GeneratedSeq.{raise_seq}

module _ {V S T : Type 0} (view : S → T) (Inv : S → Type 0) where
  -- What the folds of the appliers use.
  pub record FoldSimulates (a : StorageTxn V S) (b : StorageTxn V T) : Type 0 where
    pub get_execution :
        (r : ObjectRef execution) → Sim view Inv (a.get_execution r) (b.get_execution r)
    pub get_thread : (r : ObjectRef thread) → Sim view Inv (a.get_thread r) (b.get_thread r)
    pub get_variables :
        (r : ObjectRef thread) → Sim view Inv (a.get_variables r) (b.get_variables r)
    pub get_activity : (r : ObjectRef activity) → Sim view Inv (a.get_activity r) (b.get_activity r)
    pub get_task : (r : ObjectRef task) → Sim view Inv (a.get_task r) (b.get_task r)
    pub get_flow_by_name :
        (n : FlowName) → Sim view Inv (a.get_flow_by_name n) (b.get_flow_by_name n)
    pub get_flow_version :
        (r : ObjectRef flow_version) → Sim view Inv (a.get_flow_version r) (b.get_flow_version r)
    pub put_execution : (e : Execution V) → Sim view Inv (a.put_execution e) (b.put_execution e)
    pub put_thread : (t : Thread V) → Sim view Inv (a.put_thread t) (b.put_thread t)
    pub put_variables :
        (r : ObjectRef thread) (vs : Variables V)
        → Sim view Inv (a.put_variables r vs) (b.put_variables r vs)
    pub put_activity : (x : Activity V) → Sim view Inv (a.put_activity x) (b.put_activity x)
    pub put_task : (t : Task V) → Sim view Inv (a.put_task t) (b.put_task t)
    pub remove_child : (p c : RawObjectRef) → Sim view Inv (a.remove_child p c) (b.remove_child p c)
    pub add_child : (p c : RawObjectRef) → Sim view Inv (a.add_child p c) (b.add_child p c)
    pub put_flow : (f : Flow) → Sim view Inv (a.put_flow f) (b.put_flow f)
    pub put_flow_version :
        (v : FlowVersion) → Sim view Inv (a.put_flow_version v) (b.put_flow_version v)
    pub raise_generated_seq : (n : ℕ) → Sim view Inv (raise_seq a n) (raise_seq b n)

  pub record Simulates (a : StorageTxn V S) (b : StorageTxn V T) : Type 0 where
    pub folds : FoldSimulates a b
    pub next_generated_seq : Sim view Inv a.next_generated_seq b.next_generated_seq
    -- Setting the counter may lower it, so it need not keep the invariant.
    pub put_next_generated_seq :
        (n : ℤ) (s : S)
        → ((a.put_next_generated_seq n s).0 ≡ (b.put_next_generated_seq n (view s)).0)
          × (view (a.put_next_generated_seq n s).1 ≡ (b.put_next_generated_seq n (view s)).1)
