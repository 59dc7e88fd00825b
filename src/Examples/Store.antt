-- ===== src/Examples/Store.antt =====
-- The in-memory transaction and the appliers, on sample rows.
use spica.Base.{ℕ, ◌≡◌, refl, true, false, ◌&&◌, none, some, [], ◌∷◌, codes, ok, ℤ, pos}
use spica.HashMap.Distinct.{Serves}
use spica.HashMap.HashSet.{contains}
use spica.Machinery.Name.{ObjectName-discrete}
use spica.Types.Meta.{
  object_ref, raw_object_ref, as_raw_object_ref, thread_owner_ref, RawObjectRef-discrete,
}
use spica.Types.Task.{Task, is_claimable_at, is_pending}
use spica.Storage.Simulates.{Simulates}
use spica.Storage.View.{View, view_ops}
use spica.Storage.Memory.{InMemoryTxn, empty_db, begin_txn}
use spica.Storage.Memory.Txn.{memory_ops}
use spica.Storage.Memory.Landing.{commit}
use spica.Storage.Memory.Reads.{
  get_children, activatable_tasks, stored_activatable_tasks, is_activatable,
}
use spica.Storage.Memory.Refines.{view_txn, IsAhead, memory-Simulates}
use spica.Storage.Memory.Committed.{view_db, view_db-commit}
use spica.Storage.Memory.Children.{contains-get_children, activatable_tasks-commit}
use spica.Applier.Claims.{fold_claim-twice, settled-edges}
use spica.Applier.Scopes.{thread_created-inherits, task_failed-edges}
use spica.Applier.State
use spica.Applier.Task
use spica.Applier.Thread
use spica.Types.Thread.{Thread}
use spica.Types.Meta
use spica.Types.Flow.{Flow, FlowVersion, new_flow}
use spica.Storage.Memory.{InMemoryDb}
use spica.Storage.Memory.Direct
use spica.Storage.Memory.DirectShows.{Shows, stored_version, direct-Shows}
use spica.Examples.Data.{order_base, order_run, meta_of, order_thread, charge, charge_task}

memory-Simulates_example : Simulates (view_txn {V = ℕ}) IsAhead memory_ops view_ops
memory-Simulates_example = memory-Simulates {V = ℕ}

-- A transaction that has one task pending in its batch, under its activity.
abbrev pub one_task : InMemoryTxn ℕ
one_task = record {
  db = empty_db;
  batch = record {
    executions = [];
    threads = [];
    variables = [];
    activities = [];
    tasks = (charge_task.meta.name, charge_task) ∷ [];
    flows = [];
    flow_versions = [];
    next_generated_seq = some (pos 5);
    children = ((raw_object_ref charge.meta, raw_object_ref charge_task.meta), true) ∷ [];
  };
}

view_db-commit_example : view_db (commit one_task (some (pos 6))) ≡ view_txn one_task
view_db-commit_example = view_db-commit one_task (some (pos 6)) refl

contains-get_children_example :
    contains RawObjectRef-discrete
      (raw_object_ref charge_task.meta)
      (get_children (raw_object_ref charge.meta) one_task)
    ≡ (view_txn one_task).edges (raw_object_ref charge.meta, raw_object_ref charge_task.meta)
contains-get_children_example =
    contains-get_children one_task (raw_object_ref charge.meta) (raw_object_ref charge_task.meta)

activatable_tasks-commit_example :
    Serves ObjectName-discrete
      (is_activatable (codes "payments") 20)
      (view_txn one_task).tasks
      1
      (activatable_tasks (codes "payments") 20 1 one_task)
    × Serves ObjectName-discrete
        (is_activatable (codes "payments") 20)
        (view_txn one_task).tasks
        1
        (stored_activatable_tasks (codes "payments") 20 1 (commit one_task none))
activatable_tasks-commit_example = activatable_tasks-commit one_task none (codes "payments") 20 1 tt

-- A store with one row of each kind that settles.
abbrev held_view : View ℕ
held_view = record (view_txn (begin_txn empty_db)) {
  threads = λ n. some order_thread;
  activities = λ n. some charge;
  tasks = λ n. some charge_task;
}

abbrev first_claim : Task ℕ
first_claim = record charge_task { worker_id = some (codes "ann"); lease_expires_at = some 100 }

abbrev second_claim : Task ℕ
second_claim = record charge_task { worker_id = some (codes "bob"); lease_expires_at = some 120 }

claimable_20 : is_claimable_at charge_task 20 ≡ true
unfolding is_claimable_at
claimable_20 = refl

fold_claim-twice_example :
    let s1 = (Task.fold_claim view_ops 20 first_claim held_view).1 in
    ((t1 : Task ℕ) × (s1.tasks first_claim.meta.name ≡ some t1)
      × (t1.worker_id ≡ first_claim.worker_id)
      × (t1.lease_expires_at ≡ first_claim.lease_expires_at))
    × (Task.fold_claim view_ops 50 second_claim s1 ≡ (ok tt, s1))
fold_claim-twice_example =
    fold_claim-twice 20 50 first_claim second_claim charge_task held_view refl refl refl
      claimable_20 refl

settled-edges_example :
    ((State.state_completed view_ops charge held_view).1.edges
        (as_raw_object_ref charge.meta.owner, raw_object_ref charge.meta)
      ≡ false)
    × ((State.state_terminated view_ops charge held_view).1.edges
          (as_raw_object_ref charge.meta.owner, raw_object_ref charge.meta)
        ≡ false)
    × ((Task.task_cancelled view_ops charge_task held_view).1.edges
          (as_raw_object_ref charge_task.meta.owner, raw_object_ref charge_task.meta)
        ≡ false)
    × ((Thread.thread_completed view_ops order_thread held_view).1.edges
          (thread_owner_ref order_thread.meta.owner, raw_object_ref order_thread.meta)
        ≡ false)
    × ((Thread.thread_terminated view_ops order_thread held_view).1.edges
          (thread_owner_ref order_thread.meta.owner, raw_object_ref order_thread.meta)
        ≡ false)
settled-edges_example =
    settled-edges charge charge charge_task charge_task order_thread order_thread held_view refl
      refl refl

abbrev order_flow : Flow
order_flow = new_flow 9 order_base 10

abbrev order_version : FlowVersion
order_version = record {
  meta = meta_of Meta.flow_version (object_ref order_flow.meta) 1;
  version = 1;
  definition = codes "{}";
  checksum = 0;
}

direct-Shows_example :
    Shows {V = ℕ}
      (Direct.get_execution (object_ref order_run.meta))
      (view_ops.get_execution (object_ref order_run.meta))
    × Shows {V = ℕ}
        (Direct.get_thread (object_ref order_thread.meta))
        (view_ops.get_thread (object_ref order_thread.meta))
    × Shows {V = ℕ}
        (Direct.get_variables (object_ref order_thread.meta))
        (view_ops.get_variables (object_ref order_thread.meta))
    × Shows {V = ℕ}
        (Direct.get_activity (object_ref charge.meta))
        (view_ops.get_activity (object_ref charge.meta))
    × Shows {V = ℕ}
        (Direct.get_task (object_ref charge_task.meta))
        (view_ops.get_task (object_ref charge_task.meta))
    × Shows {V = ℕ} (Direct.get_flow_by_name order_base) (view_ops.get_flow_by_name order_base)
    × Shows {V = ℕ}
        (Direct.get_flow_version (object_ref order_version.meta))
        (view_ops.get_flow_version (object_ref order_version.meta))
    × Shows {V = ℕ} (Direct.put_execution order_run) (view_ops.put_execution order_run)
    × Shows {V = ℕ} (Direct.put_thread order_thread) (view_ops.put_thread order_thread)
    × Shows {V = ℕ}
        (Direct.put_variables (object_ref order_thread.meta) [])
        (view_ops.put_variables (object_ref order_thread.meta) [])
    × Shows {V = ℕ} (Direct.put_activity charge) (view_ops.put_activity charge)
    × Shows {V = ℕ} (Direct.put_task charge_task) (view_ops.put_task charge_task)
    × Shows {V = ℕ}
        (Direct.remove_child (raw_object_ref charge.meta) (raw_object_ref charge_task.meta))
        (view_ops.remove_child (raw_object_ref charge.meta) (raw_object_ref charge_task.meta))
    × Shows {V = ℕ}
        (Direct.add_child (raw_object_ref charge.meta) (raw_object_ref charge_task.meta))
        (view_ops.add_child (raw_object_ref charge.meta) (raw_object_ref charge_task.meta))
    × Shows {V = ℕ} (Direct.put_flow order_flow) (view_ops.put_flow order_flow)
    × Shows {V = ℕ}
        (Direct.put_flow_version order_version)
        (view_ops.put_flow_version order_version)
    × Shows {V = ℕ} Direct.next_generated_seq view_ops.next_generated_seq
    × Shows {V = ℕ} (Direct.stored_version_of order_base 3) (stored_version order_base 3)
    × ((m : ℤ) (db : InMemoryDb ℕ)
        → (view_db (Direct.put_last_processed_position m db).1 ≡ view_db db)
          × ((Direct.last_processed_position (Direct.put_last_processed_position m db).1).0 ≡ ok m)
          × ((Direct.last_processed_position db).1 ≡ db))
direct-Shows_example =
    direct-Shows {V = ℕ} (object_ref order_run.meta) (object_ref order_thread.meta)
      (object_ref charge.meta) (object_ref charge_task.meta) (object_ref order_version.meta)
      order_base order_run order_thread [] charge charge_task (raw_object_ref charge.meta)
      (raw_object_ref charge_task.meta) order_flow order_version 3

-- A thread that the activity fans out.
abbrev branch_thread : Thread ℕ
branch_thread = record order_thread {
  meta = meta_of Meta.thread (Meta.activity_owner (object_ref charge.meta)) 5;
}

thread_created-inherits_example :
    let s' = (Thread.thread_created view_ops 30 branch_thread held_view).1 in
    (s'.threads branch_thread.meta.name ≡ some branch_thread)
    × (s'.variables branch_thread.meta.name ≡ held_view.variables charge.meta.owner.name)
    × (s'.edges (as_raw_object_ref (object_ref charge.meta), raw_object_ref branch_thread.meta)
        ≡ true)
thread_created-inherits_example =
    thread_created-inherits 30 branch_thread (object_ref charge.meta) charge held_view refl refl

task_failed-edges_example :
    (Task.task_failed view_ops 30 charge_task held_view).1.edges
      (as_raw_object_ref charge_task.meta.owner, raw_object_ref charge_task.meta)
    ≡ (is_pending charge_task.status
        && held_view.edges
            (as_raw_object_ref charge_task.meta.owner, raw_object_ref charge_task.meta))
task_failed-edges_example = task_failed-edges 30 charge_task charge_task held_view refl
