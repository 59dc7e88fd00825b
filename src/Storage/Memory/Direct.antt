-- ===== src/Storage/Memory/Direct.antt =====
-- `impl Storage for InMemoryStorage` of crates/storage/src/memory.rs: the point reads and the writes
-- that go straight to the store, with no transaction. `list_kind` is not modelled, since it returns
-- serialized rows.
use spica.Base.{ℕ, Option, none, some, ok, err, ℤ}
use spica.HashMap
use spica.HashMap.{update, get-insert}
use spica.HashMap.HashSet
use spica.HashMap.HashSet.{contains-insert, contains-remove}
use spica.Machinery.Name.{ObjectName-discrete, PlainName-discrete, as_plain}
use spica.Types.Meta.{ObjectRef, RawObjectRef, execution, thread, activity, task, flow_version}
use spica.Types.Execution.{Execution}
use spica.Types.Thread.{Thread}
use spica.Types.Activity.{Activity}
use spica.Types.Task.{Task}
use spica.Types.Flow.{Flow, FlowName, FlowVersion, version_name}
use spica.Types.Event.{Variables}
use spica.Storage.Fold.{Fold, panicked}
use spica.Storage.View.{Edge-discrete}
use spica.Storage.Memory.{InMemoryDb, or_default}

module _ {V : Type 0} where
  unfoldable pub get_execution : ObjectRef execution → Fold (InMemoryDb V) (Option (Execution V))
  get_execution r db = (ok (HashMap.get ObjectName-discrete r.name db.executions), db)

  unfoldable pub get_thread : ObjectRef thread → Fold (InMemoryDb V) (Option (Thread V))
  get_thread r db = (ok (HashMap.get ObjectName-discrete r.name db.threads), db)

  unfoldable pub get_variables : ObjectRef thread → Fold (InMemoryDb V) (Variables V)
  get_variables r db = (ok (or_default (HashMap.get ObjectName-discrete r.name db.variables)), db)

  unfoldable pub get_activity : ObjectRef activity → Fold (InMemoryDb V) (Option (Activity V))
  get_activity r db = (ok (HashMap.get ObjectName-discrete r.name db.activities), db)

  unfoldable pub get_task : ObjectRef task → Fold (InMemoryDb V) (Option (Task V))
  get_task r db = (ok (HashMap.get ObjectName-discrete r.name db.tasks), db)

  unfoldable pub get_flow_by_name : FlowName → Fold (InMemoryDb V) (Option Flow)
  get_flow_by_name n db = (ok (HashMap.get PlainName-discrete n db.flows), db)

  unfoldable pub get_flow_version :
      ObjectRef flow_version → Fold (InMemoryDb V) (Option FlowVersion)
  get_flow_version r db = (ok (HashMap.get ObjectName-discrete r.name db.flow_versions), db)

  unfoldable pub stored_version_of : FlowName → ℕ → Fold (InMemoryDb V) (Option FlowVersion)
  stored_version_of name version db =
      (ok (HashMap.get ObjectName-discrete (version_name name version) db.flow_versions), db)

  unfoldable pub put_execution : Execution V → Fold (InMemoryDb V) Unit
  put_execution e db = (
    ok tt,
    record db { executions = HashMap.insert ObjectName-discrete e.meta.name e db.executions },
  )

  unfoldable pub put_thread : Thread V → Fold (InMemoryDb V) Unit
  put_thread t db =
      (ok tt, record db { threads = HashMap.insert ObjectName-discrete t.meta.name t db.threads })

  unfoldable pub put_variables : ObjectRef thread → Variables V → Fold (InMemoryDb V) Unit
  put_variables r vs db =
      (ok tt, record db { variables = HashMap.insert ObjectName-discrete r.name vs db.variables })

  unfoldable pub put_activity : Activity V → Fold (InMemoryDb V) Unit
  put_activity a db = (
    ok tt,
    record db { activities = HashMap.insert ObjectName-discrete a.meta.name a db.activities },
  )

  unfoldable pub put_task : Task V → Fold (InMemoryDb V) Unit
  put_task t db =
      (ok tt, record db { tasks = HashMap.insert ObjectName-discrete t.meta.name t db.tasks })

  unfoldable pub remove_child : RawObjectRef → RawObjectRef → Fold (InMemoryDb V) Unit
  remove_child p c db =
      (ok tt, record db { children = HashSet.remove Edge-discrete (p, c) db.children })

  unfoldable pub add_child : RawObjectRef → RawObjectRef → Fold (InMemoryDb V) Unit
  add_child p c db =
      (ok tt, record db { children = HashSet.insert Edge-discrete (p, c) db.children })

  abbrev pub db_put_flow : Option FlowName → Flow → Fold (InMemoryDb V) Unit
  db_put_flow none f db = (err panicked, db)
  db_put_flow (some n) f db =
      (ok tt, record db { flows = HashMap.insert PlainName-discrete n f db.flows })

  unfoldable pub put_flow : Flow → Fold (InMemoryDb V) Unit
  put_flow f db = db_put_flow (as_plain f.meta.name) f db

  unfoldable pub put_flow_version : FlowVersion → Fold (InMemoryDb V) Unit
  put_flow_version v db = (
    ok tt,
    record db { flow_versions = HashMap.insert ObjectName-discrete v.meta.name v db.flow_versions },
  )

  unfoldable pub last_processed_position : Fold (InMemoryDb V) ℤ
  last_processed_position db = (ok db.last_processed_position, db)

  unfoldable pub put_last_processed_position : ℤ → Fold (InMemoryDb V) Unit
  put_last_processed_position n db = (ok tt, record db { last_processed_position = n })

  unfoldable pub next_generated_seq : Fold (InMemoryDb V) ℤ
  next_generated_seq db = (ok db.next_generated_seq, db)
