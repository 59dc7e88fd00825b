-- ===== src/Storage/Memory/Txn.antt =====
-- `impl StorageTxn for InMemoryTxn` of crates/storage/src/memory.rs: reads look in the batch and then
-- in the store, writes go to the batch.
use spica.Base.{ℕ, true, false, Option, none, some, Result, ok, err}
use spica.HashMap
use spica.HashMap.{HashMap, or_else}
use spica.Machinery.Name.{ObjectName-discrete, PlainName-discrete, as_plain}
use spica.Types.Flow.{Flow, FlowName, FlowVersion, version_name}
use spica.Storage.Fold.{Fault, panicked}
use spica.Storage.Contract.{StorageTxn}
use spica.Storage.View.{Edge-discrete}
use spica.Storage.Memory.{InMemoryTxn, or_default, unwrap_or}

module _ {V : Type 0} where
  abbrev pub txn_put_flow :
      Option FlowName → Flow → InMemoryTxn V → Result Fault Unit × InMemoryTxn V
  txn_put_flow none f s = (err panicked, s)
  txn_put_flow (some n) f s = (
    ok tt,
    record s {
      batch = record s.batch { flows = HashMap.insert PlainName-discrete n f s.batch.flows };
    },
  )

  abbrev pub flow_version_of : FlowName → ℕ → InMemoryTxn V → Option FlowVersion
  flow_version_of name version s =
      HashMap.overlay ObjectName-discrete s.batch.flow_versions s.db.flow_versions
        (version_name name version)

  abbrev pub memory_ops : StorageTxn V (InMemoryTxn V)
  memory_ops = record {
    get_execution = λ r s.
        (ok (HashMap.overlay ObjectName-discrete s.batch.executions s.db.executions r.name), s);
    get_thread =
        λ r s. (ok (HashMap.overlay ObjectName-discrete s.batch.threads s.db.threads r.name), s);
    get_variables = λ r s. (
      ok (or_default (HashMap.overlay ObjectName-discrete s.batch.variables s.db.variables r.name)),
      s,
    );
    get_activity = λ r s.
        (ok (HashMap.overlay ObjectName-discrete s.batch.activities s.db.activities r.name), s);
    get_task = λ r s. (ok (HashMap.overlay ObjectName-discrete s.batch.tasks s.db.tasks r.name), s);
    get_flow_by_name =
        λ n s. (ok (HashMap.overlay PlainName-discrete s.batch.flows s.db.flows n), s);
    get_flow_version = λ r s. (
      ok (HashMap.overlay ObjectName-discrete s.batch.flow_versions s.db.flow_versions r.name),
      s,
    );
    put_execution = λ e s. (
      ok tt,
      record s {
        batch = record s.batch {
          executions = HashMap.insert ObjectName-discrete e.meta.name e s.batch.executions;
        };
      },
    );
    put_thread = λ t s. (
      ok tt,
      record s {
        batch = record s.batch {
          threads = HashMap.insert ObjectName-discrete t.meta.name t s.batch.threads;
        };
      },
    );
    put_variables = λ r vs s. (
      ok tt,
      record s {
        batch = record s.batch {
          variables = HashMap.insert ObjectName-discrete r.name vs s.batch.variables;
        };
      },
    );
    put_activity = λ x s. (
      ok tt,
      record s {
        batch = record s.batch {
          activities = HashMap.insert ObjectName-discrete x.meta.name x s.batch.activities;
        };
      },
    );
    put_task = λ t s. (
      ok tt,
      record s {
        batch = record s.batch {
          tasks = HashMap.insert ObjectName-discrete t.meta.name t s.batch.tasks;
        };
      },
    );
    remove_child = λ p c s. (
      ok tt,
      record s {
        batch = record s.batch {
          children = HashMap.insert Edge-discrete (p, c) false s.batch.children;
        };
      },
    );
    add_child = λ p c s. (
      ok tt,
      record s {
        batch = record s.batch {
          children = HashMap.insert Edge-discrete (p, c) true s.batch.children;
        };
      },
    );
    put_flow = λ f s. txn_put_flow (as_plain f.meta.name) f s;
    put_flow_version = λ v s. (
      ok tt,
      record s {
        batch = record s.batch {
          flow_versions = HashMap.insert ObjectName-discrete v.meta.name v s.batch.flow_versions;
        };
      },
    );
    next_generated_seq =
        λ s. (ok (unwrap_or s.batch.next_generated_seq s.db.next_generated_seq), s);
    put_next_generated_seq =
        λ n s. (ok tt, record s { batch = record s.batch { next_generated_seq = some n } });
  }
