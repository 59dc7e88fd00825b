-- ===== src/Storage/View.antt =====
-- What crates/engine-types/src/storage/mod.rs promises of a `StorageTxn`, with no word on how: every
-- row kind is a function of the addressing name, the scopes are total, an edge is there or not, and a
-- read sees every earlier write.
use spica.Base.{Bool, true, false, Option, none, some, Result, ok, err, ℤ}
use spica.HashMap.{update}
use spica.Machinery.Name.{ObjectName, ObjectName-discrete, PlainName-discrete, as_plain}
use spica.Types.Meta.{RawObjectRef, RawObjectRef-discrete}
use spica.Types.Execution.{Execution}
use spica.Types.Thread.{Thread}
use spica.Types.Activity.{Activity}
use spica.Types.Task.{Task}
use spica.Types.Flow.{Flow, FlowName, FlowVersion}
use spica.Types.Event.{Variables}
use spica.Storage.Fold.{Fault, panicked}
use spica.Storage.Contract.{StorageTxn}

-- A `(parent, child)` pair.
abbrev pub Edge : Type 0
Edge = RawObjectRef × RawObjectRef

unfoldable pub Edge-discrete : Discrete Edge
Edge-discrete = hlevel (RawObjectRef-discrete, RawObjectRef-discrete)

pub record View (V : Type 0) : Type 0 where
  pub executions : ObjectName → Option (Execution V)
  pub threads : ObjectName → Option (Thread V)
  pub variables : ObjectName → Variables V
  pub activities : ObjectName → Option (Activity V)
  pub tasks : ObjectName → Option (Task V)
  pub flows : FlowName → Option Flow
  pub flow_versions : ObjectName → Option FlowVersion
  pub seq : ℤ
  pub edges : Edge → Bool

module _ {V : Type 0} where
  -- A flow's row goes under its plain name; another name panics.
  abbrev pub view_put_flow : Option FlowName → Flow → View V → Result Fault Unit × View V
  view_put_flow none f s = (err panicked, s)
  view_put_flow (some n) f s =
      (ok tt, record s { flows = update PlainName-discrete s.flows n (some f) })

  abbrev pub view_ops : StorageTxn V (View V)
  view_ops = record {
    get_execution = λ r s. (ok (s.executions r.name), s);
    get_thread = λ r s. (ok (s.threads r.name), s);
    get_variables = λ r s. (ok (s.variables r.name), s);
    get_activity = λ r s. (ok (s.activities r.name), s);
    get_task = λ r s. (ok (s.tasks r.name), s);
    get_flow_by_name = λ n s. (ok (s.flows n), s);
    get_flow_version = λ r s. (ok (s.flow_versions r.name), s);
    put_execution = λ e s. (
      ok tt,
      record s { executions = update ObjectName-discrete s.executions e.meta.name (some e) },
    );
    put_thread = λ t s.
        (ok tt, record s { threads = update ObjectName-discrete s.threads t.meta.name (some t) });
    put_variables = λ r vs s.
        (ok tt, record s { variables = update ObjectName-discrete s.variables r.name vs });
    put_activity = λ x s. (
      ok tt,
      record s { activities = update ObjectName-discrete s.activities x.meta.name (some x) },
    );
    put_task = λ t s.
        (ok tt, record s { tasks = update ObjectName-discrete s.tasks t.meta.name (some t) });
    remove_child = λ p c s. (ok tt, record s { edges = update Edge-discrete s.edges (p, c) false });
    add_child = λ p c s. (ok tt, record s { edges = update Edge-discrete s.edges (p, c) true });
    put_flow = λ f s. view_put_flow (as_plain f.meta.name) f s;
    put_flow_version = λ v s. (
      ok tt,
      record s { flow_versions = update ObjectName-discrete s.flow_versions v.meta.name (some v) },
    );
    next_generated_seq = λ s. (ok s.seq, s);
    put_next_generated_seq = λ n s. (ok tt, record s { seq = n });
  }
