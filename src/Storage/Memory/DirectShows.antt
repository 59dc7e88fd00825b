-- ===== src/Storage/Memory/DirectShows.antt =====
-- The direct operations of crates/storage/src/memory.rs against what the store shows.
use spica.Base.{◌≡◌, refl, ap, fun_ext, true, false, Option, none, some, List, arith, ok, ℕ, ℤ}
use spica.HashMap
use spica.HashMap.{update, get-insert}
use spica.HashMap.HashSet
use spica.HashMap.HashSet.{contains-insert, contains-remove}
use spica.Machinery.Name.{ObjectName-discrete, PlainName-discrete, as_plain}
use spica.Types.Meta.{ObjectRef, RawObjectRef, execution, thread, activity, task, flow_version}
use spica.Types.Execution.{Execution}
use spica.Types.Thread.{Thread}
use spica.Types.Activity.{Activity}
use spica.Types.Task.{Task}
use spica.Types.Flow.{Flow, FlowName, FlowVersion, version_name}
use spica.Types.Event.{Variables}
use spica.Storage.Fold.{Fold}
use spica.Storage.Fold.Sim.{Sim}
use spica.Storage.View.{Edge, Edge-discrete, View, view_ops, view_put_flow}
use spica.Storage.Memory.{InMemoryDb, or_default, begin_txn}
use spica.Storage.Memory.Committed.{view_db}
use spica.Storage.Memory.Direct.{
  get_execution, get_thread, get_variables, get_activity, get_task, get_flow_by_name,
  get_flow_version, put_execution, put_thread, put_variables, put_activity, put_task, remove_child,
  add_child, db_put_flow, put_flow, put_flow_version, next_generated_seq,
  put_last_processed_position, last_processed_position, stored_version_of,
}

lookup-insert :
    {K A : Type 0} (dec : Discrete K) (k : K) (v : A) (m : HashMap.HashMap K A)
    → (λ j. HashMap.get dec j (HashMap.insert dec k v m))
      ≡ update dec (λ j. HashMap.get dec j m) k (some v)
lookup-insert dec k v m = fun_ext λ j. get-insert dec k j v m

scope-insert :
    {K A : Type 0} (dec : Discrete K) (k : K) (v : List A) (m : HashMap.HashMap K (List A))
    → (λ j. or_default (HashMap.get dec j (HashMap.insert dec k v m)))
      ≡ update dec (λ j. or_default (HashMap.get dec j m)) k v
scope-insert dec k v m = fun_ext λ j. ground (arith, get-insert dec k j v m)

edge-insert :
    (e : Edge) (es : List Edge)
    → (λ k. HashSet.contains Edge-discrete k (HashSet.insert Edge-discrete e es))
      ≡ update Edge-discrete (λ k. HashSet.contains Edge-discrete k es) e true
edge-insert e es = fun_ext λ k. ground (arith, contains-insert Edge-discrete e k es)

edge-remove :
    (e : Edge) (es : List Edge)
    → (λ k. HashSet.contains Edge-discrete k (HashSet.remove Edge-discrete e es))
      ≡ update Edge-discrete (λ k. HashSet.contains Edge-discrete k es) e false
edge-remove e es = fun_ext λ k. ground (arith, contains-remove Edge-discrete e k es)

module _ {V : Type 0} where
  -- The store, taken for what it shows, with no condition on it.
  abbrev pub Shows : {A : Type 0} → Fold (InMemoryDb V) A → Fold (View V) A → Type 0
  Shows m n = Sim view_db (λ db. Unit) m n

  -- The version of a flow with this number, as the abstract store shows it: the row under its
  -- derived name.
  abbrev pub stored_version : FlowName → ℕ → Fold (View V) (Option FlowVersion)
  stored_version name number s = (ok (s.flow_versions (version_name name number)), s)

  put_flow-Shows : (o : Option FlowName) (f : Flow) → Shows (db_put_flow o f) (view_put_flow o f)
  unfolding begin_txn HashMap.get
  put_flow-Shows none f = record { at = λ s i. (refl, refl, tt) }
  put_flow-Shows (some n) f = record {
    at = λ s i. (
      refl,
      ap (λ m. record (view_db s) { flows = m }) (lookup-insert PlainName-discrete n f s.flows),
      tt,
    );
  }

  -- Each point read of a row or a scope and each write that goes straight to the in-memory store has
  -- the same result as the operation of the abstract store on what the store shows, and leads to its
  -- new state, a flow under a generated name included; so does reading the counter of generated
  -- names. The version of a flow by its number is the row shown under the derived name. Writing the
  -- watermark changes nothing that is shown, it is what the next read of the watermark gives, and
  -- reading it changes nothing.
  pub direct-Shows :
      (re : ObjectRef execution) (rt : ObjectRef thread) (ra : ObjectRef activity)
      (rk : ObjectRef task) (rv : ObjectRef flow_version) (n : FlowName) (e : Execution V)
      (t : Thread V) (vs : Variables V) (a : Activity V) (k : Task V) (p c : RawObjectRef)
      (f : Flow) (v : FlowVersion) (number : ℕ)
      → Shows (get_execution re) (view_ops.get_execution re)
        × Shows (get_thread rt) (view_ops.get_thread rt)
        × Shows (get_variables rt) (view_ops.get_variables rt)
        × Shows (get_activity ra) (view_ops.get_activity ra)
        × Shows (get_task rk) (view_ops.get_task rk)
        × Shows (get_flow_by_name n) (view_ops.get_flow_by_name n)
        × Shows (get_flow_version rv) (view_ops.get_flow_version rv)
        × Shows (put_execution e) (view_ops.put_execution e)
        × Shows (put_thread t) (view_ops.put_thread t)
        × Shows (put_variables rt vs) (view_ops.put_variables rt vs)
        × Shows (put_activity a) (view_ops.put_activity a)
        × Shows (put_task k) (view_ops.put_task k)
        × Shows (remove_child p c) (view_ops.remove_child p c)
        × Shows (add_child p c) (view_ops.add_child p c)
        × Shows (put_flow f) (view_ops.put_flow f)
        × Shows (put_flow_version v) (view_ops.put_flow_version v)
        × Shows next_generated_seq view_ops.next_generated_seq
        × Shows (stored_version_of n number) (stored_version n number)
        × ((m : ℤ) (db : InMemoryDb V)
            → (view_db (put_last_processed_position m db).1 ≡ view_db db)
              × ((last_processed_position (put_last_processed_position m db).1).0 ≡ ok m)
              × ((last_processed_position db).1 ≡ db))
  unfolding begin_txn HashMap.get HashSet.contains get_execution get_thread get_variables
      get_activity get_task get_flow_by_name get_flow_version put_execution put_thread put_variables
      put_activity put_task remove_child add_child put_flow put_flow_version next_generated_seq
      put_last_processed_position last_processed_position stored_version_of
  direct-Shows re rt ra rk rv n e t vs a k p c f v number = (
    record { at = λ s i. (refl, refl, tt) },
    record { at = λ s i. (refl, refl, tt) },
    record { at = λ s i. (refl, refl, tt) },
    record { at = λ s i. (refl, refl, tt) },
    record { at = λ s i. (refl, refl, tt) },
    record { at = λ s i. (refl, refl, tt) },
    record { at = λ s i. (refl, refl, tt) },
    record {
      at = λ s i. (
        refl,
        ap (λ m. record (view_db s) { executions = m })
            (lookup-insert ObjectName-discrete e.meta.name e s.executions),
        tt,
      );
    },
    record {
      at = λ s i. (
        refl,
        ap (λ m. record (view_db s) { threads = m })
            (lookup-insert ObjectName-discrete t.meta.name t s.threads),
        tt,
      );
    },
    record {
      at = λ s i. (
        refl,
        ap (λ m. record (view_db s) { variables = m })
            (scope-insert ObjectName-discrete rt.name vs s.variables),
        tt,
      );
    },
    record {
      at = λ s i. (
        refl,
        ap (λ m. record (view_db s) { activities = m })
            (lookup-insert ObjectName-discrete a.meta.name a s.activities),
        tt,
      );
    },
    record {
      at = λ s i. (
        refl,
        ap (λ m. record (view_db s) { tasks = m })
            (lookup-insert ObjectName-discrete k.meta.name k s.tasks),
        tt,
      );
    },
    record {
      at = λ s i.
          (refl, ap (λ m. record (view_db s) { edges = m }) (edge-remove (p, c) s.children), tt);
    },
    record {
      at = λ s i.
          (refl, ap (λ m. record (view_db s) { edges = m }) (edge-insert (p, c) s.children), tt);
    },
    put_flow-Shows (as_plain f.meta.name) f,
    record {
      at = λ s i. (
        refl,
        ap (λ m. record (view_db s) { flow_versions = m })
            (lookup-insert ObjectName-discrete v.meta.name v s.flow_versions),
        tt,
      );
    },
    record { at = λ s i. (refl, refl, tt) },
    record { at = λ s i. (refl, refl, tt) },
    (λ m db. (refl, refl, refl)),
  )
