-- ===== src/Applier/Keyed.antt =====
-- What every applier of crates/engine/src/applier keeps, whatever the event: each row lies under its
-- own name, and the counter of generated names never goes back.
use spica.Base.{
  ◌≡◌, refl, sym, ap, ◌∙◌, Option, none, some, arith, ℤ, max_ℤ, max_ℤ-self, max_ℤ-assoc, as_i64,
  succ_i64,
}
use spica.HashMap.{update}
use spica.Machinery.Timestamp.{Timestamp}
use spica.Machinery.Name.{ObjectName-discrete, as_plain}
use spica.Types.Execution.{Execution}
use spica.Types.Thread.{Thread}
use spica.Types.Activity.{Activity}
use spica.Types.Task.{Task}
use spica.Types.Flow.{Flow, FlowName, FlowVersion}
use spica.Types.Event.{Event}
use spica.Storage.Fold.{Fold, ◌>>=◌}
use spica.Storage.Fold.Sim.{Sim}
use spica.Storage.Simulates.{FoldSimulates}
use spica.Storage.View.{View, view_ops, view_put_flow}
use spica.Applier.GeneratedSeq.{raise_seq}
use spica.Applier.{dispatch_event}
use spica.Applier.Simulation.{dispatch_event-Sim}

-- Every row that a map holds is held under its own key.
abbrev pub KeyedBy : {K A : Type 0} → (A → K) → (K → Option A) → Type 0
KeyedBy {K = K} {A = A} key rows = (n : K) (x : A) → rows n ≡ some x → key x ≡ n

update-KeyedBy :
    {K A : Type 0} (dec : Discrete K) (key : A → K) (rows : K → Option A) (a : A)
    → KeyedBy key rows
    → KeyedBy key (update dec rows (key a) (some a))
update-KeyedBy dec key rows a h = λ n x p. ground (arith, h n x)

abbrev pub IsKeyed : {V : Type 0} → View V → Type 0
IsKeyed {V = V} s =
    KeyedBy (λ (e : Execution V). e.meta.name) s.executions
    × KeyedBy (λ (t : Thread V). t.meta.name) s.threads
    × KeyedBy (λ (a : Activity V). a.meta.name) s.activities
    × KeyedBy (λ (t : Task V). t.meta.name) s.tasks
    × KeyedBy (λ (v : FlowVersion). v.meta.name) s.flow_versions

-- Keyed rows, and a counter that is at least `n`.
abbrev pub IsKeyedFrom : {V : Type 0} → ℤ → View V → Type 0
IsKeyedFrom n s = IsKeyed s × (max_ℤ n s.seq ≡ s.seq)

module _ {V : Type 0} (n0 : ℤ) where
  kept :
      {A : Type 0} (m : Fold (View V) A)
      → ((s : View V) → IsKeyedFrom n0 s → IsKeyedFrom n0 (m s).1)
      → Sim (λ (s : View V). s) (IsKeyedFrom n0) m m
  kept m h = record { at = λ s i. (refl, refl, h s i) }

  kept_put_flow :
      (o : Option FlowName) (f : Flow) (s : View V)
      → IsKeyedFrom n0 s
      → IsKeyedFrom n0 (view_put_flow o f s).1
  kept_put_flow none f s i = i
  kept_put_flow (some n) f s i = i

  pub keyed_Simulates : FoldSimulates (λ (s : View V). s) (IsKeyedFrom n0) view_ops view_ops
  unfolding ◌>>=◌
  keyed_Simulates = record {
    get_execution = λ r. kept (view_ops.get_execution r) λ s i. i;
    get_thread = λ r. kept (view_ops.get_thread r) λ s i. i;
    get_variables = λ r. kept (view_ops.get_variables r) λ s i. i;
    get_activity = λ r. kept (view_ops.get_activity r) λ s i. i;
    get_task = λ r. kept (view_ops.get_task r) λ s i. i;
    get_flow_by_name = λ n. kept (view_ops.get_flow_by_name n) λ s i. i;
    get_flow_version = λ r. kept (view_ops.get_flow_version r) λ s i. i;
    put_execution = λ e. kept (view_ops.put_execution e) λ s ((he, ht, ha, hk, hv), h). (
      (
        update-KeyedBy ObjectName-discrete (λ (e : Execution V). e.meta.name) s.executions e he,
        ht,
        ha,
        hk,
        hv,
      ),
      h,
    );
    put_thread = λ t. kept (view_ops.put_thread t) λ s ((he, ht, ha, hk, hv), h). (
      (
        he,
        update-KeyedBy ObjectName-discrete (λ (t : Thread V). t.meta.name) s.threads t ht,
        ha,
        hk,
        hv,
      ),
      h,
    );
    put_variables = λ r vs. kept (view_ops.put_variables r vs) λ s i. i;
    put_activity = λ a. kept (view_ops.put_activity a) λ s ((he, ht, ha, hk, hv), h). (
      (
        he,
        ht,
        update-KeyedBy ObjectName-discrete (λ (a : Activity V). a.meta.name) s.activities a ha,
        hk,
        hv,
      ),
      h,
    );
    put_task = λ t. kept (view_ops.put_task t) λ s ((he, ht, ha, hk, hv), h). (
      (
        he,
        ht,
        ha,
        update-KeyedBy ObjectName-discrete (λ (t : Task V). t.meta.name) s.tasks t hk,
        hv,
      ),
      h,
    );
    remove_child = λ p c. kept (view_ops.remove_child p c) λ s i. i;
    add_child = λ p c. kept (view_ops.add_child p c) λ s i. i;
    put_flow = λ f. kept (view_ops.put_flow f) (kept_put_flow (as_plain f.meta.name) f);
    put_flow_version = λ v. kept (view_ops.put_flow_version v) λ s ((he, ht, ha, hk, hv), h). (
      (
        he,
        ht,
        ha,
        hk,
        update-KeyedBy ObjectName-discrete (λ (v : FlowVersion). v.meta.name) s.flow_versions v hv,
      ),
      h,
    );
    raise_generated_seq = λ n. kept (raise_seq view_ops n) λ s (k, h). (
      k,
      sym (max_ℤ-assoc n0 s.seq (succ_i64 (as_i64 n))) ∙ ap (λ m. max_ℤ m (succ_i64 (as_i64 n))) h,
    );
  }

module _ {V : Type 0} where
  -- Whatever the event, folding it keeps every execution, thread, activity, task and flow version
  -- under its own name, and never lowers the counter of generated names.
  pub dispatch_event-IsKeyed :
      (now : Timestamp) (e : Event V) (s : View V)
      → IsKeyed s
      → IsKeyed (dispatch_event view_ops now e s).1
        × (max_ℤ s.seq (dispatch_event view_ops now e s).1.seq
            ≡ (dispatch_event view_ops now e s).1.seq)
  dispatch_event-IsKeyed now e s k =
      let (p, q, i) =
        (dispatch_event-Sim (keyed_Simulates s.seq) now e).at s (k, max_ℤ-self s.seq) in
      i
