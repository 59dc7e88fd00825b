-- ===== src/Applier/Rows.antt =====
-- The counter of generated names in the folds of crates/engine/src/applier, against the rows.
use spica.Base.{◌≡◌, refl, sym, ap, ◌∙◌, Option, none, some, ok, pos}
use spica.Machinery.Timestamp.{Timestamp}
use spica.Machinery.Name.{as_plain}
use spica.Types.Event.{Event}
use spica.Types.Flow.{Flow, FlowName}
use spica.Storage.Fold.{◌>>=◌}
use spica.Storage.Fold.Sim.{Sim}
use spica.Storage.Contract.{StorageTxn}
use spica.Storage.Simulates.{FoldSimulates}
use spica.Storage.View.{View, view_ops, view_put_flow}
use spica.Applier.{dispatch_event}
use spica.Applier.Simulation.{dispatch_event-Sim}

-- A store without its counter.
abbrev pub rows : {V : Type 0} → View V → View V
rows s = record s { seq = pos 0 }

-- The abstract store with a counter that stays 0.
abbrev quiet_ops : {V : Type 0} → StorageTxn V (View V)
quiet_ops = record view_ops {
  next_generated_seq = λ s. (ok (pos 0), s);
  put_next_generated_seq = λ n s. (ok tt, s);
}

module _ {V : Type 0} where
  put_flow-rows :
      (o : Option FlowName) (f : Flow)
      → Sim {S = View V} rows (λ s. Unit) (view_put_flow o f) (view_put_flow o f)
  put_flow-rows none f = record { at = λ s i. (refl, refl, i) }
  put_flow-rows (some n) f = record { at = λ s i. (refl, refl, i) }

  rows_Simulates : FoldSimulates (rows {V = V}) (λ s. Unit) view_ops quiet_ops
  unfolding ◌>>=◌
  rows_Simulates = record {
    get_execution = λ r. record { at = λ s i. (refl, refl, i) };
    get_thread = λ r. record { at = λ s i. (refl, refl, i) };
    get_variables = λ r. record { at = λ s i. (refl, refl, i) };
    get_activity = λ r. record { at = λ s i. (refl, refl, i) };
    get_task = λ r. record { at = λ s i. (refl, refl, i) };
    get_flow_by_name = λ n. record { at = λ s i. (refl, refl, i) };
    get_flow_version = λ r. record { at = λ s i. (refl, refl, i) };
    put_execution = λ e. record { at = λ s i. (refl, refl, i) };
    put_thread = λ t. record { at = λ s i. (refl, refl, i) };
    put_variables = λ r vs. record { at = λ s i. (refl, refl, i) };
    put_activity = λ x. record { at = λ s i. (refl, refl, i) };
    put_task = λ t. record { at = λ s i. (refl, refl, i) };
    remove_child = λ p c. record { at = λ s i. (refl, refl, i) };
    add_child = λ p c. record { at = λ s i. (refl, refl, i) };
    put_flow = λ f. put_flow-rows (as_plain f.meta.name) f;
    put_flow_version = λ v. record { at = λ s i. (refl, refl, i) };
    raise_generated_seq = λ n. record { at = λ s i. (refl, refl, i) };
  }

  pub dispatch_event-rows :
      (now : Timestamp) (e : Event V) (s s' : View V)
      → rows s ≡ rows s'
      → ((dispatch_event view_ops now e s).0 ≡ (dispatch_event view_ops now e s').0)
        × (rows (dispatch_event view_ops now e s).1 ≡ rows (dispatch_event view_ops now e s').1)
  dispatch_event-rows now e s s' h =
      let (p, q, i) = (dispatch_event-Sim rows_Simulates now e).at s tt in
      let (p', q', i') = (dispatch_event-Sim rows_Simulates now e).at s' tt in
      (
        p ∙ ap (λ x. (dispatch_event quiet_ops now e x).0) h ∙ sym p',
        q ∙ ap (λ x. (dispatch_event quiet_ops now e x).1) h ∙ sym q',
      )
