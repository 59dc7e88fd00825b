-- ===== src/Applier/Execution.antt =====
-- crates/engine/src/applier/appliers/execution_*.rs: the projection of a run's events.
use spica.Base.{}
use spica.Types.Meta.{object_ref, with_update_at}
use spica.Types.Execution.{Execution, completing, completed}
use spica.Storage.Fold.{Fold, when_some, ◌>>=◌}
use spica.Storage.Contract.{StorageTxn}

module _ {V S : Type 0} (storage : StorageTxn V S) where
  open storage use {get_execution, put_execution}

  unfoldable pub execution_created : Execution V → Fold S Unit
  execution_created execution = put_execution execution

  unfoldable pub execution_completing : Execution V → Fold S Unit
  execution_completing execution = do
    found ← get_execution (object_ref execution.meta)
    when_some found λ exec. put_execution (record exec {
      status = completing;
      output = execution.output;
      meta = with_update_at execution.meta.updated_at exec.meta;
    })

  unfoldable pub execution_completed : Execution V → Fold S Unit
  execution_completed execution = do
    found ← get_execution (object_ref execution.meta)
    when_some found λ exec. put_execution (record exec {
      status = completed;
      output = execution.output;
      meta = with_update_at execution.meta.updated_at exec.meta;
    })

  unfoldable pub execution_terminating : Execution V → Fold S Unit
  execution_terminating execution = do
    found ← get_execution (object_ref execution.meta)
    when_some found λ exec. put_execution (record exec {
      status = execution.status;
      meta = with_update_at execution.meta.updated_at exec.meta;
    })

  unfoldable pub execution_terminated : Execution V → Fold S Unit
  execution_terminated execution = do
    found ← get_execution (object_ref execution.meta)
    when_some found λ exec. put_execution (record exec {
      status = execution.status;
      meta = with_update_at execution.meta.updated_at exec.meta;
    })
