-- ===== src/Elements/Reports.antt =====
-- A worker's failure report: `fail` of crates/engine/src/elements/task.rs on every branch.
use spica.Base.{◌≡◌, ◌⊎◌, false, some, [], ◌∷◌, ◌++◌, Result, ok, err}
use spica.Types.Error.{ExecutionError, invalid_state, failed}
use spica.Types.Event
use spica.Types.Command.{FailTask}
use spica.Types.Command
use spica.Types.Task.{Task, TaskRefusal, FailureOutcome, retried, terminal, running, is_terminal}
use spica.StreamProcessor
use spica.Elements.Interface.{Engine}
use spica.Elements.Handle.{Work, Stop, error, panic, rejected}
use spica.Elements.Payloads.{payloads}

-- The task is not settled, and the report is the engine's own or comes from the worker that the
-- running task is leased to.
abbrev pub MayReport : {V : Type 0} → FailTask V → Task V → Type 0
MayReport p row =
    (is_terminal row.status ≡ false)
    × ((p.worker_id ≡ []) ⊎ ((row.status ≡ running) × (row.worker_id ≡ some p.worker_id)))

module _ {V S : Type 0} (engine : Engine V S) where
  -- What a routed report leaves, for each answer of the task.
  abbrev pub Routed :
      Task V
      → ExecutionError V
      → Work V S
      → Task V × Result TaskRefusal FailureOutcome
      → Result (Stop V) Unit × Work V S
      → Type 0
  Routed row e w (t, err why) (r, w') =
      (r ≡ err (error (rejected invalid_state))) × (w'.entries ≡ w.entries) × (w'.store ≡ w.store)
  Routed row e w (t, ok retried) (r, w') =
      ((r ≡ ok tt) ⊎ (r ≡ err panic))
      × (payloads w' ≡ payloads w ++ StreamProcessor.event (Event.task_failed t e) ∷ [])
  Routed row e w (t, ok terminal) (r, w') =
      ((r ≡ ok tt)
        × (payloads w'
            ≡ payloads w
              ++ StreamProcessor.event (Event.task_failed t e)
                ∷ StreamProcessor.command (Command.terminate_state row.meta.owner (failed e))
                ∷ []))
      ⊎ ((r ≡ err panic)
          × (payloads w' ≡ payloads w ++ StreamProcessor.event (Event.task_failed t e) ∷ []))
