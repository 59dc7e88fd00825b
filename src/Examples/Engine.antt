-- ===== src/Examples/Engine.antt =====
-- The log, the driver and recovery, on the sample log.
use spica.Base.{
  ℕ, ◌<◌, ◌≡◌, refl, none, some, List, [], ◌∷◌, arith, length, take, drop, Result, ok, pos, max_ℤ,
}
use spica.Machinery.Name.{suffix}
use spica.Types.Event
use spica.Storage.Memory.{empty_db, begin_txn}
use spica.Storage.Memory.Committed.{begin_txn-IsAhead}
use spica.Storage.View.{View, view_ops}
use spica.Storage.Fold.{Fault, pure, ◌>>=◌}
use spica.Applier.Execution.{execution_created}
use spica.StreamProcessor.Closing.{append_closed, closed, last_is_noop, append_closed-settles}
use spica.LogStream.{Entry, stamp, append, read, stream_read}
use spica.LogStream.Positions.{IsContiguous, append-IsContiguous, read-entry_id}
use spica.StreamProcessor.{EntryPayload, Driver, started, run_follower, run_from_watermark, step}
use spica.StreamProcessor
use spica.StreamProcessor.Replay.{
  shown, IsSound, replay, facts, run_follower-replay, run_follower-facts,
}
use spica.StreamProcessor.Recovery.{run_from_watermark_resumes, recover_leader, recover_leader-run}
use spica.StreamProcessor.Names.{mint-IsFresh}
use spica.Applier.{dispatch_event}
use spica.HashMap.{get}
use spica.Applier.Keyed.{IsKeyed, dispatch_event-IsKeyed}
use spica.Applier.Births.{mint_generated_seq}
use spica.Examples.Data.{order_run, charge, charge_task, order_log, entry_at}

order_log-IsContiguous : IsContiguous order_log
order_log-IsContiguous = ((refl, (refl, (refl, (refl, (refl, (refl, tt)))))), refl)

-- Stopped in the middle of the second batch.
run_from_watermark_resumes_example :
    run_from_watermark
      (run_follower (take 4 (stream_read (pos 1) order_log)) (started empty_db)).1.db
      order_log
    ≡ run_from_watermark empty_db order_log
run_from_watermark_resumes_example =
    run_from_watermark_resumes order_log empty_db 0 4 order_log-IsContiguous (omega arith) refl
      (omega arith)

recover_leader-run_example :
    recover_leader 7 empty_db order_log ≡ some (run_from_watermark empty_db order_log)
recover_leader-run_example =
    recover_leader-run order_log empty_db 0 7 (omega arith) refl (omega arith) (omega arith)

empty-IsSound : IsSound (started (empty_db {V = ℕ}))
empty-IsSound = begin_txn-IsAhead empty_db

run_follower-replay_example :
    ((run_follower order_log.entries (started empty_db)).0
      ≡ (replay order_log.entries (shown (started empty_db))).0)
    × (shown (run_follower order_log.entries (started empty_db)).1
        ≡ (replay order_log.entries (shown (started empty_db))).1)
    × IsSound (run_follower order_log.entries (started empty_db)).1
run_follower-replay_example = run_follower-replay order_log.entries (started empty_db) empty-IsSound

-- The same events in one batch.
abbrev one_batch : List (Entry (EntryPayload ℕ))
one_batch =
    entry_at 1 (StreamProcessor.event (Event.execution_created 7 order_run))
    ∷ entry_at 2 StreamProcessor.noop
    ∷ []

abbrev no_batch : List (Entry (EntryPayload ℕ))
no_batch = entry_at 1 (StreamProcessor.event (Event.execution_created 7 order_run)) ∷ []

same_facts : facts one_batch ≡ facts no_batch
unfolding facts
same_facts = refl

run_follower-facts_example :
    ((run_follower one_batch (started empty_db)).0 ≡ (run_follower no_batch (started empty_db)).0)
    × (shown (run_follower one_batch (started empty_db)).1
        ≡ shown (run_follower no_batch (started empty_db)).1)
run_follower-facts_example =
    run_follower-facts one_batch no_batch (started empty_db) (started empty_db) same_facts
      empty-IsSound empty-IsSound refl

append-IsContiguous_example :
    IsContiguous (append one_batch order_log).1
    × ((append one_batch order_log).0 ≡ pos (length (append one_batch order_log).1.entries))
append-IsContiguous_example =
    append-IsContiguous one_batch order_log order_log-IsContiguous (omega arith)

read_third : read (pos 3) order_log ≡ some (entry_at 3 StreamProcessor.noop)
unfolding read
read_third = refl

read-entry_id_example : (entry_at 3 StreamProcessor.noop).entry_id ≡ pos 3
read-entry_id_example =
    read-entry_id order_log (pos 3) (entry_at 3 StreamProcessor.noop) order_log-IsContiguous
      read_third

abbrev empty_view : View ℕ
empty_view = shown (started empty_db)

-- A store with no rows.
empty-IsKeyed : IsKeyed empty_view
unfolding begin_txn get
empty-IsKeyed = (
  λ n x h. grind arith,
  λ n x h. grind arith,
  λ n x h. grind arith,
  λ n x h. grind arith,
  λ n x h. grind arith,
)

suffix_3 : suffix charge.meta.name ≡ some 3
suffix_3 = refl

mint-IsFresh_example :
    (m : ℕ) × ((mint_generated_seq view_ops
        (replay order_log.entries
          (dispatch_event view_ops 11 (Event.state_activating charge) empty_view).1).1).0
      ≡ ok m)
    × (3 < m)
mint-IsFresh_example =
    mint-IsFresh 11 (Event.state_activating charge) charge.meta.name 3 empty_view order_log.entries
      empty-IsKeyed refl suffix_3 (omega arith)

dispatch_event-IsKeyed_example :
    IsKeyed (dispatch_event view_ops 11 (Event.task_activated charge_task) empty_view).1
    × (max_ℤ empty_view.seq
          (dispatch_event view_ops 11 (Event.task_activated charge_task) empty_view).1.seq
        ≡ (dispatch_event view_ops 11 (Event.task_activated charge_task) empty_view).1.seq)
dispatch_event-IsKeyed_example =
    dispatch_event-IsKeyed 11 (Event.task_activated charge_task) empty_view empty-IsKeyed

-- One more event, appended with no `Noop` of its own.
abbrev one_event : List (Entry (EntryPayload ℕ))
one_event = entry_at 0 (StreamProcessor.event (Event.execution_created 8 order_run)) ∷ []

abbrev folded_on : Result Fault Unit × Driver ℕ
folded_on =
    run_follower (drop (length order_log.entries) (append_closed 30 one_event order_log).1.entries)
      (started empty_db)

folded_on-ok : folded_on ≡ (ok tt, folded_on.1)
unfolding run_follower append_closed append closed last_is_noop stamp step dispatch_event
    execution_created pure ◌>>=◌
folded_on-ok = refl

append_closed-settles_example : folded_on.1.inflight ≡ none
append_closed-settles_example =
    append_closed-settles 30 one_event order_log (started empty_db) folded_on.1 folded_on-ok
