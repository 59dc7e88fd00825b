-- ===== src/StreamProcessor.antt =====
-- crates/engine/src/stream_processor.rs, follower.rs and the recovery of leader.rs, over the in-memory
-- store and log: how the facts of the log become the projection.
pub mod Replay
pub mod Recovery
pub mod Crash
pub mod Names
pub mod Closing
use spica.Base.{Option, none, some, List, [], ◌∷◌, Result, ok, ℤ, succ_i64}
use spica.Machinery.Timestamp.{Timestamp}
use spica.Types.Error.{Reject}
use spica.Types.Event.{Event}
use spica.Types.Command.{Command}
use spica.Storage.Fold.{Fold, Fault, pure, ◌>>=◌}
use spica.Storage.Memory.{InMemoryDb, InMemoryTxn, begin_txn}
use spica.Storage.Memory.Txn.{memory_ops}
use spica.Storage.Memory.Landing.{commit}
use spica.Applier.{dispatch_event}
use spica.LogStream.{Entry, EntryId, LogStream, stream_read}

-- crates/engine-types/src/types/entry.rs.
pub data EntryPayload (V : Type 0) : Type 0 where
  command : Command V → EntryPayload V
  event : Event V → EntryPayload V
  reject : Reject → EntryPayload V
  noop : EntryPayload V

-- What the driver holds between two entries: the store, and the transaction of the batch in flight.
pub record Driver (V : Type 0) : Type 0 where
  pub db : InMemoryDb V
  pub inflight : Option (InMemoryTxn V)

-- A driver that begins, or begins again after a crash, which loses the transaction in flight.
abbrev pub started : {V : Type 0} → InMemoryDb V → Driver V
started db = record { db = db; inflight = none }

module _ {V : Type 0} where
  -- `inflight`, opened at the first event of a batch.
  abbrev pub opened : InMemoryDb V → Option (InMemoryTxn V) → InMemoryTxn V
  opened db none = begin_txn db
  opened db (some txn) = txn

  abbrev pub held : Driver V → Result Fault Unit × InMemoryTxn V → Result Fault Unit × Driver V
  held d (r, txn) = (r, record d { inflight = some txn })

  -- `Follower::commit_at_noop` and the driver's commit: the batch lands with the position of its
  -- `Noop` as the watermark, and a `Noop` that closes no batch is skipped.
  abbrev close_batch : ℤ → InMemoryDb V → Option (InMemoryTxn V) → Driver V
  close_batch entry_id db none = started db
  close_batch entry_id db (some txn) = started (commit txn (some entry_id))

  abbrev pub handle : EntryId → Timestamp → EntryPayload V → Fold (Driver V) Unit
  handle id now (command c) d = (ok tt, d)
  handle id now (event e) d = held d (dispatch_event memory_ops now e (opened d.db d.inflight))
  handle id now (reject r) d = (ok tt, d)
  handle id now noop d = (ok tt, close_batch id d.db d.inflight)

  -- One turn of the loops of `run_follower` and `recover_leader`, which do the same to the store: an
  -- event is folded into the transaction of its batch (`Follower::apply_event`) and a `Noop` commits.
  unfoldable pub step : Entry (EntryPayload V) → Fold (Driver V) Unit
  step e d = handle e.entry_id e.timestamp e.payload d

  -- `run_follower`, over the entries that the stream yields before it is cancelled.
  unfoldable pub run_follower : List (Entry (EntryPayload V)) → Fold (Driver V) Unit
  run_follower [] = pure tt
  run_follower (e ∷ es) = step e >>= λ u. run_follower es

  -- The follower of `StreamProcessor::run`: it tails the log from the entry after the watermark.
  unfoldable pub run_from_watermark :
      InMemoryDb V → LogStream (EntryPayload V) → Result Fault Unit × Driver V
  run_from_watermark db log =
      run_follower (stream_read (succ_i64 db.last_processed_position) log) (started db)
