-- ===== src/LogStream.antt =====
-- crates/logstream/src/entry.rs, id.rs and memory.rs: the log's envelope and the in-memory stream.
-- The lock and the wake-up of tailing readers are not modelled: an append is one step.
pub mod Positions
use spica.Base.{
  zero, suc, Option, none, List, [], ◌∷◌, ◌++◌, get_elem?, drop, ℤ, pos, negsuc, succ_i64, pred_i64,
}
use spica.Machinery.Timestamp.{Timestamp}

abbrev pub EntryId : Type 0
EntryId = ℤ

abbrev pub StreamId : Type 0
StreamId = ℤ

-- The unset position, `nil()`.
abbrev pub nil : ℤ
nil = negsuc 0

pub record Entry (P : Type 0) : Type 0 where
  pub stream_id : StreamId
  pub entry_id : EntryId
  pub cause_id : Option EntryId
  pub timestamp : Timestamp
  pub payload : P

pub record LogStream (P : Type 0) : Type 0 where
  pub entries : List (Entry P)
  pub next_entry_id : ℤ

-- `InMemoryLogStream::new`, whose stream id is 1.
abbrev pub new : {P : Type 0} → LogStream P
new = record { entries = []; next_entry_id = pos 1 }

abbrev pub stream : StreamId
stream = pos 1

module _ {P : Type 0} where
  -- The positions of a batch, from the counter on, and the counter after it.
  unfoldable pub stamp : ℤ → List (Entry P) → List (Entry P)
  stamp id [] = []
  stamp id (e ∷ es) = record e { stream_id = stream; entry_id = id } ∷ stamp (succ_i64 id) es

  unfoldable pub advance : ℤ → List (Entry P) → ℤ
  advance id [] = id
  advance id (e ∷ es) = advance (succ_i64 id) es

  -- The last position given, one below the counter, and the log after the append.
  unfoldable pub append : List (Entry P) → LogStream P → EntryId × LogStream P
  unfolding stamp advance
  append batch l = (
    pred_i64 (advance l.next_entry_id batch),
    record {
      entries = l.entries ++ stamp l.next_entry_id batch;
      next_entry_id = advance l.next_entry_id batch;
    },
  )

  -- `checked_sub(1)`, and a negative index names no entry.
  unfoldable pub read : EntryId → LogStream P → Option (Entry P)
  read (pos zero) l = none
  read (pos (suc i)) l = get_elem? l.entries i
  read (negsuc n) l = none

  -- The entries that `stream_read` yields before it waits for the next append.
  unfoldable pub stream_read : EntryId → LogStream P → List (Entry P)
  stream_read (pos zero) l = []
  stream_read (pos (suc i)) l = drop i l.entries
  stream_read (negsuc zero) l = l.entries
  stream_read (negsuc (suc n)) l = []
