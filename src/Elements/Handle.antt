-- ===== src/Elements/Handle.antt =====
-- The effect of a handler, and the `Collector` of crates/engine/src/handler.rs with its overlay, the
-- `WorkingState` of crates/engine/src/working.rs: a handler reads and writes the working transaction,
-- appends entries, reads the clock and mints ids; it succeeds, is refused, fails or panics. The text
-- of a refusal is left out.
use spica.Base.{ℕ, ◌+◌, Option, none, some, List, [], ◌∷◌, ◌++◌, Str, Result, ok, err}
use spica.HashMap.{HashMap}
use spica.Machinery.Timestamp.{Timestamp}
use spica.Types.Meta.{Ulid, ObjectRef, flow_version}
use spica.Types.Error.{RequestId, RejectionType, StorageError, ExecutionError, storage, infra}
use spica.Types.Command.{Command}
use spica.Types.Event.{Event}
use spica.Asl.{StateMachine}
use spica.LogStream.{Entry, EntryId}
use spica.LogStream
use spica.StreamProcessor.{EntryPayload}
use spica.StreamProcessor
use spica.Storage.Fold.{Fault, storage_fault, panicked}
use spica.Applier.{dispatch_event}
use spica.Applier.Births.{mint_generated_seq}
use spica.Elements.Interface.{Engine}

pub data ProcessingError (V : Type 0) : Type 0 where
  unexpected : ExecutionError V → ProcessingError V
  rejected : RejectionType → ProcessingError V

-- Why a handler stops: an error that `?` returns, or a panic.
pub data Stop (V : Type 0) : Type 0 where
  error : ProcessingError V → Stop V
  panic : Stop V

-- The collector, the working store below it, the readings so far of the clock and the id generator,
-- and the leader's cache of machines.
pub record Work (V S : Type 0) : Type 0 where
  pub store : S
  pub cause_id : EntryId
  pub entries : List (Entry (EntryPayload V))
  pub readings : ℕ
  pub minted : ℕ
  pub definitions : HashMap (ObjectRef flow_version) (StateMachine V)

abbrev pub Handle : Type 0 → Type 0 → Type 0 → Type 0
Handle V S A = Work V S → Result (Stop V) A × Work V S

module _ {V S A : Type 0} where
  unfoldable pub pure : A → Handle V S A
  pure a w = (ok a, w)

  unfoldable pub stop : Stop V → Handle V S A
  stop e w = (err e, w)

  -- `Err(ProcessingError::Rejected(…))`.
  abbrev pub refuse : RejectionType → Handle V S A
  refuse t = stop (error (rejected t))

  -- `Err(ProcessingError::Unexpected(…))`.
  abbrev pub fault : ExecutionError V → Handle V S A
  fault e = stop (error (unexpected e))

module _ {V S A B : Type 0} where
  abbrev pub continue : Result (Stop V) A → (A → Handle V S B) → Handle V S B
  continue (ok a) f w = f a w
  continue (err e) f w = (err e, w)

  infixl 10 ◌>>=◌ ◌>>◌
  unfoldable pub ◌>>=◌ : Handle V S A → (A → Handle V S B) → Handle V S B
  unfolding pure stop
  ◌>>=◌ m f w = let (r, w') = m w in continue r f w'

  abbrev pub ◌>>◌ : Handle V S A → Handle V S B → Handle V S B
  m >> n = m >>= λ _. n

-- `?` on a read turns a storage error into an unexpected one.
abbrev pub read_result : {V A : Type 0} → Result StorageError A → Result (Stop V) A
read_result (ok a) = ok a
read_result (err e) = err (error (unexpected (infra (storage e))))

module _ {V S B : Type 0} where
  -- `match` on an option and on a result.
  abbrev pub match_option :
      {A : Type 0} → Option A → Handle V S B → (A → Handle V S B) → Handle V S B
  match_option none m f = m
  match_option (some a) m f = f a

  abbrev pub match_result :
      {E A : Type 0} → Result E A → (E → Handle V S B) → (A → Handle V S B) → Handle V S B
  match_result (err e) g f = g e
  match_result (ok a) g f = f a

module _ {V S : Type 0} where
  -- A read of the working store.
  unfoldable pub read : {A : Type 0} → (S → Result StorageError A) → Handle V S A
  read r w = (read_result (r w.store), w)

  -- A read whose error the caller matches on.
  unfoldable pub try_read :
      {A : Type 0} → (S → Result StorageError A) → Handle V S (Result StorageError A)
  try_read r w = (ok (r w.store), w)

  -- `let Some(a) = o else { return Err(Rejected(t)) }`.
  unfoldable pub some_or_refuse : {A : Type 0} → RejectionType → Option A → Handle V S A
  unfolding pure stop
  some_or_refuse t none = refuse t
  some_or_refuse t (some a) = pure a

  -- A `for` loop over a list.
  unfoldable pub for_each : {A : Type 0} → (A → Handle V S Unit) → List A → Handle V S Unit
  unfolding pure ◌>>=◌
  for_each f [] = pure tt
  for_each f (x ∷ xs) = f x >>= λ u. for_each f xs

module _ {V S : Type 0} (engine : Engine V S) where
  open engine use {clock, ids}

  -- `now`, of the collector and of the context.
  unfoldable pub now : Handle V S Timestamp
  now w = (ok (clock w.readings), record w { readings = w.readings + 1 })

  -- `mint`.
  unfoldable pub mint : Handle V S Ulid
  mint w = (ok (ids w.minted), record w { minted = w.minted + 1 })

  -- `Collector::next_generated_seq`, over an overlay.
  unfoldable pub next_generated_seq : Handle V S ℕ
  unfolding mint_generated_seq
  next_generated_seq w =
      let (r, s) = mint_generated_seq engine.txn w.store in
      (elim r [ ok n ↦ ok n | err e ↦ err panic ], record w { store = s })

  -- `Collector::build`, with the stamp that was read.
  abbrev pub build : Timestamp → EntryPayload V → EntryId → Entry (EntryPayload V)
  build at payload cause = record {
    stream_id = LogStream.nil;
    entry_id = LogStream.nil;
    cause_id = some cause;
    timestamp = at;
    payload = payload;
  }

  -- `Collector::push`.
  unfoldable pub push : EntryPayload V → Handle V S Unit
  push payload w = (
    ok tt,
    record w {
      entries = w.entries ++ build (clock w.readings) payload w.cause_id ∷ [];
      readings = w.readings + 1;
    },
  )

  unfoldable pub append_command : Command V → Handle V S Unit
  unfolding push
  append_command c = push (StreamProcessor.command c)

  unfoldable pub reject : RequestId → RejectionType → Str → Handle V S Unit
  unfolding push
  reject id t reason = push (
      StreamProcessor.reject
        (record { request_id = id; rejection_type = t; rejection_reason = reason }))

  -- What `append_event` makes of the eager fold: its error is logged and dropped, a panic is not.
  abbrev pub tolerated : Result Fault Unit → Result (Stop V) Unit
  tolerated (ok u) = ok tt
  tolerated (err (storage_fault e)) = ok tt
  tolerated (err panicked) = err panic

  unfoldable pub append_event : Event V → Handle V S Unit
  unfolding push
  append_event e w =
      let (r, s) = dispatch_event engine.txn (clock w.readings) e w.store in
      (tolerated r, (push (StreamProcessor.event e) (record w { store = s })).1)
