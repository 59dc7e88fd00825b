-- ===== src/Leader.antt =====
-- crates/engine/src/leader.rs, and the turn of the loop `run_leader` of
-- crates/engine/src/stream_processor.rs on a command. The dispatch of a command and the text of an error
-- are arguments; the store is any that can open a transaction.
pub mod Attempts
pub mod Agreement
pub mod Processed
pub mod Invariants
use spica.HashMap.{HashMap}
use spica.Types.Meta.{ObjectRef, flow_version}
use spica.Types.Error.{
  ExecutionError, RejectionType, RequestId, StorageError, processing_error, infra, storage,
}
use spica.Types.Event.{Event}
use spica.Types.Command.{Command, request_id}
use spica.Asl.{StateMachine}
use spica.LogStream.{Entry, EntryId}
use spica.StreamProcessor.{EntryPayload, event, command, reject, noop}
use spica.Elements.Interface.{Engine}
use spica.Elements.Handle.{
  Handle, Work, Stop, ProcessingError, error, rejected, unexpected, panic, build,
}
use spica.Elements.States.Container.{is_empty}
use spica.Base.{
  ℕ, zero, suc, ◌+◌, ◌-◌, Option, none, some, List, [], ◌∷◌, ◌++◌, if◌then◌else◌, Str, codes, all,
  Result, ok, err, ℤ,
}

-- The leader's own state, with the readings so far of the clock and the id generator.
pub record Leader (V : Type 0) : Type 0 where
  pub definitions : HashMap (ObjectRef flow_version) (StateMachine V)
  pub watermark : ℤ
  pub last_applied : List (Event V)
  pub readings : ℕ
  pub minted : ℕ

-- `CommandProcessed`: the entries to append and the working transaction to commit.
pub record CommandProcessed (V S : Type 0) : Type 0 where
  pub entries : List (Entry (EntryPayload V))
  pub work : S

abbrev pub max_command_attempts : ℕ
max_command_attempts = 3

-- `unwrap_or_else(RequestId::nil)`.
abbrev pub or_nil : Option RequestId → RequestId
or_nil none = 0
or_nil (some id) = id

module _ {V : Type 0} where
  -- The events among the entries.
  unfoldable pub events_of : List (Entry (EntryPayload V)) → List (Event V)
  events_of [] = []
  events_of (e ∷ es) = elim e.payload [
    | event ev ↦ ev ∷ events_of es
    | command c ↦ events_of es
    | reject r ↦ events_of es
    | noop ↦ events_of es
  ]

module _ {V S : Type 0} (engine : Engine V S) (dispatch : Command V → Handle V S Unit)
    (begin_txn : Result StorageError S) (text : ProcessingError V → Str) where
  open engine use {clock}

  -- What the leader keeps of an attempt: the cache, the clock and the ids move on either way.
  abbrev pub after_attempt : Leader V → Work V S → Leader V
  after_attempt l w = record l {
    definitions = w.definitions;
    readings = w.readings;
    minted = w.minted;
  }

  abbrev pub started_on : S → EntryId → Leader V → Work V S
  started_on s id l = record {
    store = s;
    cause_id = id;
    entries = [];
    readings = l.readings;
    minted = l.minted;
    definitions = l.definitions;
  }

  -- The end of an attempt; a dispatch without entries fails the assertion.
  abbrev pub attempt_ended :
      Leader V → Result (Stop V) Unit × Work V S → Result (Stop V) (CommandProcessed V S) × Leader V
  attempt_ended l (err e, w) = (err e, after_attempt l w)
  attempt_ended l (ok u, w) = if is_empty w.entries then (err panic, after_attempt l w) else (
    ok (record { entries = w.entries; work = w.store }),
    record (after_attempt l w) { last_applied = events_of w.entries },
  )

  abbrev attempt_on :
      EntryId
      → Command V
      → Leader V
      → Result StorageError S
      → Result (Stop V) (CommandProcessed V S) × Leader V
  attempt_on id c l (err e) = (err (error (unexpected (infra (storage e)))), l)
  attempt_on id c l (ok s) = attempt_ended l (dispatch c (started_on s id l))

  -- `dispatch_once`: a fresh transaction for every attempt.
  unfoldable pub dispatch_once :
      EntryId → Command V → Leader V → Result (Stop V) (CommandProcessed V S) × Leader V
  unfolding events_of
  dispatch_once id c l = attempt_on id c l begin_txn

  abbrev pub refusal_of : ProcessingError V → RejectionType × Str
  refusal_of (rejected t) = (t, text (rejected t))
  refusal_of (unexpected e) =
      (processing_error, codes "dispatch failed on all 3 attempts: " ++ text (unexpected e))

  abbrev refuse_on :
      EntryId
      → Command V
      → Leader V
      → RejectionType × Str
      → Result StorageError S
      → Result (Stop V) (CommandProcessed V S) × Leader V
  refuse_on id c l (t, reason) (err e) = (err (error (unexpected (infra (storage e)))), l)
  refuse_on id c l (t, reason) (ok s) = (
    ok (record {
      entries =
          build engine (clock l.readings)
            (reject (record {
              request_id = or_nil (request_id c);
              rejection_type = t;
              rejection_reason = reason;
            }))
            id
          ∷ [];
      work = s;
    }),
    record l { readings = l.readings + 1 },
  )

  -- `reject_command`: the refusal alone, on a fresh transaction.
  unfoldable pub reject_command :
      EntryId
      → Command V
      → ProcessingError V
      → Leader V
      → Result (Stop V) (CommandProcessed V S) × Leader V
  reject_command id c e l = refuse_on id c l (refusal_of e) begin_txn

  abbrev pub Outcome : Type 0
  Outcome = Result (Stop V) (CommandProcessed V S) × Leader V

  -- A result is passed on, a refusal is recorded, and an unexpected failure is left to `again`.
  abbrev pub settle :
      EntryId → Command V → Outcome → (ExecutionError V → Leader V → Outcome) → Outcome
  settle id c (ok p, l) again = (ok p, l)
  settle id c (err panic, l) again = (err panic, l)
  settle id c (err (error (rejected t)), l) again = reject_command id c (rejected t) l
  settle id c (err (error (unexpected e)), l) again = again e l

  -- The attempts, with this many left after the next one.
  unfoldable pub attempts : ℕ → EntryId → Command V → Leader V → Outcome
  unfolding dispatch_once reject_command
  attempts zero id c l =
      settle id c (dispatch_once id c l) λ e l'. reject_command id c (unexpected e) l'
  attempts (suc left) id c l = settle id c (dispatch_once id c l) λ e l'. attempts left id c l'

  -- `process_command`, without the waits between attempts.
  unfoldable pub process_command : EntryId → Command V → Leader V → Outcome
  unfolding attempts
  process_command id c l = attempts (max_command_attempts - 1) id c l
