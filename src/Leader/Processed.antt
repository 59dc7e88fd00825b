-- ===== src/Leader/Processed.antt =====
-- What a processed command leaves: `process_command` of crates/engine/src/leader.rs over the in-memory
-- transaction.
use spica.Base.{
  arith, Bool, true, false, if◌then◌else◌, ◌≡◌, refl, sym, ap, ◌∙◌, [], ◌∷◌, Str, Result, ok, err,
}
use spica.Types.Error.{RejectionType, Reject, processing_error, StorageError}
use spica.Types.Command.{Command}
use spica.LogStream.{EntryId, Entry}
use spica.StreamProcessor.{EntryPayload, reject}
use spica.StreamProcessor.Replay.{replay}
use spica.Storage.Fold.{pure, ◌>>=◌}
use spica.Storage.Memory.{InMemoryTxn}
use spica.Storage.Memory.Txn.{memory_ops}
use spica.Storage.Memory.Refines.{view_txn}
use spica.Applier.Rows.{rows}
use spica.Elements.Interface.{Engine}
use spica.Elements.Handle.{ProcessingError, Work, Stop, panic}
use spica.Elements.Dispatch.{dispatch_command}
use spica.Elements.States.Container.{is_empty}
use spica.Leader.{
  Leader, CommandProcessed, Outcome, dispatch_once, process_command, attempt_ended, started_on,
}
use spica.Leader.Attempts.{
  process_command-outcome, Decides, by_result, by_panic, by_refusal, by_exhaustion, IsRefusal,
}
use spica.Leader.Agreement.{Agrees, dispatch_command-Agrees}

-- The entries of a processed command, replayed over the store that it began on, give its store.
abbrev pub IsReplayed : {V : Type 0} → InMemoryTxn V → CommandProcessed V (InMemoryTxn V) → Type 0
IsReplayed s p =
    (replay p.entries (view_txn s)).0 ≡ ok tt
    → rows (view_txn p.work) ≡ rows (replay p.entries (view_txn s)).1

ok-injective : {A E : Type 0} (a b : A) → ◌≡◌ {A = Result E A} (ok a) (ok b) → a ≡ b
ok-injective a b h = ground arith

module _ {V : Type 0} where
  same_processed :
      (s : InMemoryTxn V) (a b : CommandProcessed V (InMemoryTxn V))
      → ◌≡◌ {A = Result (Stop V) (CommandProcessed V (InMemoryTxn V))} (ok a) (ok b)
      → IsReplayed s a
      → IsReplayed s b
  same_processed s a b h r = rw (ok-injective a b h) at r

  ended_if :
      (s : InMemoryTxn V) (empty : Bool) (l l' : Leader V)
      (a b : CommandProcessed V (InMemoryTxn V))
      → IsReplayed s a
      → (if◌then◌else◌ {A = Result (Stop V) (CommandProcessed V (InMemoryTxn V)) × Leader V} empty
          (err panic, l)
          (ok a, l')).0
        ≡ ok b
      → IsReplayed s b
  ended_if s true l l' a b r h = ground arith
  ended_if s false l l' a b r h = same_processed s a b h r

  alone :
      (s : InMemoryTxn V) (e : Entry (EntryPayload V)) (r : Reject)
      → e.payload ≡ reject r
      → IsReplayed s (record { entries = e ∷ []; work = s })
  unfolding replay ◌>>=◌ pure
  alone s e r h = λ went. rw h (refl)

  refused_store :
      (s s' : InMemoryTxn V) (e : Entry (EntryPayload V)) (r : Reject)
      → s ≡ s'
      → e.payload ≡ reject r
      → IsReplayed s (record { entries = e ∷ []; work = s' })
  refused_store s s' e r h k = rw (sym h) (alone s e r k)

module _ {V : Type 0} (engine : Engine V (InMemoryTxn V)) (over_memory : engine.txn ≡ memory_ops)
    (reason : Str) (text : ProcessingError V → Str) (s : InMemoryTxn V) (id : EntryId)
    (c : Command V) where
  ended :
      (l : Leader V) (x : Result (Stop V) Unit × Work V (InMemoryTxn V))
      (p : CommandProcessed V (InMemoryTxn V))
      → Agrees (view_txn s) x.1
      → (attempt_ended engine (dispatch_command engine reason) (ok s) text l x).0 ≡ ok p
      → IsReplayed s p
  ended l (err e, w) p h q = ground arith
  ended l (ok u, w) p h q = ended_if s (is_empty w.entries) _ _ _ p h q

  dispatch_once-IsReplayed :
      (l : Leader V) (p : CommandProcessed V (InMemoryTxn V))
      → (dispatch_once engine (dispatch_command engine reason) (ok s) text id c l).0 ≡ ok p
      → IsReplayed s p
  unfolding dispatch_once replay pure
  dispatch_once-IsReplayed l p h =
      let w = started_on engine (dispatch_command engine reason) (ok s) text s id l in
      ended l (dispatch_command engine reason c w) p
        (dispatch_command-Agrees (view_txn s) engine over_memory reason c w (λ went. refl)) h

  refused :
      (t : RejectionType) (o : Outcome engine (dispatch_command engine reason) (ok s) text)
      (p : CommandProcessed V (InMemoryTxn V))
      → IsRefusal engine (dispatch_command engine reason) (ok s) text id c t o
      → o.0 ≡ ok p
      → IsReplayed s p
  refused t o p r h =
      same_processed s (record { entries = r.entry ∷ []; work = r.store }) p (sym r.processed ∙ h)
        (refused_store s r.store r.entry _ (ok-injective {E = StorageError} s r.store r.opened)
          r.payload)

  decided :
      (x : Type 0) (l : Leader V) (o : Outcome engine (dispatch_command engine reason) (ok s) text)
      (p : CommandProcessed V (InMemoryTxn V))
      → Decides engine (dispatch_command engine reason) (ok s) text id c x l o
      → o.0 ≡ ok p
      → IsReplayed s p
  decided x l o p (by_result p' q k) h = dispatch_once-IsReplayed l p (ap (λ y. y.0) q ∙ h)
  decided x l o p (by_panic q k) h = ground arith
  decided x l o p (by_refusal t l' q r) h = refused t o p r h
  decided x l o p (by_exhaustion e l' q k r) h = refused processing_error o p r h

  -- Over an engine whose appliers run on the in-memory transaction: when the leader has processed a
  -- command, whatever the command, with a result or with a refusal, and the entries that it appends
  -- replay without a fault over the store that the command began on, the leader's working store
  -- shows the same rows, scopes and edges as that replay.
  pub process_command-replayed :
      (l : Leader V) (p : CommandProcessed V (InMemoryTxn V))
      → (process_command engine (dispatch_command engine reason) (ok s) text id c l).0 ≡ ok p
      → (replay p.entries (view_txn s)).0 ≡ ok tt
      → rows (view_txn p.work) ≡ rows (replay p.entries (view_txn s)).1
  process_command-replayed l p h =
      let (k, l', le, failed, d) =
        process_command-outcome engine (dispatch_command engine reason) (ok s) text id c s refl l in
      decided (k ≡ 2) l' _ p d h
