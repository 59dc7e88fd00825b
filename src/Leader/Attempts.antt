-- ===== src/Leader/Attempts.antt =====
-- What the leader of crates/engine/src/leader.rs makes of a command that fails.
use spica.Types.Error.{ExecutionError, RejectionType, StorageError, processing_error}
use spica.Types.Command.{Command, request_id}
use spica.LogStream.{Entry, EntryId}
use spica.StreamProcessor.{EntryPayload, reject}
use spica.Elements.Interface.{Engine}
use spica.Elements.Handle.{Handle, ProcessingError, error, rejected, unexpected, panic}
use spica.Leader.{
  Leader, settle, attempts, process_command, CommandProcessed, Outcome, dispatch_once,
  reject_command, or_nil,
}
use spica.Base.{ℕ, zero, suc, ◌≤◌, ◌≡◌, refl, ap, [], ◌∷◌, arith, Str, Result, ok, err}

module _ {V S : Type 0} (engine : Engine V S) (dispatch : Command V → Handle V S Unit)
    (begin_txn : Result StorageError S) (text : ProcessingError V → Str) (id : EntryId)
    (c : Command V) where
  abbrev attempt : Leader V → Outcome engine dispatch begin_txn text
  attempt l = dispatch_once engine dispatch begin_txn text id c l

  -- So many attempts in a row that failed on the engine's side.
  pub data Failed : ℕ → Leader V → Leader V → Type 0 where
    none_yet : {l : Leader V} → Failed zero l l
    once_more :
        {k : ℕ} {l l1 l2 : Leader V} (e : ExecutionError V)
        → dispatch_once engine dispatch begin_txn text id c l ≡ (err (error (unexpected e)), l1)
        → Failed k l1 l2
        → Failed (suc k) l l2

  -- A single refusal of this type, for the caller that waits, on a store with nothing written.
  pub record IsRefusal (t : RejectionType) (o : Outcome engine dispatch begin_txn text)
      : Type 0 where
    pub store : S
    pub entry : Entry (EntryPayload V)
    pub reason : Str
    pub opened : begin_txn ≡ ok store
    pub processed : o.0 ≡ ok (record { entries = entry ∷ []; work = store })
    pub payload :
        entry.payload
        ≡ reject (record {
          request_id = or_nil (request_id c);
          rejection_type = t;
          rejection_reason = reason;
        })

  -- How the last attempt, from a leader `l`, decides the outcome.
  pub data Decides (exhausted : Type 0) (l : Leader V) (o : Outcome engine dispatch begin_txn text)
      : Type 0 where
    by_result :
        (p : CommandProcessed V S)
        → dispatch_once engine dispatch begin_txn text id c l ≡ o
        → o.0 ≡ ok p
        → Decides exhausted l o
    by_panic :
        dispatch_once engine dispatch begin_txn text id c l ≡ o
        → o.0 ≡ err panic
        → Decides exhausted l o
    by_refusal :
        (t : RejectionType) (l' : Leader V)
        → dispatch_once engine dispatch begin_txn text id c l ≡ (err (error (rejected t)), l')
        → IsRefusal t o
        → Decides exhausted l o
    by_exhaustion :
        (e : ExecutionError V) (l' : Leader V)
        → dispatch_once engine dispatch begin_txn text id c l ≡ (err (error (unexpected e)), l')
        → exhausted
        → IsRefusal processing_error o
        → Decides exhausted l o

  module _ (s : S) (opened : begin_txn ≡ ok s) where
    reject_rejected :
        (t : RejectionType) (l : Leader V)
        → IsRefusal t (reject_command engine dispatch begin_txn text id c (rejected t) l)
    unfolding reject_command
    reject_rejected t l = rw opened (record {
      store = s;
      entry = _;
      reason = _;
      opened = refl;
      processed = refl;
      payload = refl;
    })

    reject_unexpected :
        (e : ExecutionError V) (l : Leader V)
        → IsRefusal processing_error
            (reject_command engine dispatch begin_txn text id c (unexpected e) l)
    unfolding reject_command
    reject_unexpected e l = rw opened (record {
      store = s;
      entry = _;
      reason = _;
      opened = refl;
      processed = refl;
      payload = refl;
    })

    Reached : ℕ → Leader V → Outcome engine dispatch begin_txn text → Type 0
    Reached left l o =
        (k : ℕ) × (l' : Leader V) × (k ≤ left) × Failed k l l' × Decides (k ≡ left) l' o

    last_attempt :
        (l : Leader V) (o : Outcome engine dispatch begin_txn text)
        → dispatch_once engine dispatch begin_txn text id c l ≡ o
        → Decides (◌≡◌ {A = ℕ} 0 0) l (
            settle engine dispatch begin_txn text id c o
              λ e l'. reject_command engine dispatch begin_txn text id c (unexpected e) l')
    last_attempt l (ok p, l') h = by_result p h refl
    last_attempt l (err panic, l') h = by_panic h refl
    last_attempt l (err (error (rejected t)), l') h = by_refusal t l' h (reject_rejected t l')
    last_attempt l (err (error (unexpected e)), l') h =
        by_exhaustion e l' h refl (reject_unexpected e l')

    weaken :
        {P Q : Type 0} {l : Leader V} {o : Outcome engine dispatch begin_txn text}
        → (P → Q)
        → Decides P l o
        → Decides Q l o
    weaken f (by_result p h k) = by_result p h k
    weaken f (by_panic h k) = by_panic h k
    weaken f (by_refusal t l' h k) = by_refusal t l' h k
    weaken f (by_exhaustion e l' h x k) = by_exhaustion e l' h (f x) k

    further_attempt :
        (left : ℕ) (l : Leader V) (o : Outcome engine dispatch begin_txn text)
        → dispatch_once engine dispatch begin_txn text id c l ≡ o
        → ((l' : Leader V) → Reached left l' (attempts engine dispatch begin_txn text left id c l'))
        → Reached (suc left) l (
            settle engine dispatch begin_txn text id c o
              λ e l'. attempts engine dispatch begin_txn text left id c l')
    unfolding Reached
    further_attempt left l (ok p, l') h ih = (0, l, omega arith, none_yet, by_result p h refl)
    further_attempt left l (err panic, l') h ih = (0, l, omega arith, none_yet, by_panic h refl)
    further_attempt left l (err (error (rejected t)), l') h ih =
        (0, l, omega arith, none_yet, by_refusal t l' h (reject_rejected t l'))
    further_attempt left l (err (error (unexpected e)), l') h ih =
        let (k, l2, le, failed, d) = ih l' in
        (suc k, l2, omega arith, once_more e h failed, weaken (λ q. ap suc q) d)

    attempts-Reached :
        (left : ℕ) (l : Leader V)
        → Reached left l (attempts engine dispatch begin_txn text left id c l)
    unfolding attempts Reached
    attempts-Reached zero l = (0, l, omega arith, none_yet, last_attempt l (attempt l) refl)
    attempts-Reached (suc left) l =
        further_attempt left l (attempt l) refl (λ l'. attempts-Reached left l')

    -- When a transaction can be opened, every command is answered after at most three attempts, of
    -- which all but the last failed on the engine's side: by the last one's result or panic, by a
    -- single refusal of the type that the last one gave, or, only after the third, by a single
    -- refusal that reports the failure; a refusal carries the id of the caller that waits, and
    -- nothing is written with it.
    pub process_command-outcome :
        (l : Leader V)
        → (k : ℕ) × (l' : Leader V) × (k ≤ 2)
          × Failed k l l'
          × Decides (k ≡ 2) l' (process_command engine dispatch begin_txn text id c l)
    unfolding process_command Reached
    process_command-outcome l = attempts-Reached 2 l
