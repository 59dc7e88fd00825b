-- ===== src/StreamProcessor/Closing.antt =====
-- `NoopTerminatedLogStream` of crates/engine/src/log.rs: every append is closed by a `Noop`, so who folds
-- it has nothing in flight at its end.
use spica.Base.{
  ◌≡◌, refl, sym, ap, ◌∙◌, inl, inr, Bool, true, false, Option, none, some, [], ◌∷◌, ◌++◌, arith,
  if◌then◌else◌, Bool-cases, length, drop, drop-append, ok, err, ℤ, succ_i64,
}
use spica.Machinery.Timestamp.{Timestamp}
use spica.Storage.Fold.{continue, pure, ◌>>=◌}
use spica.Storage.Memory.{InMemoryDb, InMemoryTxn}
use spica.LogStream.{Entry, EntryId, LogStream, nil, stamp, append}
use spica.StreamProcessor.{
  Driver, EntryPayload, command, event, reject, noop, step, run_follower, close_batch,
}
use spica.StreamProcessor.Crash.{Entries, Outcome}

abbrev pub is_noop : {V : Type 0} → EntryPayload V → Bool
is_noop noop = true
is_noop _ = false

-- `matches!(entries.last(), Some(Noop))`.
unfoldable pub last_is_noop : {V : Type 0} → Entries V → Bool
last_is_noop [] = false
last_is_noop (e ∷ []) = is_noop e.payload
last_is_noop (e ∷ (f ∷ es)) = last_is_noop (f ∷ es)

-- What is appended in place of a batch.
unfoldable pub closed : {V : Type 0} → Timestamp → Entries V → Entries V
closed now es =
    if last_is_noop es
    then es
    else es
      ++ record {
        stream_id = nil;
        entry_id = nil;
        cause_id = none;
        timestamp = now;
        payload = noop;
      }
        ∷ []

-- `NoopTerminatedLogStream::append`.
unfoldable pub append_closed :
    {V : Type 0}
    → Timestamp
    → Entries V
    → LogStream (EntryPayload V)
    → EntryId × LogStream (EntryPayload V)
append_closed now es l = append (closed now es) l

module _ {V : Type 0} where
  last_is_noop-append :
      (es : Entries V) (e : Entry (EntryPayload V))
      → e.payload ≡ noop
      → last_is_noop (es ++ e ∷ []) ≡ true
  unfolding last_is_noop
  last_is_noop-append [] e h = ap is_noop h
  last_is_noop-append (x ∷ []) e h = ap is_noop h
  last_is_noop-append (x ∷ (y ∷ es)) e h = last_is_noop-append (y ∷ es) e h

  last_is_noop-closed : (now : Timestamp) (es : Entries V) → last_is_noop (closed now es) ≡ true
  unfolding closed
  last_is_noop-closed now es = elim (Bool-cases (last_is_noop es)) [
    | inl h ↦ rw (h, h) refl
    | inr h ↦ rw h (last_is_noop-append es _ refl)
  ]

  last_is_noop-stamp : (id : ℤ) (es : Entries V) → last_is_noop (stamp id es) ≡ last_is_noop es
  unfolding last_is_noop stamp
  last_is_noop-stamp id [] = refl
  last_is_noop-stamp id (x ∷ []) = refl
  last_is_noop-stamp id (x ∷ (y ∷ es)) = last_is_noop-stamp (succ_i64 id) (y ∷ es)

  close_batch-inflight :
      (id : EntryId) (db : InMemoryDb V) (o : Option (InMemoryTxn V))
      → (close_batch id db o).inflight ≡ none
  close_batch-inflight id db none = refl
  close_batch-inflight id db (some txn) = refl

  goes_on :
      (es : Entries V) (d' : Driver V) (o : Outcome V)
      → continue o.0 (λ u. run_follower es) o.1 ≡ (ok tt, d')
      → run_follower es o.1 ≡ (ok tt, d')
  goes_on es d' (ok u, d) h = h
  goes_on es d' (err e, d) h = grind arith

  noop-inflight :
      (e : Entry (EntryPayload V)) (p : EntryPayload V) (d : Driver V)
      → e.payload ≡ p
      → is_noop p ≡ true
      → (step e d).1.inflight ≡ none
  unfolding step
  noop-inflight e (command c) d h k = grind arith
  noop-inflight e (event x) d h k = grind arith
  noop-inflight e (reject r) d h k = grind arith
  noop-inflight e noop d h k = rw h (close_batch-inflight e.entry_id d.db d.inflight)

  closes :
      (es : Entries V) (d d' : Driver V)
      → last_is_noop es ≡ true
      → run_follower es d ≡ (ok tt, d')
      → d'.inflight ≡ none
  unfolding last_is_noop run_follower pure ◌>>=◌
  closes [] d d' h k = grind arith
  closes (e ∷ []) d d' h k =
      sym (ap (λ o. o.1.inflight) (goes_on [] d' (step e d) k)) ∙ noop-inflight e e.payload d refl h
  closes (e ∷ (f ∷ es)) d d' h k =
      closes (f ∷ es) (step e d).1 d' h (goes_on (f ∷ es) d' (step e d) k)

  -- Whoever folds without a fault what the log's adapter appended for a batch, whether or not the
  -- batch brought its own `Noop`, has no transaction in flight afterwards.
  pub append_closed-settles :
      (now : Timestamp) (batch : Entries V) (l : LogStream (EntryPayload V)) (d d' : Driver V)
      → run_follower (drop (length l.entries) (append_closed now batch l).1.entries) d ≡ (ok tt, d')
      → d'.inflight ≡ none
  unfolding append_closed append
  append_closed-settles now batch l d d' h =
      let added = stamp l.next_entry_id (closed now batch) in
      let tail : drop (length l.entries) (l.entries ++ added) ≡ added =
        ap (λ n. drop n (l.entries ++ added)) (omega arith) ∙ drop-append l.entries 0 added in
      closes added d d'
        (last_is_noop-stamp l.next_entry_id (closed now batch) ∙ last_is_noop-closed now batch)
        (ap (λ es. run_follower es d) (sym tail) ∙ h)
