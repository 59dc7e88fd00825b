-- ===== src/StreamProcessor/Crash.antt =====
-- A crash of crates/engine/src/stream_processor.rs at any entry of the log, and the run that takes over:
-- the transaction in flight is lost, and the watermark says where to read again.
use spica.Base.{
  ℕ, zero, suc, ◌+◌, ◌≤◌, ◌≡◌, refl, sym, ap, ◌∙◌, ◌⊎◌, inl, inr, Option, none, some, List, [], ◌∷◌,
  ◌++◌, append_assoc, arith, length, take, drop, drop-append, length-append, Result, ok, err, pos,
}
use spica.Machinery.Timestamp.{Timestamp}
use spica.Storage.Fold.{Fault, continue, pure, ◌>>=◌}
use spica.Storage.Memory.{InMemoryDb, InMemoryTxn}
use spica.Storage.Memory.Landing.{commit}
use spica.LogStream.{Entry, EntryId}
use spica.LogStream.Positions.{Numbered, Numbered-at}
use spica.StreamProcessor.{
  Driver, EntryPayload, command, event, reject, noop, started, step, handle, run_follower,
  close_batch,
}

abbrev pub Entries : Type 0 → Type 0
Entries V = List (Entry (EntryPayload V))

abbrev pub Outcome : Type 0 → Type 0
Outcome V = Result Fault Unit × Driver V

module _ {V : Type 0} where
  -- A turn leaves the store as it is, or commits a batch at the entry's position.
  StepOutcome : Driver V → EntryId → Result Fault Unit × Driver V → Type 0
  StepOutcome d id o =
      (o.1.db ≡ d.db)
      ⊎ ((db : InMemoryDb V) × (o ≡ (ok tt, started db)) × (db.last_processed_position ≡ id))

  close_batch-outcome :
      (id : EntryId) (d : Driver V) (o : Option (InMemoryTxn V))
      → StepOutcome d id (ok tt, close_batch id d.db o)
  unfolding StepOutcome commit
  close_batch-outcome id d none = inl refl
  close_batch-outcome id d (some txn) = inr (commit txn (some id), refl, refl)

  handle-outcome :
      (id : EntryId) (now : Timestamp) (p : EntryPayload V) (d : Driver V)
      → StepOutcome d id (handle id now p d)
  unfolding StepOutcome
  handle-outcome id now (command c) d = inl refl
  handle-outcome id now (event e) d = inl refl
  handle-outcome id now (reject r) d = inl refl
  handle-outcome id now noop d = close_batch-outcome id d d.inflight

  -- The rest of a log, run from where its beginning led.
  after : Outcome V → Entries V → Outcome V
  after (r, d) es = continue r (λ u. run_follower es) d

  after-append :
      (xs ys : Entries V) (d' : Driver V)
      → ((d : Driver V)
          → run_follower xs d ≡ (ok tt, d')
          → run_follower (xs ++ ys) d ≡ run_follower ys d')
      → (o : Outcome V) → after o xs ≡ (ok tt, d')
      → after o (xs ++ ys) ≡ run_follower ys d'
  unfolding after
  after-append xs ys d' ih (ok u, d) h = ih d h
  after-append xs ys d' ih (err e, d) h = grind arith

  run-append :
      (xs ys : Entries V) (d d' : Driver V)
      → run_follower xs d ≡ (ok tt, d')
      → run_follower (xs ++ ys) d ≡ run_follower ys d'
  unfolding run_follower pure ◌>>=◌ after
  run-append [] ys d d' h = ap (λ o. run_follower ys o.1) h
  run-append (x ∷ xs) ys d d' h = after-append xs ys d' (λ d0. run-append xs ys d0 d') (step x d) h

  -- From the store of `stopped`, whose watermark is `m` entries into `log`, what is left of `log` runs
  -- as `es` runs from `d`.
  unfoldable pub Resumes : ℕ → Entries V → Outcome V → Driver V → Type 0
  Resumes q log whole stopped =
      (m : ℕ) × (stopped.db.last_processed_position ≡ pos (q + m))
      × (m ≤ length log)
      × (run_follower (drop m log) (started stopped.db) ≡ whole)

  stays :
      (q : ℕ) (db : InMemoryDb V) (ps es : Entries V) (d stopped : Driver V)
      → db.last_processed_position ≡ pos q
      → run_follower ps (started db) ≡ (ok tt, d)
      → stopped.db ≡ db
      → Resumes q (ps ++ es) (run_follower es d) stopped
  unfolding Resumes
  stays q db ps es d stopped w h p = (
    0,
    ap (λ x. x.last_processed_position) p ∙ w ∙ ap pos (omega arith),
    omega arith,
    ap (λ x. run_follower (ps ++ es) (started x)) p ∙ run-append ps es (started db) d h,
  )

  -- What resumes the same run after one more entry that commits nothing.
  widened :
      (q : ℕ) (ps es : Entries V) (e : Entry (EntryPayload V)) (whole whole' : Outcome V)
      (stopped : Driver V)
      → whole ≡ whole'
      → Resumes q ((ps ++ e ∷ []) ++ es) whole stopped
      → Resumes q (ps ++ e ∷ es) whole' stopped
  widened q ps es e whole whole' stopped h r =
      let eq : (ps ++ e ∷ []) ++ es ≡ ps ++ e ∷ es = append_assoc ps (e ∷ []) es in rw (← h, ← eq) r

  drop-one :
      (m : ℕ) (e : Entry (EntryPayload V)) (es : Entries V) → drop (1 + m) (e ∷ es) ≡ drop m es
  drop-one m e es = let p : 1 + m ≡ suc m = omega arith in rw p refl

  -- What resumes the same run after the entry that committed a batch.
  moved :
      (q : ℕ) (ps es : Entries V) (e : Entry (EntryPayload V)) (whole whole' : Outcome V)
      (stopped : Driver V)
      → whole ≡ whole'
      → Resumes (q + length ps + 1) es whole stopped
      → Resumes q (ps ++ e ∷ es) whole' stopped
  unfolding Resumes
  moved q ps es e whole whole' stopped h (m, w, l, r) = (
    length ps + (1 + m),
    w ∙ ap pos (omega arith),
    omega (arith, l, length-append ps (e ∷ es)),
    ap (λ xs. run_follower xs (started stopped.db))
          (drop-append ps (1 + m) (e ∷ es) ∙ drop-one m e es)
        ∙ r
        ∙ h,
  )

  unfoldable pub Recovers : ℕ → Entries V → Type 0
  Recovers n es =
      (q : ℕ) (db : InMemoryDb V) (ps : Entries V) (d : Driver V)
      → db.last_processed_position ≡ pos q
      → run_follower ps (started db) ≡ (ok tt, d)
      → d.db ≡ db
      → Numbered (q + length ps + 1) es
      → Resumes q (ps ++ es) (run_follower es d) (run_follower (take n es) d).1

  turn :
      (n : ℕ) (es : Entries V)
      → Recovers n es
      → (q : ℕ) (db : InMemoryDb V) (ps : Entries V) (d : Driver V)
      → db.last_processed_position ≡ pos q
      → run_follower ps (started db) ≡ (ok tt, d)
      → d.db ≡ db
      → (e : Entry (EntryPayload V)) → Numbered (q + length ps + 1) (e ∷ es)
      → (o : Outcome V) → step e d ≡ o
      → StepOutcome d e.entry_id o
      → Resumes q (ps ++ e ∷ es) (run_follower (e ∷ es) d) (after o (take n es)).1
  unfolding Recovers StepOutcome run_follower pure ◌>>=◌ after
  turn n es ih q db ps d w h k e num (err f, d1) eq (inl p) =
      stays q db ps (e ∷ es) d d1 w h (p ∙ k)
  turn n es ih q db ps d w h k e num (err f, d1) eq (inr (db', eq', w')) = grind arith
  turn n es ih q db ps d w h k e (pe, num) (ok u, d1) eq (inl p) =
      let run_one : run_follower (ps ++ e ∷ []) (started db) ≡ (ok tt, d1) =
        run-append ps (e ∷ []) (started db) d h ∙ ap (λ o. after o []) eq in
      widened q ps es e (run_follower es d1) (run_follower (e ∷ es) d)
        (run_follower (take n es) d1).1 (sym (ap (λ o. after o es) eq))
        (ih q db (ps ++ e ∷ []) d1 w run_one (p ∙ k)
          (Numbered-at (omega (arith, length-append ps (e ∷ []))) es num))
  turn n es ih q db ps d w h k e (pe, num) (ok u, d1) eq (inr (db', eq', w')) =
      let st : d1 ≡ started db' = ap (λ o. o.1) eq' in
      rw st (
        moved q ps es e (run_follower es (started db')) (run_follower (e ∷ es) d)
          (run_follower (take n es) (started db')).1 (sym (ap (λ o. after o es) (eq ∙ eq')))
          (ih (q + length ps + 1) db' [] (started db') (w' ∙ pe) refl refl
            (Numbered-at (omega arith) es num)))

  -- However many entries were processed, the watermark is where the rest must be read from.
  pub recovers : (n : ℕ) (es : Entries V) → Recovers n es
  unfolding Recovers run_follower pure ◌>>=◌ after step
  recovers zero es = λ q db ps d w h k num. stays q db ps es d d w h k
  recovers (suc n) [] = λ q db ps d w h k num. stays q db ps [] d d w h k
  recovers (suc n) (e ∷ es) = λ q db ps d w h k num.
      turn n es (recovers n es) q db ps d w h k e num (step e d) refl
        (handle-outcome e.entry_id e.timestamp e.payload d)
