-- ===== src/StreamProcessor/Recovery.antt =====
-- `run_follower` and `recover_leader` of crates/engine/src/stream_processor.rs against each other, and
-- the run that takes over after a crash.
use spica.Base.{
  ℕ, zero, suc, ◌+◌, ◌^◌, ◌≤◌, ◌<◌, ◌≡◌, refl, sym, ap, ◌∙◌, ◌⊎◌, inl, inr, Option, none, some, [],
  ◌∷◌, arith, length, get_elem?, take, drop, drop-drop, length-drop, ok, err, pos, succ_i64,
  succ_i64-pos,
}
use spica.Storage.Fold.{continue, pure, ◌>>=◌}
use spica.Storage.Memory.{InMemoryDb}
use spica.LogStream.{Entry, EntryId, LogStream, stream_read, read}
use spica.LogStream.Positions.{Numbered-at, Numbered-drop, IsContiguous}
use spica.StreamProcessor.{Driver, EntryPayload, started, step, run_follower, run_from_watermark}
use spica.StreamProcessor.Crash.{Resumes, Recovers, recovers, Entries, Outcome}

module _ {V : Type 0} where
  pub stream_read-after :
      (w : ℕ) (log : LogStream (EntryPayload V))
      → w + 1 < 2 ^ 63
      → stream_read (succ_i64 (pos w)) log ≡ drop w log.entries
  unfolding stream_read
  stream_read-after w log h =
      let p : pos (w + 1) ≡ pos (suc w) = ap pos (omega arith) in
      ap (λ id. stream_read id log) (succ_i64-pos w h ∙ p)

  -- In a log without gaps whose tail fits an `i64`, over a store whose watermark lies within the
  -- log: a follower that is stopped after any number of entries, by a crash or by a fault, and
  -- started again on what it had committed, ends with the same result and in the same state as one
  -- that was never stopped.
  pub run_from_watermark_resumes :
      (log : LogStream (EntryPayload V)) (db : InMemoryDb V) (w n : ℕ)
      → IsContiguous log
      → 1 + length log.entries < 2 ^ 63
      → db.last_processed_position ≡ pos w
      → w ≤ length log.entries
      → run_from_watermark
          (run_follower
            (take n (stream_read (succ_i64 db.last_processed_position) log))
            (started db)).1.db
          log
        ≡ run_from_watermark db log
  unfolding run_from_watermark Recovers Resumes run_follower pure
  run_from_watermark_resumes log db w n (num, next) fits at within =
      let tail : stream_read (succ_i64 db.last_processed_position) log ≡ drop w log.entries =
        ap (λ p. stream_read (succ_i64 p) log) at
        ∙ stream_read-after w log (omega (arith, fits, within)) in
      let (m, w', l, r) =
        recovers n (drop w log.entries) w db [] (started db) at refl refl
          (Numbered-at (omega arith) (drop w log.entries) (Numbered-drop 1 w log.entries num)) in
      let stopped = (run_follower (take n (drop w log.entries)) (started db)).1 in
      let rest : stream_read (succ_i64 stopped.db.last_processed_position) log
          ≡ drop (w + m) log.entries =
        ap (λ p. stream_read (succ_i64 p) log) w'
        ∙ stream_read-after (w + m) log
            (omega (arith, fits, within, l, length-drop w log.entries)) in
      rw tail (
        ap (λ es. run_follower es (started stopped.db)) (rest ∙ sym (drop-drop m w log.entries))
        ∙ r)

  -- After a turn: an error leaves the loop, and otherwise it goes on.
  abbrev pub recovered : Outcome V → (Driver V → Option (Outcome V)) → Option (Outcome V)
  recovered (ok u, d) rest = rest d
  recovered (err f, d) rest = some (err f, d)

  abbrev pub recover_turn :
      Option (Entry (EntryPayload V))
      → Driver V
      → (Driver V → Option (Outcome V))
      → Option (Outcome V)
  recover_turn none d rest = some (ok tt, d)
  recover_turn (some e) d rest = recovered (step e d) rest

  -- The loop of `recover_leader`, from a position on until the log has no entry there; `none` stands
  -- for a loop that goes on.
  unfoldable pub recover_loop :
      ℕ → EntryId → LogStream (EntryPayload V) → Driver V → Option (Outcome V)
  recover_loop zero id log d = none
  recover_loop (suc fuel) id log d =
      recover_turn (read id log) d λ d1. recover_loop fuel (succ_i64 id) log d1

  -- `recover_leader`.
  unfoldable pub recover_leader : ℕ → InMemoryDb V → LogStream (EntryPayload V) → Option (Outcome V)
  recover_leader fuel db log =
      recover_loop fuel (succ_i64 db.last_processed_position) log (started db)

  -- What is read at an index is the head of what is left from there.
  get_elem?-drop :
      (i : ℕ) (es : Entries V)
      → ((get_elem? es i ≡ none) × (drop i es ≡ []))
        ⊎ ((e : Entry (EntryPayload V)) × (get_elem? es i ≡ some e)
            × (drop i es ≡ e ∷ drop (suc i) es)
            × (i < length es))
  get_elem?-drop zero [] = inl (refl, refl)
  get_elem?-drop (suc i) [] = inl (refl, refl)
  get_elem?-drop zero (e ∷ es) = inr (e, refl, refl, omega arith)
  get_elem?-drop (suc i) (e ∷ es) = elim (get_elem?-drop i es) [
    | inl p ↦ inl p
    | inr (x, p, q, r) ↦ inr (x, p, q, omega (arith, r))
  ]

  -- One turn of the loop, for whatever the rest of it does.
  loop_turn :
      (fuel i : ℕ) (log : LogStream (EntryPayload V)) (o : Outcome V)
      → ((d : Driver V)
          → recover_loop fuel (succ_i64 (pos (suc i))) log d
            ≡ some (run_follower (drop (suc i) log.entries) d))
      → recovered o (λ d. recover_loop fuel (succ_i64 (pos (suc i))) log d)
        ≡ some (continue o.0 (λ u. run_follower (drop (suc i) log.entries)) o.1)
  loop_turn fuel i log (ok u, d) ih = ih d
  loop_turn fuel i log (err f, d) ih = refl

  recover_loop-run :
      (fuel i : ℕ) (log : LogStream (EntryPayload V)) (d : Driver V)
      → 1 + length log.entries < 2 ^ 63
      → length log.entries < fuel + i
      → i ≤ length log.entries
      → recover_loop fuel (pos (suc i)) log d ≡ some (run_follower (drop i log.entries) d)
  unfolding recover_loop run_follower pure ◌>>=◌ read
  recover_loop-run zero i log d fits enough h = ground arith
  recover_loop-run (suc fuel) i log d fits enough h = elim (get_elem?-drop i log.entries) [
    | inl (p, q) ↦ rw (p, q) refl
    | inr (e, p, q, r) ↦
        let next : succ_i64 (pos (suc i)) ≡ pos (suc (suc i)) =
          succ_i64-pos (suc i) (omega (arith, fits, r)) ∙ ap pos (omega arith) in
        rw (p, q)
          (loop_turn fuel i log (step e d) λ d1.
            rw next (
              recover_loop-run fuel (suc i) log d1 fits (omega (arith, enough)) (omega (arith, r))))
  ]

  -- In a log whose tail fits an `i64`, over a store whose watermark lies within the log: with more
  -- turns than the log has entries the recovery loop of the leader ends, and does to the store what
  -- a follower started there does.
  pub recover_leader-run :
      (log : LogStream (EntryPayload V)) (db : InMemoryDb V) (w fuel : ℕ)
      → 1 + length log.entries < 2 ^ 63
      → db.last_processed_position ≡ pos w
      → w ≤ length log.entries
      → length log.entries < fuel
      → recover_leader fuel db log ≡ some (run_from_watermark db log)
  unfolding recover_leader run_from_watermark
  recover_leader-run log db w fuel fits at within enough =
      let next : succ_i64 (pos w) ≡ pos (suc w) =
        succ_i64-pos w (omega (arith, fits, within)) ∙ ap pos (omega arith) in
      let tail : stream_read (succ_i64 db.last_processed_position) log ≡ drop w log.entries =
        ap (λ p. stream_read (succ_i64 p) log) at
        ∙ stream_read-after w log (omega (arith, fits, within)) in
      ap (λ id. recover_loop fuel id log (started db)) (ap succ_i64 at ∙ next)
      ∙ recover_loop-run fuel w log (started db) fits (omega (arith, enough)) within
      ∙ ap (λ es. some (run_follower es (started db))) (sym tail)
