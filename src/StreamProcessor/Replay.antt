-- ===== src/StreamProcessor/Replay.antt =====
-- The fold of a log by crates/engine/src/stream_processor.rs against the plain fold of its events.
use spica.Base.{◌≡◌, refl, sym, ap, ◌∙◌, Option, none, some, List, [], ◌∷◌}
use spica.Machinery.Timestamp.{Timestamp}
use spica.Types.Event.{Event}
use spica.Storage.Fold.{Fold, pure, ◌>>=◌}
use spica.Storage.Fold.Sim.{Sim, Sim-bind, Sim-pure}
use spica.Storage.View.{View, view_ops}
use spica.Storage.Memory.{InMemoryTxn, InMemoryDb}
use spica.Storage.Memory.Landing.{commit}
use spica.Storage.Memory.Refines.{view_txn, IsAhead, memory-Simulates}
use spica.Storage.Memory.Committed.{view_db-commit, begin_txn-IsAhead}
use spica.Applier.{dispatch_event}
use spica.Applier.Simulation.{dispatch_event-Sim}
use spica.LogStream.{Entry, EntryId}
use spica.StreamProcessor.{
  Driver, EntryPayload, command, event, reject, noop, opened, step, handle, run_follower,
  close_batch,
}

-- The events of a log folded one by one into the abstract store: no batches, no commits.
abbrev pub replay_payload : {V : Type 0} → Timestamp → EntryPayload V → Fold (View V) Unit
replay_payload now (command c) = pure tt
replay_payload now (event e) = dispatch_event view_ops now e
replay_payload now (reject r) = pure tt
replay_payload now noop = pure tt

unfoldable pub replay : {V : Type 0} → List (Entry (EntryPayload V)) → Fold (View V) Unit
replay [] = pure tt
replay (e ∷ es) = replay_payload e.timestamp e.payload >>= λ u. replay es

-- What a driver shows: its store, under the batch in flight.
abbrev pub shown : {V : Type 0} → Driver V → View V
shown d = view_txn (opened d.db d.inflight)

abbrev pub IsSound : {V : Type 0} → Driver V → Type 0
IsSound d = IsAhead (opened d.db d.inflight)

module _ {V : Type 0} where
  close_batch-shown :
      (id : EntryId) (db : InMemoryDb V) (o : Option (InMemoryTxn V))
      → IsAhead (opened db o)
      → (shown (close_batch id db o) ≡ view_txn (opened db o)) × IsSound (close_batch id db o)
  close_batch-shown id db none h = (refl, h)
  close_batch-shown id db (some txn) h =
      (view_db-commit txn (some id) h, begin_txn-IsAhead (commit txn (some id)))

  handle-Sim :
      (id : EntryId) (now : Timestamp) (p : EntryPayload V)
      → Sim shown IsSound (handle id now p) (replay_payload now p)
  unfolding pure
  handle-Sim id now (command c) = record { at = λ s i. (refl, refl, i) }
  handle-Sim id now (event e) = record {
    at = λ s i. (dispatch_event-Sim memory-Simulates.folds now e).at (opened s.db s.inflight) i;
  }
  handle-Sim id now (reject r) = record { at = λ s i. (refl, refl, i) }
  handle-Sim id now noop = record {
    at = λ s i. let (p, j) = close_batch-shown id s.db s.inflight i in (refl, p, j);
  }

  pub run_follower-Sim :
      (es : List (Entry (EntryPayload V))) → Sim shown IsSound (run_follower es) (replay es)
  unfolding run_follower replay step
  run_follower-Sim [] = Sim-pure tt
  run_follower-Sim (e ∷ es) =
      Sim-bind (step e) (replay_payload e.timestamp e.payload) (λ u. run_follower es)
        (λ u. replay es) (handle-Sim e.entry_id e.timestamp e.payload) (λ u. run_follower-Sim es)

abbrev pub fact_of :
    {V : Type 0}
    → Timestamp
    → EntryPayload V
    → List (Timestamp × Event V)
    → List (Timestamp × Event V)
fact_of now (event e) fs = (now, e) ∷ fs
fact_of now _ fs = fs

-- The events of a log, with their instants.
unfoldable pub facts : {V : Type 0} → List (Entry (EntryPayload V)) → List (Timestamp × Event V)
facts [] = []
facts (e ∷ es) = fact_of e.timestamp e.payload (facts es)

module _ {V : Type 0} where
  -- The plain fold of a list of events.
  replay_facts : List (Timestamp × Event V) → Fold (View V) Unit
  replay_facts [] = pure tt
  replay_facts ((now, e) ∷ fs) = dispatch_event view_ops now e >>= λ u. replay_facts fs

  replay_payload-facts :
      (now : Timestamp) (p : EntryPayload V) (fs : List (Timestamp × Event V))
      → (replay_payload now p >>= λ u. replay_facts fs) ≡ replay_facts (fact_of now p fs)
  unfolding replay_facts pure ◌>>=◌
  replay_payload-facts now (command c) fs = refl
  replay_payload-facts now (event e) fs = refl
  replay_payload-facts now (reject r) fs = refl
  replay_payload-facts now noop fs = refl

  replay-facts : (es : List (Entry (EntryPayload V))) → replay es ≡ replay_facts (facts es)
  unfolding replay facts replay_facts
  replay-facts [] = refl
  replay-facts (e ∷ es) =
      ap (λ r. replay_payload e.timestamp e.payload >>= λ u. r) (replay-facts es)
      ∙ replay_payload-facts e.timestamp e.payload (facts es)

  -- From a driver whose counter is not behind its store's, the follower's loop over any entries has
  -- the same result, and shows the same rows, scopes, edges and counter, as folding the events one
  -- by one into the abstract store, with no batches and no commits; and its counter is still not
  -- behind.
  pub run_follower-replay :
      (es : List (Entry (EntryPayload V))) (d : Driver V)
      → IsSound d
      → ((run_follower es d).0 ≡ (replay es (shown d)).0)
        × (shown (run_follower es d).1 ≡ (replay es (shown d)).1)
        × IsSound (run_follower es d).1
  run_follower-replay es d h = (run_follower-Sim es).at d h

  -- Two logs with the same events at the same instants, however they are cut into batches and
  -- whatever commands and refusals stand between them, take two drivers that show the same, and
  -- whose counters are not behind their stores', to the same result and to states that show the
  -- same.
  pub run_follower-facts :
      (es fs : List (Entry (EntryPayload V))) (d d' : Driver V)
      → facts es ≡ facts fs
      → IsSound d
      → IsSound d'
      → shown d ≡ shown d'
      → ((run_follower es d).0 ≡ (run_follower fs d').0)
        × (shown (run_follower es d).1 ≡ shown (run_follower fs d').1)
  run_follower-facts es fs d d' same h h' eq =
      let (p, q, i) = run_follower-replay es d h in
      let (p', q', i') = run_follower-replay fs d' h' in
      let t : replay es (shown d) ≡ replay fs (shown d') =
        ap (λ r. r (shown d)) (replay-facts es ∙ ap replay_facts same ∙ sym (replay-facts fs))
        ∙ ap (replay fs) eq in
      (p ∙ ap (λ o. o.0) t ∙ sym p', q ∙ ap (λ o. o.1) t ∙ sym q')
