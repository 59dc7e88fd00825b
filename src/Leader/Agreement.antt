-- ===== src/Leader/Agreement.antt =====
-- What the leader of crates/engine/src/leader.rs folds while it decides against what a follower folds
-- from the entries that it appends (crates/engine/src/follower.rs).
use spica.Base.{arith, ◌≡◌, refl, sym, ap, ◌∙◌, List, [], ◌∷◌, ◌++◌, Str, Result, ok, err}
use spica.Machinery.Timestamp.{Timestamp}
use spica.Types.Event.{Event}
use spica.Types.Command.{Command}
use spica.LogStream.{Entry}
use spica.StreamProcessor.{EntryPayload, command, reject}
use spica.StreamProcessor.Replay.{replay, replay_payload}
use spica.Storage.Fold.{Fault, pure, continue, ◌>>=◌}
use spica.Storage.View.{View, view_ops}
use spica.Storage.Memory.{InMemoryTxn}
use spica.Storage.Memory.Txn.{memory_ops}
use spica.Storage.Memory.Refines.{view_txn, memory_rows}
use spica.Applier.{dispatch_event}
use spica.Applier.Births.{mint_generated_seq}
use spica.Applier.Rows.{rows, dispatch_event-rows}
use spica.Applier.Simulation.{dispatch_event-Sim}
use spica.Elements.Interface.{Engine}
use spica.Elements.Context.{remember}
use spica.Elements.Handle.{Work, now, mint, next_generated_seq, push, append_event}
use spica.Elements.Dispatch.{dispatch_command}
use spica.Elements.Keeps.{Keeps, Kept}
use spica.Elements.Keeps.Dispatch.{dispatch_command-Keeps}

module _ {V : Type 0} where
  continue-pure : (r : Result Fault Unit) (s : View V) → continue r (λ u. pure tt) s ≡ (r, s)
  unfolding pure
  continue-pure (ok u) s = refl
  continue-pure (err e) s = refl

  -- A replay that went through, cut before its last entry.
  abbrev IsCut : List (Entry (EntryPayload V)) → Entry (EntryPayload V) → View V → Type 0
  IsCut es e s =
      ((replay es s).0 ≡ ok tt)
      × (replay (es ++ e ∷ []) s ≡ replay_payload e.timestamp e.payload (replay es s).1)

  continue-IsCut :
      (r : Result Fault Unit) (es : List (Entry (EntryPayload V))) (e : Entry (EntryPayload V))
      (s : View V)
      → ((replay (es ++ e ∷ []) s).0 ≡ ok tt → IsCut es e s)
      → (continue r (λ u. replay (es ++ e ∷ [])) s).0 ≡ ok tt
      → ((continue r (λ u. replay es) s).0 ≡ ok tt)
        × (continue r (λ u. replay (es ++ e ∷ [])) s
            ≡ replay_payload e.timestamp e.payload (continue r (λ u. replay es) s).1)
  continue-IsCut (ok u) es e s ih h = ih h
  continue-IsCut (err x) es e s ih h = ground arith

  replay-IsCut :
      (es : List (Entry (EntryPayload V))) (e : Entry (EntryPayload V)) (s : View V)
      → (replay (es ++ e ∷ []) s).0 ≡ ok tt
      → IsCut es e s
  unfolding replay ◌>>=◌ pure
  replay-IsCut [] e s h = (
    refl,
    continue-pure (replay_payload e.timestamp e.payload s).0
        (replay_payload e.timestamp e.payload s).1,
  )
  replay-IsCut (x ∷ es) e s h =
      continue-IsCut (replay_payload x.timestamp x.payload s).0 es e
        (replay_payload x.timestamp x.payload s).1 (replay-IsCut es e _) h

-- The working store shows the rows that replaying the entries over the base shows, when that replay
-- goes through.
abbrev pub Agrees : {V : Type 0} → View V → Work V (InMemoryTxn V) → Type 0
Agrees base w =
    (replay w.entries base).0 ≡ ok tt → rows (view_txn w.store) ≡ rows (replay w.entries base).1

module _ {V : Type 0} where
  memory_event-rows :
      (t : Timestamp) (e : Event V) (s : InMemoryTxn V) (v : View V)
      → rows (view_txn s) ≡ rows v
      → rows (view_txn (dispatch_event memory_ops t e s).1) ≡ rows (dispatch_event view_ops t e v).1
  memory_event-rows t e s v h =
      let (p, q, i) = (dispatch_event-Sim memory_rows t e).at s tt in
      ap rows q ∙ (dispatch_event-rows t e (view_txn s) v h).1

  mint-rows :
      (s : InMemoryTxn V) → rows (view_txn (mint_generated_seq memory_ops s).1) ≡ rows (view_txn s)
  unfolding mint_generated_seq
  mint-rows s = refl

  extended :
      (base : View V) (es : List (Entry (EntryPayload V))) (e : Entry (EntryPayload V)) (r : View V)
      → ((replay es base).0 ≡ ok tt
          → r ≡ rows (replay_payload e.timestamp e.payload (replay es base).1).1)
      → (replay (es ++ e ∷ []) base).0 ≡ ok tt
      → r ≡ rows (replay (es ++ e ∷ []) base).1
  extended base es e r h k =
      let (went, cut) = replay-IsCut es e base k in h went ∙ ap (λ x. rows x.1) (sym cut)

  -- What is not an event leaves a replay as it was.
  extended_quietly :
      (base : View V) (w : Work V (InMemoryTxn V)) (e : Entry (EntryPayload V))
      → ((v : View V) → (replay_payload e.timestamp e.payload v).1 ≡ v)
      → Agrees base w
      → (replay (w.entries ++ e ∷ []) base).0 ≡ ok tt
      → rows (view_txn w.store) ≡ rows (replay (w.entries ++ e ∷ []) base).1
  extended_quietly base w e quiet h =
      extended base w.entries e (rows (view_txn w.store)) λ went. h went ∙ ap rows (sym (quiet _))

module _ {V : Type 0} (base : View V) (engine : Engine V (InMemoryTxn V))
    (over_memory : engine.txn ≡ memory_ops) where
  pushed :
      (p : EntryPayload V)
      → ((t : Timestamp) (v : View V) → (replay_payload t p v).1 ≡ v)
      → Keeps (Agrees base) (push engine p)
  unfolding push
  pushed p quiet = record { at = λ w h. extended_quietly base w _ (quiet _) h }

  appended : (e : Event V) → Keeps (Agrees base) (append_event engine e)
  unfolding append_event push
  appended e = record {
    at = λ w h. extended base w.entries _ _ λ went.
        ap (λ o. rows (view_txn (dispatch_event o (engine.clock w.readings) e w.store).1))
          over_memory
        ∙ memory_event-rows (engine.clock w.readings) e w.store (replay w.entries base).1 (h went);
  }

  dispatch_Kept : Kept (Agrees base) engine
  unfolding now mint next_generated_seq remember pure
  dispatch_Kept = record {
    event = appended;
    command = λ c. pushed (command c) (λ t v. refl);
    refusal = λ r. pushed (reject r) (λ t v. refl);
    reading = record { at = λ w h. h };
    id = record { at = λ w h. h };
    seq = record {
      at = λ w h went.
          ap (λ o. rows (view_txn (mint_generated_seq o w.store).1)) over_memory
          ∙ mint-rows w.store
          ∙ h went;
    };
    definition = λ r m. record { at = λ w h. h };
  }

  -- A command.
  pub dispatch_command-Agrees :
      (reason : Str) (c : Command V) (w : Work V (InMemoryTxn V))
      → Agrees base w
      → Agrees base (dispatch_command engine reason c w).1
  dispatch_command-Agrees reason c w h = (dispatch_command-Keeps reason dispatch_Kept c).at w h
