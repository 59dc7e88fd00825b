-- ===== src/StreamProcessor/Names.antt =====
-- Generated names: the mint of crates/engine/src/working.rs after a log that the appliers folded.
use spica.Base.{ℕ, ◌+◌, ◌^◌, ◌<◌, ◌≡◌, refl, some, List, [], ◌∷◌, ok, ℤ, max_ℤ-self}
use spica.Machinery.Timestamp.{Timestamp}
use spica.Machinery.Name.{ObjectName, suffix}
use spica.Types.Event.{Event}
use spica.Storage.Fold.Sim.{Sim, Sim-bind, Sim-pure}
use spica.Storage.View.{View, view_ops}
use spica.Applier.{dispatch_event}
use spica.Applier.Simulation.{dispatch_event-Sim}
use spica.Applier.Keyed.{IsKeyed, IsKeyedFrom, keyed_Simulates, dispatch_event-IsKeyed}
use spica.Applier.Births.{
  born, as_u64, mint_generated_seq, past_grown, minted_past, dispatch_event-IsPast,
}
use spica.LogStream.{Entry}
use spica.StreamProcessor.{EntryPayload, command, event, reject, noop}
use spica.StreamProcessor.Replay.{replay, replay_payload}

module _ {V : Type 0} where
  payload_keyed :
      (n0 : ℤ) (now : Timestamp) (p : EntryPayload V)
      → Sim (λ (s : View V). s) (IsKeyedFrom n0) (replay_payload now p) (replay_payload now p)
  payload_keyed n0 now (command c) = Sim-pure tt
  payload_keyed n0 now (event e) = dispatch_event-Sim (keyed_Simulates n0) now e
  payload_keyed n0 now (reject r) = Sim-pure tt
  payload_keyed n0 now noop = Sim-pure tt

  replay_keyed :
      (n0 : ℤ) (es : List (Entry (EntryPayload V)))
      → Sim (λ (s : View V). s) (IsKeyedFrom n0) (replay es) (replay es)
  unfolding replay
  replay_keyed n0 [] = Sim-pure tt
  replay_keyed n0 (e ∷ es) =
      Sim-bind (replay_payload e.timestamp e.payload) (replay_payload e.timestamp e.payload)
        (λ u. replay es) (λ u. replay es) (payload_keyed n0 e.timestamp e.payload)
        (λ u. replay_keyed n0 es)

  -- Over a store whose rows lie under their own names: after an event that gives birth to an
  -- activity, a task or a thread whose name has a suffix below 2^63 - 1, and after any further log,
  -- a minted suffix is greater than that one.
  pub mint-IsFresh :
      (now : Timestamp) (e : Event V) (name : ObjectName) (n : ℕ) (s : View V)
      (es : List (Entry (EntryPayload V)))
      → IsKeyed s
      → born e ≡ some name
      → suffix name ≡ some n
      → n + 1 < 2 ^ 63
      → (m : ℕ) × ((mint_generated_seq view_ops (replay es (dispatch_event view_ops now e s).1).1).0
          ≡ ok m)
        × (n < m)
  unfolding mint_generated_seq
  mint-IsFresh now e name n s es k b h fits =
      let s1 = (dispatch_event view_ops now e s).1 in
      let s2 = (replay es s1).1 in
      let (k1, g) = dispatch_event-IsKeyed now e s k in
      let (p, q, i) = (replay_keyed s1.seq es).at s1 (k1, max_ℤ-self s1.seq) in
      (
        as_u64 s2.seq,
        refl,
        minted_past n s2.seq
            (past_grown n s1.seq s2.seq (dispatch_event-IsPast now e name n s b h fits) i.1),
      )
