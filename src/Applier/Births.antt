-- ===== src/Applier/Births.antt =====
-- The events of crates/engine/src/applier that give birth to an object, the counter of generated
-- names, and `WorkingState::mint_generated_seq` of crates/engine/src/working.rs.
use spica.Base.{
  ℕ, suc, ◌+◌, ◌-◌, ◌^◌, ◌<◌, ◌≡◌, refl, true, Option, none, some, arith, Result, ok, err, ℤ, pos,
  negsuc, leb_ℤ, max_ℤ, as_i64, succ_i64,
}
use spica.Machinery.Timestamp.{Timestamp}
use spica.Machinery.Name.{ObjectName, suffix}
use spica.Types.Meta.{
  object_ref, raw_object_ref, thread_owner_ref, ThreadOwner, execution_owner, activity_owner,
}
use spica.Types.Event.{Event}
use spica.Types.Thread.{Thread}
use spica.Types.Activity.{Activity}
use spica.Types.Task.{Task}
use spica.Storage.Fold.{Fold, Fault, pure, when_some, ok_or_none, ◌>>=◌}
use spica.Storage.Contract.{StorageTxn}
use spica.Storage.View.{View, view_ops}
use spica.Applier.GeneratedSeq.{bump_generated_seq}
use spica.Applier.State
use spica.Applier.Task
use spica.Applier.Thread
use spica.Applier.{dispatch_event}

-- The name of the object that an event gives birth to, of the kinds whose names are generated.
abbrev pub born : {V : Type 0} → Event V → Option ObjectName
born (Event.state_activating a) = some a.meta.name
born (Event.task_activated t) = some t.meta.name
born (Event.thread_created t) = some t.meta.name
born _ = none

-- `n as u64`.
abbrev pub as_u64 : ℤ → ℕ
as_u64 (pos n) = n
as_u64 (negsuc n) = 2 ^ 64 - 1 - n

abbrev or_zero : Result Fault ℤ → ℤ
or_zero (ok n) = n
or_zero (err e) = pos 0

module _ {V S : Type 0} (storage : StorageTxn V S) where
  -- A failed read counts as 0 and a failed write is ignored.
  unfoldable pub mint_generated_seq : Fold S ℕ
  mint_generated_seq s =
      let (r, s1) = storage.next_generated_seq s in
      let n = or_zero r in (ok (as_u64 n), (storage.put_next_generated_seq (succ_i64 n) s1).1)

born-suffix : (a b : ObjectName) (n : ℕ) → some a ≡ some b → suffix b ≡ some n → suffix a ≡ some n
born-suffix a b n p h = grind arith

past_max :
    (a : ℤ) (n : ℕ) → n + 1 < 2 ^ 63 → leb_ℤ (pos (suc n)) (max_ℤ a (succ_i64 (as_i64 n))) ≡ true
past_max (pos a) n h = ground arith
past_max (negsuc a) n h = ground arith

pub past_grown :
    (n : ℕ) (a b : ℤ) → leb_ℤ (pos (suc n)) a ≡ true → max_ℤ a b ≡ b → leb_ℤ (pos (suc n)) b ≡ true
past_grown n (pos a) (pos b) h k = ground arith
past_grown n (pos a) (negsuc b) h k = grind arith
past_grown n (negsuc a) b h k = ground arith

pub minted_past : (n : ℕ) (a : ℤ) → leb_ℤ (pos (suc n)) a ≡ true → n < as_u64 a
minted_past n (pos a) h = ground arith
minted_past n (negsuc a) h = ground arith

module _ {V : Type 0} where
  -- The counter is past a suffix.
  abbrev pub IsPast : ℕ → View V → Type 0
  IsPast n s = leb_ℤ (pos (suc n)) s.seq ≡ true

  -- The store after a bump past the suffix `n`.
  raised : ℕ → View V → View V
  raised n s = record s { seq = max_ℤ s.seq (succ_i64 (as_i64 n)) }

  bump-raised :
      (name : ObjectName) (n : ℕ) (s : View V)
      → suffix name ≡ some n
      → bump_generated_seq view_ops name s ≡ (ok tt, raised n s)
  unfolding bump_generated_seq when_some ◌>>=◌ raised
  bump-raised name n s h = rw h refl

  when_some-ok :
      {A : Type 0} (o : Option A) (f : A → Fold (View V) Unit) (s : View V)
      → ((a : A) → (s' : View V) × (f a s ≡ (ok tt, s')))
      → (s' : View V) × (when_some o f s ≡ (ok tt, s'))
  unfolding when_some pure
  when_some-ok none f s h = (s, refl)
  when_some-ok (some a) f s h = h a

  when_some-seq :
      {A : Type 0} (o : Option A) (f : A → Fold (View V) Unit) (s : View V)
      → ((a : A) → (f a s).1.seq ≡ s.seq)
      → (when_some o f s).1.seq ≡ s.seq
  unfolding when_some pure
  when_some-seq none f s h = refl
  when_some-seq (some a) f s h = h a

  inherit_scope-ok :
      (t : Thread V) (o : ThreadOwner) (s : View V)
      → (s' : View V) × (Thread.inherit_scope view_ops t o s ≡ (ok tt, s'))
  unfolding Thread.inherit_scope pure ◌>>=◌ when_some ok_or_none
  inherit_scope-ok t (execution_owner r) s = (s, refl)
  inherit_scope-ok t (activity_owner r) s =
      when_some-ok (s.activities r.name) _ s (λ act. (_, refl))

  fan_out-seq :
      (now : Timestamp) (t : Thread V) (o : ThreadOwner) (s : View V)
      → (Thread.fan_out view_ops now t o s).1.seq ≡ s.seq
  unfolding Thread.fan_out pure ◌>>=◌ when_some
  fan_out-seq now t (execution_owner r) s = refl
  fan_out-seq now t (activity_owner r) s = when_some-seq (s.activities r.name) _ s λ act.
      when_some-seq (Thread.register t.index (object_ref t.meta) act.activity_state) _ s λ p. refl

  state_activating-IsPast :
      (a : Activity V) (n : ℕ) (s : View V)
      → suffix a.meta.name ≡ some n
      → n + 1 < 2 ^ 63
      → IsPast n (State.state_activating view_ops a s).1
  unfolding State.state_activating ◌>>=◌ raised
  state_activating-IsPast a n s h fits =
      let s1 = (view_ops.put_activity a s).1 in
      rw (bump-raised a.meta.name n s1 h) (past_max s.seq n fits)

  task_activated-IsPast :
      (t : Task V) (n : ℕ) (s : View V)
      → suffix t.meta.name ≡ some n
      → n + 1 < 2 ^ 63
      → IsPast n (Task.task_activated view_ops t s).1
  unfolding Task.task_activated ◌>>=◌ raised
  task_activated-IsPast t n s h fits =
      let s1 = (view_ops.put_task t s).1 in
      rw (bump-raised t.meta.name n s1 h) (past_max s.seq n fits)

  thread_created-IsPast :
      (now : Timestamp) (t : Thread V) (n : ℕ) (s : View V)
      → suffix t.meta.name ≡ some n
      → n + 1 < 2 ^ 63
      → IsPast n (Thread.thread_created view_ops now t s).1
  unfolding Thread.thread_created ◌>>=◌ raised
  thread_created-IsPast now t n s h fits =
      let s1 = (view_ops.put_thread t s).1 in
      let (s2, p) = inherit_scope-ok t t.meta.owner s1 in
      let s3 =
        (view_ops.add_child (thread_owner_ref t.meta.owner) (raw_object_ref t.meta)
          (raised n s2)).1 in
      rw (p, bump-raised t.meta.name n s2 h, fan_out-seq now t t.meta.owner s3)
        (past_max s2.seq n fits)

  -- An event that gives birth to an object of suffix `n` leaves the counter past `n`.
  pub dispatch_event-IsPast :
      (now : Timestamp) (e : Event V) (name : ObjectName) (n : ℕ) (s : View V)
      → born e ≡ some name
      → suffix name ≡ some n
      → n + 1 < 2 ^ 63
      → IsPast n (dispatch_event view_ops now e s).1
  unfolding dispatch_event
  dispatch_event-IsPast now (Event.state_activating a) name n s b h fits =
      state_activating-IsPast a n s (born-suffix a.meta.name name n b h) fits
  dispatch_event-IsPast now (Event.task_activated t) name n s b h fits =
      task_activated-IsPast t n s (born-suffix t.meta.name name n b h) fits
  dispatch_event-IsPast now (Event.thread_created t) name n s b h fits =
      thread_created-IsPast now t n s (born-suffix t.meta.name name n b h) fits
  dispatch_event-IsPast now _ name n s b h fits = grind arith
