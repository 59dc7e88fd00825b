-- ===== src/Applier/Scopes.antt =====
-- crates/engine/src/applier/appliers/thread_created.rs and task_failed.rs: what a fan-out thread starts
-- from, and what a failure report leaves of its task's edge.
use spica.Base.{
  ℕ, ◌≡◌, refl, ap, ◌∙◌, inl, inr, if_pos, true, false, ◌&&◌, Option, none, some, Bool-cases,
  Result, ok, ℤ,
}
use spica.Machinery.Timestamp.{Timestamp}
use spica.Machinery.Name.{ObjectName, ObjectName-discrete, suffix}
use spica.Types.Meta.{
  ObjectRef, activity, ThreadOwner, execution_owner, activity_owner, object_ref, raw_object_ref,
  as_raw_object_ref, thread_owner_ref,
}
use spica.Types.Thread.{Thread}
use spica.Types.Activity.{Activity}
use spica.Types.Task.{Task, is_pending}
use spica.Storage.Fold.{Fold, Fault, pure, when_some, ok_or_none, ◌>>=◌}
use spica.Storage.View.{View, view_ops, Edge, Edge-discrete}
use spica.Applier.GeneratedSeq.{bump_generated_seq, raise_seq}
use spica.Applier.Task
use spica.Applier.Thread

module _ {V : Type 0} where
  bumped :
      (o : Option ℕ) (s : View V)
      → (q : ℤ) × (when_some o (raise_seq view_ops) s ≡ (ok tt, record s { seq = q }))
  unfolding when_some pure ◌>>=◌
  bumped none s = (s.seq, refl)
  bumped (some n) s = (_, refl)

  -- A call that writes activities at most.
  Aside : View V → Result Fault Unit × View V → Type 0
  Aside s o =
      (acts : ObjectName → Option (Activity V)) × (o ≡ (ok tt, record s { activities = acts }))

  when_some-Aside :
      {A : Type 0} (o : Option A) (f : A → Fold (View V) Unit) (s : View V)
      → ((a : A) → Aside s (f a s))
      → Aside s (when_some o f s)
  unfolding when_some pure Aside
  when_some-Aside none f s h = (s.activities, refl)
  when_some-Aside (some a) f s h = h a

  fan_out-Aside :
      (now : Timestamp) (t : Thread V) (o : ThreadOwner) (s : View V)
      → Aside s (Thread.fan_out view_ops now t o s)
  unfolding Thread.fan_out pure ◌>>=◌ Aside
  fan_out-Aside now t (execution_owner r) s = (s.activities, refl)
  fan_out-Aside now t (activity_owner r) s = when_some-Aside (s.activities r.name) _ s λ act.
      when_some-Aside (Thread.register t.index (object_ref t.meta) act.activity_state) _ s
        λ p. (_, refl)

  mirror-Aside :
      (now : Timestamp) (x t : Task V) (s : View V)
      → Aside s (Task.mirror_attempts view_ops now x t s)
  unfolding Task.mirror_attempts pure ◌>>=◌ Aside
  mirror-Aside now x t s = when_some-Aside (s.activities t.meta.owner.name) _ s λ act. (_, refl)

  inherited :
      (t : Thread V) (r : ObjectRef activity) (act : Activity V) (s : View V)
      → t.meta.owner ≡ activity_owner r
      → s.activities r.name ≡ some act
      → Thread.inherit_scope view_ops t t.meta.owner s
        ≡ (view_ops.put_variables (object_ref t.meta) (s.variables act.meta.owner.name) s)
  unfolding Thread.inherit_scope when_some ok_or_none ◌>>=◌
  inherited t r act s ho ha = ap (λ o. Thread.inherit_scope view_ops t o s) ho ∙ rw ha refl

  -- When the owner of a new thread is an activity whose row is stored: the event that creates the
  -- thread stores its row, gives it the variables of the scope that encloses the activity, and makes
  -- it a child of the activity.
  pub thread_created-inherits :
      (now : Timestamp) (t : Thread V) (r : ObjectRef activity) (act : Activity V) (s : View V)
      → t.meta.owner ≡ activity_owner r
      → s.activities r.name ≡ some act
      → let s' = (Thread.thread_created view_ops now t s).1 in
        (s'.threads t.meta.name ≡ some t)
        × (s'.variables t.meta.name ≡ s.variables act.meta.owner.name)
        × (s'.edges (as_raw_object_ref r, raw_object_ref t.meta) ≡ true)
  unfolding Thread.thread_created bump_generated_seq ◌>>=◌ Aside
  thread_created-inherits now t r act s ho ha =
      let s1 = (view_ops.put_thread t s).1 in
      let s2 =
        (view_ops.put_variables (object_ref t.meta) (s.variables act.meta.owner.name) s1).1 in
      let (q, bq) = bumped (suffix t.meta.name) s2 in
      let s3 : View V = record s2 { seq = q } in
      let s4 = (view_ops.add_child (thread_owner_ref t.meta.owner) (raw_object_ref t.meta) s3).1 in
      let (acts, fq) = fan_out-Aside now t t.meta.owner s4 in
      let e : Edge = (as_raw_object_ref r, raw_object_ref t.meta) in
      let e' : Edge = (thread_owner_ref t.meta.owner, raw_object_ref t.meta) in
      let same : e' ≡ e = ap (λ o. (thread_owner_ref o, raw_object_ref t.meta)) ho in
      rw (inherited t r act s1 ho ha, bq, fq)
        (
          if_pos (ObjectName-discrete t.meta.name t.meta.name) refl (some t)
              (s.threads t.meta.name),
          if_pos (ObjectName-discrete t.meta.name t.meta.name) refl
              (s.variables act.meta.owner.name) (s.variables t.meta.name),
          if_pos (Edge-discrete e' e) same true (s.edges e),
        )

  -- When the row of a task is stored, the event that reports its failure leaves the edge from its
  -- owner as it is if the task is to be retried, and removes it if the failure ends the task.
  pub task_failed-edges :
      (now : Timestamp) (x t : Task V) (s : View V)
      → s.tasks x.meta.name ≡ some t
      → (Task.task_failed view_ops now x s).1.edges
          (as_raw_object_ref t.meta.owner, raw_object_ref x.meta)
        ≡ (is_pending x.status && s.edges (as_raw_object_ref t.meta.owner, raw_object_ref x.meta))
  unfolding Task.task_failed when_some ◌>>=◌ Aside
  task_failed-edges now x t s h = elim (Bool-cases (is_pending x.status)) [
    | inl p ↦ let (acts, q) = mirror-Aside now x t (view_ops.put_task x s).1 in rw (h, p, q) refl
    | inr p ↦
        let e : Edge = (as_raw_object_ref t.meta.owner, raw_object_ref x.meta) in
        rw (h, p) (if_pos (Edge-discrete e e) refl false (s.edges e))
  ]
