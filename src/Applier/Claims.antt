-- ===== src/Applier/Claims.antt =====
-- Leases in the fold of crates/engine/src/applier/tasks_claimed.rs and task_cancelled.rs, and the
-- edges that settled children leave: what the events do to the store, one after another.
use spica.Base.{◌≡◌, refl, sym, ◌∙◌, if_pos, Bool, true, false, some, ok}
use spica.HashMap.{update}
use spica.Machinery.Timestamp.{Timestamp}
use spica.Machinery.Name.{ObjectName, ObjectName-discrete}
use spica.Types.Meta.{with_update_at, raw_object_ref, as_raw_object_ref, thread_owner_ref}
use spica.Types.Thread.{Thread}
use spica.Types.Activity.{Activity}
use spica.Types.Task.{Task, is_claimable_at, lease_is_over, running}
use spica.Storage.Fold.{pure, when_some, ◌>>=◌}
use spica.Storage.View.{View, view_ops, Edge, Edge-discrete}
use spica.Applier.State
use spica.Applier.Task
use spica.Applier.Thread

removed : (edges : Edge → Bool) (e : Edge) → update Edge-discrete edges e false e ≡ false
removed edges e = if_pos (Edge-discrete e e) refl false (edges e)

module _ {V : Type 0} where
  -- A claim of a row that is not claimable at its instant changes nothing.
  fold_claim-refused :
      (now : Timestamp) (c t : Task V) (s : View V)
      → s.tasks c.meta.name ≡ some t
      → is_claimable_at t now ≡ false
      → Task.fold_claim view_ops now c s ≡ (ok tt, s)
  unfolding Task.fold_claim ◌>>=◌ when_some pure
  fold_claim-refused now c t s h k = rw (h, k) refl

  -- The row that a claim leaves.
  claimed_row : Task V → Task V → Task V
  claimed_row c t = record t {
    status = running;
    worker_id = c.worker_id;
    lease_expires_at = c.lease_expires_at;
    retry_state = record t.retry_state { next_available_at = c.retry_state.next_available_at };
    meta = with_update_at c.meta.updated_at t.meta;
  }

  claimed : Task V → Task V → View V → View V
  claimed c t s = record s {
    tasks = update ObjectName-discrete s.tasks t.meta.name (some (claimed_row c t));
  }

  fold_claim-taken :
      (now : Timestamp) (c t : Task V) (s : View V)
      → s.tasks c.meta.name ≡ some t
      → is_claimable_at t now ≡ true
      → Task.fold_claim view_ops now c s ≡ (ok tt, claimed c t s)
  unfolding Task.fold_claim ◌>>=◌ when_some pure claimed claimed_row
  fold_claim-taken now c t s h k = rw (h, k) refl

  claimed-tasks :
      (c t : Task V) (s : View V) (n : ObjectName)
      → t.meta.name ≡ n
      → (claimed c t s).tasks n ≡ some (claimed_row c t)
  unfolding claimed
  claimed-tasks c t s n h =
      if_pos (ObjectName-discrete t.meta.name n) h (some (claimed_row c t)) (s.tasks n)

  -- When the stored row of a task lies under its own name and is claimable at the first instant, the
  -- first claim leaves the row with that claim's worker and lease, and a second claim of the same
  -- task at an instant at which that lease is not over changes nothing.
  pub fold_claim-twice :
      (now later : Timestamp) (first second t : Task V) (s : View V)
      → s.tasks first.meta.name ≡ some t
      → t.meta.name ≡ first.meta.name
      → second.meta.name ≡ first.meta.name
      → is_claimable_at t now ≡ true
      → lease_is_over first.lease_expires_at later ≡ false
      → let s1 = (Task.fold_claim view_ops now first s).1 in
        ((t1 : Task V) × (s1.tasks first.meta.name ≡ some t1)
          × (t1.worker_id ≡ first.worker_id)
          × (t1.lease_expires_at ≡ first.lease_expires_at))
        × (Task.fold_claim view_ops later second s1 ≡ (ok tt, s1))
  unfolding claimed claimed_row is_claimable_at
  fold_claim-twice now later first second t s h kt ks k l =
      rw (fold_claim-taken now first t s h k) (
        (claimed_row first t, claimed-tasks first t s first.meta.name kt, refl, refl),
        fold_claim-refused later second (claimed_row first t) (claimed first t s)
            (claimed-tasks first t s second.meta.name (kt ∙ sym ks)) l,
      )

  -- When the rows of an activity, a task and a thread are stored, the events that complete or
  -- terminate the activity, cancel the task, and complete or terminate the thread leave no edge from
  -- the owner that the stored row names.
  pub settled-edges :
      (a act : Activity V) (x t : Task V) (th row : Thread V) (s : View V)
      → s.activities a.meta.name ≡ some act
      → s.tasks x.meta.name ≡ some t
      → s.threads th.meta.name ≡ some row
      → ((State.state_completed view_ops a s).1.edges
            (as_raw_object_ref act.meta.owner, raw_object_ref a.meta)
          ≡ false)
        × ((State.state_terminated view_ops a s).1.edges
              (as_raw_object_ref act.meta.owner, raw_object_ref a.meta)
            ≡ false)
        × ((Task.task_cancelled view_ops x s).1.edges
              (as_raw_object_ref t.meta.owner, raw_object_ref x.meta)
            ≡ false)
        × ((Thread.thread_completed view_ops th s).1.edges
              (thread_owner_ref row.meta.owner, raw_object_ref th.meta)
            ≡ false)
        × ((Thread.thread_terminated view_ops th s).1.edges
              (thread_owner_ref row.meta.owner, raw_object_ref th.meta)
            ≡ false)
  unfolding State.state_completed State.state_terminated Task.task_cancelled Thread.thread_completed
      Thread.thread_terminated ◌>>=◌ when_some pure
  settled-edges a act x t th row s ha hx ht =
      rw (ha, hx, ht)
        ((
          removed s.edges _,
          removed s.edges _,
          removed s.edges _,
          removed s.edges _,
          removed s.edges _,
        ))
