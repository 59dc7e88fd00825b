-- ===== src/Applier/Task.antt =====
-- crates/engine/src/applier/appliers/task_*.rs and tasks_claimed.rs.
use spica.Base.{Option, none, some, List, [], ◌∷◌, if◌then◌else◌}
use spica.Machinery.Timestamp.{Timestamp}
use spica.Types.Meta.{object_ref, raw_object_ref, as_raw_object_ref, with_update_at}
use spica.Types.Task.{
  Task, RetryState, no_retries, running, completed, cancelled, is_pending, is_claimable_at,
}
use spica.Storage.Fold.{Fold, pure, when_some, ◌>>=◌, ◌>>◌}
use spica.Storage.Contract.{StorageTxn}
use spica.Applier.GeneratedSeq.{bump_generated_seq}

-- `get_or_insert_default()`.
abbrev or_no_retries : Option RetryState → RetryState
or_no_retries none = no_retries
or_no_retries (some r) = r

module _ {V S : Type 0} (storage : StorageTxn V S) where
  open storage use {get_task, put_task, get_activity, put_activity, add_child, remove_child}

  unfoldable pub task_activated : Task V → Fold S Unit
  task_activated t = do
    put_task t
    bump_generated_seq storage t.meta.name
    add_child (as_raw_object_ref t.meta.owner) (raw_object_ref t.meta)

  -- The claim of one task, folded while the stored row is still claimable at the entry's instant.
  unfoldable pub fold_claim : Timestamp → Task V → Fold S Unit
  fold_claim now claimed = do
    found ← get_task (object_ref claimed.meta)
    when_some found λ t.
        if is_claimable_at t now
        then put_task (record t {
          status = running;
          worker_id = claimed.worker_id;
          lease_expires_at = claimed.lease_expires_at;
          retry_state = record t.retry_state {
            next_available_at = claimed.retry_state.next_available_at;
          };
          meta = with_update_at claimed.meta.updated_at t.meta;
        })
        else pure tt

  unfoldable pub tasks_claimed : Timestamp → List (Task V) → Fold S Unit
  tasks_claimed now [] = pure tt
  tasks_claimed now (t ∷ ts) = do fold_claim now t; tasks_claimed now ts

  unfoldable pub task_completed : Timestamp → Task V → V → Fold S Unit
  task_completed now task output = do
    found ← get_task (object_ref task.meta)
    when_some found λ t. do
      put_task (record t { status = completed; meta = with_update_at task.meta.updated_at t.meta })
      owner ← get_activity t.meta.owner
      when_some owner λ act.
          put_activity (record act { raw_output = some output; meta = with_update_at now act.meta })
      remove_child (as_raw_object_ref t.meta.owner) (raw_object_ref task.meta)

  -- A retry mirrors its attempt count onto the owner, and keeps the edge.
  unfoldable pub mirror_attempts : Timestamp → Task V → Task V → Fold S Unit
  mirror_attempts now task t = do
    owner ← get_activity t.meta.owner
    when_some owner λ act. put_activity (record act {
      retry_state =
          some (record (or_no_retries act.retry_state) { attempts = task.retry_state.attempts });
      meta = with_update_at now act.meta;
    })

  unfoldable pub task_failed : Timestamp → Task V → Fold S Unit
  task_failed now task = do
    found ← get_task (object_ref task.meta)
    when_some found λ t. do
      put_task task
      if is_pending task.status
          then mirror_attempts now task t
          else remove_child (as_raw_object_ref t.meta.owner) (raw_object_ref task.meta)

  unfoldable pub task_cancelled : Task V → Fold S Unit
  task_cancelled task = do
    found ← get_task (object_ref task.meta)
    when_some found λ t. do
      put_task (record t { status = cancelled; meta = with_update_at task.meta.updated_at t.meta })
      remove_child (as_raw_object_ref t.meta.owner) (raw_object_ref task.meta)
