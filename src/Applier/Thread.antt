-- ===== src/Applier/Thread.antt =====
-- crates/engine/src/applier/appliers/thread_*.rs.
use spica.Base.{ℕ, Option, none, some, [], ℕ_discrete}
use spica.HashMap
use spica.Machinery.Timestamp.{Timestamp}
use spica.Types.Meta.{
  ObjectRef, thread, ThreadOwner, execution_owner, activity_owner, object_ref, raw_object_ref,
  thread_owner_ref, with_update_at,
}
use spica.Types.Thread.{Thread, completing, completed}
use spica.Types.Activity.{ActivityState, parallel, map_state, wait}
use spica.Storage.Fold.{Fold, pure, when_some, ok_or_none, ◌>>=◌, ◌>>◌}
use spica.Storage.Contract.{StorageTxn}
use spica.Applier.GeneratedSeq.{bump_generated_seq}

-- The container's fan-out map with one more thread, or `none` for a state that has no fan-out. A
-- container without a repository becomes a parallel one.
unfoldable pub register :
    {V : Type 0} → ℕ → ObjectRef thread → Option (ActivityState V) → Option (ActivityState V)
register index r (some (map_state p)) =
    some (map_state (record p { children = HashMap.insert ℕ_discrete index r p.children }))
register index r (some (parallel p)) =
    some (parallel (record { branches = HashMap.insert ℕ_discrete index r p.branches }))
register index r (some (wait w)) = none
register index r none = some (parallel (record { branches = HashMap.insert ℕ_discrete index r [] }))

module _ {V S : Type 0} (storage : StorageTxn V S) where
  open storage use {
    get_thread, put_thread, get_variables, put_variables, get_activity, put_activity, add_child,
    remove_child,
  }

  -- A thread under a container starts from the variables of the scope that encloses the container.
  unfoldable pub inherit_scope : Thread V → ThreadOwner → Fold S Unit
  inherit_scope t (execution_owner r) = pure tt
  inherit_scope t (activity_owner r) = do
    found ← ok_or_none (get_activity r)
    when_some found
        λ act. do scope ← get_variables act.meta.owner; put_variables (object_ref t.meta) scope

  unfoldable pub fan_out : Timestamp → Thread V → ThreadOwner → Fold S Unit
  fan_out now t (execution_owner r) = pure tt
  fan_out now t (activity_owner r) = do
    found ← get_activity r
    when_some found λ act.
        when_some (register t.index (object_ref t.meta) act.activity_state) λ progress.
          put_activity
            (record act { activity_state = some progress; meta = with_update_at now act.meta })

  unfoldable pub thread_created : Timestamp → Thread V → Fold S Unit
  thread_created now t = do
    put_thread t
    inherit_scope t t.meta.owner
    bump_generated_seq storage t.meta.name
    add_child (thread_owner_ref t.meta.owner) (raw_object_ref t.meta)
    fan_out now t t.meta.owner

  unfoldable pub thread_completing : Thread V → Fold S Unit
  thread_completing t = do
    found ← get_thread (object_ref t.meta)
    when_some found λ row. put_thread (record row {
      status = completing;
      output = t.output;
      meta = with_update_at t.meta.updated_at row.meta;
    })

  unfoldable pub thread_completed : Thread V → Fold S Unit
  thread_completed t = do
    found ← get_thread (object_ref t.meta)
    when_some found λ row. do
      put_thread (record row {
        status = completed;
        output = t.output;
        meta = with_update_at t.meta.updated_at row.meta;
      })
      remove_child (thread_owner_ref row.meta.owner) (raw_object_ref t.meta)

  unfoldable pub thread_terminating : Thread V → Fold S Unit
  thread_terminating t = do
    found ← get_thread (object_ref t.meta)
    when_some found λ row.
        put_thread
          (record row { status = t.status; meta = with_update_at t.meta.updated_at row.meta })

  unfoldable pub thread_terminated : Thread V → Fold S Unit
  thread_terminated t = do
    found ← get_thread (object_ref t.meta)
    when_some found λ row. do
      put_thread
          (record row { status = t.status; meta = with_update_at t.meta.updated_at row.meta })
      remove_child (thread_owner_ref row.meta.owner) (raw_object_ref t.meta)
