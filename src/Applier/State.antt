-- ===== src/Applier/State.antt =====
-- crates/engine/src/applier/appliers/state_*.rs and variables_assigned.rs.
use spica.Base.{}
use spica.Types.Meta.{ObjectRef, thread, activity, object_ref, raw_object_ref, as_raw_object_ref}
use spica.Types.Thread.{StatePath}
use spica.Types.Activity.{Activity}
use spica.Types.Event.{Variables}
use spica.Storage.Fold.{Fold, pure, when_some, ◌>>=◌, ◌>>◌}
use spica.Storage.Contract.{StorageTxn}
use spica.Applier.GeneratedSeq.{bump_generated_seq}

module _ {V S : Type 0} (storage : StorageTxn V S) where
  open storage use {get_activity, put_activity, add_child, remove_child, put_variables}

  -- The birth of the row, its name's suffix and its edge below the owning thread.
  unfoldable pub state_activating : Activity V → Fold S Unit
  state_activating a = do
    put_activity a
    bump_generated_seq storage a.meta.name
    add_child (as_raw_object_ref a.meta.owner) (raw_object_ref a.meta)

  -- The event's value replaces an existing row, and never makes one.
  overwrite : Activity V → Fold S Unit
  overwrite a = do found ← get_activity (object_ref a.meta); when_some found λ act. put_activity a

  unfoldable pub state_activated : Activity V → Fold S Unit
  unfolding overwrite
  state_activated a = overwrite a

  unfoldable pub state_completing : Activity V → Fold S Unit
  unfolding overwrite
  state_completing a = overwrite a

  unfoldable pub state_terminating : Activity V → Fold S Unit
  unfolding overwrite
  state_terminating a = overwrite a

  -- The event's value replaces an existing row, which leaves its stored owner.
  settle : Activity V → Fold S Unit
  settle a = do
    found ← get_activity (object_ref a.meta)
    when_some found λ act. do
      put_activity a
      remove_child (as_raw_object_ref act.meta.owner) (raw_object_ref a.meta)

  unfoldable pub state_completed : Activity V → Fold S Unit
  unfolding settle
  state_completed a = settle a

  unfoldable pub state_terminated : Activity V → Fold S Unit
  unfolding settle
  state_terminated a = settle a

  unfoldable pub variables_assigned : ObjectRef thread → Variables V → Fold S Unit
  variables_assigned scope variables = put_variables scope variables

  unfoldable pub state_transitioned : ObjectRef activity → StatePath → Fold S Unit
  state_transitioned source next = pure tt
