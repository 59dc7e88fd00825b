-- ===== src/Types/Deadline.antt =====
-- crates/engine-types/src/types/deadline.rs: the element that a deadline belongs to.
use spica.Base.{ℕ_discrete}
use spica.Types.Meta.{ObjectRef, RawObjectRef, as_raw_object_ref}
use spica.Types.Meta

pub data DeadlineTarget : Type 0 where
  execution : ObjectRef Meta.execution → DeadlineTarget
  activity : ObjectRef Meta.activity → DeadlineTarget

-- `DeadlineTarget::raw_object_ref`.
unfoldable pub target_ref : DeadlineTarget → RawObjectRef
target_ref (execution r) = as_raw_object_ref r
target_ref (activity r) = as_raw_object_ref r

unfoldable pub DeadlineTarget-discrete : Discrete DeadlineTarget
DeadlineTarget-discrete = hlevel ℕ_discrete
