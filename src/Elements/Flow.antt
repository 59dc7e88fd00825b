-- ===== src/Elements/Flow.antt =====
-- crates/engine/src/elements/flow.rs: a new flow with its first version.
use spica.Machinery.Name.{plain}
use spica.Types.Meta.{ObjectRef}
use spica.Types.Meta
use spica.Types.Error.{StorageError, invalid_argument, already_exists}
use spica.Types.Event
use spica.Types.Command.{CreateFlow}
use spica.Types.Flow.{Flow, FlowVersion, new_flow, new_flow_version}
use spica.Asl.{StateMachine}
use spica.Elements.Interface.{Engine}
use spica.Elements.Handle.{
  Handle, pure, stop, panic, refuse, try_read, append_event, now, mint, reject, ◌>>=◌, ◌>>◌,
}
use spica.Base.{Option, none, some, Str, Result, ok}

module _ {V S : Type 0} (engine : Engine V S) (reason : Str) where
  open engine use {storage, parse_machine, checksum}

  abbrev pub require_machine : Option (StateMachine V) → Handle V S Unit
  require_machine none = refuse invalid_argument
  require_machine (some m) = pure tt

  -- `FlowVersion::new`, which panics on a name that is not plain.
  abbrev pub expect_version : Option FlowVersion → Handle V S FlowVersion
  expect_version none = stop panic
  expect_version (some v) = pure v

  abbrev pub create_unless : CreateFlow → Result StorageError (Option Flow) → Handle V S Unit
  create_unless p (ok (some f)) = reject engine p.request_id already_exists reason
  create_unless p _ = do
    flow_uid ← mint engine
    version_uid ← mint engine
    at ← now engine
    let flow : ObjectRef Meta.flow = record { name = plain p.name; uid = flow_uid }
    append_event engine (Event.flow_created p.request_id (new_flow flow_uid p.name at))
    version ← expect_version (new_flow_version checksum version_uid flow 1 p.definition at)
    append_event engine (Event.flow_version_created p.request_id version)

  -- `create`; the text of the refusal in the log is a parameter.
  unfoldable pub create_flow : CreateFlow → Handle V S Unit
  create_flow p = do
    require_machine (parse_machine p.definition)
    found ← try_read (storage.get_flow_by_name p.name)
    create_unless p found
