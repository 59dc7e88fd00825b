-- ===== src/Applier/Flow.antt =====
-- crates/engine/src/applier/appliers/flow_created.rs and flow_version_created.rs.
use spica.Base.{Option, none, some}
use spica.Machinery.Timestamp.{Timestamp}
use spica.Types.Meta.{with_update_at, no_owner}
use spica.Types.Flow.{Flow, FlowVersion, active, default_scope, flow_owner, flow_name}
use spica.Storage.Fold.{Fold, expect, ◌>>=◌, ◌>>◌}
use spica.Storage.Contract.{StorageTxn}

-- The row that stands in when the birth of the flow was not folded.
abbrev reconstructed : FlowVersion → Flow
reconstructed v = record {
  meta = record {
    tenant = default_scope;
    namespace = default_scope;
    name = (flow_owner v).name;
    uid = (flow_owner v).uid;
    created_at = v.meta.created_at;
    updated_at = v.meta.created_at;
    owner = no_owner;
  };
  status = active;
  latest_version = v.version;
}

abbrev existing_or : Option Flow → Flow → Flow
existing_or (some f) g = f
existing_or none g = g

module _ {V S : Type 0} (storage : StorageTxn V S) where
  open storage use {get_flow_by_name, put_flow, put_flow_version}

  unfoldable pub flow_created : Flow → Fold S Unit
  flow_created f = put_flow f

  unfoldable pub flow_version_created : Timestamp → FlowVersion → Fold S Unit
  flow_version_created now v = do
    put_flow_version v
    name ← expect (flow_name v)
    found ← get_flow_by_name name
    let f = existing_or found (reconstructed v)
    put_flow (record f { latest_version = v.version; meta = with_update_at now f.meta })
