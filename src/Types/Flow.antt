-- ===== src/Types/Flow.antt =====
-- crates/engine-types/src/types/flow.rs and flow_version.rs: a named flow and its immutable versions.
-- The CRC of a definition (crate `crc`) is an argument of the function that mints a version.
use spica.Base.{ℕ, Option, none, some, Str, codes}
use spica.Machinery.Timestamp.{Timestamp}
use spica.Machinery.Name.{PlainName, ObjectName, plain, generated_from_key, as_plain}
use spica.Types.Meta.{ObjectMeta, ObjectRef, Ulid, flow, flow_version, no_owner}

abbrev pub FlowName : Type 0
FlowName = PlainName

pub data FlowStatus : Type 0 where
  active deleted : FlowStatus

pub record Flow : Type 0 where
  pub meta : ObjectMeta flow
  pub status : FlowStatus
  pub latest_version : ℕ

-- The builder's default scope.
abbrev pub default_scope : PlainName
default_scope = record { text = codes "default" }

-- `Flow::new`.
unfoldable pub new_flow : Ulid → FlowName → Timestamp → Flow
new_flow uid name created_at = record {
  meta = record {
    tenant = default_scope;
    namespace = default_scope;
    name = plain name;
    uid = uid;
    created_at = created_at;
    updated_at = created_at;
    owner = no_owner;
  };
  status = active;
  latest_version = 1;
}

pub record FlowVersion : Type 0 where
  pub meta : ObjectMeta flow_version
  pub version : ℕ
  pub definition : Str
  pub checksum : ℕ

-- `FlowVersion::version_name`: `{flow}-{version}`.
abbrev pub version_name : FlowName → ℕ → ObjectName
version_name name version = generated_from_key name version

-- `FlowVersion::new`. A flow's name is plain; the source panics on another one.
unfoldable pub new_flow_version :
    (Str → ℕ) → Ulid → ObjectRef flow → ℕ → Str → Timestamp → Option FlowVersion
new_flow_version checksum uid f version definition created_at = elim (as_plain f.name) [
  | none ↦ none
  | some name ↦ some (record {
    meta = record {
      tenant = default_scope;
      namespace = default_scope;
      name = version_name name version;
      uid = uid;
      created_at = created_at;
      updated_at = created_at;
      owner = f;
    };
    version = version;
    definition = definition;
    checksum = checksum definition;
  })
]

abbrev pub flow_owner : FlowVersion → ObjectRef flow
flow_owner v = v.meta.owner

-- `FlowVersion::flow_name`, `none` where the source panics.
abbrev pub flow_name : FlowVersion → Option FlowName
flow_name v = as_plain v.meta.owner.name
