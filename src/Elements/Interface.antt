-- ===== src/Elements/Interface.antt =====
-- What the handlers of crates/engine/src take from elsewhere: the trait `ReadonlyStorageTxn` of
-- crates/engine-types/src/storage/mod.rs over a store `S`, the injected clock and id generator, and
-- the operations of other crates on JSON values, expressions, definitions, floats and checksums.
use spica.Base.{ℕ, Bool, Option, List, Str, Result, ℤ}
use spica.HashMap.{HashMap}
use spica.Machinery.Timestamp.{Timestamp}
use spica.Types.Meta.{
  ObjectRef, RawObjectRef, Ulid, execution, thread, activity, task, flow_version,
}
use spica.Types.Error.{StorageError, ExecutionError}
use spica.Types.Execution.{Execution}
use spica.Types.Thread.{Thread}
use spica.Types.Activity.{Activity}
use spica.Types.Task.{Task, Floats, F64}
use spica.Types.Flow.{Flow, FlowName, FlowVersion}
use spica.Types.Event.{Variables}
use spica.Asl.{StateMachine}
use spica.Storage.Contract.{StorageTxn}

pub record ReadonlyStorageTxn (V S : Type 0) : Type 0 where
  pub get_execution : ObjectRef execution → S → Result StorageError (Option (Execution V))
  pub get_thread : ObjectRef thread → S → Result StorageError (Option (Thread V))
  pub get_variables : ObjectRef thread → S → Result StorageError (Variables V)
  pub get_activity : ObjectRef activity → S → Result StorageError (Option (Activity V))
  pub get_task : ObjectRef task → S → Result StorageError (Option (Task V))
  pub get_children : RawObjectRef → S → Result StorageError (List RawObjectRef)
  pub activatable_tasks : Str → Timestamp → ℕ → S → Result StorageError (List (Task V))
  pub get_flow_by_name : FlowName → S → Result StorageError (Option Flow)
  pub get_flow_version : ObjectRef flow_version → S → Result StorageError (Option FlowVersion)

-- `serde_json::Value`, as far as the handlers make and read one. A whole number is the `i64` of an
-- `f64` that is finite and has no fraction.
pub record Json (V : Type 0) : Type 0 where
  pub null : V
  pub number : ℕ → V
  pub string : Str → V
  pub array : List V → V
  pub object : HashMap Str V → V
  pub is_null : V → Bool
  pub as_bool : V → Option Bool
  pub as_whole : V → Option ℤ
  pub as_str : V → Option Str
  pub as_array : V → Option (List V)
  pub as_object : V → Option (HashMap Str V)

-- `debug_assertions` says whether the build evaluates the condition of a `debug_assert!`.
pub record Engine (V S : Type 0) : Type 0 where
  pub txn : StorageTxn V S
  pub storage : ReadonlyStorageTxn V S
  pub clock : ℕ → Timestamp
  pub ids : ℕ → Ulid
  pub debug_assertions : Bool
  pub json : Json V
  pub eval_expr : Str → V → Variables V → Result (ExecutionError V) V
  pub eval_json : V → V → Variables V → Result (ExecutionError V) V
  pub trim : Str → Str
  pub from_rfc3339 : Str → Option Timestamp
  pub parse_machine : Str → Option (StateMachine V)
  pub checksum : Str → ℕ
  pub floats : Floats
  pub default_backoff_rate : F64
