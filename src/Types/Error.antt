-- ===== src/Types/Error.antt =====
-- crates/engine-types/src/types/error.rs and reject.rs, and the termination reason of command.rs.
use spica.Base.{Bool, true, not, List, if◌then◌else◌, holds, Str, codes, Str-discrete, any}
use spica.Types.Meta.{Ulid}

abbrev pub RequestId : Type 0
RequestId = Ulid

pub data RejectionType : Type 0 where
  invalid_argument invalid_state not_found already_exists processing_error : RejectionType

pub record Reject : Type 0 where
  pub request_id : RequestId
  pub rejection_type : RejectionType
  pub rejection_reason : Str

pub data StorageError : Type 0 where
  backend codec invalid_key unsupported : Str → StorageError

pub data InfraError : Type 0 where
  log : Str → InfraError
  storage : StorageError → InfraError

pub data RuntimeError (V : Type 0) : Type 0 where
  state_not_found : Str → RuntimeError V
  no_terminal : RuntimeError V
  no_choice_matched : (state : Str) → RuntimeError V
  state_failed : (state error : Str) (output : V) → RuntimeError V
  jsonata : (field message : Str) → RuntimeError V
  invalid_definition : Str → RuntimeError V
  timed_out : (message : Str) → RuntimeError V
  cancelled : (message : Str) → RuntimeError V

pub data ExecutionError (V : Type 0) : Type 0 where
  runtime : RuntimeError V → ExecutionError V
  infra : InfraError → ExecutionError V
  rejected : Reject → ExecutionError V

-- Why a run, a thread or an activity ended without success.
pub data TerminationReason (V : Type 0) : Type 0 where
  failed : ExecutionError V → TerminationReason V
  timed_out : TerminationReason V
  cancelled : TerminationReason V

module _ {V : Type 0} where
  -- `RuntimeError::error_name`.
  unfoldable pub runtime_error_name : RuntimeError V → Str
  runtime_error_name (state_failed state error output) = error
  runtime_error_name (no_choice_matched state) = codes "States.NoChoiceMatched"
  runtime_error_name (jsonata field message) = codes "States.Runtime"
  runtime_error_name (state_not_found s) = codes "States.Runtime"
  runtime_error_name no_terminal = codes "States.Runtime"
  runtime_error_name (invalid_definition s) = codes "States.Runtime"
  runtime_error_name (RuntimeError.timed_out message) = codes "States.Timeout"
  runtime_error_name (RuntimeError.cancelled message) = codes "States.Cancelled"

  -- `ExecutionError::error_name`.
  unfoldable pub error_name : ExecutionError V → Str
  unfolding runtime_error_name
  error_name (runtime r) = runtime_error_name r
  error_name (infra e) = codes "States.Runtime"
  error_name (rejected r) = codes "States.Runtime"

  -- `TerminationReason::error_name`.
  unfoldable pub reason_error_name : TerminationReason V → Str
  unfolding error_name
  reason_error_name (failed e) = error_name e
  reason_error_name TerminationReason.timed_out = codes "States.Timeout"
  reason_error_name TerminationReason.cancelled = codes "States.Cancelled"

-- `error_equals.iter().any(|s| s == name)`.
abbrev pub names : Str → List Str → Bool
names name = any (λ s. holds (Str-discrete s name))

abbrev pub states_all : Str
states_all = codes "States.ALL"

abbrev pub states_task_failed : Str
states_task_failed = codes "States.TaskFailed"

abbrev pub states_timeout : Str
states_timeout = codes "States.Timeout"

module _ {V : Type 0} where
  -- The wildcard wins, then `States.TaskFailed` (all but timeouts), then the exact names.
  unfoldable pub matches_error_names : ExecutionError V → List Str → Bool
  matches_error_names e error_equals =
      let name = error_name e in
      if names states_all error_equals
      then true
      else if names states_task_failed error_equals
      then not (holds (Str-discrete name states_timeout))
      else names name error_equals
