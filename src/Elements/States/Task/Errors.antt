-- ===== src/Elements/States/Task/Errors.antt =====
-- What a retrier and a catcher take of a definition and an error (crates/engine-types/src/types/task.rs
-- and error.rs).
use spica.Types.Error.{
  ExecutionError, RuntimeError, runtime, invalid_definition, matches_error_names, infra, rejected,
}
use spica.Types.Error
use spica.Types.Task.{RetryPolicy, F64}
use spica.Asl.{Retrier}
use spica.Elements.Interface.{Engine}
use spica.Elements.Expression.{or_value}
use spica.Base.{Option, none, some, [], ◌∷◌, ◌++◌, Str, codes, pos}

-- `RetryPolicy::resolve`, with the defaults of the definition.
unfoldable pub resolve_retrier : F64 → Retrier → RetryPolicy
resolve_retrier default_rate r = record {
  error_equals = r.error_equals;
  interval_seconds = or_value (pos 1) r.interval_seconds;
  max_attempts = or_value (pos 3) r.max_attempts;
  backoff_rate = or_value default_rate r.backoff_rate;
  max_delay_seconds = r.max_delay_seconds;
}

module _ {V S : Type 0} (engine : Engine V S) where
  open engine use {json, storage, eval_json, default_backoff_rate}

  abbrev pub error_object : Str → Str → V
  error_object error cause =
      json.object ((codes "Error", json.string error) ∷ (codes "Cause", json.string cause) ∷ [])

  -- `RuntimeError::error_output`.
  abbrev pub runtime_error_output : RuntimeError V → Option V
  runtime_error_output (Error.state_failed state error output) = some output
  runtime_error_output (Error.no_choice_matched state) = some (
      error_object (codes "States.NoChoiceMatched")
        (codes "Choice state '" ++ state ++ codes "' matched no rule and has no Default"))
  runtime_error_output (Error.jsonata field message) = some (
      error_object (codes "States.Runtime")
        (codes "JSONata error in " ++ field ++ codes ": " ++ message))
  runtime_error_output (RuntimeError.timed_out message) =
      some (error_object (codes "States.Timeout") message)
  runtime_error_output (RuntimeError.cancelled message) = none
  runtime_error_output (Error.state_not_found s) = none
  runtime_error_output Error.no_terminal = none
  runtime_error_output (invalid_definition s) = none

  -- `ExecutionError::error_output`.
  unfoldable pub error_output : ExecutionError V → Option V
  error_output (runtime r) = runtime_error_output r
  error_output (infra e) = none
  error_output (rejected r) = none
