-- ===== src/Elements/Expression.antt =====
-- The expressions that handlers evaluate: `extract_jsonata` of crates/engine/src/eval_env.rs,
-- `eval_string_or_expr` of handlers/mod.rs, and the `$states` value of
-- crates/engine-types/src/types/context.rs. Evaluating an expression (crate `jsonata_core`) and
-- trimming a text are parameters.
use spica.HashMap.{HashMap}
use spica.HashMap
use spica.Types.Error.{ExecutionError}
use spica.Types.Event.{Variables}
use spica.Elements.Interface.{Engine, Json}
use spica.Elements.Handle.{Handle, pure, stop, panic}
use spica.Base.{
  ℕ, ◌-◌, Bool, ◌&&◌, Option, none, some, [], ◌∷◌, leb, if◌then◌else◌, holds, Str, codes,
  Str-discrete, length, take, drop, Result, ok,
}

-- `s.starts_with(p)`.
abbrev pub starts_with : Str → Str → Bool
starts_with p s = holds (Str-discrete (take (length p) s) p)

-- `s.ends_with(p)`.
abbrev pub ends_with : Str → Str → Bool
ends_with p s = leb (length p) (length s) && holds (Str-discrete (drop (length s - length p) s) p)

pub data Extracted : Type 0 where
  literal : Extracted
  expression : Str → Extracted
  out_of_range : Extracted

abbrev pub open_tag : Str
open_tag = codes "{%"

abbrev pub close_tag : Str
close_tag = codes "%}"

-- `extract_jsonata`, of a trimmed text: the slice between the tags, which panics when they overlap.
unfoldable pub between_tags : (Str → Str) → Str → Extracted
between_tags trim s =
    if starts_with open_tag s && ends_with close_tag s
    then (if leb 2 (length s - 2)
        then expression (trim (drop 2 (take (length s - 2) s)))
        else out_of_range)
    else literal

unfoldable pub extract_jsonata : (Str → Str) → Str → Extracted
unfolding between_tags
extract_jsonata trim s = between_tags trim (trim s)

-- The `States` builder.
pub record StatesContext (V : Type 0) : Type 0 where
  pub input : V
  pub result : Option V
  pub state_name : Str
  pub assign_ctx : Option V
  pub retry_count : ℕ
  pub error_output : Option V

abbrev pub or_value {ℓ} : {A : Type ℓ} → A → Option A → A
or_value d none = d
or_value d (some a) = a

module _ {V : Type 0} (json : Json V) where
  open json use {null, number, string, object, is_null, as_object}

  -- `v.get(key).cloned().unwrap_or(Value::Null)`.
  abbrev pub field_of : Str → V → V
  field_of key v = elim (as_object v) [
    | none ↦ null
    | some m ↦ or_value null (HashMap.get Str-discrete key m)
  ]

  abbrev pub error_fields : V → HashMap Str V
  error_fields e =
      if is_null e
      then []
      else (codes "Error", field_of (codes "Error") e)
        ∷ (codes "Cause", field_of (codes "Cause") e)
        ∷ []

  -- `States::build`, without a map item, which no caller gives.
  unfoldable pub build_states : StatesContext V → V
  build_states c =
      let error_output = or_value null c.error_output in
      object (
        (codes "input", or_value c.input c.assign_ctx)
        ∷ (codes "result", or_value null c.result)
        ∷ (codes "errorOutput", error_output)
        ∷ (
          codes "context",
          object (
              (codes "Execution", object (error_fields error_output))
              ∷ (
                codes "State",
                object (
                    (codes "Name", string c.state_name)
                    ∷ (codes "RetryCount", number c.retry_count)
                    ∷ []),
              )
              ∷ (codes "StateMachine", object [])
              ∷ (codes "Map", object [])
              ∷ []),
        )
        ∷ [])

module _ {V S : Type 0} (engine : Engine V S) where
  open engine use {json, trim, eval_expr}

  abbrev pub eval_extracted :
      Extracted → Str → V → Variables V → Handle V S (Result (ExecutionError V) V)
  eval_extracted literal s states variables = pure (ok (json.string s))
  eval_extracted (expression inner) s states variables = pure (eval_expr inner states variables)
  eval_extracted out_of_range s states variables = stop panic

  -- `eval_string_or_expr`.
  unfoldable pub eval_string_or_expr :
      Str → V → Variables V → Handle V S (Result (ExecutionError V) V)
  unfolding extract_jsonata
  eval_string_or_expr s states variables =
      eval_extracted (extract_jsonata trim s) s states variables
