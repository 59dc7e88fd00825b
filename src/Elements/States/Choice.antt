-- ===== src/Elements/States/Choice.antt =====
-- crates/engine/src/elements/states/choice.rs.
use spica.Types.Meta.{object_ref}
use spica.Types.Error.{ExecutionError, runtime, invalid_definition, jsonata, no_choice_matched}
use spica.Types.Event.{Variables}
use spica.Types.Activity.{Activity}
use spica.Asl.{ChoiceState, ChoiceRule, ChoiceCondition, bool, expr, AssignObject}
use spica.Asl.StatePath.{state_name, sibling}
use spica.Elements.Interface.{Engine}
use spica.Elements.Expression.{
  Extracted, literal, expression, out_of_range, extract_jsonata, build_states,
}
use spica.Elements.Handle.{Handle, match_result, pure, stop, panic, ◌>>=◌, ◌>>◌}
use spica.Elements.StateHandler.{apply_assign, project_output, fail_state}
use spica.Elements.States.Finish.{context_of, land_completed, move_on}
use spica.Base.{
  Bool, false, Option, none, some, List, [], ◌∷◌, if◌then◌else◌, Str, codes, Result, ok, err,
}

module _ {V S : Type 0} (engine : Engine V S) where
  open engine use {json, trim, eval_expr}

  abbrev pub tested : Str → Result (ExecutionError V) V → Result (ExecutionError V) Bool
  tested text (err e) = err e
  tested text (ok v) = elim (json.as_bool v) [
    | none ↦ err (runtime (jsonata text (codes "Condition must evaluate to a boolean")))
    | some b ↦ ok b
  ]

  abbrev pub test_extracted :
      Extracted → Str → V → Variables V → Handle V S (Result (ExecutionError V) Bool)
  test_extracted literal text states variables = pure (
      err (
        runtime (invalid_definition (codes "Choice Condition must be a {% %} JSONata expression"))))
  test_extracted (expression inner) text states variables =
      pure (tested text (eval_expr inner states variables))
  test_extracted out_of_range text states variables = stop panic

  -- Whether a rule matches.
  unfoldable pub rule_matches :
      Option ChoiceCondition → V → Variables V → Handle V S (Result (ExecutionError V) Bool)
  rule_matches none states variables = pure (ok false)
  rule_matches (some (bool b)) states variables = pure (ok b)
  rule_matches (some (expr text)) states variables =
      test_extracted (extract_jsonata trim text) text states variables

  -- What the routing takes from the rule that matched, or the default.
  abbrev pub Chosen : Type 0
  Chosen = Option (AssignObject V) × Option V × Str

  -- No rule matched.
  abbrev pub default_choice : Option Str → Str → Result (ExecutionError V) Chosen
  default_choice (some d) name = ok (none, none, d)
  default_choice none name = err (runtime (no_choice_matched name))

  -- `resolve_choice`: the first rule that matches, or the default.
  unfoldable pub resolve_choice :
      List (ChoiceRule V)
      → Option Str
      → V
      → Variables V
      → Str
      → Handle V S (Result (ExecutionError V) Chosen)
  resolve_choice [] default states variables name = pure (default_choice default name)
  resolve_choice (r ∷ rs) default states variables name = do
    found ← rule_matches r.condition states variables
    match_result found (λ e. pure (err e))
        λ matched.
          let rest = resolve_choice rs default states variables name in
          if matched then pure (ok (r.assign, r.output, r.next)) else rest

  -- `a.or(b)`.
  abbrev pub first_some {ℓ} : {A : Type ℓ} → Option A → Option A → Option A
  first_some (some a) b = some a
  first_some none b = b

  abbrev pub choose_output :
      Activity V → Str → Option V → V → Result (ExecutionError V) (Variables V) → Handle V S Unit
  choose_output a to output states (err e) = fail_state engine (object_ref a.meta) e
  choose_output a to output states (ok scope) =
      match_result (project_output engine output states scope a.raw_input)
        (fail_state engine (object_ref a.meta))
        λ v. do land_completed engine a v; move_on engine a (sibling a.state_path to) v

  abbrev pub choose :
      ChoiceState V
      → Activity V
      → V
      → Variables V
      → Result (ExecutionError V) Chosen
      → Handle V S Unit
  choose s a states variables (err e) = fail_state engine (object_ref a.meta) e
  choose s a states variables (ok (assign, output, to)) = do
    scope ← apply_assign engine a.meta.owner (first_some assign s.assign) states variables
    choose_output a to (first_some output s.output) states scope

  -- `after_completing`, with `process_choice`.
  unfoldable pub choice_completing : ChoiceState V → Activity V → Variables V → Handle V S Unit
  choice_completing s a variables = do
    let states = build_states json (context_of engine a none)
    found ← resolve_choice s.choices s.default states variables (state_name a.state_path)
    choose s a states variables found
