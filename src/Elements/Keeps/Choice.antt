-- ===== src/Elements/Keeps/Choice.antt =====
-- A property that the primitive steps keep, through the state `Choice`
-- (crates/engine/src/elements).
use spica.Types.Error.{ExecutionError}
use spica.Types.Event.{Variables}
use spica.Types.Activity.{Activity}
use spica.Asl.{ChoiceState, ChoiceRule, ChoiceCondition, bool, expr}
use spica.Elements.Interface.{Engine}
use spica.Elements.Expression.{Extracted, literal, expression, out_of_range}
use spica.Elements.States.Choice.{
  Chosen, choice_completing, choose, choose_output, resolve_choice, rule_matches, test_extracted,
}
use spica.Elements.Keeps.StateHandler.{fail_state-Keeps, apply_assign-Keeps}
use spica.Elements.Keeps.Finish.{move_on-Keeps, land_completed-Keeps}
use spica.Elements.Keeps.{Keeps, Kept, keeps_rules, Keeps-bind, Keeps-pure, Keeps-result, Keeps-if}
use spica.Elements.Handle.{Work}
use spica.Base.{Option, none, some, List, [], ◌∷◌, Str, Result, ok, err}

module _ {V S : Type 0} {P : Work V S → Type 0} {engine : Engine V S} (kept : Kept P engine) where
  pub test_extracted-Keeps :
      (x : Extracted) (y : Str) (z : V) (u : Variables V) → Keeps P (test_extracted engine x y z u)
  test_extracted-Keeps literal text states variables = search keeps_rules
  test_extracted-Keeps (expression inner) text states variables = search keeps_rules
  test_extracted-Keeps out_of_range text states variables = search keeps_rules

  pub rule_matches-Keeps :
      (x : Option ChoiceCondition) (y : V) (z : Variables V) → Keeps P (rule_matches engine x y z)
  unfolding rule_matches
  rule_matches-Keeps none states variables = search keeps_rules
  rule_matches-Keeps (some (bool b)) states variables = search keeps_rules
  rule_matches-Keeps (some (expr text)) states variables =
      search (keeps_rules, test_extracted-Keeps) depth 12

  pub resolve_choice-Keeps :
      (x : List (ChoiceRule V)) (y : Option Str) (z : V) (u : Variables V) (v : Str)
      → Keeps P (resolve_choice engine x y z u v)
  unfolding resolve_choice
  resolve_choice-Keeps [] default states variables name = search keeps_rules
  resolve_choice-Keeps (r ∷ rs) default states variables name =
      Keeps-bind _ _ (rule_matches-Keeps _ _ _) (λ found.
        Keeps-result found _ _ (λ e. Keeps-pure _)
          (λ matched.
            Keeps-if matched _ _ (Keeps-pure _)
              (resolve_choice-Keeps rs default states variables name)))

  pub choose_output-Keeps :
      (x : Activity V) (y : Str) (z : Option V) (u : V)
      (v : Result (ExecutionError V) (Variables V))
      → Keeps P (choose_output engine x y z u v)
  choose_output-Keeps a to output states (err e) = search (keeps_rules, fail_state-Keeps) depth 12
  choose_output-Keeps a to output states (ok scope) =
      search (keeps_rules, fail_state-Keeps, land_completed-Keeps, move_on-Keeps) depth 12

  pub choose-Keeps :
      (x : ChoiceState V) (y : Activity V) (z : V) (u : Variables V)
      (v : Result (ExecutionError V) (Chosen engine))
      → Keeps P (choose engine x y z u v)
  choose-Keeps s a states variables (err e) = search (keeps_rules, fail_state-Keeps) depth 12
  choose-Keeps s a states variables (ok (assign, output, to)) =
      search (keeps_rules, apply_assign-Keeps, choose_output-Keeps) depth 12

  pub choice_completing-Keeps :
      (x : ChoiceState V) (y : Activity V) (z : Variables V)
      → Keeps P (choice_completing engine x y z)
  unfolding choice_completing
  choice_completing-Keeps s a variables =
      search (keeps_rules, choose-Keeps, resolve_choice-Keeps) depth 12
