-- ===== src/Elements/Keeps/Expression.antt =====
-- A property that the primitive steps keep, through evaluating an expression
-- (crates/engine/src/elements).
use spica.Types.Event.{Variables}
use spica.Elements.Interface.{Engine}
use spica.Elements.Expression.{
  Extracted, eval_extracted, eval_string_or_expr, expression, literal, out_of_range,
}
use spica.Elements.Keeps.{Keeps, Kept, keeps_rules}
use spica.Elements.Handle.{Work}
use spica.Base.{Str}

module _ {V S : Type 0} {P : Work V S → Type 0} {engine : Engine V S} (kept : Kept P engine) where
  pub eval_extracted-Keeps :
      (x : Extracted) (y : Str) (z : V) (u : Variables V) → Keeps P (eval_extracted engine x y z u)
  eval_extracted-Keeps literal s states variables = search keeps_rules
  eval_extracted-Keeps (expression inner) s states variables = search keeps_rules
  eval_extracted-Keeps out_of_range s states variables = search keeps_rules

  pub eval_string_or_expr-Keeps :
      (x : Str) (y : V) (z : Variables V) → Keeps P (eval_string_or_expr engine x y z)
  unfolding eval_string_or_expr
  eval_string_or_expr-Keeps s states variables = search (keeps_rules, eval_extracted-Keeps)
