-- ===== src/Elements/Tags.antt =====
-- The tags of an expression (`extract_jsonata` of crates/engine/src/eval_env.rs).
use mathlib.Core.Logic.{◌↔◌}
use spica.Base.{◌≡◌, refl, ap, ◌∙◌, [], ◌∷◌, arith, ℕ_discrete, Str, codes, Str-discrete}
use spica.Elements.Expression.{out_of_range, extract_jsonata, between_tags}

-- The text whose opening and closing tags share a byte.
abbrev pub overlapping : Str
overlapping = codes "{%}"

overlapping_tags : (trim : Str → Str) → between_tags trim overlapping ≡ out_of_range
unfolding between_tags Str-discrete ℕ_discrete
overlapping_tags trim = refl

shares_a_byte : (trim : Str → Str) (t : Str) → between_tags trim t ≡ out_of_range → t ≡ overlapping
unfolding between_tags
shares_a_byte trim [] h = grind arith
shares_a_byte trim (a ∷ []) h = grind arith
shares_a_byte trim (a ∷ b ∷ []) h = grind arith
shares_a_byte trim (a ∷ b ∷ c ∷ []) h = grind arith
shares_a_byte trim (a ∷ b ∷ c ∷ d ∷ t) h = grind arith

-- Extracting an expression from a text panics exactly when the trimmed text is `{%}`, whose opening
-- and closing tags share a byte.
pub extract_jsonata-panics :
    (trim : Str → Str) (s : Str) → (extract_jsonata trim s ≡ out_of_range) ↔ (trim s ≡ overlapping)
unfolding extract_jsonata
extract_jsonata-panics trim s =
    (shares_a_byte trim (trim s), λ h. ap (between_tags trim) h ∙ overlapping_tags trim)
