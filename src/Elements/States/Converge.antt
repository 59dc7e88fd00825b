-- ===== src/Elements/States/Converge.antt =====
-- What parallel.rs and map.rs of crates/engine/src/elements/states ask of their child threads.
use spica.Types.Thread.{Thread, is_terminal}
use spica.Elements.Settle.{termination_reason}
use spica.Elements.Expression.{or_value}
use spica.Base.{
  ℕ, Bool, true, false, ◌&&◌, Option, none, some, List, [], ◌∷◌, leb, if◌then◌else◌, Result, ok,
  err,
}

-- `sort_by_key(|(i, _)| *i)`, by insertion.
unfoldable pub insert_by_key {ℓ} : {A : Type ℓ} → ℕ × A → List (ℕ × A) → List (ℕ × A)
insert_by_key (i, a) [] = (i, a) ∷ []
insert_by_key (i, a) ((j, b) ∷ xs) =
    let rest = insert_by_key (i, a) xs in if leb i j then (i, a) ∷ (j, b) ∷ xs else (j, b) ∷ rest

unfoldable pub sort_by_key {ℓ} : {A : Type ℓ} → List (ℕ × A) → List (ℕ × A)
unfolding insert_by_key
sort_by_key [] = []
sort_by_key (x ∷ xs) = insert_by_key x (sort_by_key xs)

-- `.ok().flatten()`.
abbrev pub flatten {ℓ} : {E A : Type ℓ} → Result E (Option A) → Option A
flatten (ok o) = o
flatten (err e) = none

abbrev pub is_none {ℓ} : {A : Type ℓ} → Option A → Bool
is_none none = true
is_none (some a) = false

module _ {V : Type 0} where
  -- Ended, and not by a termination.
  abbrev pub is_successful : Option (Thread V) → Bool
  is_successful none = false
  is_successful (some t) = is_terminal t.status && is_none (termination_reason t.status)

  abbrev pub output_of : V → Option (Thread V) → V
  output_of null none = null
  output_of null (some t) = or_value null t.output
