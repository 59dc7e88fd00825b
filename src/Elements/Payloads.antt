-- ===== src/Elements/Payloads.antt =====
-- What the entries of a collector say: crates/engine/src/handler.rs without stamps and causes.
use spica.Base.{◌≡◌, refl, ap, List, [], ◌∷◌, ◌++◌, map}
use spica.StreamProcessor.{EntryPayload}
use spica.Elements.Handle.{Work}

pub map-append :
    {A B : Type 0} (f : A → B) (xs ys : List A) → map f (xs ++ ys) ≡ map f xs ++ map f ys
map-append f [] ys = refl
map-append f (x ∷ xs) ys = ap (◌∷◌ (f x)) (map-append f xs ys)

pub append_one : {A : Type 0} (xs ys : List A) (y : A) → (xs ++ y ∷ []) ++ ys ≡ xs ++ y ∷ ys
append_one [] ys y = refl
append_one (x ∷ xs) ys y = ap (◌∷◌ x) (append_one xs ys y)

-- Oldest first.
abbrev pub payloads : {V S : Type 0} → Work V S → List (EntryPayload V)
payloads w = map (λ e. e.payload) w.entries
