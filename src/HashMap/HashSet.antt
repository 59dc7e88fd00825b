-- ===== src/HashMap/HashSet.antt =====
-- `HashSet`: a list of keys, each at most once.
use spica.Base.{◌≡◌, refl, Bool, false, ◌||◌, ◌&&◌, not, List, [], ◌∷◌, ite, holds, arith}

module _ {ℓ} {K : Type ℓ} (dec : Discrete K) where
  unfoldable pub contains : K → List K → Bool
  contains k [] = false
  contains k (x ∷ xs) = holds (dec x k) || contains k xs

  unfoldable pub insert : K → List K → List K
  insert k [] = k ∷ []
  insert k (x ∷ xs) = ite (dec x k) (x ∷ xs) (x ∷ insert k xs)

  unfoldable pub remove : K → List K → List K
  remove k [] = []
  remove k (x ∷ xs) = let rest = remove k xs in ite (dec x k) rest (x ∷ rest)

  pub contains-insert :
      (k j : K) (s : List K) → contains j (insert k s) ≡ (holds (dec k j) || contains j s)
  unfolding contains insert
  contains-insert k j [] = refl
  contains-insert k j (x ∷ xs) = ground (arith, contains-insert k j xs)

  pub contains-remove :
      (k j : K) (s : List K) → contains j (remove k s) ≡ (not (holds (dec k j)) && contains j s)
  unfolding contains remove
  contains-remove k j [] = ground arith
  contains-remove k j (x ∷ xs) = ground (arith, contains-remove k j xs)

pub ruleset set_laws = (contains-insert, contains-remove)
