-- ===== src/Base/Lists.antt =====
-- Lists measured and indexed by native numbers, and byte strings.
use Prim.Native.Nat.{ℕ, zero, suc, ◌+◌, ◌-◌}
use Prim.Native.Char.{code}
use Prim.Native.String.{String}
use mathlib.Core.Path.{◌≡◌, refl, ap}
use mathlib.Core.Logic.{ite}
use mathlib.Core.Bool.{Bool, true, false, not, ◌&&◌, ◌||◌}
use mathlib.Core.List.{List, [], ◌∷◌, ◌++◌}
use mathlib.Core.Option.{Option, none, some}
use native.Mathlib.Omega.{arith}
use native.Mathlib.Decide.{ℕ_discrete}
use spica.Base.Tests.{holds, if◌then◌else◌}

-- Rust's `str` where the program looks at the text: its bytes.
abbrev pub Str : Type 0
Str = List ℕ

-- The bytes of an ASCII literal.
abbrev pub codes : String → Str
codes String.[] = []
codes (String.◌∷◌ c s) = code c ∷ codes s

unfoldable pub Str-discrete : Discrete Str
Str-discrete = hlevel ℕ_discrete

module _ {ℓ} {A : Type ℓ} where
  abbrev pub length : List A → ℕ
  length [] = 0
  length (x ∷ xs) = suc (length xs)

  abbrev pub get_elem? : List A → ℕ → Option A
  get_elem? [] i = none
  get_elem? (x ∷ xs) zero = some x
  get_elem? (x ∷ xs) (suc i) = get_elem? xs i

  abbrev pub take : ℕ → List A → List A
  take zero xs = []
  take (suc n) [] = []
  take (suc n) (x ∷ xs) = x ∷ take n xs

  abbrev pub drop : ℕ → List A → List A
  drop zero xs = xs
  drop (suc n) [] = []
  drop (suc n) (x ∷ xs) = drop n xs

  abbrev pub filter : (A → Bool) → List A → List A
  filter p [] = []
  filter p (x ∷ xs) = let rest = filter p xs in if p x then x ∷ rest else rest

  -- `iter().any` and `iter().all`.
  abbrev pub any : (A → Bool) → List A → Bool
  any p [] = false
  any p (x ∷ xs) = p x || any p xs

  abbrev pub all : (A → Bool) → List A → Bool
  all p [] = true
  all p (x ∷ xs) = p x && all p xs

  abbrev pub All {κ} : (A → Type κ) → List A → Type κ
  All P [] = Unit
  All P (x ∷ xs) = P x × All P xs

  pub length-append : (xs ys : List A) → length (xs ++ ys) ≡ length xs + length ys
  length-append [] ys = omega arith
  length-append (x ∷ xs) ys = omega (arith, length-append xs ys)

-- `str::split_once(c)` at an ASCII character.
unfoldable pub split_once : ℕ → Str → Option (Str × Str)
split_once c [] = none
split_once c (x ∷ xs) =
    ite (ℕ_discrete x c) (some ([], xs))
      (elim (split_once c xs) [ none ↦ none | some (a, b) ↦ some (x ∷ a, b) ])

module _ (c : ℕ) where
  -- A text with no `c` is not split, and one before a `c` is split there.
  pub split_once_absent :
      (s : Str) → all (λ x. not (holds (ℕ_discrete x c))) s ≡ true → split_once c s ≡ none
  unfolding split_once
  split_once_absent [] h = refl
  split_once_absent (x ∷ xs) h = ground (arith, split_once_absent xs)

  pub split_once_at :
      (s t : Str)
      → all (λ x. not (holds (ℕ_discrete x c))) s ≡ true
      → split_once c (s ++ c ∷ t) ≡ some (s, t)
  unfolding split_once
  split_once_at [] t h = ground arith
  split_once_at (x ∷ xs) t h = ground (arith, split_once_at xs t)

module _ {ℓ} {A : Type ℓ} where
  pub all-append :
      (p : A → Bool) (xs ys : List A) → all p xs ≡ true → all p ys ≡ true → all p (xs ++ ys) ≡ true
  all-append p [] ys h k = k
  all-append p (x ∷ xs) ys h k = ground (arith, all-append p xs ys)

  -- What passes one test passes a weaker one.
  pub all-weaken :
      (p q : A → Bool)
      → ((x : A) → p x ≡ true → q x ≡ true)
      → (xs : List A) → all p xs ≡ true
      → all q xs ≡ true
  all-weaken p q w [] h = h
  all-weaken p q w (x ∷ xs) h = ground (arith, w x, all-weaken p q w xs)

module _ {ℓ} {A : Type ℓ} where
  pub drop-append :
      (xs : List A) (n : ℕ) (ys : List A) → drop (length xs + n) (xs ++ ys) ≡ drop n ys
  drop-append [] n ys = ap (λ m. drop m ys) (omega arith)
  drop-append (x ∷ xs) n ys =
      let e : suc (length xs) + n ≡ suc (length xs + n) = omega arith in rw e (drop-append xs n ys)

  pub drop-drop : (n m : ℕ) (xs : List A) → drop n (drop m xs) ≡ drop (m + n) xs
  drop-drop n zero xs = ap (λ k. drop k xs) (omega arith)
  drop-drop zero (suc m) [] = let e : suc m + 0 ≡ suc m = omega arith in rw e refl
  drop-drop (suc n) (suc m) [] = let e : suc m + suc n ≡ suc (m + suc n) = omega arith in rw e refl
  drop-drop n (suc m) (x ∷ xs) =
      let e : suc m + n ≡ suc (m + n) = omega arith in rw e (drop-drop n m xs)

  pub length-drop : (n : ℕ) (xs : List A) → length (drop n xs) ≡ length xs - n
  length-drop zero xs = omega arith
  length-drop (suc n) [] = omega arith
  length-drop (suc n) (x ∷ xs) = omega (arith, length-drop n xs)
