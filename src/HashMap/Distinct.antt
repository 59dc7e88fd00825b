-- ===== src/HashMap/Distinct.antt =====
-- Maps that hold each key once, as Rust's `HashMap` does, and `values().filter(p).take(limit)` over
-- them, whatever the order of the values.
use spica.Base.{
  ℕ, zero, suc, ◌≤◌, ◌≡◌, refl, sym, ap, ◌∙◌, ◌⊎◌, inl, inr, ite, if_neg, Bool, true, false, Option,
  none, some, List, [], ◌∷◌, map, arith, if◌then◌else◌, length, take, filter,
}
use spica.HashMap.{HashMap, get, insert, extend, get-insert}

-- An option's value, if it passes a test.
abbrev pub only {ℓ} : {A : Type ℓ} → (A → Bool) → Option A → Option A
only p none = none
only p (some a) = if p a then some a else none

module _ {K V : Type 0} (dec : Discrete K) where
  -- Every key is bound at most once.
  abbrev pub IsDistinct : HashMap K V → Type 0
  IsDistinct [] = Unit
  IsDistinct ((k, v) ∷ m) = (get dec k m ≡ none) × IsDistinct m

  IsDistinct-insert :
      (k : K) (v : V) (m : HashMap K V) → IsDistinct m → IsDistinct (insert dec k v m)
  unfolding insert get
  IsDistinct-insert k v [] h = (refl, tt)
  IsDistinct-insert k v ((j, e) ∷ m) (a, h) =
      elim (dec j k) as (λ d. IsDistinct (ite d ((k, v) ∷ m) ((j, e) ∷ insert dec k v m))) [
        | yes p ↦ (ap (λ x. get dec x m) (sym p) ∙ a, h)
        | no n ↦ (
          get-insert dec k j v m ∙ if_neg (dec k j) (λ q. n (sym q)) (some v) (get dec j m) ∙ a,
          IsDistinct-insert k v m h,
        )
      ]

  pub IsDistinct-extend : (m n : HashMap K V) → IsDistinct m → IsDistinct (extend dec m n)
  unfolding extend
  IsDistinct-extend m [] h = h
  IsDistinct-extend m ((k, v) ∷ n) h =
      IsDistinct-insert k v (extend dec m n) (IsDistinct-extend m n h)

  get-take :
      (k : K) (n : ℕ) (m : HashMap K V)
      → (get dec k (take n m) ≡ none) ⊎ (get dec k (take n m) ≡ get dec k m)
  unfolding get
  get-take k zero m = inl refl
  get-take k (suc n) [] = inl refl
  get-take k (suc n) ((j, v) ∷ m) = ground (arith, get-take k n m)

  absent-take : (k : K) (n : ℕ) (m : HashMap K V) → get dec k m ≡ none → get dec k (take n m) ≡ none
  absent-take k n m h = ground (arith, get-take k n m)

  IsDistinct-take : (n : ℕ) (m : HashMap K V) → IsDistinct m → IsDistinct (take n m)
  IsDistinct-take zero m h = tt
  IsDistinct-take (suc n) [] h = tt
  IsDistinct-take (suc n) ((j, v) ∷ m) (a, h) = (absent-take j n m a, IsDistinct-take n m h)

  take-all_or_full : (n : ℕ) (m : HashMap K V) → (length (take n m) ≡ n) ⊎ (take n m ≡ m)
  take-all_or_full zero m = inl refl
  take-all_or_full (suc n) [] = inr refl
  take-all_or_full (suc n) ((j, v) ∷ m) = ground (arith, take-all_or_full n m)

  length-take : (n : ℕ) (m : HashMap K V) → length (take n m) ≤ n
  length-take zero m = omega arith
  length-take (suc n) [] = omega arith
  length-take (suc n) (x ∷ m) = omega (arith, length-take n m)

  map-take : (n : ℕ) (m : HashMap K V) → map (λ e. e.1) (take n m) ≡ take n (map (λ e. e.1) m)
  map-take zero m = refl
  map-take (suc n) [] = refl
  map-take (suc n) (e ∷ m) = ap (◌∷◌ e.1) (map-take n m)

  module _ (p : V → Bool) where
    abbrev passing : HashMap K V → HashMap K V
    passing m = filter (λ e. p e.1) m

    get-passing :
        (k : K) (m : HashMap K V) → IsDistinct m → get dec k (passing m) ≡ only p (get dec k m)
    unfolding get
    get-passing k [] h = refl
    get-passing k ((j, v) ∷ m) (a, h) =
        let ih = get-passing k m h in
        let absent : j ≡ k → get dec k m ≡ none = λ e. ap (λ x. get dec x m) (sym e) ∙ a in
        ground (arith, ih, absent)

    IsDistinct-passing : (m : HashMap K V) → IsDistinct m → IsDistinct (passing m)
    IsDistinct-passing [] h = tt
    IsDistinct-passing ((j, v) ∷ m) (a, h) =
        elim (p v) as (λ b. IsDistinct (if b then (j, v) ∷ passing m else passing m)) [
          | true ↦ (get-passing j m h ∙ ap (only p) a, IsDistinct-passing m h)
          | false ↦ IsDistinct-passing m h
        ]

    map-passing : (m : HashMap K V) → map (λ e. e.1) (passing m) ≡ filter p (map (λ e. e.1) m)
    map-passing [] = refl
    map-passing ((j, v) ∷ m) = ground (arith, map-passing m)

    values-first :
        (n : ℕ) (m : HashMap K V)
        → map (λ e. e.1) (take n (passing m)) ≡ take n (filter p (map (λ e. e.1) m))
    values-first n m = map-take n (passing m) ∙ ap (take n) (map-passing m)

    -- These values are at most the limit, come from different keys of what is shown, and pass the
    -- test; and they are the limit's number or all the values shown that pass it.
    abbrev pub Serves : (K → Option V) → ℕ → List V → Type 0
    Serves shown limit offered =
        (chosen : HashMap K V) × (map (λ e. e.1) chosen ≡ offered)
        × IsDistinct chosen
        × (length chosen ≤ limit)
        × ((k : K) → (get dec k chosen ≡ none) ⊎ (get dec k chosen ≡ only p (shown k)))
        × ((length chosen ≡ limit) ⊎ ((k : K) → get dec k chosen ≡ only p (shown k)))

    pub first-Serves :
        (shown : K → Option V) (limit : ℕ) (m : HashMap K V)
        → IsDistinct m
        → ((k : K) → get dec k m ≡ shown k)
        → Serves shown limit (take limit (filter p (map (λ e. e.1) m)))
    first-Serves shown limit m h same =
        let passes : (k : K) → get dec k (passing m) ≡ only p (shown k) =
          λ k. get-passing k m h ∙ ap (only p) (same k) in
        (
          take limit (passing m),
          values-first limit m,
          IsDistinct-take limit (passing m) (IsDistinct-passing m h),
          length-take limit (passing m),
          (λ k. ground (arith, get-take k limit (passing m), passes k)),
          elim (take-all_or_full limit (passing m)) [
            | inl full ↦ inl full
            | inr whole ↦ inr λ k. ap (get dec k) whole ∙ passes k
          ],
        )
