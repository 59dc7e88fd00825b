-- ===== src/HashMap.antt =====
-- Rust's `HashMap` and `HashSet`, as association lists and lists of keys. An iteration follows the
-- list, which stands for the order that Rust leaves open, and no statement depends on it. A lookup is a
-- function of the operations that led to a map, whatever the order of its entries.
pub mod HashSet
pub mod Distinct
use spica.Base.{◌≡◌, refl, fun_ext, ite, Option, none, some, List, [], ◌∷◌, arith}

abbrev pub HashMap {ℓ} : Type ℓ → Type ℓ → Type ℓ
HashMap K V = List (K × V)

-- What the later layer holds, or else the earlier one.
abbrev pub or_else {ℓ} : {A : Type ℓ} → Option A → Option A → Option A
or_else (some a) o = some a
or_else none o = o

module _ {ℓ} {K V : Type ℓ} (dec : Discrete K) where
  unfoldable pub get : K → HashMap K V → Option V
  get k [] = none
  get k ((j, v) ∷ m) = ite (dec j k) (some v) (get k m)

  -- A key that is present keeps its place and takes the new value.
  unfoldable pub insert : K → V → HashMap K V → HashMap K V
  insert k v [] = (k, v) ∷ []
  insert k v ((j, w) ∷ m) = ite (dec j k) ((k, v) ∷ m) ((j, w) ∷ insert k v m)

  unfoldable pub remove : K → HashMap K V → HashMap K V
  remove k [] = []
  remove k ((j, w) ∷ m) = let rest = remove k m in ite (dec j k) rest ((j, w) ∷ rest)

  -- `m.extend(n)`: the entries of `n` are inserted one by one.
  unfoldable pub extend : HashMap K V → HashMap K V → HashMap K V
  unfolding insert
  extend m [] = m
  extend m ((k, v) ∷ n) = insert k v (extend m n)

  pub get-insert :
      (k j : K) (v : V) (m : HashMap K V) → get j (insert k v m) ≡ ite (dec k j) (some v) (get j m)
  unfolding get insert
  get-insert k j v [] = refl
  get-insert k j v ((i, w) ∷ m) = ground (arith, get-insert k j v m)

  pub get-remove : (k j : K) (m : HashMap K V) → get j (remove k m) ≡ ite (dec k j) none (get j m)
  unfolding get remove
  get-remove k j [] = ground arith
  get-remove k j ((i, w) ∷ m) = ground (arith, get-remove k j m)

  -- The entries of the second map win.
  pub get-extend : (j : K) (m n : HashMap K V) → get j (extend m n) ≡ or_else (get j n) (get j m)
  unfolding get extend
  get-extend j m [] = refl
  get-extend j m ((k, v) ∷ n) = ground (arith, get-extend j m n, get-insert k j v (extend m n))

pub ruleset map_laws = (get-insert, get-remove, get-extend)

-- A function with one cell written.
abbrev pub update {ℓ κ} : {K : Type ℓ} (dec : Discrete K) {A : Type κ} → (K → A) → K → A → K → A
update dec f k a j = ite (dec k j) a (f j)

module _ {ℓ} {K V : Type ℓ} (dec : Discrete K) where
  abbrev pub lookup : HashMap K V → K → Option V
  lookup m k = get dec k m

  -- Pending writes over a base.
  abbrev pub overlay : HashMap K V → HashMap K V → K → Option V
  overlay pending m k = or_else (get dec k pending) (get dec k m)

  pub overlay-insert :
      (k : K) (v : V) (pending m : HashMap K V)
      → overlay (insert dec k v pending) m ≡ update dec (overlay pending m) k (some v)
  overlay-insert k v pending m = fun_ext λ j. ground (arith, get-insert dec k j v pending)

  pub lookup-extend : (m pending : HashMap K V) → lookup (extend dec m pending) ≡ overlay pending m
  lookup-extend m pending = fun_ext λ j. get-extend dec j m pending
