-- ===== src/Storage/Fold.antt =====
-- The effect of a fold over a store: a call reads and writes the store and may fail, and what was
-- written before a failure stays written in the transaction.
pub mod Sim
use spica.Base.{Option, none, some, Result, ok, err}
use spica.Types.Error.{StorageError}

-- A storage error that `?` returns, or a panic of the source (an `expect`).
pub data Fault : Type 0 where
  storage_fault : StorageError → Fault
  panicked : Fault

abbrev pub Fold : Type 0 → Type 0 → Type 0
Fold S A = S → Result Fault A × S

module _ {S A : Type 0} where
  unfoldable pub pure : A → Fold S A
  pure a s = (ok a, s)

  unfoldable pub panic : Fold S A
  panic s = (err panicked, s)

module _ {S A B : Type 0} where
  abbrev pub continue : Result Fault A → (A → Fold S B) → Fold S B
  continue (ok a) f s = f a s
  continue (err e) f s = (err e, s)

  infixl 10 ◌>>=◌ ◌>>◌
  unfoldable pub ◌>>=◌ : Fold S A → (A → Fold S B) → Fold S B
  unfolding pure panic
  ◌>>=◌ m f s = let (r, s') = m s in continue r f s'

  abbrev pub ◌>>◌ : Fold S A → Fold S B → Fold S B
  m >> n = m >>= λ _. n

-- A failed read, taken as an absent row.
abbrev pub absorb : {A : Type 0} → Result Fault (Option A) → Result Fault (Option A)
absorb (ok o) = ok o
absorb (err e) = ok none

module _ {S A : Type 0} where
  -- `if let Some(a) = o { … }`.
  unfoldable pub when_some : Option A → (A → Fold S Unit) → Fold S Unit
  unfolding pure
  when_some none f = pure tt
  when_some (some a) f = f a

  -- `o.expect(…)`.
  unfoldable pub expect : Option A → Fold S A
  unfolding pure panic
  expect none = panic
  expect (some a) = pure a

  -- `if let Ok(o) = m`: a failed read counts as an absent row, and the fold goes on.
  unfoldable pub ok_or_none : Fold S (Option A) → Fold S (Option A)
  ok_or_none m s = let (r, s') = m s in (absorb r, s')
