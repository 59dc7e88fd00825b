-- ===== src/Storage/Fold/Sim.antt =====
-- Simulation of folds: two stores, a view of one as the other, and an invariant of the first. A
-- simulated fold has the same result and the viewed state, whether it succeeds or fails.
use spica.Base.{
  ◌≡◌, refl, ap, Bool, true, false, Option, none, some, if◌then◌else◌, Result, ok, err,
}
use spica.Storage.Fold.{
  Fold, Fault, continue, absorb, pure, panic, ◌>>=◌, when_some, expect, ok_or_none,
}

module _ {S T : Type 0} (view : S → T) (Inv : S → Type 0) where
  pub record Sim {A : Type 0} (m : Fold S A) (n : Fold T A) : Type 0 where
    pub at :
        (s : S) → Inv s → ((m s).0 ≡ (n (view s)).0) × (view (m s).1 ≡ (n (view s)).1) × Inv (m s).1

module _ {S T : Type 0} {view : S → T} {Inv : S → Type 0} where
  pub Sim-pure : {A : Type 0} (a : A) → Sim view Inv (pure a) (pure a)
  unfolding pure
  Sim-pure a = record { at = λ s i. (refl, refl, i) }

  pub Sim-panic : {A : Type 0} → Sim view Inv (panic {A = A}) panic
  unfolding panic
  Sim-panic = record { at = λ s i. (refl, refl, i) }

  Sim-continue :
      {A B : Type 0} (r : Result Fault A) (f : A → Fold S B) (g : A → Fold T B) (s : S)
      → ((a : A) → Sim view Inv (f a) (g a))
      → Inv s
      → ((continue r f s).0 ≡ (continue r g (view s)).0)
        × (view (continue r f s).1 ≡ (continue r g (view s)).1)
        × Inv (continue r f s).1
  Sim-continue (ok a) f g s sf i = (sf a).at s i
  Sim-continue (err e) f g s sf i = (refl, refl, i)

  pub Sim-bind :
      {A B : Type 0} (m : Fold S A) (n : Fold T A) (f : A → Fold S B) (g : A → Fold T B)
      → Sim view Inv m n
      → ((a : A) → Sim view Inv (f a) (g a))
      → Sim view Inv (m >>= f) (n >>= g)
  unfolding ◌>>=◌
  Sim-bind m n f g sm sf = record {
    at = λ s i. let (p, q, j) = sm.at s i in rw (← p, ← q) (Sim-continue (m s).0 f g (m s).1 sf j);
  }

  pub Sim-when_some :
      {A : Type 0} (o : Option A) (f : A → Fold S Unit) (g : A → Fold T Unit)
      → ((a : A) → Sim view Inv (f a) (g a))
      → Sim view Inv (when_some o f) (when_some o g)
  unfolding when_some
  Sim-when_some none f g s = Sim-pure tt
  Sim-when_some (some a) f g s = s a

  pub Sim-expect : {A : Type 0} (o : Option A) → Sim view Inv (expect o) (expect o)
  unfolding expect
  Sim-expect none = Sim-panic
  Sim-expect (some a) = Sim-pure a

  pub Sim-ok_or_none :
      {A : Type 0} (m : Fold S (Option A)) (n : Fold T (Option A))
      → Sim view Inv m n
      → Sim view Inv (ok_or_none m) (ok_or_none n)
  unfolding ok_or_none
  Sim-ok_or_none m n sm = record { at = λ s i. let (p, q, j) = sm.at s i in (ap absorb p, q, j) }

  pub Sim-if :
      {A : Type 0} (b : Bool) (m m' : Fold S A) (n n' : Fold T A)
      → Sim view Inv m n
      → Sim view Inv m' n'
      → Sim view Inv (if b then m else m') (if b then n else n')
  Sim-if true m m' n n' s s' = s
  Sim-if false m m' n n' s s' = s'

pub ruleset sim_rules =
    (Sim-pure, Sim-panic, Sim-bind, Sim-when_some, Sim-expect, Sim-if, Sim-ok_or_none)
