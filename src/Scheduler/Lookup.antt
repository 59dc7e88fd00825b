-- ===== src/Scheduler/Lookup.antt =====
-- The armed deadlines of crates/scheduler/src/in_memory.rs as a map: appending, removing and distinct keys.
use spica.Base.{
  ◌≡◌, refl, sym, ap, ◌∙◌, ◌≢◌, ite, if_pos, if_neg, Option, none, some, [], ◌∷◌, ◌++◌, arith,
}
use spica.HashMap
use spica.HashMap.{HashMap, or_else, get-insert, get-remove}
use spica.Machinery.Timestamp.{Timestamp}
use spica.Types.Deadline.{DeadlineTarget, DeadlineTarget-discrete}
use spica.Scheduler.{Armed}

abbrev pub find : DeadlineTarget → Armed → Option Timestamp
find k m = HashMap.get DeadlineTarget-discrete k m

abbrev pub without : DeadlineTarget → Armed → Armed
without k m = HashMap.remove DeadlineTarget-discrete k m

-- Every target is armed at most once, as in a hash map.
abbrev pub IsDistinct : Armed → Type 0
IsDistinct [] = Unit
IsDistinct ((k, d) ∷ m) = (find k m ≡ none) × IsDistinct m

pub get-append :
    (k : DeadlineTarget) (xs ys : Armed) → find k (xs ++ ys) ≡ or_else (find k xs) (find k ys)
unfolding HashMap.get
get-append k [] ys = refl
get-append k ((j, d) ∷ xs) ys = ground (arith, get-append k xs ys)

pub remove-append :
    (k : DeadlineTarget) (xs ys : Armed) → without k (xs ++ ys) ≡ without k xs ++ without k ys
unfolding HashMap.remove
remove-append k [] ys = refl
remove-append k ((j, d) ∷ xs) ys = ground (arith, remove-append k xs ys)

pub remove-absent : (k : DeadlineTarget) (m : Armed) → find k m ≡ none → without k m ≡ m
unfolding HashMap.get HashMap.remove
remove-absent k [] h = refl
remove-absent k ((j, d) ∷ m) h = ground (arith, remove-absent k m)

pub IsDistinct-insert :
    (k : DeadlineTarget) (d : Timestamp) (m : Armed)
    → IsDistinct m
    → IsDistinct (HashMap.insert DeadlineTarget-discrete k d m)
unfolding HashMap.insert HashMap.get
IsDistinct-insert k d [] h = (refl, tt)
IsDistinct-insert k d ((j, e) ∷ m) (a, h) =
    elim (DeadlineTarget-discrete j k)
      as (λ dec.
        IsDistinct (ite dec ((k, d) ∷ m) ((j, e) ∷ HashMap.insert DeadlineTarget-discrete k d m))) [
          | yes p ↦ (ap (λ x. find x m) (sym p) ∙ a, h)
          | no n ↦ (
            get-insert DeadlineTarget-discrete k j d m
                ∙ if_neg (DeadlineTarget-discrete k j) (λ q. n (sym q)) (some d) (find j m)
                ∙ a,
            IsDistinct-insert k d m h,
          )
        ]

pub IsDistinct-remove : (k : DeadlineTarget) (m : Armed) → IsDistinct m → IsDistinct (without k m)
unfolding HashMap.remove HashMap.get
IsDistinct-remove k [] h = tt
IsDistinct-remove k ((j, e) ∷ m) (a, h) =
    elim (DeadlineTarget-discrete j k)
      as (λ dec. IsDistinct (ite dec (without k m) ((j, e) ∷ without k m))) [
        | yes p ↦ IsDistinct-remove k m h
        | no n ↦ (
          get-remove DeadlineTarget-discrete k j m
              ∙ if_neg (DeadlineTarget-discrete k j) (λ q. n (sym q)) none (find j m)
              ∙ a,
          IsDistinct-remove k m h,
        )
      ]

-- No target of the second list is one of the first.
unfoldable pub Apart : Armed → Armed → Type 0
Apart xs ys = (k : DeadlineTarget) (d : Timestamp) → find k ys ≡ some d → find k xs ≡ none

pub find_self : (k : DeadlineTarget) (d : Timestamp) (m : Armed) → find k ((k, d) ∷ m) ≡ some d
unfolding HashMap.get
find_self k d m = if_pos (DeadlineTarget-discrete k k) refl (some d) (find k m)

pub remove_self :
    (k : DeadlineTarget) (d : Timestamp) (m : Armed) → find k m ≡ none → without k ((k, d) ∷ m) ≡ m
unfolding HashMap.remove
remove_self k d m f =
    if_pos (DeadlineTarget-discrete k k) refl (without k m) ((k, d) ∷ without k m)
    ∙ remove-absent k m f

pub differ :
    (k j : DeadlineTarget) (e : Timestamp) (m : Armed) → find k m ≡ none → find j m ≡ some e → k ≢ j
differ k j e m f q = λ p. let r : none ≡ some e = sym f ∙ ap (λ x. find x m) p ∙ q in grind arith

pub Apart-tail :
    (k : DeadlineTarget) (d : Timestamp) (kept rest : Armed)
    → find k rest ≡ none
    → Apart kept ((k, d) ∷ rest)
    → Apart kept rest
unfolding Apart HashMap.get
Apart-tail k d kept rest f a j e q =
    a j e (if_neg (DeadlineTarget-discrete k j) (differ k j e rest f q) (some d) (find j rest) ∙ q)

pub Apart-keep :
    (k : DeadlineTarget) (d : Timestamp) (kept rest : Armed)
    → find k rest ≡ none
    → Apart kept ((k, d) ∷ rest)
    → Apart (kept ++ (k, d) ∷ []) rest
unfolding Apart HashMap.get
Apart-keep k d kept rest f a j e q =
    get-append j kept ((k, d) ∷ [])
    ∙ ap (λ o. or_else o (find j ((k, d) ∷ []))) (Apart-tail k d kept rest f a j e q)
    ∙ if_neg (DeadlineTarget-discrete k j) (differ k j e rest f q) (some d) none
