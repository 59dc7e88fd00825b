-- ===== src/Scheduler/Rounds.antt =====
-- What a round of crates/scheduler/src/in_memory.rs fires and keeps.
use spica.Base.{
  ◌≡◌, refl, sym, ap, ◌∙◌, inl, inr, ite, Bool, true, false, not, Option, none, some, List, [], ◌∷◌,
  ◌++◌, map, append_assoc, if◌then◌else◌, Bool-cases, filter,
}
use spica.HashMap
use spica.HashMap.{HashMap, or_else, get-insert, get-remove}
use spica.Machinery.Timestamp.{Timestamp}
use spica.Types.Deadline.{DeadlineTarget, DeadlineTarget-discrete}
use spica.Scheduler.{
  SchedulerInput, schedule, cancel, wake, Armed, apply_input, drain, is_due, Fired, fire, round,
}
use spica.Scheduler.Lookup.{
  find, without, IsDistinct, get-append, remove-append, remove-absent, IsDistinct-insert,
  IsDistinct-remove, Apart, find_self, remove_self, Apart-tail, Apart-keep,
}

drain-IsDistinct : (is : List SchedulerInput) (m : Armed) → IsDistinct m → IsDistinct (drain is m)
unfolding drain apply_input
drain-IsDistinct [] m h = h
drain-IsDistinct (schedule k d ∷ is) m h = drain-IsDistinct is _ (IsDistinct-insert k d m h)
drain-IsDistinct (cancel k ∷ is) m h = drain-IsDistinct is _ (IsDistinct-remove k m h)
drain-IsDistinct (wake ∷ is) m h = drain-IsDistinct is m h

fire-filter :
    (p : DeadlineTarget × Timestamp → Bool) (kept rest : Armed)
    → IsDistinct rest
    → Apart kept rest
    → fire (map (λ e. e.0) (filter p rest)) (kept ++ rest)
      ≡ some (filter p rest, kept ++ filter (λ e. not (p e)) rest)
unfolding fire Apart
fire-filter p kept [] h a = refl
fire-filter p kept ((k, d) ∷ rest) (f, h) a = elim (Bool-cases (p (k, d))) [
  | inl e ↦
      let found : find k (kept ++ (k, d) ∷ rest) ≡ some d =
        get-append k kept ((k, d) ∷ rest)
        ∙ ap (λ o. or_else o (find k ((k, d) ∷ rest))) (a k d (find_self k d rest))
        ∙ find_self k d rest in
      let left : without k (kept ++ (k, d) ∷ rest) ≡ kept ++ rest =
        remove-append k kept ((k, d) ∷ rest)
        ∙ ap (λ m. m ++ without k ((k, d) ∷ rest))
            (remove-absent k kept (a k d (find_self k d rest)))
        ∙ ap (λ m. kept ++ m) (remove_self k d rest f) in
      rw (e, found, left, fire-filter p kept rest h (Apart-tail k d kept rest f a)) refl
  | inr e ↦
      let moved : kept ++ (k, d) ∷ rest ≡ (kept ++ (k, d) ∷ []) ++ rest =
        sym (append_assoc kept ((k, d) ∷ []) rest) in
      rw (e, moved, fire-filter p (kept ++ (k, d) ∷ []) rest h (Apart-keep k d kept rest f a))
        (ap (λ m. some (filter p rest, m))
          (append_assoc kept ((k, d) ∷ []) (filter (λ e. not (p e)) rest)))
]

-- What a test leaves of an armed deadline.
abbrev pub passing :
    (DeadlineTarget × Timestamp → Bool) → DeadlineTarget → Option Timestamp → Option Timestamp
passing p k none = none
passing p k (some d) = if p (k, d) then some d else none

-- One armed deadline more, that the test answers with `b`.
find-filter_cons :
    (p : DeadlineTarget × Timestamp → Bool) (k j : DeadlineTarget) (d : Timestamp) (m : Armed)
    → find j m ≡ none
    → find k (filter p m) ≡ passing p k (find k m)
    → (b : Bool) → p (j, d) ≡ b
    → find k (if b then (j, d) ∷ filter p m else filter p m) ≡ passing p k (find k ((j, d) ∷ m))
unfolding HashMap.get
find-filter_cons p k j d m f ih true h =
    elim (DeadlineTarget-discrete j k)
      as (λ dec.
        ite dec (some d) (find k (filter p m)) ≡ passing p k (ite dec (some d) (find k m))) [
          | yes q ↦ sym (ap (λ b. if b then some d else none) (ap (λ x. p (x, d)) (sym q) ∙ h))
          | no n ↦ ih
        ]
find-filter_cons p k j d m f ih false h =
    elim (DeadlineTarget-discrete j k)
      as (λ dec. find k (filter p m) ≡ passing p k (ite dec (some d) (find k m))) [
        | yes q ↦
            ih
            ∙ ap (passing p k) (ap (λ x. find x m) (sym q) ∙ f)
            ∙ sym (ap (λ b. if b then some d else none) (ap (λ x. p (x, d)) (sym q) ∙ h))
        | no n ↦ ih
      ]

find-filter :
    (p : DeadlineTarget × Timestamp → Bool) (k : DeadlineTarget) (m : Armed)
    → IsDistinct m
    → find k (filter p m) ≡ passing p k (find k m)
unfolding HashMap.get
find-filter p k [] h = refl
find-filter p k ((j, d) ∷ m) (f, h) =
    find-filter_cons p k j d m f (find-filter p k m h) (p (j, d)) refl

IsDistinct-filter :
    (p : DeadlineTarget × Timestamp → Bool) (m : Armed) → IsDistinct m → IsDistinct (filter p m)
IsDistinct-filter p [] h = tt
IsDistinct-filter p ((j, d) ∷ m) (f, h) =
    elim (p (j, d)) as (λ b. IsDistinct (if b then (j, d) ∷ filter p m else filter p m)) [
      | true ↦ (find-filter p j m h ∙ ap (passing p j) f, IsDistinct-filter p m h)
      | false ↦ IsDistinct-filter p m h
    ]

-- The last word that the inputs have on a target.
abbrev pub last_word : DeadlineTarget → List SchedulerInput → Option Timestamp → Option Timestamp
last_word k [] o = o
last_word k (schedule t d ∷ is) o = last_word k is (ite (DeadlineTarget-discrete t k) (some d) o)
last_word k (cancel t ∷ is) o = last_word k is (ite (DeadlineTarget-discrete t k) none o)
last_word k (wake ∷ is) o = last_word k is o

find-drain :
    (k : DeadlineTarget) (is : List SchedulerInput) (m : Armed)
    → find k (drain is m) ≡ last_word k is (find k m)
unfolding drain apply_input
find-drain k [] m = refl
find-drain k (schedule t d ∷ is) m =
    find-drain k is (HashMap.insert DeadlineTarget-discrete t d m)
    ∙ ap (last_word k is) (get-insert DeadlineTarget-discrete t k d m)
find-drain k (cancel t ∷ is) m =
    find-drain k is (without t m) ∙ ap (last_word k is) (get-remove DeadlineTarget-discrete t k m)
find-drain k (wake ∷ is) m = find-drain k is m

-- While every target is armed at most once: a round of the scheduler never panics, fires exactly the
-- targets whose last word from the inputs, or else from before, is a deadline that is due, each once
-- and with that deadline, and keeps exactly the ones that are not due; and every target is again
-- armed at most once.
pub round_exact :
    (is : List SchedulerInput) (now : Timestamp) (m : Armed)
    → IsDistinct m
    → (fired : Fired) × (left : Armed) × (round is now m ≡ some (fired, left))
      × IsDistinct fired
      × IsDistinct left
      × ((k : DeadlineTarget) → find k fired ≡ passing (is_due now) k (last_word k is (find k m)))
      × ((k : DeadlineTarget)
          → find k left ≡ passing (λ e. not (is_due now e)) k (last_word k is (find k m)))
unfolding round Apart HashMap.get
round_exact is now m h =
    let d = drain is m in
    let hd : IsDistinct d = drain-IsDistinct is m h in
    (
      filter (is_due now) d,
      filter (λ e. not (is_due now e)) d,
      fire-filter (is_due now) [] d hd (λ k e q. refl),
      IsDistinct-filter (is_due now) d hd,
      IsDistinct-filter (λ e. not (is_due now e)) d hd,
      λ k. find-filter (is_due now) k d hd ∙ ap (passing (is_due now) k) (find-drain k is m),
      λ k.
          find-filter (λ e. not (is_due now e)) k d hd
          ∙ ap (passing (λ e. not (is_due now e)) k) (find-drain k is m),
    )
