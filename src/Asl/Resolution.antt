-- ===== src/Asl/Resolution.antt =====
-- Where the paths of crates/asl/src/state_path.rs lead.
use spica.Base.{
  arith, if◌then◌else◌, Bool, true, false, Str-discrete, ℕ_discrete, ℕ, ◌<◌, ◌^◌, ◌≡◌, refl, ap,
  ◌∙◌, Option, none, some, [], ◌∷◌, ◌++◌, Str, Result, ok, err,
}
use spica.Machinery.Decimal.{format_u64, parse_u64, parse_u64-format_u64}
use spica.Types.Thread.{StatePath}
use spica.Asl.{
  State, parallel, map_state, States, processor, no_processor, ItemProcessor, Branches,
  StateMachine, get_state, get_branch, ParallelState, MapState,
}
use spica.Asl.StatePath.{
  states_token, branches_token, item_processor_token, parent, state_name, state, branch,
  item_processor, walk_states, step_into, state_at, StatePathError, malformed, is_token,
  or_not_found, branch_states, processor_states,
}

parent-state : (p : StatePath) (name : Str) → parent (p ++ name ∷ []) ≡ p
unfolding parent
parent-state [] name = refl
parent-state (t ∷ []) name = refl
parent-state (t ∷ u ∷ p) name = rw (parent-state (u ∷ p) name) refl

state_name-state : (p : StatePath) (name : Str) → state_name (p ++ name ∷ []) ≡ name
unfolding state_name
state_name-state [] name = refl
state_name-state (t ∷ []) name = refl
state_name-state (t ∷ u ∷ p) name = state_name-state (u ∷ p) name

snoc-append : (p : StatePath) (t : Str) (q : StatePath) → (p ++ t ∷ []) ++ q ≡ p ++ t ∷ q
snoc-append [] t q = refl
snoc-append (u ∷ p) t q = ap (λ r. u ∷ r) (snoc-append p t q)

ok-injective : {A E : Type 0} (a b : A) → ◌≡◌ {A = Result E A} (ok a) (ok b) → a ≡ b
ok-injective a b h = ground arith

module _ {V : Type 0} where
  abbrev found_in : Result StatePathError (States V) → Str → Result StatePathError (State V)
  found_in (err e) name = err e
  found_in (ok states) name = or_not_found (get_state name states)

  state_at-found_in :
      (machine : StateMachine V) (path : StatePath)
      → state_at machine path
        ≡ found_in (walk_states machine.states (parent path)) (state_name path)
  unfolding state_at
  state_at-found_in machine path = found_cases (walk_states machine.states (parent path))
    where
      found_cases :
          (r : Result StatePathError (States V))
          → elim r [ err e ↦ err e | ok states ↦ or_not_found (get_state (state_name path) states) ]
            ≡ found_in r (state_name path)
      found_cases (err e) = refl
      found_cases (ok x) = refl

  -- A state lies under the path of its states.
  state_at-state :
      (machine : StateMachine V) (p : StatePath) (name : Str) (below : States V)
      → walk_states machine.states p ≡ ok below
      → state_at machine (p ++ name ∷ []) ≡ or_not_found (get_state name below)
  state_at-state machine p name below h =
      state_at-found_in machine (p ++ name ∷ [])
      ∙ ap (λ q. found_in (walk_states machine.states q) (state_name (p ++ name ∷ [])))
          (parent-state p name)
      ∙ ap (λ n. found_in (walk_states machine.states p) n) (state_name-state p name)
      ∙ ap (λ r. found_in r name) h

  if-extend :
      (b : Bool) (x x' y : Result StatePathError (States V)) (out : States V)
      → (x ≡ ok out → x' ≡ y)
      → (if b then x else err malformed) ≡ ok out
      → (if b then x' else err malformed) ≡ y
  if-extend true x x' y out f h = f h
  if-extend false x x' y out f h = ground arith

  into-extend :
      (r : Result StatePathError (States V)) (f f' : States V → Result StatePathError (States V))
      (y : Result StatePathError (States V)) (out : States V)
      → ((states : States V) → f states ≡ ok out → f' states ≡ y)
      → elim r [ err e ↦ err e | ok states ↦ f states ] ≡ ok out
      → elim r [ err e ↦ err e | ok states ↦ f' states ] ≡ y
  into-extend (ok states) f f' y out g h = g states h
  into-extend (err e) f f' y out g h = ground arith

  no_index : (bs : Branches V) (t : Str) → branch_states bs t states_token ≡ err malformed
  unfolding branch_states parse_u64
  no_index bs t = ground arith

  no_processor_there : (m : ItemProcessor V) → processor_states m states_token ≡ err malformed
  unfolding processor_states Str-discrete ℕ_discrete
  no_processor_there no_processor = refl
  no_processor_there (processor start_at below) = refl

  not_entered : (o : Option (State V)) (out : States V) → ¬ (step_into o [] ≡ ok out)
  unfolding step_into
  not_entered none out h = ground arith
  not_entered (some (parallel s bs)) out h = ground arith
  not_entered (some (map_state s m)) out h = ground arith
  not_entered (some x) out h = ground arith

  not_led :
      (r : Result StatePathError (States V)) (f : States V → Result StatePathError (States V))
      (out : States V)
      → r ≡ err malformed
      → ¬ (elim r [ err e ↦ err e | ok states ↦ f states ] ≡ ok out)
  not_led (ok below) f out h k = ground arith
  not_led (err e) f out h k = ground arith

  mutual
    unfolding walk_states Str-discrete ℕ_discrete

    walk_states-extend :
        (states out : States V) (c r : StatePath)
        → walk_states states (c ++ states_token ∷ []) ≡ ok out
        → walk_states states (c ++ states_token ∷ r) ≡ walk_states out (states_token ∷ r)
    walk_states-extend states out [] r h =
        ap (λ x. walk_states x (states_token ∷ r)) (ok-injective states out h)
    walk_states-extend states out (t ∷ []) r h =
        if-extend (is_token t states_token) _ _ _ out
          (λ k. absurd (not_entered (get_state states_token states) out k)) h
    walk_states-extend states out (t ∷ name ∷ c) r h =
        if-extend (is_token t states_token) _ _ _ out
          (step_into-extend (get_state name states) out c r) h

    step_into-extend :
        (o : Option (State V)) (out : States V) (c r : StatePath)
        → step_into o (c ++ states_token ∷ []) ≡ ok out
        → step_into o (c ++ states_token ∷ r) ≡ walk_states out (states_token ∷ r)
    step_into-extend none out c r k = ground arith
    step_into-extend (some (parallel s bs)) out [] r k = ground arith
    step_into-extend (some (parallel s bs)) out (u ∷ []) r k =
        absurd (not_led (branch_states bs u states_token) _ out (no_index bs u) k)
    step_into-extend (some (parallel s bs)) out (u ∷ i ∷ d) r k =
        into-extend (branch_states bs u i) _ _ _ out (λ below. walk_states-extend below out d r) k
    step_into-extend (some (map_state s m)) out [] r k =
        absurd (not_led (processor_states m states_token) _ out (no_processor_there m) k)
    step_into-extend (some (map_state s m)) out (u ∷ d) r k =
        into-extend (processor_states m u) _ _ _ out (λ below. walk_states-extend below out d r) k
    step_into-extend (some x) out c r k = ground arith

  branch_states-found :
      (bs : Branches V) (i : ℕ) (below : States V)
      → i < 2 ^ 64
      → get_branch i bs ≡ some below
      → branch_states bs branches_token (format_u64 i) ≡ ok below
  unfolding branch_states Str-discrete ℕ_discrete
  branch_states-found bs i below h k = rw (parse_u64-format_u64 i h) (rw k refl)

  led :
      (r : Result StatePathError (States V)) (f : States V → Result StatePathError (States V))
      (below : States V) (y : Result StatePathError (States V))
      → r ≡ ok below
      → f below ≡ y
      → elim r [ err e ↦ err e | ok states ↦ f states ] ≡ y
  led (ok states) f below y h k = ap f (ok-injective states below h) ∙ k
  led (err e) f below y h k = ground arith

  step_into-branch :
      (o : Option (State V)) (s : ParallelState V) (bs : Branches V) (i : ℕ) (below : States V)
      → o ≡ some (parallel s bs)
      → branch_states bs branches_token (format_u64 i) ≡ ok below
      → step_into o (branches_token ∷ format_u64 i ∷ states_token ∷ []) ≡ ok below
  unfolding step_into Str-discrete ℕ_discrete
  step_into-branch o s bs i below h k =
      rw h (led (branch_states bs branches_token (format_u64 i)) _ below (ok below) k refl)

  walk_states-branch :
      (states out below : States V) (p : StatePath) (name : Str) (s : ParallelState V)
      (bs : Branches V) (i : ℕ)
      → walk_states states (p ++ states_token ∷ []) ≡ ok out
      → get_state name out ≡ some (parallel s bs)
      → branch_states bs branches_token (format_u64 i) ≡ ok below
      → walk_states states (branch (state (p ++ states_token ∷ []) name) i) ≡ ok below
  unfolding branch state walk_states Str-discrete ℕ_discrete
  walk_states-branch states out below p name s bs i hw hn hb =
      ap (walk_states states) (
        snoc-append (p ++ states_token ∷ []) name
          (branches_token ∷ format_u64 i ∷ states_token ∷ [])
        ∙ snoc-append p states_token (name ∷ branches_token ∷ format_u64 i ∷ states_token ∷ []))
      ∙ walk_states-extend states out p (name ∷ branches_token ∷ format_u64 i ∷ states_token ∷ [])
          hw
      ∙ step_into-branch (get_state name out) s bs i below hn hb

  -- When a path leads to states that have a `Parallel` under a name, with a branch at an index below
  -- 2^64: the path of that state leads to it, and the path that goes on through the branch to any
  -- inner name leads to the state of that name in the branch, or to none when there is none.
  pub state_at-branch :
      (machine : StateMachine V) (p : StatePath) (name inner : Str) (i : ℕ) (out below : States V)
      (s : ParallelState V) (bs : Branches V)
      → walk_states machine.states (p ++ states_token ∷ []) ≡ ok out
      → get_state name out ≡ some (parallel s bs)
      → get_branch i bs ≡ some below
      → i < 2 ^ 64
      → (state_at machine (state (p ++ states_token ∷ []) name) ≡ ok (parallel s bs))
        × (state_at machine (state (branch (state (p ++ states_token ∷ []) name) i) inner)
            ≡ or_not_found (get_state inner below))
  unfolding state branch
  state_at-branch machine p name inner i out below s bs hw hn hb hi = (
    state_at-state machine (p ++ states_token ∷ []) name out hw ∙ ap or_not_found hn,
    state_at-state machine (branch (state (p ++ states_token ∷ []) name) i) inner below (
        walk_states-branch machine.states out below p name s bs i hw hn
          (branch_states-found bs i below hi hb)),
  )

  step_into-item_processor :
      (o : Option (State V)) (s : MapState V) (start : Str) (below : States V)
      → o ≡ some (map_state s (processor start below))
      → step_into o (item_processor_token ∷ states_token ∷ []) ≡ ok below
  unfolding step_into processor_states Str-discrete ℕ_discrete
  step_into-item_processor o s start below h = rw h refl

  walk_states-item_processor :
      (states out below : States V) (p : StatePath) (name start : Str) (s : MapState V)
      → walk_states states (p ++ states_token ∷ []) ≡ ok out
      → get_state name out ≡ some (map_state s (processor start below))
      → walk_states states (item_processor (state (p ++ states_token ∷ []) name)) ≡ ok below
  unfolding item_processor state walk_states Str-discrete ℕ_discrete
  walk_states-item_processor states out below p name start s hw hn =
      ap (walk_states states) (
        snoc-append (p ++ states_token ∷ []) name (item_processor_token ∷ states_token ∷ [])
        ∙ snoc-append p states_token (name ∷ item_processor_token ∷ states_token ∷ []))
      ∙ walk_states-extend states out p (name ∷ item_processor_token ∷ states_token ∷ []) hw
      ∙ step_into-item_processor (get_state name out) s start below hn

  -- When a path leads to states that have a `Map` under a name, with an item processor: the path
  -- that goes on through the item processor to any inner name leads to the state of that name in it,
  -- or to none when there is none.
  pub state_at-item_processor :
      (machine : StateMachine V) (p : StatePath) (name inner start : Str) (out below : States V)
      (s : MapState V)
      → walk_states machine.states (p ++ states_token ∷ []) ≡ ok out
      → get_state name out ≡ some (map_state s (processor start below))
      → state_at machine (state (item_processor (state (p ++ states_token ∷ []) name)) inner)
        ≡ or_not_found (get_state inner below)
  unfolding state
  state_at-item_processor machine p name inner start out below s hw hn =
      state_at-state machine (item_processor (state (p ++ states_token ∷ []) name)) inner below
        (walk_states-item_processor machine.states out below p name start s hw hn)
