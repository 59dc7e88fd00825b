-- ===== src/Asl/StatePath.antt =====
-- crates/asl/src/state_path.rs: where a state lies in the machine document, and finding it there. A
-- path is the list of its decoded tokens.
use spica.Base.{
  ℕ, Bool, Option, none, some, [], ◌∷◌, ◌++◌, if◌then◌else◌, holds, Str, codes, Str-discrete,
  Result, ok, err,
}
use spica.Machinery.Decimal.{format_u64, parse_u64}
use spica.Types.Thread.{StatePath}
use spica.Asl.{
  State, parallel, map_state, States, no_processor, processor, ItemProcessor, StateMachine,
  get_state, get_branch, Branches,
}

abbrev pub states_token : Str
states_token = codes "States"

abbrev pub branches_token : Str
branches_token = codes "Branches"

abbrev pub item_processor_token : Str
item_processor_token = codes "ItemProcessor"

-- The whole path but its last token: `pop_back`, which does nothing to an empty path.
unfoldable pub parent : StatePath → StatePath
parent [] = []
parent (t ∷ []) = []
parent (t ∷ u ∷ p) = t ∷ parent (u ∷ p)

-- `StatePath::root`.
abbrev pub root : StatePath
root = states_token ∷ []

unfoldable pub state_name : StatePath → Str
state_name [] = []
state_name (t ∷ []) = t
state_name (t ∷ u ∷ p) = state_name (u ∷ p)

unfoldable pub state : StatePath → Str → StatePath
state p name = p ++ name ∷ []

unfoldable pub branch : StatePath → ℕ → StatePath
branch p index = p ++ branches_token ∷ format_u64 index ∷ states_token ∷ []

unfoldable pub item_processor : StatePath → StatePath
item_processor p = p ++ item_processor_token ∷ states_token ∷ []

unfoldable pub sibling : StatePath → Str → StatePath
unfolding parent
sibling p next = parent p ++ next ∷ []

-- Without the messages.
pub data StatePathError : Type 0 where
  malformed not_found : StatePathError

abbrev pub is_token : Str → Str → Bool
is_token a b = holds (Str-discrete a b)

abbrev pub or_not_found : {A : Type 0} → Option A → Result StatePathError A
or_not_found none = err not_found
or_not_found (some a) = ok a

module _ {V : Type 0} where
  -- The states of a branch, when the token names the branches and the index is one of them.
  unfoldable pub branch_states : Branches V → Str → Str → Result StatePathError (States V)
  unfolding get_branch
  branch_states bs t i =
      if is_token t branches_token
      then elim (parse_u64 i) [ none ↦ err malformed | some n ↦ or_not_found (get_branch n bs) ]
      else err malformed

  unfoldable pub processor_states : ItemProcessor V → Str → Result StatePathError (States V)
  processor_states no_processor t = err malformed
  processor_states (processor start_at states) t =
      if is_token t item_processor_token then ok states else err malformed

unfoldable mutual
  unfolding get_state branch_states processor_states

  -- `walk_states`: an opener, then the name of a container, then what leads into it, and so on.
  pub walk_states : {V : Type 0} → States V → StatePath → Result StatePathError (States V)
  walk_states states [] = ok states
  walk_states states (t ∷ []) = if is_token t states_token then ok states else err malformed
  walk_states states (t ∷ name ∷ p) =
      if is_token t states_token then step_into (get_state name states) p else err malformed

  pub step_into : {V : Type 0} → Option (State V) → StatePath → Result StatePathError (States V)
  step_into none p = err not_found
  step_into (some (parallel s bs)) [] = err malformed
  step_into (some (parallel s bs)) (t ∷ []) =
      if is_token t branches_token then err not_found else err malformed
  step_into (some (parallel s bs)) (t ∷ i ∷ p) = elim (branch_states bs t i) [
    | err e ↦ err e
    | ok states ↦ walk_states states p
  ]
  step_into (some (map_state s m)) [] = err malformed
  step_into (some (map_state s m)) (t ∷ p) = elim (processor_states m t) [
    | err e ↦ err e
    | ok states ↦ walk_states states p
  ]
  step_into (some _) p = err malformed

module _ {V : Type 0} where
  -- `StateMachine::state_at`.
  unfoldable pub state_at : StateMachine V → StatePath → Result StatePathError (State V)
  unfolding walk_states get_state state_name parent
  state_at machine path = elim (walk_states machine.states (parent path)) [
    | err e ↦ err e
    | ok states ↦ or_not_found (get_state (state_name path) states)
  ]
