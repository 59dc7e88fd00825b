-- ===== src/Examples/Machines.antt =====
-- A machine with a `Parallel` state, a `Map` below it, and the tags of an expression.
use mathlib.Core.Logic.{◌↔◌}
use spica.Base.{ℕ, ◌≡◌, refl, true, none, some, [], ◌∷◌, arith, ℕ_discrete, codes, Str-discrete, ok}
use spica.Asl.{
  named, succeed, parallel, map_state, States, no_states, Branches, no_branches, branch, processor,
  StateMachine, ParallelState, MapState, get_state, get_branch,
}
use spica.Asl.StatePath.{
  states_token, state_at, state, item_processor, or_not_found, walk_states, root,
}
use spica.Asl.StatePath
use spica.Asl.Resolution.{state_at-branch, state_at-item_processor}
use spica.Elements.Expression.{extract_jsonata, out_of_range}
use spica.Elements.Tags.{overlapping, extract_jsonata-panics}

abbrev ship : States ℕ
ship = named (codes "Ship") (succeed (record { output = none })) no_states

abbrev each : MapState ℕ
each = record {
  output = none;
  assign = none;
  next = none;
  end = some true;
  items = none;
  max_concurrency = none;
}

abbrev every_item : States ℕ
every_item = named (codes "Every") (map_state each (processor (codes "Ship") ship)) no_states

abbrev both : ParallelState ℕ
both = record { output = none; assign = none; next = none; end = some true; arguments = none }

abbrev branches : Branches ℕ
branches = branch (codes "Ship") ship (branch (codes "Every") every_item no_branches)

abbrev machine : StateMachine ℕ
machine = record {
  start_at = codes "Both";
  timeout_seconds = none;
  states = named (codes "Both") (parallel both branches) no_states;
}

both-found : get_state (codes "Both") machine.states ≡ some (parallel both branches)
unfolding get_state Str-discrete ℕ_discrete
both-found = refl

second-found : get_branch 1 branches ≡ some every_item
unfolding get_branch
second-found = refl

top-found : walk_states machine.states (states_token ∷ []) ≡ ok machine.states
unfolding walk_states Str-discrete ℕ_discrete
top-found = refl

state_at-branch_example :
    (state_at machine (state root (codes "Both")) ≡ ok (parallel both branches))
    × (state_at machine (state (StatePath.branch (state root (codes "Both")) 1) (codes "Every"))
        ≡ or_not_found (get_state (codes "Every") every_item))
state_at-branch_example =
    state_at-branch machine [] (codes "Both") (codes "Every") 1 machine.states every_item both
      branches top-found both-found second-found (omega arith)

every-found :
    get_state (codes "Every") every_item ≡ some (map_state each (processor (codes "Ship") ship))
unfolding get_state Str-discrete ℕ_discrete
every-found = refl

abbrev items : StateMachine ℕ
items = record machine { states = every_item }

items-found : walk_states items.states (states_token ∷ []) ≡ ok every_item
unfolding walk_states Str-discrete ℕ_discrete
items-found = refl

state_at-item_processor_example :
    state_at items (state (item_processor (state root (codes "Every"))) (codes "Ship"))
    ≡ or_not_found (get_state (codes "Ship") ship)
state_at-item_processor_example =
    state_at-item_processor items [] (codes "Every") (codes "Ship") (codes "Ship") every_item ship
      each items-found every-found

extract_jsonata-panics_example :
    (extract_jsonata (λ s. s) (codes "{%}") ≡ out_of_range) ↔ (codes "{%}" ≡ overlapping)
extract_jsonata-panics_example = extract_jsonata-panics (λ s. s) (codes "{%}")
