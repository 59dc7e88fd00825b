-- ===== src/Asl.antt =====
-- crates/asl/src: the state machine that a flow version defines, as the engine reads it. A state
-- holds states below it, so the containers are copied into one block of data types: the entries of a
-- `HashMap<String, State>` are `States`, a `Vec<Branch>` is `Branches`.
pub mod StatePath
pub mod Resolution
use spica.Base.{
  ℕ, zero, suc, Bool, Option, none, some, List, if◌then◌else◌, holds, Str, Str-discrete, ℤ,
}
use spica.HashMap.{HashMap}

-- The text between `{%` and `%}`.
abbrev pub JsonataExpr : Type 0
JsonataExpr = Str

pub data IntOrExpr : Type 0 where
  int : ℤ → IntOrExpr
  expr : JsonataExpr → IntOrExpr

-- `AssignObject`: the fields of a JSON object.
abbrev pub AssignObject : Type 0 → Type 0
AssignObject V = HashMap Str V

pub record PassState (V : Type 0) : Type 0 where
  pub output : Option V
  pub assign : Option (AssignObject V)
  pub next : Option Str
  pub end : Option Bool

pub record SucceedState (V : Type 0) : Type 0 where
  pub output : Option V

pub record FailState : Type 0 where
  pub cause : Option Str
  pub error : Option Str

pub data WaitTimestamp : Type 0 where
  literal : Str → WaitTimestamp
  expr : JsonataExpr → WaitTimestamp

pub record WaitState (V : Type 0) : Type 0 where
  pub output : Option V
  pub assign : Option (AssignObject V)
  pub next : Option Str
  pub end : Option Bool
  pub seconds : Option IntOrExpr
  pub timestamp : Option WaitTimestamp

pub data ChoiceCondition : Type 0 where
  bool : Bool → ChoiceCondition
  expr : JsonataExpr → ChoiceCondition

pub record ChoiceRule (V : Type 0) : Type 0 where
  pub condition : Option ChoiceCondition
  pub next : Str
  pub assign : Option (AssignObject V)
  pub output : Option V

pub record ChoiceState (V : Type 0) : Type 0 where
  pub output : Option V
  pub assign : Option (AssignObject V)
  pub default : Option Str
  pub choices : List (ChoiceRule V)

-- `backoff_rate` is a `serde_json::Number`, read as an `f64`.
pub record Retrier : Type 0 where
  pub error_equals : List Str
  pub interval_seconds : Option ℤ
  pub max_attempts : Option ℤ
  pub backoff_rate : Option ℕ
  pub max_delay_seconds : Option ℤ

pub record Catcher (V : Type 0) : Type 0 where
  pub error_equals : List Str
  pub next : Str
  pub assign : Option (AssignObject V)
  pub output : Option V

pub record TaskState (V : Type 0) : Type 0 where
  pub output : Option V
  pub assign : Option (AssignObject V)
  pub next : Option Str
  pub end : Option Bool
  pub arguments : Option V
  pub retry : Option (List Retrier)
  pub catch : Option (List (Catcher V))
  pub resource : Str
  pub timeout_seconds : Option IntOrExpr

-- `ParallelState`, without its branches.
pub record ParallelState (V : Type 0) : Type 0 where
  pub output : Option V
  pub assign : Option (AssignObject V)
  pub next : Option Str
  pub end : Option Bool
  pub arguments : Option V

pub data MapItems (V : Type 0) : Type 0 where
  array : List V → MapItems V
  expr : JsonataExpr → MapItems V

-- `MapState`, without its item processor.
pub record MapState (V : Type 0) : Type 0 where
  pub output : Option V
  pub assign : Option (AssignObject V)
  pub next : Option Str
  pub end : Option Bool
  pub items : Option (MapItems V)
  pub max_concurrency : Option IntOrExpr

mutual
  pub data State (V : Type 0) : Type 0 where
    pass : PassState V → State V
    wait : WaitState V → State V
    succeed : SucceedState V → State V
    fail : FailState → State V
    task : TaskState V → State V
    choice : ChoiceState V → State V
    parallel : ParallelState V → Branches V → State V
    map_state : MapState V → ItemProcessor V → State V

  -- `HashMap<String, State>`.
  pub data States (V : Type 0) : Type 0 where
    no_states : States V
    named : Str → State V → States V → States V

  -- `Vec<Branch>`: a branch is its `StartAt` and its states.
  pub data Branches (V : Type 0) : Type 0 where
    no_branches : Branches V
    branch : (start_at : Str) → States V → Branches V → Branches V

  -- `Option<ItemProcessor>`.
  pub data ItemProcessor (V : Type 0) : Type 0 where
    no_processor : ItemProcessor V
    processor : (start_at : Str) → States V → ItemProcessor V

pub record StateMachine (V : Type 0) : Type 0 where
  pub start_at : Str
  pub timeout_seconds : Option ℤ
  pub states : States V

module _ {V : Type 0} where
  -- `states.get(name)`.
  unfoldable pub get_state : Str → States V → Option (State V)
  get_state name no_states = none
  get_state name (named n s rest) =
      if holds (Str-discrete n name) then some s else get_state name rest

  -- `branches.get(index)`, down to its states.
  unfoldable pub get_branch : ℕ → Branches V → Option (States V)
  get_branch i no_branches = none
  get_branch zero (branch start_at below rest) = some below
  get_branch (suc i) (branch start_at below rest) = get_branch i rest
