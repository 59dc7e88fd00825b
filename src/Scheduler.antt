-- ===== src/Scheduler.antt =====
-- crates/scheduler/src/in_memory.rs: the loop that holds the armed deadlines and fires those that are
-- due. A round takes the inputs that wait in the channel and the instant that the clock then shows. The
-- sleep between two rounds, the channel and the sink that a trigger calls are not modelled: a round
-- returns what it triggers, which a scheduler with no sink attached drops instead.
pub mod Lookup
pub mod Rounds
use spica.Base.{Bool, Option, none, some, List, [], ◌∷◌, map, leb, filter}
use spica.HashMap
use spica.HashMap.{HashMap}
use spica.Machinery.Timestamp.{Timestamp}
use spica.Types.Deadline.{DeadlineTarget, DeadlineTarget-discrete}

pub data SchedulerInput : Type 0 where
  schedule : DeadlineTarget → Timestamp → SchedulerInput
  cancel : DeadlineTarget → SchedulerInput
  wake : SchedulerInput

abbrev pub Armed : Type 0
Armed = HashMap DeadlineTarget Timestamp

unfoldable pub apply_input : SchedulerInput → Armed → Armed
apply_input (schedule target deadline) armed =
    HashMap.insert DeadlineTarget-discrete target deadline armed
apply_input (cancel target) armed = HashMap.remove DeadlineTarget-discrete target armed
apply_input wake armed = armed

-- The inputs that `try_recv` gives, oldest first.
unfoldable pub drain : List SchedulerInput → Armed → Armed
drain [] armed = armed
drain (i ∷ is) armed = drain is (apply_input i armed)

abbrev pub is_due : Timestamp → DeadlineTarget × Timestamp → Bool
is_due now (target, deadline) = leb deadline now

abbrev pub due : Timestamp → Armed → List DeadlineTarget
due now armed = map (λ e. e.0) (filter (is_due now) armed)

abbrev pub Fired : Type 0
Fired = List (DeadlineTarget × Timestamp)

abbrev pub then_fire :
    DeadlineTarget → Option Timestamp → Option (Fired × Armed) → Option (Fired × Armed)
then_fire target none rest = none
then_fire target (some deadline) none = none
then_fire target (some deadline) (some (fired, armed)) = some ((target, deadline) ∷ fired, armed)

-- Each due target is taken out and triggered; `none` stands for the panic of the `expect`.
unfoldable pub fire : List DeadlineTarget → Armed → Option (Fired × Armed)
fire [] armed = some ([], armed)
fire (target ∷ targets) armed =
    let rest = fire targets (HashMap.remove DeadlineTarget-discrete target armed) in
    then_fire target (HashMap.get DeadlineTarget-discrete target armed) rest

-- One turn of the loop.
unfoldable pub round : List SchedulerInput → Timestamp → Armed → Option (Fired × Armed)
round inputs now armed = let drained = drain inputs armed in fire (due now drained) drained
