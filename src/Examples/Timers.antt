-- ===== src/Examples/Timers.antt =====
-- A round of the deadline scheduler, and writes that go straight to the store, on sample values.
use spica.Base.{◌≡◌, refl, not, some, List, [], ◌∷◌}
use spica.HashMap.{get}
use spica.Types.Meta.{object_ref}
use spica.Types.Deadline.{DeadlineTarget, execution, activity}
use spica.Scheduler.{SchedulerInput, schedule, cancel, wake, Armed, Fired, is_due, round}
use spica.Scheduler.Lookup.{IsDistinct, find}
use spica.Scheduler.Rounds.{passing, last_word, round_exact}
use spica.Examples.Data.{order_run, charge}

abbrev run_timer : DeadlineTarget
run_timer = execution (object_ref order_run.meta)

abbrev wait_timer : DeadlineTarget
wait_timer = activity (object_ref charge.meta)

abbrev one_armed : Armed
one_armed = (run_timer, 50) ∷ []

one_armed-IsDistinct : IsDistinct one_armed
unfolding get
one_armed-IsDistinct = (refl, tt)

abbrev inputs : List SchedulerInput
inputs = schedule wait_timer 40 ∷ wake ∷ cancel run_timer ∷ schedule run_timer 70 ∷ []

round_exact_example :
    (fired : Fired) × (left : Armed) × (round inputs 60 one_armed ≡ some (fired, left))
    × IsDistinct fired
    × IsDistinct left
    × ((k : DeadlineTarget)
        → find k fired ≡ passing (is_due 60) k (last_word k inputs (find k one_armed)))
    × ((k : DeadlineTarget)
        → find k left ≡ passing (λ e. not (is_due 60 e)) k (last_word k inputs (find k one_armed)))
round_exact_example = round_exact inputs 60 one_armed one_armed-IsDistinct
