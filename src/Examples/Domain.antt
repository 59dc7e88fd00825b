-- ===== src/Examples/Domain.antt =====
-- Names, references, tasks and lifecycles, on sample values.
use spica.Base.{
  ℕ, ◌+◌, ◌*◌, ◌^◌, min, max, ◌≡◌, refl, ◌≢◌, ◌↔◌, ◌⊎◌, false, none, some, List, [], ◌∷◌, arith,
  codes, ok, pos, pos_part,
}
use spica.Machinery.Decimal.{format_u64, parse_u64, parse_u64-format_u64}
use spica.Machinery.Name.{as_str, from_parsed, IsValid}
use spica.Machinery.Name.RoundTrip.{from_parsed-as_str, from_parsed-IsValid}
use spica.Types.Meta.{
  RawObjectRef, ObjectRef, ThreadOwner, execution_owner, object_ref, raw_object_ref,
  thread_owner_ref, decode_thread_owner, display_ref, from_str, try_from, as_raw_object_ref,
}
use spica.Types.Meta
use spica.Types.Meta.RoundTrip.{decode_thread_owner_exact, from_str-display_ref}
use spica.Types.Error.{ExecutionError, infra, log}
use spica.Types.Task.{
  Floats, Task, RetryPolicy, retried, terminal, running, completed, is_terminal, is_claimable_at,
  mark_completed, mark_cancelled, handle_failure, FailureOutcome,
}
use spica.Types.Task.Claims.{mark_completed_exact, terminal_is_final}
use spica.Types.Task.Failure.{handle_failure_exact}
use spica.Types.Task.Retries.{
  TaskStep, claimed, reported, perform_all, still_allowed, still_allowed-perform_all,
}
use spica.Types.Execution.Lifecycle as ExecutionLifecycle
use spica.Types.Execution.Lifecycle.{run-outcome, mark_moves, Edge}
use spica.Types.Activity.Lifecycle as ActivityLifecycle
use spica.Types.Activity.Lifecycle.{run_activity_outcome}
use spica.Examples.Data.{order_run, charge, charge_task, name_of}

name_of-IsValid : IsValid (name_of 3)
name_of-IsValid = (refl, omega arith)

from_parsed-as_str_example : from_parsed (as_str (name_of 3)) ≡ ok (name_of 3)
from_parsed-as_str_example = from_parsed-as_str (name_of 3) name_of-IsValid

from_parsed-IsValid_example : IsValid (name_of 3)
from_parsed-IsValid_example =
    from_parsed-IsValid (as_str (name_of 3)) (name_of 3)
      (from_parsed-as_str (name_of 3) name_of-IsValid)

parse_u64-format_u64_example : parse_u64 (format_u64 1205) ≡ some 1205
parse_u64-format_u64_example = parse_u64-format_u64 1205 (omega arith)

abbrev run_owner : ThreadOwner
run_owner = execution_owner (object_ref order_run.meta)

decode_thread_owner_exact_example :
    (decode_thread_owner (thread_owner_ref run_owner) ≡ ok run_owner)
    ↔ (thread_owner_ref run_owner ≡ thread_owner_ref run_owner)
decode_thread_owner_exact_example = decode_thread_owner_exact (thread_owner_ref run_owner) run_owner

from_str-display_ref_example :
    from_str (display_ref (raw_object_ref charge.meta))
    ≡ ok (record { kind = Meta.activity; name = name_of 3; uid = 0 })
from_str-display_ref_example = from_str-display_ref (raw_object_ref charge.meta) name_of-IsValid

-- Whole numbers in place of `f64`, which the sample values do not leave.
abbrev pub whole : Floats
whole = record {
  of_i64 = pos_part;
  mul = λ a b. a * b;
  powf = λ a b. a ^ b;
  fmin = min;
  fmax = max;
  ceil = λ a. a;
  to_u64 = λ a. a;
}

abbrev always_twice : RetryPolicy
always_twice = record {
  error_equals = codes "States.ALL" ∷ [];
  interval_seconds = pos 2;
  max_attempts = pos 2;
  backoff_rate = 2;
  max_delay_seconds = none;
}

-- A claimed task.
abbrev leased : Task ℕ
leased = record charge_task {
  status = running;
  worker_id = some (codes "ann");
  lease_expires_at = some 100;
  retry_plan = always_twice ∷ [];
}

mark_completed_exact_example :
    let (t', r) = mark_completed (codes "ann") 60 leased in
    (((leased.status ≡ running) × (leased.worker_id ≡ some (codes "ann")) × (codes "ann" ≢ []))
      ↔ (r ≡ ok tt))
    × (r ≢ ok tt → t' ≡ leased)
    × (r ≡ ok tt
        → (t'.status ≡ completed) × (t'.worker_id ≡ none) × (t'.meta.name ≡ leased.meta.name))
mark_completed_exact_example = mark_completed_exact leased (codes "ann") 60

abbrev settled : Task ℕ
settled = record leased { status = completed }

abbrev failure : ExecutionError ℕ
failure = infra (log (codes "down"))

terminal_is_final_example :
    (is_claimable_at settled 200 ≡ false)
    × ((mark_cancelled 200 settled).0 ≡ settled)
    × ((mark_cancelled 200 settled).1 ≢ ok tt)
    × ((mark_completed (codes "ann") 200 settled).0 ≡ settled)
    × ((mark_completed (codes "ann") 200 settled).1 ≢ ok tt)
    × ((handle_failure whole (codes "ann") failure 200 settled).0 ≡ settled)
    × ((o : FailureOutcome) → (handle_failure whole (codes "ann") failure 200 settled).1 ≢ ok o)
terminal_is_final_example = terminal_is_final whole settled (codes "ann") failure 200 refl

handle_failure_exact_example :
    let (t', r) = handle_failure whole (codes "ann") failure 60 leased in
    (((r ≡ ok retried) ⊎ (r ≡ ok terminal)) ↔ (
      (is_terminal leased.status ≡ false)
      × ((codes "ann" ≡ [])
          ⊎ ((leased.status ≡ running) × (leased.worker_id ≡ some (codes "ann"))))))
    × ((r ≢ ok retried) → (r ≢ ok terminal) → t' ≡ leased)
handle_failure_exact_example = handle_failure_exact whole (codes "ann") failure 60 leased

-- A failure report, a second one that comes too late, a claim, and a report by its worker.
abbrev reports : List (TaskStep ℕ)
reports =
    reported (codes "ann") failure 60
    ∷ reported (codes "ann") failure 70
    ∷ claimed (codes "bob") 100 80
    ∷ reported (codes "bob") failure 90
    ∷ []

still_allowed-perform_all_example :
    still_allowed (perform_all whole reports leased).0 + (perform_all whole reports leased).1
    ≡ still_allowed leased
still_allowed-perform_all_example = still_allowed-perform_all whole reports leased

abbrev run_marks : List (ExecutionLifecycle.Mark ℕ)
run_marks =
    ExecutionLifecycle.complete 20
    ∷ ExecutionLifecycle.begin_completing 8 30
    ∷ ExecutionLifecycle.complete 40
    ∷ []

run-outcome_example :
    (
      (ExecutionLifecycle.run run_marks order_run).status,
      (ExecutionLifecycle.run run_marks order_run).output,
    )
    ≡ ExecutionLifecycle.outcome order_run.output run_marks
run-outcome_example = run-outcome run_marks order_run refl

abbrev activity_marks : List (ActivityLifecycle.Mark ℕ)
activity_marks = ActivityLifecycle.begin_completing 8 30 ∷ ActivityLifecycle.complete 9 40 ∷ []

run_activity_outcome_example :
    ActivityLifecycle.observed (ActivityLifecycle.run activity_marks charge)
    ≡ ActivityLifecycle.outcome charge.raw_output charge.output activity_marks
run_activity_outcome_example = run_activity_outcome activity_marks charge refl
