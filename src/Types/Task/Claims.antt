-- ===== src/Types/Task/Claims.antt =====
-- Who may claim and settle a task: `is_claimable_at`, `claim`, `mark_completed`, `mark_cancelled` of
-- task.rs.
use spica.Base.{◌≡◌, refl, ◌≢◌, ◌↔◌, true, false, none, some, [], ◌∷◌, arith, leb, Str, ok}
use spica.Machinery.Timestamp.{Timestamp}
use spica.Types.Error.{ExecutionError}
use spica.Types.Task.{
  Floats, Task, FailureOutcome, running, completed, is_terminal, is_claimable_at, claim,
  mark_cancelled, mark_completed, handle_failure,
}

module _ {V : Type 0} where
  -- A claimed task is withheld from every poll before its lease ends, and offered from that instant
  -- on, whatever retry gate it had before.
  pub is_claimable_at-claim :
      (t : Task V) (worker : Str) (lease at now : Timestamp)
      → is_claimable_at (claim worker lease at t) now ≡ leb lease now
  unfolding is_claimable_at claim
  is_claimable_at-claim t worker lease at now = refl

  -- A settlement is accepted exactly when the task is running, is leased to that worker, and the
  -- worker has a name that is not empty; what is not accepted changes nothing, and what is leaves a
  -- completed task without a worker, under its name.
  pub mark_completed_exact :
      (t : Task V) (worker : Str) (at : Timestamp)
      → let (t', r) = mark_completed worker at t in
        (((t.status ≡ running) × (t.worker_id ≡ some worker) × (worker ≢ [])) ↔ (r ≡ ok tt))
        × (r ≢ ok tt → t' ≡ t)
        × (r ≡ ok tt
            → (t'.status ≡ completed) × (t'.worker_id ≡ none) × (t'.meta.name ≡ t.meta.name))
  unfolding mark_completed
  mark_completed_exact t [] at = ground arith
  mark_completed_exact t (c ∷ worker) at = ground arith

  -- A completed, failed or cancelled task is never claimable, and every cancellation, settlement and
  -- failure report is refused and leaves it as it is.
  pub terminal_is_final :
      (f : Floats) (t : Task V) (worker : Str) (error : ExecutionError V) (at : Timestamp)
      → is_terminal t.status ≡ true
      → (is_claimable_at t at ≡ false)
        × ((mark_cancelled at t).0 ≡ t)
        × ((mark_cancelled at t).1 ≢ ok tt)
        × ((mark_completed worker at t).0 ≡ t)
        × ((mark_completed worker at t).1 ≢ ok tt)
        × ((handle_failure f worker error at t).0 ≡ t)
        × ((o : FailureOutcome) → (handle_failure f worker error at t).1 ≢ ok o)
  unfolding is_claimable_at mark_cancelled mark_completed handle_failure
  terminal_is_final f t worker error at h = ground arith
