-- ===== src/Collect/Executor/Settle/Policy.antt =====
-- app/collect/executor.py, _handle_provider_failure: what comes of a failed request.
use native.Mathlib.Nat.{pow-zero, pow-suc}
use quant_stock.Base.{
  In, In-update, ℕ, zero, suc, ◌+◌, ◌-◌, ◌^◌, ◌≡◌, ◌≤◌, ◌<◌, refl, true, false, ◌&&◌, inl, inr, ◌⊎◌,
  some, List, update, ltb, ◌==◌, Bool-cases, arith, &&-eq_true,
}
use quant_stock.Base.Result.{ok_or_err, Result, ok, err, Error}
use quant_stock.Collect.StateMachine.{TaskStatus}
use quant_stock.Collect.Model.{RunStatus, CollectRun, CollectTask, Store, seconds}
use quant_stock.Collect.Repository.{
  holds_lease, release_row, failed_row, release_slice_for_retry, fail_slice, guarded_update,
}
use quant_stock.Collect.Executor.Settle.{
  Failure, Held, note_failure, max_attempts, retry_delay, give_up, handle_provider_failure,
}

power_positive : (n : ℕ) → 1 ≤ 2 ^ n
power_positive zero = omega (arith, pow-zero 2)
power_positive (suc n) = let before = power_positive n in omega (arith, pow-suc 2 n)

retry_delay_bounds : (n : ℕ) → (1 ≤ retry_delay n) × (retry_delay n ≤ 300)
unfolding retry_delay
retry_delay_bounds n = let some_time = power_positive (n - 1) in (omega arith, omega arith)

-- what comes of a failure: the slice waits for its next attempt, or it, its run and its task have failed
pub data FailureOutcome (now : ℕ) (held : Held) (failure : Failure) (attempts : ℕ) (db : Store)
    : Result Store → Type 0 where
  waits :
      (most due : ℕ) {db' : Store}
      → max_attempts held.binding ≡ ok most
      → failure.retryable ≡ true
      → attempts < most
      → now + seconds 1 ≤ due
      → due ≤ now + seconds 300
      → db'.slices
        ≡ update
            (holds_lease held.claimed.slice_id held.claimed.lease_token)
            (release_row failure.error_type due)
            db.slices
      → FailureOutcome now held failure attempts db (ok db')
  gave_up :
      (most : ℕ) {db' : Store}
      → max_attempts held.binding ≡ ok most
      → (failure.retryable ≡ false) ⊎ (most ≤ attempts)
      → db'.slices
        ≡ update
            (holds_lease held.claimed.slice_id held.claimed.lease_token)
            (failed_row failure.error_type)
            db.slices
      → ((t : CollectTask)
          → In t db'.tasks
          → t.task_id ≡ held.task.task_id
          → t.status ≡ TaskStatus.failed)
      → ((r : CollectRun)
          → In r db'.collect_runs
          → r.run_id ≡ held.run.run_id
          → r.status ≡ RunStatus.failed)
      → FailureOutcome now held failure attempts db (ok db')
  unreadable :
      {e f : Error}
      → max_attempts held.binding ≡ err f
      → FailureOutcome now held failure attempts db (err e)

task_update-In :
    (now : ℕ) (i : ℕ) (ts : List CollectTask) (t : CollectTask)
    → In t (
        update
          (λ t. t.task_id == i)
          (λ t. record t { status = TaskStatus.failed; finished_at = some now })
          ts)
    → t.task_id ≡ i
    → t.status ≡ TaskStatus.failed
task_update-In now i ts t m same =
    let (s, _, e) =
      In-update (λ (t : CollectTask). t.task_id == i)
        (λ t. record t { status = TaskStatus.failed; finished_at = some now }) ts m in
    ground arith

run_update-In :
    (now : ℕ) (i : ℕ) (rs : List CollectRun) (r : CollectRun)
    → In r (
        update
          (λ r. r.run_id == i)
          (λ r. record r { status = RunStatus.failed; finished_at = some now })
          rs)
    → r.run_id ≡ i
    → r.status ≡ RunStatus.failed
run_update-In now i rs r m same =
    let (s, _, e) =
      In-update (λ (r : CollectRun). r.run_id == i)
        (λ r. record r { status = RunStatus.failed; finished_at = some now }) rs m in
    ground arith

-- A failed request is tried again exactly if its failure allows it and the slice has attempts left: the slice
-- then waits for 1 to 300 seconds. Else the slice, its run and its task are FAILED. The code raises only where
-- the binding's number of attempts is no number.
pub handle_provider_failure_exact :
    (now : ℕ) (held : Held) (failure : Failure) (attempts : ℕ) (db : Store)
    → FailureOutcome now held failure attempts db
        (handle_provider_failure now held failure attempts db)
unfolding handle_provider_failure give_up note_failure release_slice_for_retry fail_slice
    guarded_update
handle_provider_failure_exact now held failure attempts db =
    elim (ok_or_err (max_attempts held.binding)) [
      | inr (e, bad) ↦ rw bad (unreadable bad)
      | inl (most, good) ↦ elim (Bool-cases (failure.retryable && ltb attempts most)) [
        | inl again ↦
            let both = &&-eq_true failure.retryable (ltb attempts most) again in
            let bounds = retry_delay_bounds attempts in
            rw (good, again)
              (waits most (now + seconds (retry_delay attempts)) good both.0 (ground (arith, both))
                (omega arith) (omega arith) refl)
        | inr over ↦
            rw (good, over)
              (gave_up most good (ground arith) refl (task_update-In now held.task.task_id _)
                (run_update-In now held.run.run_id _))
      ]
    ]
