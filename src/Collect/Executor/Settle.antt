-- ===== src/Collect/Executor/Settle.antt =====
-- app/collect/executor.py, _handle_provider_failure: what a failed request does to its slice, run and task.
pub mod Policy
use quant_stock.Base.{
  ℕ, ◌+◌, ◌-◌, ◌^◌, min, Bool, true, false, ◌&&◌, String, Option, none, some, ltb, str_eq,
  if◌then◌else◌,
}
use quant_stock.Base.Result.{Result, ok, err, ◌>>=◌}
use quant_stock.Base.Json.{num, Dict, get_default, to_int}
use quant_stock.Base.Text.{prefix}
use quant_stock.Collect.StateMachine.{TaskStatus}
use quant_stock.Collect.Model.{
  CollectTask, SourceBinding, RunStatus, CollectRun, SliceAttempt, Store, set_task, seconds,
}
use quant_stock.Collect.Repository.{ClaimedSlice, release_slice_for_retry, fail_slice}
use quant_stock.Collect.Executor.Rows.{set_run, set_attempt, set_binding}

-- app/datasource/errors.py, ProviderFailure
pub record Failure : Type 0 where
  pub error_type : String
  pub message : String
  pub retryable : Bool

-- the rows that an execution holds when it asks the provider
pub record Held : Type 0 where
  pub claimed : ClaimedSlice
  pub task : CollectTask
  pub run : CollectRun
  pub attempt_id : ℕ
  pub binding : SourceBinding

-- binding.capability_status after a failure that is not retried
abbrev pub capability_after : String → String → String
capability_after error_type status =
    if str_eq error_type "PERMISSION_DENIED"
    then "permission_denied"
    else if str_eq error_type "SCHEMA_CHANGED"
    then "schema_changed"
    else if str_eq error_type "AUTH_ERROR"
    then "temporarily_unavailable"
    else status

-- what is noted on every failure
unfoldable pub note_failure : ℕ → Held → Failure → Store → Store
note_failure now held failure db =
    let message = some (prefix 2000 failure.message) in
    let error_type = some failure.error_type in
    set_task held.task.task_id
      (λ t. record t { last_error_type = error_type; last_error_message = message })
      (set_binding held.binding.source_binding_id (λ b. record b { last_failure_at = some now })
        (set_run held.run.run_id
          (λ r. record r {
            request_count = r.request_count + 1;
            error_type = error_type;
            error_message = message;
          })
          (set_attempt held.attempt_id
            (λ a. record a {
              status = RunStatus.failed;
              error_type = error_type;
              error_message = message;
              finished_at = some now;
            })
            db)))

-- int((binding.config or {}).get("retry_max_attempts", 3))
abbrev pub max_attempts : SourceBinding → Result ℕ
max_attempts binding = to_int (get_default binding.config "retry_max_attempts" (num 3))

-- min(300, 2 ** max(0, attempt_count - 1))
unfoldable pub retry_delay : ℕ → ℕ
retry_delay attempt_count = min 300 (2 ^ (attempt_count - 1))

-- the end of the run and of the task
unfoldable pub give_up : ℕ → Held → String → Store → Store
give_up now held error_type db =
    set_binding held.binding.source_binding_id
      (λ b. record b { capability_status = capability_after error_type b.capability_status })
      (set_task held.task.task_id
        (λ t. record t { status = TaskStatus.failed; finished_at = some now })
        (set_run held.run.run_id
          (λ r. record r { status = RunStatus.failed; finished_at = some now }) db))

unfoldable pub handle_provider_failure : ℕ → Held → Failure → ℕ → Store → Result Store
handle_provider_failure now held failure attempt_count db = do
  most ← max_attempts held.binding
  let noted = note_failure now held failure db
  let slice_id = held.claimed.slice_id
  let token = held.claimed.lease_token
  ok (
      if failure.retryable && ltb attempt_count most
      then (release_slice_for_retry slice_id token failure.error_type
          (now + seconds (retry_delay attempt_count)) noted).1
      else give_up now held failure.error_type
          (fail_slice slice_id token failure.error_type noted).1)
