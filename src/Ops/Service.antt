-- ===== src/Ops/Service.antt =====
-- app/ops/service.py: pause, resume, cancel and retry of a task, with the audit trail. `ok none` is
-- the None that the code returns for a task that is not there. A `ValueError` leaves no trace,
-- since the caller's transaction is rolled back.
use quant_stock.Base.{
  ℕ, Bool, true, false, ◌&&◌, not, String, Option, none, some, [], ◌∷◌, ◌++◌, ◌==◌, count,
}
use quant_stock.Base.Result.{Result, ok, value_error, raise_if, ◌>>◌}
use quant_stock.Collect.StateMachine.{TaskStatus, SliceStatus}
use quant_stock.Collect.Model.{CollectTask, RequestSlice, Store, get_task, set_task, set_slices}
use quant_stock.Collect.Repository.{slice_is_queued, unlease}

-- PAUSABLE_TASK_STATES
abbrev pub is_pausable : TaskStatus → Bool
is_pausable TaskStatus.pending = true
is_pausable TaskStatus.running = true
is_pausable TaskStatus.partial = true
is_pausable _ = false

-- RETRYABLE_TASK_STATES
abbrev pub is_retryable : TaskStatus → Bool
is_retryable TaskStatus.failed = true
is_retryable TaskStatus.partial = true
is_retryable _ = false

abbrev pub is_paused : TaskStatus → Bool
is_paused TaskStatus.paused = true
is_paused _ = false

-- task.status in {"SUCCEEDED", "CANCELLED"}
abbrev pub is_closed : TaskStatus → Bool
is_closed TaskStatus.succeeded = true
is_closed TaskStatus.cancelled = true
is_closed _ = false

-- RequestSlice.status.in_(("FAILED", "LOST"))
abbrev pub slice_is_failed : SliceStatus → Bool
slice_is_failed SliceStatus.failed = true
slice_is_failed SliceStatus.lost = true
slice_is_failed _ = false

unfoldable pub record_audit :
    String → CollectTask → TaskStatus → TaskStatus → Option String → Store → Store
record_audit action t before after reason db = record db {
  audit_events =
      db.audit_events
      ++ record {
        object_type = "collect_task";
        object_id = t.task_id;
        action = action;
        before_status = some before;
        after_status = some after;
        reason = reason;
        trace_id = some t.trace_id;
      }
        ∷ [];
}

-- The outcome of an operation: the task as it is left, if there is one, and the database.
abbrev pub Outcome : Type 0
Outcome = Result (Option CollectTask × Store)

-- `task = session.get(...); if task is None: return None`
abbrev with_task : Option CollectTask → Store → (CollectTask → Outcome) → Outcome
with_task none db f = ok (none, db)
with_task (some t) db f = f t

unfoldable pub pause_task : ℕ → ℕ → Option String → Store → Outcome
unfolding record_audit
pause_task now task_id reason db = with_task (get_task db task_id) db λ t. do
  raise_if (not (is_pausable t.status)) (value_error "task cannot be paused")
  let t' = record t { status = TaskStatus.paused; paused_at = some now; pause_reason = reason }
  ok (
    some t',
    record_audit "pause" t t.status TaskStatus.paused reason (set_task t.task_id (λ _. t') db),
  )

unfoldable pub resume_task : ℕ → Store → Outcome
unfolding record_audit
resume_task task_id db = with_task (get_task db task_id) db λ t. do
  raise_if (not (is_paused t.status)) (value_error "task cannot be resumed")
  let t' = record t { status = TaskStatus.pending; paused_at = none; pause_reason = none }
  ok (
    some t',
    record_audit "resume" t t.status TaskStatus.pending none (set_task t.task_id (λ _. t') db),
  )

-- the queued slices of a task
abbrev pub is_queued_of : ℕ → RequestSlice → Bool
is_queued_of task_id s = s.task_id == task_id && slice_is_queued s.status

abbrev pub cancel_row : RequestSlice → RequestSlice
cancel_row s = record s { status = SliceStatus.cancelled; next_retry_at = none }

unfoldable pub cancel_task : ℕ → ℕ → Option String → Store → Outcome
unfolding record_audit
cancel_task now task_id reason db = with_task (get_task db task_id) db λ t. do
  raise_if (is_closed t.status) (value_error "task cannot be cancelled")
  let t' = record t {
    status = TaskStatus.cancelled;
    cancel_requested_at = some now;
    finished_at = some now;
  }
  ok (
    some t',
    record_audit "cancel" t t.status TaskStatus.cancelled reason
        (set_slices (is_queued_of task_id) cancel_row (set_task t.task_id (λ _. t') db)),
  )

-- the slices that a retry takes up
abbrev pub is_failed_of : ℕ → RequestSlice → Bool
is_failed_of task_id s = s.task_id == task_id && slice_is_failed s.status

abbrev pub retry_row : RequestSlice → RequestSlice
retry_row s = record (unlease s) { status = SliceStatus.pending; next_retry_at = none }

unfoldable pub retry_task : ℕ → Option String → Store → Outcome
unfolding record_audit
retry_task task_id reason db = with_task (get_task db task_id) db λ t. do
  raise_if (not (is_retryable t.status)) (value_error "task cannot be retried")
  raise_if (count (is_failed_of task_id) db.slices == 0)
      (value_error "task has no failed slices to retry")
  let t' = record t {
    status = TaskStatus.pending;
    finished_at = none;
    last_error_type = none;
    last_error_message = none;
  }
  ok (
    some t',
    record_audit "retry" t t.status TaskStatus.pending reason
        (set_task t.task_id (λ _. t') (set_slices (is_failed_of task_id) retry_row db)),
  )
