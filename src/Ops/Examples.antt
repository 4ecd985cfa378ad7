-- ===== src/Ops/Examples.antt =====
-- Operator requests on the example queue.
use quant_stock.Base.{
  ℕ, ◌≡◌, refl, Bool, false, String, Option, none, some, [], ◌∷◌, ◌<◌, first, update, count,
}
use quant_stock.Base.Result.{Result, ok, err}
use quant_stock.Collect.StateMachine.{TaskStatus, SliceStatus}
use quant_stock.Collect.Model.{CollectTask, RequestSlice, Store}
use quant_stock.Collect.Repository.{claim_next_slice}
use quant_stock.Collect.Samples.{queue, queue_with, task, unlocked, slice}
use quant_stock.Ops.Service.{
  pause_task, resume_task, cancel_task, retry_task, is_queued_of, is_failed_of, retry_row,
}
use quant_stock.Ops.Stored.{IsStored}
use quant_stock.Ops.Claims.{
  claims, pause_stops_claims, cancel_stops_claims, retry_requeues, resume-pause,
}

-- the queue after a pause and after a cancellation, as the code leaves it
abbrev left {ℓ} : {A : Type ℓ} → A → Result (Option CollectTask × A) → A
left d (ok (t, db)) = db
left d (err e) = d

pause_ok :
    pause_task 5 7 (some "audit") queue
    ≡ ok (
      some (record (task TaskStatus.pending) {
        status = TaskStatus.paused;
        paused_at = some 5;
        pause_reason = some "audit";
      }),
      left queue (pause_task 5 7 (some "audit") queue),
    )
unfolding pause_task first update
pause_ok = refl

pause_stops_claims_example :
    claims 7
      (claim_next_slice 5000 42 unlocked "w2" 60
        (left queue (pause_task 5 7 (some "audit") queue))).0
    ≡ false
pause_stops_claims_example =
    pause_stops_claims queue _ 5 7 (some "audit") _ pause_ok 5000 42 unlocked "w2" 60

cancel_ok :
    cancel_task 5 7 none queue
    ≡ ok (
      some (record (task TaskStatus.pending) {
        status = TaskStatus.cancelled;
        cancel_requested_at = some 5;
        finished_at = some 5;
      }),
      left queue (cancel_task 5 7 none queue),
    )
unfolding cancel_task first update
cancel_ok = refl

cancel_stops_claims_example :
    let db = left queue (cancel_task 5 7 none queue) in
    IsStored 7
      (record (task TaskStatus.pending) {
        status = TaskStatus.cancelled;
        cancel_requested_at = some 5;
        finished_at = some 5;
      })
      db
      TaskStatus.cancelled
    × (count (is_queued_of 7) db.slices ≡ 0)
    × ((later token : ℕ) (locked : RequestSlice → Bool) (worker : String) (n : ℕ)
        → claims 7 (claim_next_slice later token locked worker n db).0 ≡ false)
cancel_stops_claims_example = cancel_stops_claims queue _ 5 7 none _ cancel_ok

-- a task whose second slice has failed
abbrev failing : Store
failing = record (queue_with TaskStatus.failed) {
  slices = slice 12 2 ∷ record (slice 13 1) { status = SliceStatus.failed } ∷ [];
}

retry_ok :
    retry_task 7 none failing
    ≡ ok (some (task TaskStatus.pending), left failing (retry_task 7 none failing))
unfolding retry_task first update count
retry_ok = refl

retry_requeues_example :
    let db = left failing (retry_task 7 none failing) in
    IsStored 7 (task TaskStatus.pending) db TaskStatus.pending
    × (count (is_failed_of 7) db.slices ≡ 0)
    × (db.slices ≡ update (is_failed_of 7) retry_row failing.slices)
    × (0 < count (is_failed_of 7) failing.slices)
retry_requeues_example = retry_requeues failing _ 7 none _ retry_ok

resume-pause_example :
    let db = left queue (pause_task 5 7 (some "audit") queue) in
    (t : CollectTask) × (db' : Store) × (resume_task 7 db ≡ ok (some t, db'))
    × IsStored 7 t db' TaskStatus.pending
    × (t.paused_at ≡ none)
    × (t.pause_reason ≡ none)
    × (db'.slices ≡ queue.slices)
resume-pause_example = resume-pause queue _ 5 7 (some "audit") _ pause_ok
