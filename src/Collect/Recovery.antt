-- ===== src/Collect/Recovery.antt =====
-- app/collect/repository.py: what TaskRepository does for a worker that is gone or that failed.
use quant_stock.Base.{
  ℕ, Bool, true, false, ◌&&◌, not, String, Option, none, some, List, [], ◌∷◌, leb, ltb, ◌==◌,
  select, first, update, best, str_eq, length,
}
use quant_stock.Base.Text.{prefix}
use quant_stock.Collect.StateMachine.{TaskStatus, SliceStatus}
use quant_stock.Collect.Model.{
  CollectTask, RequestSlice, RunStatus, CollectRun, CleanRun, QualityRun, BatchStatus, CleanBatch,
  Store, get_task, set_task, set_slices, Stage, collect, clean, quality, stage_of,
}
use quant_stock.Collect.Repository.{ClaimedSlice, slice_is_running, holds_lease, unlease}

abbrev pub run_is_running : RunStatus → Bool
run_is_running RunStatus.running = true
run_is_running _ = false

-- `worker_id == worker`, which SQLAlchemy renders as `IS NULL` where the worker is None
abbrev pub same_worker : Option String → Option String → Bool
same_worker (some a) (some b) = str_eq a b
same_worker none none = true
same_worker _ _ = false

-- ORDER BY run_number DESC LIMIT 1
unfoldable pub running_collect_run : Store → ℕ → Option String → Option CollectRun
running_collect_run db task_id worker =
    best (λ a b. ltb b.run_number a.run_number)
      (select
        (λ r. r.task_id == task_id && run_is_running r.status && same_worker r.worker_id worker)
        db.collect_runs)

unfoldable pub running_clean_run : Store → ℕ → Option String → Option CleanRun
running_clean_run db task_id worker =
    best (λ a b. ltb b.run_number a.run_number)
      (select
        (λ r. r.task_id == task_id && run_is_running r.status && same_worker r.worker_id worker)
        db.clean_runs)

-- ORDER BY started_at DESC LIMIT 1
unfoldable pub running_quality_run : Store → ℕ → Option QualityRun
running_quality_run db task_id =
    best (λ a b. ltb b.started_at a.started_at)
      (select (λ r. r.task_id == task_id && run_is_running r.status) db.quality_runs)

abbrev pub set_collect_run : ℕ → (CollectRun → CollectRun) → Store → Store
set_collect_run i f db = record db { collect_runs = update (λ r. r.run_id == i) f db.collect_runs }

abbrev pub set_clean_run : ℕ → (CleanRun → CleanRun) → Store → Store
set_clean_run i f db = record db { clean_runs = update (λ r. r.clean_run_id == i) f db.clean_runs }

abbrev pub set_quality_run : ℕ → (QualityRun → QualityRun) → Store → Store
set_quality_run i f db = record db {
  quality_runs = update (λ r. r.quality_run_id == i) f db.quality_runs;
}

-- `if run is not None: ...`
abbrev on_row {ℓ} : {A : Type ℓ} → Option A → (A → Store → Store) → Store → Store
on_row none f db = db
on_row (some a) f db = f a db

abbrev lost_message : Stage → String
lost_message clean = "worker lease expired before clean completion"
lost_message _ = "worker lease expired before slice completion"

-- The run of the stage becomes LOST. The session does not flush before it reads, so the run is found among those
-- that are stored.
lose_run : Store → Stage → ℕ → ℕ → Option String → Store → Store
lose_run stored clean now task_id previous_worker db =
    on_row (running_clean_run stored task_id previous_worker)
      (λ run. set_clean_run run.clean_run_id λ r. record r {
        status = RunStatus.lost;
        finished_at = some now;
        error_type = some "WORKER_LOST";
        error_message = some (lost_message clean);
      })
      db
lose_run stored quality now task_id previous_worker db =
    on_row (running_quality_run stored task_id)
      (λ run.
        set_quality_run run.quality_run_id
          λ r. record r { status = RunStatus.lost; finished_at = some now })
      db
lose_run stored collect now task_id previous_worker db =
    on_row (running_collect_run stored task_id previous_worker)
      (λ run. set_collect_run run.run_id λ r. record r {
        status = RunStatus.lost;
        finished_at = some now;
        error_type = some "WORKER_LOST";
        error_message = some (lost_message collect);
      })
      db

abbrev pub mark_lost : CollectTask → CollectTask
mark_lost t = record t {
  status = TaskStatus.partial;
  last_error_type = some "WORKER_LOST";
  last_error_message = some "worker lease expired; slice returned to retry queue";
}

-- `if task is not None:` in the loop of `recover_expired_claims`
recover_task : Store → ℕ → Option String → Option CollectTask → Store → Store
unfolding lose_run
recover_task stored now previous_worker none db = db
recover_task stored now previous_worker (some t) db =
    set_task t.task_id mark_lost
      (lose_run stored (stage_of t.object_scope) now t.task_id previous_worker db)

-- the slice of an expired lease, as the loop leaves it
abbrev pub requeue : ℕ → RequestSlice → RequestSlice
requeue now s = record (unlease s) {
  status = SliceStatus.retry_wait;
  last_error_type = some "WORKER_LOST";
  next_retry_at = some now;
}

-- the body of the loop
unfoldable pub recover_slice : ℕ → Store → RequestSlice → Store → Store
unfolding recover_task
recover_slice now stored s db =
    set_slices (λ r. r.slice_id == s.slice_id) (requeue now)
      (recover_task stored now s.leased_by (get_task db s.task_id) db)

unfoldable pub recover_all : ℕ → Store → List RequestSlice → Store → Store
recover_all now stored [] db = db
recover_all now stored (s ∷ rows) db = recover_all now stored rows (recover_slice now stored s db)

abbrev pub expired : ℕ → Option ℕ → Bool
expired now none = false
expired now (some t) = leb t now

-- status == 'RUNNING' AND lease_expires_at IS NOT NULL AND lease_expires_at <= now
abbrev pub is_expired_claim : ℕ → RequestSlice → Bool
is_expired_claim now s = slice_is_running s.status && expired now s.lease_expires_at

unfoldable pub recover_expired_claims : ℕ → (RequestSlice → Bool) → Store → ℕ × Store
recover_expired_claims now locked db =
    let rows = select (λ s. is_expired_claim now s && not (locked s)) db.slices in
    (length rows, recover_all now db rows db)

-- a batch that was under validation goes back to CANDIDATE
reset_batch : ℕ → CleanBatch → CleanBatch
reset_batch quality_run_id b = elim b.status [
  | BatchStatus.validating ↦ record b {
    status = BatchStatus.candidate;
    current_quality_run_id = some quality_run_id;
  }
  | _ ↦ b
]

-- The run of the stage becomes FAILED.
fail_run : Stage → ℕ → ℕ → String → String → String → Store → Store
unfolding reset_batch
fail_run clean now task_id worker_id error_type message db =
    on_row (running_clean_run db task_id (some worker_id))
      (λ run. set_clean_run run.clean_run_id λ r. record r {
        status = RunStatus.failed;
        finished_at = some now;
        error_type = some error_type;
        error_message = some (prefix 2000 message);
      })
      db
fail_run quality now task_id worker_id error_type message db =
    on_row (running_quality_run db task_id)
      (λ run db.
        let db' =
          set_quality_run run.quality_run_id
            (λ r. record r { status = RunStatus.failed; finished_at = some now }) db in
        record db' {
          clean_batches =
              update (λ b. b.clean_batch_id == run.clean_batch_id) (reset_batch run.quality_run_id)
                db'.clean_batches;
        })
      db
fail_run collect now task_id worker_id error_type message db =
    on_row (running_collect_run db task_id (some worker_id))
      (λ run. set_collect_run run.run_id λ r. record r {
        status = RunStatus.failed;
        finished_at = some now;
        error_type = some error_type;
        error_message = some (prefix 2000 message);
      })
      db

fail_task : ℕ → String → String → String → Option CollectTask → Store → Store
unfolding fail_run
fail_task now worker_id error_type message none db = db
fail_task now worker_id error_type message (some t) db =
    fail_run (stage_of t.object_scope) now t.task_id worker_id error_type message (
      set_task t.task_id
        (λ r. record r {
          status = TaskStatus.failed;
          finished_at = some now;
          last_error_type = some error_type;
          last_error_message = some (prefix 2000 message);
        })
        db)

abbrev pub fail_row : String → RequestSlice → RequestSlice
fail_row error_type s = record (unlease s) {
  status = SliceStatus.failed;
  last_error_type = some error_type;
  next_retry_at = none;
}

fail_claimed : ℕ → ClaimedSlice → String → String → String → Option RequestSlice → Store → Store
unfolding fail_task
fail_claimed now claimed worker_id error_type message none db = db
fail_claimed now claimed worker_id error_type message (some s) db =
    let db' = set_slices (λ r. r.slice_id == s.slice_id) (fail_row error_type) db in
    fail_task now worker_id error_type message (get_task db' claimed.task_id) db'

unfoldable pub fail_claim_after_unhandled :
    ℕ → ClaimedSlice → String → String → String → Store → Store
unfolding fail_claimed
fail_claim_after_unhandled now claimed worker_id error_type message db =
    fail_claimed now claimed worker_id error_type message
      (first (holds_lease claimed.slice_id claimed.lease_token) db.slices) db
