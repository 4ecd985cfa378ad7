-- ===== src/Collect/Executor/Rows.antt =====
-- app/collect/executor.py: writes to the rows that an execution holds, and the run that it works in.
use quant_stock.Base.{
  ℕ, ◌+◌, Bool, true, false, ◌&&◌, String, Option, none, some, List, [], ◌∷◌, ◌++◌, ◌==◌, ltb,
  update, select, best, if◌then◌else◌,
}
use quant_stock.Collect.StateMachine.{TaskStatus}
use quant_stock.Collect.Model.{
  CollectTask, SourceBinding, RunStatus, CollectRun, SliceAttempt, RawBatch, Store, set_task,
}

abbrev pub set_run : ℕ → (CollectRun → CollectRun) → Store → Store
set_run i f db = record db { collect_runs = update (λ r. r.run_id == i) f db.collect_runs }

abbrev pub set_attempt : ℕ → (SliceAttempt → SliceAttempt) → Store → Store
set_attempt i f db = record db { attempts = update (λ a. a.attempt_id == i) f db.attempts }

abbrev pub set_binding : ℕ → (SourceBinding → SourceBinding) → Store → Store
set_binding i f db = record db { bindings = update (λ b. b.source_binding_id == i) f db.bindings }

abbrev pub set_raw_batch : ℕ → (RawBatch → RawBatch) → Store → Store
set_raw_batch i f db = record db {
  raw_batches = update (λ b. b.raw_batch_id == i) f db.raw_batches;
}

abbrev is_running_run : RunStatus → Bool
is_running_run RunStatus.running = true
is_running_run _ = false

-- the RUNNING runs of a task, the last number first
unfoldable pub running_run : ℕ → Store → Option CollectRun
running_run task_id db =
    best (λ (a b : CollectRun). ltb b.run_number a.run_number)
      (select (λ r. r.task_id == task_id && is_running_run r.status) db.collect_runs)

-- coalesce(max(run_number), 0)
unfoldable pub max_run_number : ℕ → List CollectRun → ℕ
max_run_number task_id [] = 0
max_run_number task_id (r ∷ rs) =
    let rest = max_run_number task_id rs in
    if r.task_id == task_id then (if ltb rest r.run_number then r.run_number else rest) else rest

-- `v or w` on a nullable instant: the code's instants are never 0
abbrev pub time_or : Option ℕ → ℕ → Option ℕ
time_or none w = some w
time_or (some t) w = some t

-- task.status = "RUNNING" and task.started_at
abbrev started : ℕ → CollectTask → CollectTask
started now t = record t { status = TaskStatus.running; started_at = time_or t.started_at now }

get_or_create :
    ℕ → ℕ → CollectTask → String → Option CollectRun → Store → CollectRun × CollectTask × Store
get_or_create now run_id task worker_id (some run) db = (
  record run { heartbeat_at = some now },
  task,
  set_run run.run_id (λ r. record r { heartbeat_at = some now }) db,
)
get_or_create now run_id task worker_id none db =
    let run : CollectRun = record {
      run_id = run_id;
      task_id = task.task_id;
      run_number = max_run_number task.task_id db.collect_runs + 1;
      status = RunStatus.running;
      worker_id = some worker_id;
      started_at = some now;
      finished_at = none;
      heartbeat_at = some now;
      error_type = none;
      error_message = none;
      request_count = 0;
      row_count = 0;
    } in
    (
      run,
      started now task,
      set_task task.task_id (started now)
          (record db { collect_runs = db.collect_runs ++ run ∷ [] }),
    )

-- _get_or_create_run: the run and the task as the session then holds them, with the id of a run that it draws
unfoldable pub get_or_create_run :
    ℕ → ℕ → CollectTask → String → Store → CollectRun × CollectTask × Store
unfolding get_or_create
get_or_create_run now run_id task worker_id db =
    get_or_create now run_id task worker_id (running_run task.task_id db) db
