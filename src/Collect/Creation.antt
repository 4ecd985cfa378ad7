-- ===== src/Collect/Creation.antt =====
-- app/collect/repository.py, create_task_idempotent, and the pattern of the functions that enqueue: a
-- task is inserted under its idempotency key, and only a task that is new gets slices.
pub mod Once
use quant_stock.Base.{
  ℕ, Bool, true, false, ◌&&◌, String, Option, none, some, List, [], ◌∷◌, ◌++◌, ◌==◌, str_eq, first,
  if◌then◌else◌,
}
use quant_stock.Base.Result.{Result, ok, err, runtime_error, require, ◌>>=◌}
use quant_stock.Base.Json.{Dict}
use quant_stock.Collect.StateMachine.{SliceStatus}
use quant_stock.Collect.Model.{CollectTask, RequestSlice, Store, get_task}

-- task.idempotency_version or 1
abbrev pub version_or : Option ℕ → ℕ
version_or none = 1
version_or (some n) = if n == 0 then 1 else n

-- the columns of the constraint uq_collect_task_idempotency
abbrev pub has_key : ℕ → String → CollectTask → Bool
has_key version key t = version_or t.idempotency_version == version && str_eq t.idempotency_key key

-- INSERT ... ON CONFLICT DO NOTHING RETURNING task_id, then the row by its id
abbrev pub insert_task :
    CollectTask → ℕ → Option CollectTask → Store → Result (CollectTask × Bool × Store)
insert_task task version (some existing) db = ok (existing, false, db)
insert_task task version none db = do
  let db' = record db {
    tasks = db.tasks ++ record task { idempotency_version = some version } ∷ [];
  }
  persisted ← require (get_task db' task.task_id) (runtime_error "Inserted task not found")
  ok (persisted, true, db')

unfoldable pub create_task_idempotent : CollectTask → Store → Result (CollectTask × Bool × Store)
create_task_idempotent task db =
    let version = version_or task.idempotency_version in
    insert_task task version (first (has_key version task.idempotency_key) db.tasks) db

-- `if not created: return persisted, False`, else the slices are added
abbrev pub add_slices :
    (CollectTask → Result (List RequestSlice))
    → CollectTask × Bool × Store
    → Result (CollectTask × Bool × Store)
add_slices plan (persisted, false, db) = ok (persisted, false, db)
add_slices plan (persisted, true, db) = do
  slices ← plan persisted
  ok (persisted, true, record db { slices = db.slices ++ slices })

-- `v or w` on a nullable text: an empty text is as good as none
abbrev pub text_or : Option String → String → String
text_or none w = w
text_or (some s) w = if str_eq s "" then w else s

-- what each function that enqueues does with the task that it has built
unfoldable pub submit :
    CollectTask
    → (CollectTask → Result (List RequestSlice))
    → Store
    → Result (CollectTask × Bool × Store)
submit task plan db = create_task_idempotent task db >>= add_slices plan

-- RequestSlice(...), with the defaults of its columns
abbrev pub new_slice :
    ℕ
    → CollectTask
    → String
    → ℕ
    → Dict
    → String
    → Option ℕ
    → Option ℕ
    → Option String
    → Option String
    → RequestSlice
new_slice slice_id t partition_key slice_order request_params request_hash time_start time_end
      object_key frequency =
    record {
      slice_id = slice_id;
      task_id = t.task_id;
      partition_key = partition_key;
      slice_order = slice_order;
      request_params = request_params;
      request_hash = request_hash;
      time_start = time_start;
      time_end = time_end;
      object_key = object_key;
      frequency = frequency;
      status = SliceStatus.pending;
      priority = t.priority;
      attempt_count = 0;
      response_rows = none;
      last_error_type = none;
      next_retry_at = none;
      leased_by = none;
      leased_at = none;
      lease_expires_at = none;
      lease_token = none;
      heartbeat_at = none;
    }
