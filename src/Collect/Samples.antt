-- ===== src/Collect/Samples.antt =====
-- A queue with one task of three slices, one of them held by a worker: data for the examples.
use quant_stock.Base.{ℕ, Bool, true, false, none, some, [], ◌∷◌}
use quant_stock.Base.Json.{empty}
use quant_stock.Collect.StateMachine.{TaskStatus, SliceStatus}
use quant_stock.Collect.Model.{CollectTask, RequestSlice, SourceBinding, Store}
use quant_stock.Collect.Repository.{lease}

abbrev pub task : TaskStatus → CollectTask
task status = record {
  task_id = 7;
  task_definition_id = none;
  data_item_id = 1;
  source_binding_id = 3;
  run_type = "INCREMENTAL";
  object_scope = empty;
  time_start = none;
  time_end = none;
  frequency = none;
  priority = 20;
  status = status;
  idempotency_key = "k";
  idempotency_version = none;
  requested_by = none;
  reason = none;
  trace_id = 0;
  definition_version = none;
  source_binding_version = none;
  update_policy_version = none;
  expected_business_time = none;
  planning_status = "COMPLETE";
  planning_complete = true;
  started_at = none;
  finished_at = none;
  paused_at = none;
  pause_reason = none;
  cancel_requested_at = none;
  last_error_type = none;
  last_error_message = none;
}

abbrev pub slice : ℕ → ℕ → RequestSlice
slice id order = record {
  slice_id = id;
  task_id = 7;
  partition_key = "p";
  slice_order = order;
  request_params = empty;
  request_hash = "h";
  time_start = none;
  time_end = none;
  object_key = none;
  frequency = none;
  status = SliceStatus.pending;
  priority = 20;
  attempt_count = 0;
  response_rows = none;
  last_error_type = none;
  next_retry_at = none;
  leased_by = none;
  leased_at = none;
  lease_expires_at = none;
  lease_token = none;
  heartbeat_at = none;
}

abbrev pub held : RequestSlice
held = lease 1000 99 "w1" 60 (slice 11 0)

abbrev pub binding : SourceBinding
binding = record {
  source_binding_id = 3;
  source_id = 1;
  adapter_type = "tushare";
  last_probe_status = none;
  last_probe_at = none;
  binding_code = "tushare:stock_daily";
  api_name = "daily";
  enabled = true;
  max_rows_per_request = some 6000;
  max_calls_per_minute = none;
  effective_calls_per_minute = none;
  field_mapping_version = "v1";
  request_policy_version = "v1";
  capability_status = "available";
  last_success_at = none;
  last_failure_at = none;
  schema_fingerprint = none;
  config = empty;
}

abbrev pub queue_with : TaskStatus → Store
queue_with status = record {
  tasks = task status ∷ [];
  slices = held ∷ slice 12 2 ∷ slice 13 1 ∷ [];
  bindings = binding ∷ [];
  items = [];
  collect_runs = [];
  clean_runs = [];
  quality_runs = [];
  clean_batches = [];
  attempts = [];
  watermarks = [];
  audit_events = [];
  definitions = [];
  raw_batches = [];
  raw_rows = [];
  sources = [];
}

abbrev pub queue : Store
queue = queue_with TaskStatus.pending

abbrev pub unlocked : RequestSlice → Bool
unlocked _ = false
