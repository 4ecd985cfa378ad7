-- ===== src/Collect/Model.antt =====
-- app/storage/models: the rows of the tables that the queue works on, and the database.
-- Ids (UUIDs) and instants (microseconds) are numbers, a nullable column is an `Option`. Columns
-- that no modelled operation reads or writes are left out.
use quant_stock.Base.{ℕ, ◌*◌, Bool, String, Option, some, List, ◌==◌, if◌then◌else◌, first, update}
use quant_stock.Base.Json.{Json, Dict, get, str}
use quant_stock.Base.Text.{upper_is}
use quant_stock.Collect.StateMachine.{TaskStatus, SliceStatus}

pub record TaskDefinition : Type 0 where
  pub task_definition_id : ℕ
  pub task_code : String
  pub data_item_id : ℕ
  pub update_mode : Option String
  pub availability_rule : Dict
  pub priority : ℕ
  pub enabled : Bool
  pub definition_version : String

pub record CollectTask : Type 0 where
  pub task_id : ℕ
  pub task_definition_id : Option ℕ
  pub data_item_id : ℕ
  pub source_binding_id : ℕ
  pub run_type : String
  pub object_scope : Dict
  pub time_start : Option ℕ
  pub time_end : Option ℕ
  pub frequency : Option String
  pub priority : ℕ
  pub status : TaskStatus
  pub idempotency_key : String
  pub idempotency_version : Option ℕ
  pub requested_by : Option String
  pub reason : Option String
  pub trace_id : ℕ
  pub definition_version : Option String
  pub source_binding_version : Option String
  pub update_policy_version : Option String
  pub expected_business_time : Option ℕ
  pub planning_status : String
  pub planning_complete : Bool
  pub started_at : Option ℕ
  pub finished_at : Option ℕ
  pub paused_at : Option ℕ
  pub pause_reason : Option String
  pub cancel_requested_at : Option ℕ
  pub last_error_type : Option String
  pub last_error_message : Option String

pub record RequestSlice : Type 0 where
  pub slice_id : ℕ
  pub task_id : ℕ
  pub partition_key : String
  pub slice_order : ℕ
  pub request_params : Dict
  pub request_hash : String
  pub time_start : Option ℕ
  pub time_end : Option ℕ
  pub object_key : Option String
  pub frequency : Option String
  pub status : SliceStatus
  pub priority : ℕ
  pub attempt_count : ℕ
  pub response_rows : Option ℕ
  pub last_error_type : Option String
  pub next_retry_at : Option ℕ
  pub leased_by : Option String
  pub leased_at : Option ℕ
  pub lease_expires_at : Option ℕ
  pub lease_token : Option ℕ
  pub heartbeat_at : Option ℕ

-- the statuses of collect, clean and quality runs, attempts and raw batches that the code writes
pub data RunStatus : Type 0 where
  created running writing succeeded failed lost cancelled passed warned blocked : RunStatus

pub record CollectRun : Type 0 where
  pub run_id : ℕ
  pub task_id : ℕ
  pub run_number : ℕ
  pub status : RunStatus
  pub worker_id : Option String
  pub started_at : Option ℕ
  pub finished_at : Option ℕ
  pub heartbeat_at : Option ℕ
  pub error_type : Option String
  pub error_message : Option String
  pub request_count : ℕ
  pub row_count : ℕ

pub record CleanRun : Type 0 where
  pub clean_run_id : ℕ
  pub task_id : ℕ
  pub run_number : ℕ
  pub worker_id : Option String
  pub status : RunStatus
  pub finished_at : Option ℕ
  pub error_type : Option String
  pub error_message : Option String

pub record QualityRun : Type 0 where
  pub quality_run_id : ℕ
  pub task_id : ℕ
  pub clean_batch_id : ℕ
  pub status : RunStatus
  pub started_at : ℕ
  pub finished_at : Option ℕ

pub data BatchStatus : Type 0 where
  candidate validating published blocked superseded : BatchStatus

pub record CleanBatch : Type 0 where
  pub clean_batch_id : ℕ
  pub clean_run_id : ℕ
  pub source_task_id : ℕ
  pub data_item_id : ℕ
  pub scope_key : String
  pub scope_json : Dict
  pub status : BatchStatus
  pub mapping_version : String
  pub normalization_version : String
  pub quality_rule_version : String
  pub created_at : ℕ
  pub published_rows : ℕ
  pub published_content_hash : Option String
  pub published_quality_run_id : Option ℕ
  pub current_quality_run_id : Option ℕ
  pub published_at : Option ℕ
  pub superseded_at : Option ℕ

pub record SourceBinding : Type 0 where
  pub source_binding_id : ℕ
  pub source_id : ℕ
  pub adapter_type : String
  pub last_probe_status : Option String
  pub last_probe_at : Option ℕ
  pub binding_code : String
  pub api_name : String
  pub enabled : Bool
  pub max_rows_per_request : Option ℕ
  pub max_calls_per_minute : Option ℕ
  pub effective_calls_per_minute : Option ℕ
  pub field_mapping_version : String
  pub request_policy_version : String
  pub capability_status : String
  pub last_success_at : Option ℕ
  pub last_failure_at : Option ℕ
  pub schema_fingerprint : Option String
  pub config : Dict

pub record DataSource : Type 0 where
  pub source_id : ℕ
  pub health_status : String
  pub last_health_check_at : Option ℕ

pub record DataItem : Type 0 where
  pub data_item_id : ℕ
  pub code : String
  pub frequency : Option String

pub record SliceAttempt : Type 0 where
  pub attempt_id : ℕ
  pub slice_id : ℕ
  pub run_id : ℕ
  pub attempt_no : ℕ
  pub source_binding_id : ℕ
  pub request_hash : String
  pub started_at : ℕ
  pub finished_at : Option ℕ
  pub status : RunStatus
  pub response_rows : Option ℕ
  pub error_type : Option String
  pub error_message : Option String
  pub rate_limit_wait_ms : ℕ

pub record DataWatermark : Type 0 where
  pub data_item_id : ℕ
  pub source_binding_id : Option ℕ
  pub scope_key : String
  pub frequency : String
  pub initialized_from : Option ℕ
  pub initialized_to : Option ℕ
  pub latest_collected_at : Option ℕ
  pub expected_at : Option ℕ

pub record RawBatch : Type 0 where
  pub raw_batch_id : ℕ
  pub run_id : ℕ
  pub slice_id : ℕ
  pub source_binding_id : ℕ
  pub request_hash : String
  pub row_count : ℕ
  pub status : RunStatus
  pub schema_version : String
  pub started_at : ℕ
  pub finished_at : Option ℕ

-- a row of the RAW table of one data item: the metadata columns, and the provider's columns
pub record RawRow : Type 0 where
  pub item_code : String
  pub source : String
  pub source_api : String
  pub collect_run_id : ℕ
  pub raw_batch_id : ℕ
  pub fetched_at : ℕ
  pub request_hash : String
  pub content_hash : String
  pub schema_version : String
  pub business : Dict

pub record AuditEvent : Type 0 where
  pub object_type : String
  pub object_id : ℕ
  pub action : String
  pub before_status : Option TaskStatus
  pub after_status : Option TaskStatus
  pub reason : Option String
  pub trace_id : Option ℕ

-- the tables of one database, as a session sees them inside its transaction
pub record Store : Type 0 where
  pub tasks : List CollectTask
  pub slices : List RequestSlice
  pub bindings : List SourceBinding
  pub items : List DataItem
  pub collect_runs : List CollectRun
  pub clean_runs : List CleanRun
  pub quality_runs : List QualityRun
  pub clean_batches : List CleanBatch
  pub attempts : List SliceAttempt
  pub watermarks : List DataWatermark
  pub audit_events : List AuditEvent
  pub definitions : List TaskDefinition
  pub raw_batches : List RawBatch
  pub raw_rows : List RawRow
  pub sources : List DataSource

-- session.get(CollectTask, id) and the like
abbrev pub get_task : Store → ℕ → Option CollectTask
get_task db i = first (λ t. t.task_id == i) db.tasks

abbrev pub get_slice : Store → ℕ → Option RequestSlice
get_slice db i = first (λ s. s.slice_id == i) db.slices

abbrev pub get_binding : Store → ℕ → Option SourceBinding
get_binding db i = first (λ b. b.source_binding_id == i) db.bindings

abbrev pub get_item : Store → ℕ → Option DataItem
get_item db i = first (λ d. d.data_item_id == i) db.items

-- A write to the attributes of a loaded row is flushed as an UPDATE by primary key.
abbrev pub set_task : ℕ → (CollectTask → CollectTask) → Store → Store
set_task i f db = record db { tasks = update (λ t. t.task_id == i) f db.tasks }

abbrev pub set_slices : (RequestSlice → Bool) → (RequestSlice → RequestSlice) → Store → Store
set_slices p f db = record db { slices = update p f db.slices }

-- timedelta(seconds=n)
abbrev pub seconds : ℕ → ℕ
seconds n = n * 1000000

pub data Stage : Type 0 where
  collect clean quality : Stage

stage_of_value : Option Json → Stage
stage_of_value (some (str s)) =
    if upper_is s "CLEAN" then clean else if upper_is s "QUALITY" then quality else collect
stage_of_value _ = collect

-- str((scope or {}).get("stage") or "COLLECT").upper(), as the branches on it read it
unfoldable pub stage_of : Dict → Stage
unfolding stage_of_value
stage_of scope = stage_of_value (get scope "stage")
