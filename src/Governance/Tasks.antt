-- ===== src/Governance/Tasks.antt =====
-- app/governance/tasks.py: the tasks that clean what a task has collected and check what has been cleaned.
-- `digest` hashes canonical JSON (Collect/Idempotency); the text of an id is that of its number.
pub mod Latest
use Prim.Native.String.{◌++◌}
use quant_stock.Base.{
  ℕ, Bool, true, false, ◌&&◌, ◌||◌, not, String, Option, none, some, List, [], ◌∷◌, ◌==◌, ltb, leb,
  str_eq, first, select, best, count, is_none, if◌then◌else◌,
}
use quant_stock.Base.Result.{
  Result, ok, err, value_error, runtime_error, raise_if, require, ◌>>=◌, ◌>>◌,
}
use quant_stock.Base.Json.{
  Json, null, str, object, Dict, empty, entry, get, get_or, get_text, to_text,
}
use quant_stock.Base.Decimal.{show}
use quant_stock.Base.Calendar.{day_start, day_end, iso_date, ymd, local_date}
use quant_stock.Collect.StateMachine.{TaskStatus}
use quant_stock.Collect.Model.{
  CollectTask, RequestSlice, DataItem, TaskDefinition, CleanBatch, BatchStatus, RunStatus,
  CollectRun, RawBatch, RawRow, Store, get_item,
}
use quant_stock.Collect.Idempotency.{content_key}
use quant_stock.Collect.Creation.{submit, new_slice, text_or}

abbrev pub mapping_version : String
mapping_version = "mapping-v1"

abbrev pub normalization_version : String
normalization_version = "normalization-v3"

abbrev pub quality_rule_version : String
quality_rule_version = "quality-v4"

-- P4_TRADE_DATE_ITEMS and P4_ITEMS
abbrev pub is_p4_trade_date_item : String → Bool
is_p4_trade_date_item c =
    str_eq c "stock_daily"
    || str_eq c "stock_adj_factor"
    || str_eq c "stock_daily_basic"
    || str_eq c "stock_suspend"
    || str_eq c "stock_limit_price"

unfoldable pub is_p4_item : String → Bool
is_p4_item c =
    str_eq c "trade_calendar"
    || str_eq c "stock_basic"
    || str_eq c "stock_minute"
    || is_p4_trade_date_item c

-- t.astimezone(SHANGHAI).date().isoformat() if t else None
abbrev day_of : Option ℕ → Option String
day_of none = none
day_of (some t) = some (iso_date (local_date t))

-- an optional text in an f-string, and in a dict
abbrev none_text : Option String → String
none_text none = "None"
none_text (some s) = s

abbrev json_of : Option String → Json
json_of none = null
json_of (some s) = str s

-- the three kinds of scope that need more than a constant
calendar_scope : CollectTask → String × Dict
calendar_scope t =
    let exchange = get_text t.object_scope "exchange" "SSE" in
    let start = day_of t.time_start in
    let end = day_of t.time_end in
    (
      "exchange:" ++ (exchange ++ ("|start:" ++ (none_text start ++ ("|end:" ++ none_text end)))),
      entry "exchange_code" (str exchange)
          (entry "start_date" (json_of start) (entry "end_date" (json_of end) empty)),
    )

trade_date_scope : ℕ → String × Dict
trade_date_scope time_start = (
  "trade_date:" ++ ymd (local_date time_start),
  entry "trade_date" (str (iso_date (local_date time_start))) (entry "market" (str "CN_A") empty),
)

minute_scope : CollectTask → ℕ → Result (String × Dict)
minute_scope t time_start = do
  let security_code = to_text (get_or t.object_scope "ts_code" (str ""))
  let frequency = text_or t.frequency ""
  raise_if (str_eq security_code "" || str_eq frequency "")
      (value_error "stock_minute source task is missing ts_code or frequency")
  ok (
    "security:"
        ++ (security_code
            ++ ("|frequency:" ++ (frequency ++ ("|trade_date:" ++ ymd (local_date time_start))))),
    entry "security_code" (str security_code) (
        entry "frequency" (str frequency)
          (entry "trade_date" (str (iso_date (local_date time_start))) empty)),
  )

unfoldable pub scope_for_source_task : String → CollectTask → Result (String × Dict)
unfolding calendar_scope trade_date_scope minute_scope
scope_for_source_task item_code t =
    if str_eq item_code "trade_calendar"
    then ok (calendar_scope t)
    else if str_eq item_code "stock_basic"
    then ok ("GLOBAL", entry "market" (str "CN_A") empty)
    else if is_p4_trade_date_item item_code
    then (do
      time_start ← require t.time_start (value_error "source task has no trade date")
      ok (trade_date_scope time_start))
    else if str_eq item_code "stock_minute"
    then (do
      time_start ← require t.time_start (value_error "stock_minute source task has no trade date")
      minute_scope t time_start)
    else err (value_error "P4 clean is not implemented")

-- _definition
unfoldable pub stage_definition : Store → String → String → Result TaskDefinition
stage_definition db stage item_code =
    require (first (λ d. str_eq d.task_code (stage ++ (":" ++ item_code))) db.definitions)
      (runtime_error "P4 task definition missing")

-- the arguments of _enqueue_stage_task; stage_name is stage.upper()
pub record StageRequest : Type 0 where
  pub stage : String
  pub stage_name : String
  pub item : DataItem
  pub definition : TaskDefinition
  pub source_binding_id : ℕ
  pub source_id : ℕ
  pub source_kind : String
  pub scope_key : String
  pub scope_json : Dict
  pub run_type : String
  pub trace_id : ℕ
  pub time_start : Option ℕ
  pub time_end : Option ℕ
  pub frequency : Option String
  pub requested_by : String
  pub reason : String

-- object_scope, and params with the versions
abbrev pub stage_scope : StageRequest → Dict → Dict
stage_scope r versions = entry "stage" (str r.stage_name) (
    entry "source_kind" (str r.source_kind) (
      entry "source_id" (str (show r.source_id))
        (entry "scope_key" (str r.scope_key) (entry "scope" (object r.scope_json) versions))))

abbrev versions_of : Dict
versions_of = entry "mapping_version" (str mapping_version) (
    entry "normalization_version" (str normalization_version)
      (entry "quality_rule_version" (str quality_rule_version) empty))

abbrev pub is_succeeded : TaskStatus → Bool
is_succeeded TaskStatus.succeeded = true
is_succeeded _ = false

-- the request that cleans what a task has collected
unfoldable pub clean_request :
    DataItem → CollectTask → String → String → Store → Result StageRequest
clean_request item source requested_by reason db = do
  raise_if (not (is_succeeded source.status))
      (value_error "source collection task must be SUCCEEDED before cleaning")
  scope ← scope_for_source_task item.code source
  definition ← stage_definition db "clean" item.code
  ok (record {
    stage = "clean";
    stage_name = "CLEAN";
    item = item;
    definition = definition;
    source_binding_id = source.source_binding_id;
    source_id = source.task_id;
    source_kind = "collect_task";
    scope_key = scope.0;
    scope_json = scope.1;
    run_type = source.run_type;
    trace_id = source.trace_id;
    time_start = source.time_start;
    time_end = source.time_end;
    frequency = source.frequency;
    requested_by = requested_by;
    reason = reason;
  })

abbrev clean_answer : CollectTask × Bool × Store → Option (CollectTask × Bool) × Store
clean_answer r = (some (r.0, r.1), r.2)

module _ (digest : Json → String) where
  unfoldable pub stage_key : StageRequest → String
  stage_key r = content_key digest (
      object (
        entry "stage" (str r.stage) (
          entry "data_item" (str r.item.code) (
            entry "source_kind" (str r.source_kind) (
              entry "source_id" (str (show r.source_id)) (
                entry "scope_key" (str r.scope_key)
                  (entry "run_type" (str r.run_type) versions_of)))))))

  unfoldable pub stage_task : ℕ → StageRequest → CollectTask
  stage_task task_id r = record {
    task_id = task_id;
    task_definition_id = some r.definition.task_definition_id;
    data_item_id = r.item.data_item_id;
    source_binding_id = r.source_binding_id;
    run_type = r.run_type;
    object_scope = stage_scope r empty;
    time_start = r.time_start;
    time_end = r.time_end;
    frequency = r.frequency;
    priority = r.definition.priority;
    status = TaskStatus.pending;
    idempotency_key = stage_key r;
    idempotency_version = none;
    requested_by = some r.requested_by;
    reason = some r.reason;
    trace_id = r.trace_id;
    definition_version = some r.definition.definition_version;
    source_binding_version = none;
    update_policy_version = some "p4-v1";
    expected_business_time = none;
    planning_status = "COMPLETE";
    planning_complete = true;
    started_at = none;
    finished_at = none;
    paused_at = none;
    pause_reason = none;
    cancel_requested_at = none;
    last_error_type = none;
    last_error_message = none;
  }

  unfoldable pub stage_slice : ℕ → StageRequest → CollectTask → RequestSlice
  stage_slice slice_id r persisted =
      let params = stage_scope r versions_of in
      new_slice slice_id persisted
        (r.stage ++ (":" ++ (r.source_kind ++ (":" ++ show r.source_id)))) 0 params
        (content_key digest (object params)) r.time_start r.time_end (some r.scope_key) r.frequency

  -- _enqueue_stage_task, with the ids that it draws for its task and its slice
  unfoldable pub enqueue_stage_task :
      ℕ → ℕ → StageRequest → Store → Result (CollectTask × Bool × Store)
  enqueue_stage_task task_id slice_id r =
      submit (stage_task task_id r) (λ t. ok (stage_slice slice_id r t ∷ []))

  enqueue_clean :
      ℕ
      → ℕ
      → Option DataItem
      → CollectTask
      → String
      → String
      → Store
      → Result (Option (CollectTask × Bool) × Store)
  enqueue_clean task_id slice_id none source requested_by reason db = ok (none, db)
  enqueue_clean task_id slice_id (some item) source requested_by reason db =
      if not (is_p4_item item.code) then ok (none, db) else (do
        request ← clean_request item source requested_by reason db
        r ← enqueue_stage_task task_id slice_id request db
        ok (clean_answer r))

  unfoldable pub enqueue_clean_for_collect_task :
      ℕ → ℕ → CollectTask → String → String → Store → Result (Option (CollectTask × Bool) × Store)
  unfolding enqueue_clean
  enqueue_clean_for_collect_task task_id slice_id source requested_by reason db =
      enqueue_clean task_id slice_id (get_item db source.data_item_id) source requested_by reason db

  unfoldable pub enqueue_quality_for_clean_batch :
      ℕ
      → ℕ
      → CollectTask
      → CleanBatch
      → String
      → String
      → Store
      → Result (CollectTask × Bool × Store)
  enqueue_quality_for_clean_batch task_id slice_id clean_task batch requested_by reason db = do
    item ←
        require (get_item db clean_task.data_item_id) (runtime_error "clean task data item missing")
    definition ← stage_definition db "quality" item.code
    enqueue_stage_task task_id slice_id
        (record {
          stage = "quality";
          stage_name = "QUALITY";
          item = item;
          definition = definition;
          source_binding_id = clean_task.source_binding_id;
          source_id = batch.clean_batch_id;
          source_kind = "clean_batch";
          scope_key = batch.scope_key;
          scope_json = batch.scope_json;
          run_type = clean_task.run_type;
          trace_id = clean_task.trace_id;
          time_start = clean_task.time_start;
          time_end = clean_task.time_end;
          frequency = clean_task.frequency;
          requested_by = requested_by;
          reason = reason;
        })
        db
