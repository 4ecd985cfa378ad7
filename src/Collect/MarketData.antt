-- ===== src/Collect/MarketData.antt =====
-- app/collect/market_data_service.py and trade_calendar_service.py: the functions that enqueue the
-- collection of a data item. A call draws the id and the trace id of the task, and the ids of its slices.
pub mod Repeat
mod Examples
use Prim.Native.String.{◌++◌ as text_append}
use quant_stock.Base.{
  ℕ, suc, ◌+◌, Bool, true, false, not, ◌||◌, String, Option, none, some, List, [], ◌∷◌, ◌==◌, leb,
  str_eq, first, if◌then◌else◌,
}
use quant_stock.Base.Result.{
  Result, ok, err, value_error, runtime_error, raise_if, require, ◌>>=◌, ◌>>◌,
}
use quant_stock.Base.Json.{
  Json, num, str, array, Items, nil, cons, Dict, empty, entry, get, get_or, to_int, to_text,
}
use quant_stock.Base.Calendar.{day_start, day_end, iso_start, iso_end, iso_date, local_date, hms}
use quant_stock.Collect.StateMachine.{TaskStatus}
use quant_stock.Collect.Model.{
  CollectTask, RequestSlice, DataItem, SourceBinding, TaskDefinition, Store,
}
use quant_stock.Collect.Idempotency.{build_task_idempotency_key}
use quant_stock.Collect.Planners.{
  PlannedSlice, plan_stock_basic_slices, plan_trade_date_slice, plan_stock_minute_slice,
  plan_financial_slice,
}
use quant_stock.Collect.Planners.TradeCalendar.{TradeCalendarSlicePlan, plan_trade_calendar_slices}
use quant_stock.Collect.Creation.{submit, new_slice, text_or}

-- what a call draws
pub record Draws : Type 0 where
  pub task_id : ℕ
  pub trace_id : ℕ
  pub slice_id : ℕ → ℕ

-- TRADE_DATE_ITEMS
unfoldable pub is_trade_date_item : String → Bool
is_trade_date_item c =
    str_eq c "stock_daily"
    || str_eq c "stock_adj_factor"
    || str_eq c "stock_daily_basic"
    || str_eq c "stock_suspend"
    || str_eq c "stock_limit_price"

-- _catalog
unfoldable pub catalog : Store → String → Result (DataItem × SourceBinding)
catalog db code = do
  item ←
      require (first (λ i. str_eq i.code code) db.items)
        (runtime_error "catalog is not initialized")
  binding ←
      require (first (λ b. str_eq b.binding_code (text_append "tushare:" code)) db.bindings)
        (runtime_error "catalog is not initialized")
  raise_if (not binding.enabled) (runtime_error "binding is disabled")
  ok (item, binding)

-- CollectTask(...) as all the functions build it, with the defaults of its columns
abbrev pub new_task :
    Draws
    → DataItem
    → SourceBinding
    → String
    → Dict
    → Option ℕ
    → Option ℕ
    → Option String
    → ℕ
    → String
    → String
    → String
    → CollectTask
new_task draws item binding run_type object_scope time_start time_end frequency priority key
      requested_by reason =
    record {
      task_id = draws.task_id;
      task_definition_id = none;
      data_item_id = item.data_item_id;
      source_binding_id = binding.source_binding_id;
      run_type = run_type;
      object_scope = object_scope;
      time_start = time_start;
      time_end = time_end;
      frequency = frequency;
      priority = priority;
      status = TaskStatus.pending;
      idempotency_key = key;
      idempotency_version = none;
      requested_by = some requested_by;
      reason = some reason;
      trace_id = draws.trace_id;
      definition_version = none;
      source_binding_version = some binding.request_policy_version;
      update_policy_version = none;
      expected_business_time = none;
      planning_status = "COMPLETE";
      planning_complete = true;
      started_at = none;
      finished_at = none;
      paused_at = none;
      pause_reason = none;
      cancel_requested_at = none;
      last_error_type = none;
      last_error_message = none;
    }

-- the slice of a plan
abbrev pub of_plan :
    ℕ
    → CollectTask
    → Option ℕ
    → Option ℕ
    → Option String
    → Option String
    → PlannedSlice
    → RequestSlice
of_plan id t time_start time_end object_key frequency p =
    new_slice id t p.partition_key p.slice_order p.request_params p.request_hash time_start time_end
      object_key frequency

-- the answer of a function that enqueues
abbrev pub Enqueued : Type 0
Enqueued = Result (CollectTask × Bool × Store)

-- plan.request_params["list_status"]
abbrev status_of : PlannedSlice → Option String
status_of p = elim (get p.request_params "list_status") [ some v ↦ some (to_text v) | none ↦ none ]

basic_slices : Draws → CollectTask → ℕ → List PlannedSlice → List RequestSlice
basic_slices draws t n [] = []
basic_slices draws t n (p ∷ ps) =
    of_plan (draws.slice_id n) t none none (status_of p) none p ∷ basic_slices draws t (n + 1) ps

calendar_slices : Draws → CollectTask → String → ℕ → List TradeCalendarSlicePlan → List RequestSlice
calendar_slices draws t exchange n [] = []
calendar_slices draws t exchange n (p ∷ ps) =
    new_slice (draws.slice_id n) t p.partition_key p.slice_order p.request_params p.request_hash
      (some (day_start p.start_date)) (some (day_end p.end_date)) (some exchange) (some "day")
    ∷ calendar_slices draws t exchange (n + 1) ps

-- the fields of the task of enqueue_trade_date_item that its definition gives
abbrev with_definition : Bool → Option TaskDefinition → CollectTask → CollectTask
with_definition false d t = record t { priority = 20 }
with_definition true none t = record t { priority = 0 }
with_definition true (some d) t = record t {
  task_definition_id = some d.task_definition_id;
  priority = d.priority;
  definition_version = some d.definition_version;
}

-- configured page size, where the binding pages by offset
unfoldable pub page_size_of : SourceBinding → Result (Option ℕ)
page_size_of binding =
    if str_eq (elim (get binding.config "pagination_mode") [ none ↦ "" | some v ↦ to_text v ])
      "offset"
    then (do
      size ← to_int (
          get_or binding.config "page_size"
            (num (elim binding.max_rows_per_request [ none ↦ 0 | some n ↦ n ])))
      raise_if (leb size 0) (runtime_error "offset pagination requires a positive page size")
      ok (some size))
    else ok none

module _ (digest : Json → String) where
  unfoldable pub enqueue_stock_basic : Draws → String → String → String → Store → Enqueued
  unfolding basic_slices
  enqueue_stock_basic draws run_type requested_by reason db = do
    found ← catalog db "stock_basic"
    let item = found.0
    let binding = found.1
    let scope = entry "type" (str "market") (
        entry "market" (str "CN_A") (
          entry "list_statuses"
            (array (cons (str "L") (cons (str "D") (cons (str "P") (cons (str "G") nil))))) empty))
    let key =
        build_task_idempotency_key digest item.code binding.binding_code run_type scope none none
          none
    let priority = if str_eq run_type "INITIALIZE" then 10 else 20
    submit
        (new_task draws item binding run_type scope none none none priority key requested_by reason)
        (λ t. ok (
          basic_slices draws t 0
            (plan_stock_basic_slices digest binding.binding_code binding.field_mapping_version)))
        db

  -- the task of enqueue_trade_date_item
  unfoldable pub trade_date_task :
      Draws
      → DataItem
      → SourceBinding
      → Option TaskDefinition
      → ℕ
      → String
      → String
      → String
      → CollectTask
  trade_date_task draws item binding definition trade_date run_type requested_by reason =
      let scope = entry "type" (str "market") (entry "market" (str "CN_A") empty) in
      let frequency = text_or item.frequency "day" in
      let key =
        build_task_idempotency_key digest item.code binding.binding_code run_type scope
          (some (iso_start trade_date)) (some (iso_end trade_date)) (some frequency) in
      let t =
        new_task draws item binding run_type scope (some (day_start trade_date))
          (some (day_end trade_date)) (some frequency) 20 key requested_by reason in
      with_definition (str_eq run_type "INCREMENTAL") definition
        (record t { expected_business_time = some (day_end trade_date) })

  -- the slice of enqueue_trade_date_item
  unfoldable pub trade_date_slices :
      Draws → DataItem → SourceBinding → ℕ → CollectTask → Result (List RequestSlice)
  trade_date_slices draws item binding trade_date t = do
    page_size ← page_size_of binding
    plan ←
        plan_trade_date_slice digest binding.binding_code binding.field_mapping_version trade_date
          binding.api_name page_size
    ok (
        of_plan (draws.slice_id 0) t (some (day_start trade_date)) (some (day_end trade_date))
          (some "CN_A") (some (text_or item.frequency "day")) plan
        ∷ [])

  unfoldable pub enqueue_trade_date_item :
      Draws → String → ℕ → String → String → Option String → Store → Enqueued
  enqueue_trade_date_item draws item_code trade_date run_type requested_by reason db = do
    raise_if (not (is_trade_date_item item_code)) (value_error "Unsupported trade-date DataItem")
    found ← catalog db item_code
    let definition =
        first (λ d. str_eq d.task_code (text_append item_code "_incremental")) db.definitions
    submit
        (trade_date_task draws found.0 found.1 definition trade_date run_type requested_by
          (text_or reason (text_append item_code " collection")))
        (trade_date_slices draws found.0 found.1 trade_date) db

  unfoldable pub enqueue_stock_daily : Draws → ℕ → String → String → String → Store → Enqueued
  enqueue_stock_daily draws trade_date run_type requested_by reason =
      enqueue_trade_date_item draws "stock_daily" trade_date run_type requested_by (some reason)

  -- datetime.isoformat of a time with whole seconds in Shanghai
  abbrev iso_time : ℕ → String
  iso_time t =
      text_append (iso_date (local_date t)) (text_append "T" (text_append (hms ":" t) "+08:00"))

  unfoldable pub enqueue_stock_minute :
      Draws → String → ℕ → ℕ → String → String → String → String → Store → Enqueued
  enqueue_stock_minute draws ts_code start_time end_time frequency run_type requested_by reason db =
      do
        found ← catalog db "stock_minute"
        let item = found.0
        let binding = found.1
        let scope = entry "type" (str "security") (entry "ts_code" (str ts_code) empty)
        let key =
            build_task_idempotency_key digest item.code binding.binding_code run_type scope
              (some (iso_time start_time)) (some (iso_time end_time)) (some frequency)
        submit
            (new_task draws item binding run_type scope (some start_time) (some end_time)
              (some frequency) 20 key requested_by reason)
            (λ t. do
              plan ←
                  plan_stock_minute_slice digest binding.binding_code binding.field_mapping_version
                    ts_code frequency start_time end_time
              ok (
                  of_plan (draws.slice_id 0) t (some start_time) (some end_time) (some ts_code)
                    (some frequency) plan
                  ∷ []))
            db

  unfoldable pub enqueue_financial_item :
      Draws → String → String → ℕ → ℕ → String → String → Option String → Store → Enqueued
  enqueue_financial_item draws item_code ts_code start_date end_date run_type requested_by reason
        db =
      do
        raise_if
            (not (str_eq item_code "financial_income" || str_eq item_code "financial_indicator"))
            (value_error "Unsupported financial DataItem")
        found ← catalog db item_code
        let item = found.0
        let binding = found.1
        let scope = entry "type" (str "security") (entry "ts_code" (str ts_code) empty)
        let frequency = text_or item.frequency "report"
        let key =
            build_task_idempotency_key digest item.code binding.binding_code run_type scope
              (some (iso_start start_date)) (some (iso_end end_date)) (some frequency)
        submit
            (new_task draws item binding run_type scope (some (day_start start_date))
              (some (day_end end_date)) (some frequency) 20 key requested_by
              (text_or reason (text_append item_code " sample collection")))
            (λ t. do
              plan ←
                  plan_financial_slice digest binding.binding_code binding.field_mapping_version
                    ts_code start_date end_date binding.api_name
              ok (
                  of_plan (draws.slice_id 0) t (some (day_start start_date))
                    (some (day_end end_date)) (some ts_code) (some frequency) plan
                  ∷ []))
            db

  unfoldable pub enqueue_trade_calendar :
      Draws → ℕ → ℕ → String → String → String → String → Store → Enqueued
  unfolding calendar_slices
  enqueue_trade_calendar draws start_date end_date exchange run_type requested_by reason db = do
    found ← catalog db "trade_calendar"
    let item = found.0
    let binding = found.1
    let scope = entry "type" (str "exchange") (entry "exchange" (str exchange) empty)
    let key =
        build_task_idempotency_key digest item.code binding.binding_code run_type scope
          (some (iso_start start_date)) (some (iso_end end_date)) (some "day")
    let priority = if str_eq run_type "BACKFILL" then 20 else 0
    submit
        (new_task draws item binding run_type scope (some (day_start start_date))
          (some (day_end end_date)) (some "day") priority key requested_by reason)
        (λ t. do
          plans ←
              plan_trade_calendar_slices digest exchange binding.binding_code
                binding.field_mapping_version start_date end_date
          ok (calendar_slices draws t exchange 0 plans))
        db
