-- ===== src/Collect/Executor/Finalize.antt =====
-- app/collect/executor.py, _finalize_task_if_complete: the end of a task, its watermark, and the cleaning of
-- what it has collected.
pub mod Watermarks
use quant_stock.Base.{
  ℕ, min, max, Bool, true, false, ◌&&◌, ◌||◌, not, String, Option, none, some, List, [], ◌∷◌, ◌++◌,
  ◌==◌, str_eq, count, update, if◌then◌else◌,
}
use quant_stock.Base.Result.{Result, ok, err, ◌>>=◌}
use quant_stock.Base.Json.{Json, Dict, get_text}
use quant_stock.Collect.StateMachine.{TaskStatus, SliceStatus}
use quant_stock.Collect.Model.{
  CollectTask, RequestSlice, SourceBinding, DataItem, RunStatus, CollectRun, DataWatermark, Store,
  set_task,
}
use quant_stock.Collect.MarketData.{is_trade_date_item}
use quant_stock.Collect.Creation.{text_or}
use quant_stock.Collect.Executor.Rows.{set_run, time_or}
use quant_stock.Governance.Tasks.{enqueue_clean_for_collect_task}

-- status in ("SUCCEEDED", "SPLIT", "CANCELLED")
abbrev pub is_done : SliceStatus → Bool
is_done SliceStatus.succeeded = true
is_done SliceStatus.split = true
is_done SliceStatus.cancelled = true
is_done _ = false

abbrev pub is_remaining : ℕ → RequestSlice → Bool
is_remaining task_id s = s.task_id == task_id && not (is_done s.status)

abbrev pub is_cancelled : TaskStatus → Bool
is_cancelled TaskStatus.cancelled = true
is_cancelled _ = false

-- scope_key, frequency and collected_at
pub record Mark : Type 0 where
  pub scope_key : String
  pub frequency : String
  pub collected_at : Option ℕ

unfoldable pub mark_of : ℕ → DataItem → CollectTask → Mark
mark_of now item t =
    if str_eq item.code "trade_calendar"
    then record {
      scope_key = get_text t.object_scope "exchange" "SSE";
      frequency = "day";
      collected_at = t.time_end;
    }
    else if is_trade_date_item item.code
    then record {
      scope_key = "GLOBAL";
      frequency = text_or item.frequency "day";
      collected_at = t.time_end;
    }
    else if str_eq item.code "stock_minute"
    then record {
      scope_key = get_text t.object_scope "ts_code" "UNKNOWN";
      frequency = text_or t.frequency "1min";
      collected_at = time_or t.time_end now;
    }
    else if str_eq item.code "financial_income" || str_eq item.code "financial_indicator"
    then record {
      scope_key = get_text t.object_scope "ts_code" "UNKNOWN";
      frequency = text_or item.frequency "report";
      collected_at = time_or t.time_end now;
    }
    else record { scope_key = "GLOBAL"; frequency = ""; collected_at = some now }

abbrev pub is_mark : ℕ → Mark → DataWatermark → Bool
is_mark data_item_id m w =
    w.data_item_id == data_item_id
    && str_eq w.scope_key m.scope_key
    && str_eq w.frequency m.frequency

-- the bound moved by an instant of the task, if it has one
unfoldable pub move : (ℕ → ℕ → ℕ) → Option ℕ → Option ℕ → Option ℕ
move f bound none = bound
move f none (some t) = some t
move f (some b) (some t) = some (f b t)

unfoldable pub mark_row : ℕ → Mark → CollectTask → DataWatermark → DataWatermark
mark_row now m t w = record w {
  initialized_from = move min w.initialized_from t.time_start;
  initialized_to = move max w.initialized_to t.time_end;
  latest_collected_at = time_or m.collected_at now;
  expected_at = t.expected_business_time;
}

abbrev pub new_mark : Mark → CollectTask → SourceBinding → DataWatermark
new_mark m t binding = record {
  data_item_id = t.data_item_id;
  source_binding_id = some binding.source_binding_id;
  scope_key = m.scope_key;
  frequency = m.frequency;
  initialized_from = none;
  initialized_to = none;
  latest_collected_at = none;
  expected_at = none;
}

-- the watermark is there, or added, and then moved
unfoldable pub move_watermark :
    ℕ → Mark → CollectTask → SourceBinding → List DataWatermark → List DataWatermark
move_watermark now m t binding rows =
    let there =
      if count (is_mark t.data_item_id m) rows == 0
      then rows ++ new_mark m t binding ∷ []
      else rows in
    update (is_mark t.data_item_id m) (mark_row now m t) there

abbrev pub succeed : ℕ → CollectTask → CollectTask
succeed now t = record t {
  status = TaskStatus.succeeded;
  finished_at = some now;
  last_error_type = none;
  last_error_message = none;
}

-- the instant that it reads, and the ids of the task and the slice that clean
pub record Closing : Type 0 where
  pub finalized_at : ℕ
  pub clean_task_id : ℕ
  pub clean_slice_id : ℕ

-- what is written once every slice is done
unfoldable pub close_task : ℕ → CollectTask → ℕ → SourceBinding → DataItem → Store → Store
close_task now t run_id binding item db =
    let closed =
      set_run run_id
        (λ r. record r {
          status = RunStatus.succeeded;
          finished_at = some now;
          heartbeat_at = some now;
          error_type = none;
          error_message = none;
        })
        (set_task t.task_id (succeed now) db) in
    record closed {
      watermarks = move_watermark now (mark_of now item t) t binding closed.watermarks;
    }

unfoldable pub finalize_task_if_complete :
    (Json → String) → Closing → CollectTask → ℕ → SourceBinding → DataItem → Store → Result Store
finalize_task_if_complete digest c t run_id binding item db =
    let now = c.finalized_at in
    if is_cancelled t.status
    then ok (
        set_run run_id
          (λ r. record r {
            status = RunStatus.cancelled;
            finished_at = some now;
            heartbeat_at = some now;
          })
          db)
    else if not (count (is_remaining t.task_id) db.slices == 0) || not t.planning_complete
    then ok db
    else (do
      cleaned ←
          enqueue_clean_for_collect_task digest c.clean_task_id c.clean_slice_id (succeed now t)
            "system" "automatic P4 clean after collection" (close_task now t run_id binding item db)
      ok cleaned.1)
