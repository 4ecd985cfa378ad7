-- ===== src/Governance/Tasks/Latest.antt =====
-- app/governance/tasks.py, enqueue_clean_latest: an operator cleans the latest collection again.
use quant_stock.Base.{
  ℕ, Bool, true, false, ◌&&◌, ◌||◌, not, String, Option, none, some, List, ◌==◌, ltb, leb, str_eq,
  first, select, best, count, is_none, if◌then◌else◌,
}
use quant_stock.Base.Result.{
  Result, ok, err, value_error, runtime_error, raise_if, require, ◌>>=◌, ◌>>◌,
}
use quant_stock.Base.Json.{Json, str, get}
use quant_stock.Base.Calendar.{day_start, day_end}
use quant_stock.Collect.Model.{
  CollectTask, DataItem, CleanBatch, BatchStatus, RunStatus, CollectRun, RawBatch, RawRow, Store,
}
use quant_stock.Governance.Tasks.{
  is_p4_item, is_p4_trade_date_item, is_succeeded, mapping_version, normalization_version,
  quality_rule_version, scope_for_source_task, enqueue_clean_for_collect_task,
  enqueue_quality_for_clean_batch,
}

-- EXISTS (SELECT 1 FROM ... WHERE ...)
abbrev exists_in : {A : Type 0} → (A → Bool) → List A → Bool
exists_in p xs = ltb 0 (count p xs)

run_succeeded : RunStatus → Bool
run_succeeded RunStatus.succeeded = true
run_succeeded _ = false

-- _has_physical_raw, over the joined tables
unfoldable pub has_physical_raw : Store → String → CollectTask → Bool
unfolding run_succeeded
has_physical_raw db item_code t =
    exists_in
      (λ (run : CollectRun).
        run.task_id == t.task_id
        && exists_in
            (λ (batch : RawBatch).
              batch.run_id == run.run_id
              && run_succeeded batch.status
              && exists_in
                  (λ (row : RawRow).
                    str_eq row.item_code item_code && row.raw_batch_id == batch.raw_batch_id)
                  db.raw_rows)
            db.raw_batches)
      db.collect_runs

-- t >= start AND t <= end on a nullable column
on_day : ℕ → Option ℕ → Bool
on_day day none = false
on_day day (some t) = leb (day_start day) t && leb t (day_end day)

text_is : Option Json → String → Bool
text_is (some (str s)) w = str_eq s w
text_is _ w = false

frequency_is : Option String → String → Bool
frequency_is none w = false
frequency_is (some s) w = str_eq s w

-- the part of the WHERE clause that depends on the item
unfoldable pub day_clause :
    String → Option ℕ → Option String → Option String → Result (CollectTask → Bool)
unfolding on_day text_is frequency_is
day_clause item_code trade_date security_code frequency =
    if is_p4_trade_date_item item_code
    then (do
      day ← require trade_date (value_error "trade_date is required")
      ok (λ t. on_day day t.time_start))
    else if str_eq item_code "stock_minute"
    then (do
      day ←
          require trade_date
            (value_error "trade_date, security_code and frequency are required for stock_minute")
      code ←
          require security_code
            (value_error "trade_date, security_code and frequency are required for stock_minute")
      f ←
          require frequency
            (value_error "trade_date, security_code and frequency are required for stock_minute")
      ok (λ t.
          on_day day t.time_start
          && frequency_is t.frequency f
          && text_is (get t.object_scope "ts_code") code))
    else ok (λ t. true)

unfoldable pub is_source_task : Store → DataItem → (CollectTask → Bool) → CollectTask → Bool
unfolding has_physical_raw
is_source_task db item clause t =
    t.data_item_id == item.data_item_id
    && is_succeeded t.status
    && is_none (get t.object_scope "stage")
    && (str_eq item.code "stock_suspend" || has_physical_raw db item.code t)
    && clause t

-- ORDER BY finished_at DESC: the rows that have none come first
later_finish : Option ℕ → Option ℕ → Bool
later_finish none none = false
later_finish none (some t) = true
later_finish (some s) none = false
later_finish (some s) (some t) = ltb t s

unfoldable pub latest_task : Store → DataItem → (CollectTask → Bool) → Option CollectTask
unfolding later_finish
latest_task db item clause =
    best (λ (a b : CollectTask). later_finish a.finished_at b.finished_at)
      (select (is_source_task db item clause) db.tasks)

-- existing_batch.status in {"CANDIDATE", "VALIDATING", "BLOCKED"}
is_unpublished : BatchStatus → Bool
is_unpublished BatchStatus.candidate = true
is_unpublished BatchStatus.validating = true
is_unpublished BatchStatus.blocked = true
is_unpublished _ = false

is_batch_of : DataItem → String → CollectTask → CleanBatch → Bool
is_batch_of item scope_key source b =
    b.data_item_id == item.data_item_id
    && str_eq b.scope_key scope_key
    && str_eq b.mapping_version mapping_version
    && str_eq b.normalization_version normalization_version
    && b.source_task_id == source.task_id

unfoldable pub existing_batch : Store → DataItem → String → CollectTask → Option CleanBatch
unfolding is_batch_of
existing_batch db item scope_key source =
    best (λ (a b : CleanBatch). ltb b.created_at a.created_at)
      (select (is_batch_of item scope_key source) db.clean_batches)

needs_recheck : Option CleanBatch → Option CleanBatch
unfolding is_unpublished
needs_recheck none = none
needs_recheck (some b) =
    if is_unpublished b.status && not (str_eq b.quality_rule_version quality_rule_version)
    then some b
    else none

module _ (digest : Json → String) (task_id slice_id check_id check_slice_id : ℕ) where
  recheck :
      CollectTask → Bool → Option CleanBatch → String → Store → Result (CollectTask × Bool × Store)
  recheck clean_task created none requested_by db = ok (clean_task, created, db)
  recheck clean_task created (some b) requested_by db = do
    checked ←
        enqueue_quality_for_clean_batch digest check_id check_slice_id clean_task b requested_by
          "quality rerun after rule version change: quality-v4" db
    ok (clean_task, created, checked.2)

  -- what happens once the clean task is there
  follow_up :
      DataItem
      → CollectTask
      → String
      → Option (CollectTask × Bool) × Store
      → Result (CollectTask × Bool × Store)
  unfolding needs_recheck recheck
  follow_up item source requested_by (none, db) = err (runtime_error "unsupported P4 item")
  follow_up item source requested_by (some (clean_task, created), db) =
      if not created && is_succeeded clean_task.status
      then (do
        scope ← scope_for_source_task item.code source
        recheck clean_task created (needs_recheck (existing_batch db item scope.0 source))
            requested_by db)
      else ok (clean_task, created, db)

  unfoldable pub enqueue_clean_latest :
      String
      → Option ℕ
      → Option String
      → Option String
      → String
      → String
      → Store
      → Result (CollectTask × Bool × Store)
  unfolding follow_up
  enqueue_clean_latest item_code trade_date security_code frequency requested_by reason db = do
    raise_if (not (is_p4_item item_code)) (value_error "P4 clean is not implemented")
    item ←
        require (first (λ i. str_eq i.code item_code) db.items) (runtime_error "DataItem missing")
    clause ← day_clause item_code trade_date security_code frequency
    source ← require (latest_task db item clause) (value_error "no SUCCEEDED collection task found")
    result ← enqueue_clean_for_collect_task digest task_id slice_id source requested_by reason db
    follow_up item source requested_by result
