-- ===== src/Collect/Executor.antt =====
-- app/collect/executor.py: CollectionExecutor. An execution works on the rows of one session; a write to the
-- attributes of a row that it holds is an UPDATE by primary key. What it reads from the clock and draws as
-- ids is given, and so is what the limiter has waited and what the provider answers.
pub mod Fields
pub mod Paging
pub mod Rows
pub mod Raw
pub mod Settle
pub mod Finalize
pub mod Ends
mod Examples
use Prim.Native.String.{◌++◌ as text_append}
use quant_stock.Base.{
  ℕ, zero, suc, ◌+◌, ◌/◌, max, Bool, true, false, ◌&&◌, not, String, Option, none, some, List, [],
  ◌∷◌, ◌++◌, ◌==◌, leb, ltb, str_eq, first, count, length, if◌then◌else◌,
}
use quant_stock.Base.Result.{Result, ok, err, runtime_error, require, ◌>>=◌}
use quant_stock.Base.Json.{Json, num, Dict, get_or, get_text, to_int}
use quant_stock.Base.Decimal.{show}
use quant_stock.Collect.Model.{
  CollectTask, RequestSlice, DataItem, SourceBinding, RunStatus, CollectRun, SliceAttempt, Store,
  get_task, get_slice, get_binding, get_item,
}
use quant_stock.Collect.Repository.{ClaimedSlice, complete_slice}
use quant_stock.Collect.Idempotency.{build_request_hash}
use quant_stock.Collect.Creation.{new_slice}
use quant_stock.Collect.MarketData.{is_trade_date_item}
use Fields.{item_fields}
use Paging.{number_or, is_offset, next_offset_page_params, is_continuation_page}
use Rows.{set_run, set_attempt, set_binding, get_or_create_run}
use Raw.{Writing, write_rows}
use Settle.{Failure, Held, handle_provider_failure}
use Finalize.{Closing, finalize_task_if_complete}

-- app/datasource/tushare.py, ProviderResult, or the failure of a ProviderRequestError
pub data Response : Type 0 where
  answered : List String → List Dict → String → Response
  refused : Failure → Response

-- what an execution reads from the clock and draws, and the microseconds that the limiter has waited
pub record Readings : Type 0 where
  pub run_at : ℕ
  pub attempt_at : ℕ
  pub settled_at : ℕ
  pub completed_at : ℕ
  pub waited : ℕ
  pub run_id : ℕ
  pub attempt_id : ℕ
  pub page_slice_id : ℕ
  pub writing : Writing
  pub closing : Closing

-- EXPECTED_NON_EMPTY_ITEMS
unfoldable pub is_expected_non_empty : String → Bool
is_expected_non_empty c = is_trade_date_item c && not (str_eq c "stock_suspend")

abbrev is_in : List String → String → Bool
is_in names name = ltb 0 (count (str_eq name) names)

-- [field for field in fields if field not in result.columns]
unfoldable pub missing_fields : List String → List String → List String
missing_fields columns [] = []
missing_fields columns (f ∷ fs) =
    let rest = missing_fields columns fs in if is_in columns f then rest else f ∷ rest

-- ",".join(missing)
unfoldable pub join : List String → String
join [] = ""
join (w ∷ []) = w
join (w ∷ v ∷ vs) = text_append w (text_append "," (join (v ∷ vs)))

-- str((binding.config or {}).get("pagination_mode", "")) or None
abbrev pub pagination_mode : SourceBinding → Option String
pagination_mode binding =
    let mode = get_text binding.config "pagination_mode" "" in
    if str_eq mode "" then none else some mode

abbrev new_attempt : Readings → RequestSlice → CollectRun → SourceBinding → SliceAttempt
new_attempt now s run binding = record {
  attempt_id = now.attempt_id;
  slice_id = s.slice_id;
  run_id = run.run_id;
  attempt_no = s.attempt_count;
  source_binding_id = binding.source_binding_id;
  request_hash = s.request_hash;
  started_at = now.attempt_at;
  finished_at = none;
  status = RunStatus.running;
  response_rows = none;
  error_type = none;
  error_message = none;
  rate_limit_wait_ms = now.waited / 1000;
}

-- the failures that the executor itself finds in an answer
abbrev pub schema_changed : List String → Failure
schema_changed missing = record {
  error_type = "SCHEMA_CHANGED";
  message = text_append "SCHEMA_CHANGED missing fields: " (join missing);
  retryable = false;
}

abbrev pub possible_truncation : ℕ → ℕ → Failure
possible_truncation rows most = record {
  error_type = "POSSIBLE_TRUNCATION";
  message =
      text_append "response_rows="
        (text_append (show rows) (text_append " reached max_rows_per_request=" (show most)));
  retryable = false;
}

abbrev pub source_empty : String → Failure
source_empty code = record {
  error_type = "SOURCE_EMPTY";
  message = text_append code " returned zero rows for scheduled trading day";
  retryable = true;
}

abbrev is_page : ℕ → String → RequestSlice → Bool
is_page task_id partition_key s = s.task_id == task_id && str_eq s.partition_key partition_key

-- what is noted on an answer that is written
unfoldable pub note_success : Readings → Held → ℕ → String → Store → Store
note_success now held rows schema_fingerprint db =
    let at = some now.settled_at in
    set_binding held.binding.source_binding_id
      (λ b. record b {
        last_success_at = at;
        capability_status = "available";
        schema_fingerprint = some schema_fingerprint;
      })
      (set_run held.run.run_id
        (λ r. record r {
          request_count = r.request_count + 1;
          row_count = r.row_count + rows;
          heartbeat_at = at;
        })
        (set_attempt held.attempt_id
          (λ a. record a {
            status = RunStatus.succeeded;
            response_rows = some rows;
            finished_at = at;
          })
          db))

module _ (digest : Json → String) where
  unfoldable pub ensure_next_page_slice :
      ℕ → CollectTask → RequestSlice → SourceBinding → Dict → Store → Result Store
  ensure_next_page_slice page_slice_id t s binding request_params db = do
    offset ← to_int (get_or request_params "offset" (num 0))
    let partition_key = text_append "trade_date:" (
        text_append (get_text request_params "trade_date" "None")
          (text_append ":offset:" (show offset)))
    (if not (count (is_page t.task_id partition_key) db.slices == 0) then ok db else (do
      page_size ←
          to_int (get_or request_params "limit" (num (number_or binding.max_rows_per_request 1)))
      let hash =
          build_request_hash digest binding.binding_code binding.api_name request_params
            binding.field_mapping_version
      let page =
          new_slice page_slice_id t partition_key
            (max (s.slice_order + 1) (offset / max page_size 1)) request_params hash s.time_start
            s.time_end s.object_key s.frequency
      ok (record db { slices = db.slices ++ record page { priority = s.priority } ∷ [] })))

  -- `if next_page_params is not None`
  abbrev ensure_page :
      ℕ → CollectTask → RequestSlice → SourceBinding → Option Dict → Store → Result Store
  ensure_page page_slice_id t s binding none db = ok db
  ensure_page page_slice_id t s binding (some params) db =
      ensure_next_page_slice page_slice_id t s binding params db

  -- the answer is written, and the slice completed
  unfoldable pub accept :
      Readings
      → Held
      → RequestSlice
      → DataItem
      → Option Dict
      → List Dict
      → String
      → Store
      → Result Store
  accept now held s item next rows schema_fingerprint db = do
    stored ← write_rows digest now.writing item.code held.run s held.binding rows db
    paged ← ensure_page now.page_slice_id held.task s held.binding next stored
    let noted = note_success now held (length rows) schema_fingerprint paged
    let completed =
        (complete_slice now.completed_at held.claimed.slice_id held.claimed.lease_token
          (length rows) noted).1
    finalize_task_if_complete digest now.closing held.task held.run.run_id held.binding item
        completed

  -- the checks of an answer, in the code's order
  unfoldable pub settle :
      Readings → Held → RequestSlice → DataItem → List String → Response → Store → Result Store
  settle now held s item fields (refused failure) db =
      handle_provider_failure now.settled_at held failure s.attempt_count db
  settle now held s item fields (answered columns rows schema_fingerprint) db =
      let missing = missing_fields columns fields in
      let mode = pagination_mode held.binding in
      let most = number_or held.binding.max_rows_per_request 0 in
      let fail : Failure → Result Store =
        λ failure. handle_provider_failure now.settled_at held failure s.attempt_count db in
      if not (length missing == 0) then fail (schema_changed missing) else (do
        next ←
            next_offset_page_params s.request_params (length rows) held.binding.max_rows_per_request
              mode
        (if ltb 0 most && leb most (length rows) && not (is_offset mode)
            then fail (possible_truncation (length rows) most)
            else if is_expected_non_empty item.code && length rows == 0
            then (do
              continues ← is_continuation_page s.request_params mode
              (if continues
                  then accept now held s item next rows schema_fingerprint db
                  else fail (source_empty item.code)))
            else accept now held s item next rows schema_fingerprint db))

  unfoldable pub execute_claimed_slice :
      Readings
      → (String → Dict → List String → Response)
      → ClaimedSlice
      → String
      → Store
      → Result Store
  execute_claimed_slice now query claimed worker_id db = do
    s ← require (get_slice db claimed.slice_id) (runtime_error "RequestSlice not found")
    t ← require (get_task db claimed.task_id) (runtime_error "CollectTask not found")
    binding ←
        require (get_binding db t.source_binding_id)
          (runtime_error "Task catalog references are missing")
    item ←
        require (get_item db t.data_item_id) (runtime_error "Task catalog references are missing")
    fields ←
        require (item_fields item.code)
          (runtime_error "Unsupported DataItem in collection executor")
    let opened = get_or_create_run now.run_at now.run_id t worker_id db
    let attempt = new_attempt now s opened.0 binding
    let held : Held = record {
      claimed = claimed;
      task = opened.1;
      run = opened.0;
      attempt_id = now.attempt_id;
      binding = binding;
    }
    let running = record opened.2 { attempts = opened.2.attempts ++ attempt ∷ [] }
    settle now held s item fields (query binding.api_name s.request_params fields) running
