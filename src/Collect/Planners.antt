-- ===== src/Collect/Planners.antt =====
-- app/collect/planners: the slices of a task. `digest` hashes canonical JSON (Collect/Idempotency).
-- `of_plan` of the caller gives a plan its task; ids and instants are drawn there.
pub mod TradeCalendar
use Prim.Native.String.{◌++◌}
use quant_stock.Base.{
  ℕ, suc, Bool, true, false, ◌||◌, not, String, Option, none, some, List, [], ◌∷◌, leb, ltb, str_eq,
  ◌+◌, ◌==◌, if◌then◌else◌,
}
use quant_stock.Base.Result.{Result, ok, err, value_error, raise_if, ◌>>◌}
use quant_stock.Base.Json.{Json, str, num, Dict, empty, entry}
use quant_stock.Base.Calendar.{ymd, iso_date, local_date, hms}
use quant_stock.Collect.Idempotency.{build_request_hash}

-- StockBasicSlicePlan, TradeDateSlicePlan and the PlannedSlice of two planners
pub record PlannedSlice : Type 0 where
  pub partition_key : String
  pub slice_order : ℕ
  pub request_params : Dict
  pub request_hash : String

module _ (digest : Json → String) (source_binding_code mapping_version : String) where
  -- one iteration over LIST_STATUSES
  abbrev status_plan : ℕ → String → PlannedSlice
  status_plan order status =
      let params = entry "exchange" (str "") (entry "list_status" (str status) empty) in
      record {
        partition_key = "list_status:" ++ status;
        slice_order = order;
        request_params = params;
        request_hash =
            build_request_hash digest source_binding_code "stock_basic" params mapping_version;
      }

  unfoldable pub plan_stock_basic_slices : List PlannedSlice
  plan_stock_basic_slices =
      status_plan 0 "L" ∷ status_plan 1 "D" ∷ status_plan 2 "P" ∷ status_plan 3 "G" ∷ []

  trade_date_plan : String → String → Dict → String → PlannedSlice
  trade_date_plan api_name partition_key params mapping = record {
    partition_key = partition_key;
    slice_order = 0;
    request_params = params;
    request_hash = build_request_hash digest source_binding_code api_name params mapping;
  }

  unfoldable pub plan_trade_date_slice : ℕ → String → Option ℕ → Result PlannedSlice
  unfolding trade_date_plan
  plan_trade_date_slice trade_date api_name none = ok (
      trade_date_plan api_name ("trade_date:" ++ ymd trade_date)
        (entry "trade_date" (str (ymd trade_date)) empty) mapping_version)
  plan_trade_date_slice trade_date api_name (some page_size) = do
    raise_if (leb page_size 0) (value_error "page_size must be positive")
    ok (
        trade_date_plan api_name ("trade_date:" ++ (ymd trade_date ++ ":offset:0"))
          (entry "trade_date" (str (ymd trade_date))
            (entry "limit" (num page_size) (entry "offset" (num 0) empty)))
          mapping_version)

  -- strftime("%Y-%m-%d %H:%M:%S") and strftime("%Y%m%dT%H%M%S"), in the zone of Shanghai
  abbrev spaced_time : ℕ → String
  spaced_time t = iso_date (local_date t) ++ (" " ++ hms ":" t)

  abbrev compact_time : ℕ → String
  compact_time t = ymd (local_date t) ++ ("T" ++ hms "" t)

  abbrev is_minute_frequency : String → Bool
  is_minute_frequency f =
      str_eq f "1min" || str_eq f "5min" || str_eq f "15min" || str_eq f "30min" || str_eq f "60min"

  unfoldable pub plan_stock_minute_slice : String → String → ℕ → ℕ → Result PlannedSlice
  plan_stock_minute_slice ts_code frequency start_time end_time = do
    raise_if (leb end_time start_time) (value_error "minute end_time must be after start_time")
    raise_if (not (is_minute_frequency frequency)) (value_error "unsupported minute frequency")
    let params = entry "ts_code" (str ts_code) (
        entry "freq" (str frequency) (
          entry "start_date" (str (spaced_time start_time))
            (entry "end_date" (str (spaced_time end_time)) empty)))
    ok (record {
      partition_key =
          ts_code
          ++ (":"
              ++ (frequency
                  ++ (":" ++ (compact_time start_time ++ (":" ++ compact_time end_time)))));
      slice_order = 0;
      request_params = params;
      request_hash =
          build_request_hash digest source_binding_code "stk_mins" params mapping_version;
    })

  unfoldable pub plan_financial_slice : String → ℕ → ℕ → String → Result PlannedSlice
  plan_financial_slice ts_code start_date end_date api_name = do
    raise_if (ltb end_date start_date)
        (value_error "financial end_date must not be before start_date")
    let params =
        entry "ts_code" (str ts_code)
          (entry "start_date" (str (ymd start_date)) (entry "end_date" (str (ymd end_date)) empty))
    ok (record {
      partition_key = ts_code ++ (":" ++ (ymd start_date ++ (":" ++ ymd end_date)));
      slice_order = 0;
      request_params = params;
      request_hash = build_request_hash digest source_binding_code api_name params mapping_version;
    })
