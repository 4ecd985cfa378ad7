-- ===== src/Collect/Planners/TradeCalendar.antt =====
-- app/collect/planners/trade_calendar.py: a range of days, cut at the ends of the years.
pub mod Cover
use Prim.Native.String.{◌++◌}
use quant_stock.Base.{ℕ, zero, suc, ◌+◌, ◌-◌, min, String, List, [], ◌∷◌, leb, ltb, if◌then◌else◌}
use quant_stock.Base.Result.{Result, ok, err, value_error, raise_if, ◌>>◌}
use quant_stock.Base.Json.{Json, str, Dict, empty, entry}
use quant_stock.Base.Calendar.{ymd, year_end}
use quant_stock.Collect.Idempotency.{build_request_hash}

pub record TradeCalendarSlicePlan : Type 0 where
  pub partition_key : String
  pub slice_order : ℕ
  pub start_date : ℕ
  pub end_date : ℕ
  pub request_params : Dict
  pub request_hash : String

module _ (digest : Json → String) (exchange source_binding_code mapping_version : String) where
  -- the plan that one turn of the loop appends
  unfoldable pub slice_plan : ℕ → ℕ → ℕ → TradeCalendarSlicePlan
  slice_plan order cursor slice_end =
      let params =
        entry "exchange" (str exchange)
          (entry "start_date" (str (ymd cursor)) (entry "end_date" (str (ymd slice_end)) empty)) in
      record {
        partition_key = exchange ++ (":" ++ (ymd cursor ++ (":" ++ ymd slice_end)));
        slice_order = order;
        start_date = cursor;
        end_date = slice_end;
        request_params = params;
        request_hash =
            build_request_hash digest source_binding_code "trade_cal" params mapping_version;
      }

  -- while cursor <= end_date
  unfoldable pub plan_from : ℕ → ℕ → ℕ → ℕ → List TradeCalendarSlicePlan
  plan_from zero cursor order end_date = []
  plan_from (suc fuel) cursor order end_date =
      let slice_end = min end_date (year_end cursor) in
      let rest = plan_from fuel (slice_end + 1) (order + 1) end_date in
      if leb cursor end_date then slice_plan order cursor slice_end ∷ rest else []

  -- fuel for each day of the range
  unfoldable pub plan_trade_calendar_slices : ℕ → ℕ → Result (List TradeCalendarSlicePlan)
  plan_trade_calendar_slices start_date end_date = do
    raise_if (ltb end_date start_date) (value_error "end_date must be on or after start_date")
    ok (plan_from ((end_date + 1) - start_date) start_date 0 end_date)
