-- ===== src/Collect/Scheduler.antt =====
-- app/collect/scheduler.py: the scan that enqueues what is due on the open days of the trade calendar.
pub mod Dates
pub mod Exact
pub mod Candidates
mod Examples
use Prim.Native.String.{◌++◌ as text_append}
use quant_stock.Base.{
  ℕ, suc, ◌+◌, ◌-◌, ◌*◌, Bool, true, false, ◌&&◌, ◌||◌, not, String, Option, none, some, List, [],
  ◌∷◌, ◌++◌, ◌==◌, ltb, str_eq, first, select, sort, if◌then◌else◌,
}
use quant_stock.Base.Result.{Result, ok, err, require, ◌>>=◌}
use quant_stock.Base.Json.{Json, num, str, Dict, get, get_default, to_int}
use quant_stock.Base.TextOrder.{text_before}
use quant_stock.Base.Calendar.{local_date, local_time, ymd}
use quant_stock.Collect.Model.{DataItem, DataWatermark, TaskDefinition, RawRow, Store, get_item}
use quant_stock.Collect.Creation.{text_or}
use quant_stock.Collect.MarketData.{Draws, is_trade_date_item, enqueue_trade_date_item}
use Dates.{open_dates, parse_dates, parse_hhmm}

-- current.date() - timedelta(days=max(0, delay_days))
unfoldable pub due_through_date : ℕ → Dict → Result ℕ
due_through_date current availability_rule = do
  delay_days ← to_int (get_default availability_rule "delay_days" (num 0))
  ok (local_date current - delay_days)

-- strftime("%Y%m%d"), of a date that may be None
abbrev pub ymd_of : Option ℕ → Option String
ymd_of none = none
ymd_of (some d) = some (ymd d)

-- _open_trade_dates
unfoldable pub open_trade_dates : Store → Option ℕ → ℕ → Result (List ℕ)
open_trade_dates db after through =
    parse_dates (open_dates (ymd_of after) (ymd through) db.raw_rows)

-- the day of the latest collection, if the watermark is there
collected_day : Option DataWatermark → Option ℕ
collected_day none = none
collected_day (some w) = elim w.latest_collected_at [ none ↦ none | some t ↦ some (local_date t) ]

-- candidates[-1:]
unfoldable pub last_one {ℓ} : {A : Type ℓ} → List A → List A
last_one [] = []
last_one (d ∷ []) = d ∷ []
last_one (d ∷ e ∷ es) = last_one (e ∷ es)

-- First bootstrap: only the latest date that is due.
unfoldable pub candidates_of : Option ℕ → List ℕ → List ℕ
unfolding last_one
candidates_of none dates = last_one dates
candidates_of (some d) dates = dates

-- what a part of the scan returns: the ids of the tasks that it has created, and the database
abbrev pub Scanned : Type 0
Scanned = Result (List ℕ × Store)

-- the draws of the calls, and the digest of their keys
module _ (digest : Json → String) (draws : ℕ → ℕ → Draws) where
  -- for business_date in candidates
  unfoldable pub enqueue_dates : ℕ → ℕ → ℕ → String → List ℕ → Store → Scanned
  enqueue_dates current available_after definition_id item_code [] db = ok ([], db)
  enqueue_dates current available_after definition_id item_code (day ∷ days) db =
      if day == local_date current && ltb (local_time current) available_after
      then enqueue_dates current available_after definition_id item_code days db
      else (do
        r ←
            enqueue_trade_date_item digest (draws definition_id day) item_code day "INCREMENTAL"
              "scheduler" (some (text_append "automatic " (text_append item_code " increment"))) db
        rest ← enqueue_dates current available_after definition_id item_code days r.2
        ok ((if r.1 then r.0.task_id ∷ rest.0 else rest.0), rest.1))

  schedule_item : ℕ → TaskDefinition → DataItem → Store → Scanned
  unfolding collected_day candidates_of last_one
  schedule_item current definition item db = do
    through ← due_through_date current definition.availability_rule
    let watermark =
        first
          (λ (w : DataWatermark).
            w.data_item_id == item.data_item_id
            && str_eq w.scope_key "GLOBAL"
            && str_eq w.frequency (text_or item.frequency "day"))
          db.watermarks
    let after = collected_day watermark
    dates ← open_trade_dates db after through
    available_after ← parse_hhmm (get definition.availability_rule "available_after")
    enqueue_dates current available_after definition.task_definition_id item.code
        (candidates_of after dates) db

  of_item : ℕ → TaskDefinition → Option DataItem → Store → Scanned
  of_item current definition none db = ok ([], db)
  of_item current definition (some item) db =
      if is_trade_date_item item.code then schedule_item current definition item db else ok ([], db)

  -- _schedule_definition; SUPPORTED_INCREMENTAL_ITEMS are the items of a trade date
  unfoldable pub schedule_definition : ℕ → TaskDefinition → Store → Scanned
  unfolding of_item schedule_item candidates_of last_one collected_day
  schedule_definition current definition db =
      of_item current definition (get_item db definition.data_item_id) db

  -- ORDER BY priority ASC, task_code ASC
  definition_before : TaskDefinition → TaskDefinition → Bool
  definition_before a b =
      ltb a.priority b.priority || a.priority == b.priority && text_before a.task_code b.task_code

  is_trading_day : TaskDefinition → Bool
  is_trading_day d =
      d.enabled && (elim d.update_mode [ none ↦ false | some mode ↦ str_eq mode "trading_day" ])

  scan : ℕ → List TaskDefinition → Store → Scanned
  scan current [] db = ok ([], db)
  scan current (d ∷ ds) db = do
    created ← schedule_definition current d db
    rest ← scan current ds created.1
    ok (created.0 ++ rest.0, rest.1)

  -- schedule_once: the scan of the scheduler that holds the lock. The state that it records of itself is left out.
  unfoldable pub schedule_once : ℕ → Bool → Store → Scanned
  unfolding scan is_trading_day definition_before
  schedule_once current is_leader db =
      if is_leader
      then scan current (sort definition_before (select is_trading_day db.definitions)) db
      else ok ([], db)
