-- ===== src/Collect/Scheduler/Examples.antt =====
-- The open days of a small calendar, and a registry of one worker.
use quant_stock.Base.{◌≡◌, ◌↔◌, refl, String, none, some, List, [], ◌∷◌, sort, place, count, In}
use quant_stock.Base.Result.{ok}
use quant_stock.Base.Json.{str, empty, entry, get}
use quant_stock.Base.Text.{prefix}
use quant_stock.Base.Decimal.{read, show, show_from}
use quant_stock.Base.Calendar.{days_before_month, is_leap, ymd, civil}
use quant_stock.Base.TextOrder.{text_before}
use quant_stock.Collect.Model.{RawRow, Store}
use quant_stock.Collect.Samples.{queue}
use quant_stock.Collect.Scheduler.Dates.{
  open_dates, open_date, window_dates, distinct, parse_date, parse_dates, parse_hhmm, day_number,
  split_colon, without_prefix,
}
use quant_stock.Collect.Scheduler.{open_trade_dates, candidates_of}
use quant_stock.Collect.Scheduler.Candidates.{IsCandidate, candidates_of_exact}
use quant_stock.Collect.Worker.Registry.{
  Host, nobody, registers, register_worker, recover_lost_workers, recover_lost_workers_idle,
}

abbrev day : String → String → RawRow
day date is_open = record {
  item_code = "trade_calendar";
  source = "tushare";
  source_api = "trade_cal";
  collect_run_id = 1;
  raw_batch_id = 2;
  fetched_at = 3;
  request_hash = "h";
  content_hash = date;
  schema_version = "v1";
  business =
      entry "exchange" (str "SSE")
        (entry "cal_date" (str date) (entry "is_open" (str is_open) empty));
}

abbrev calendar : List RawRow
calendar =
    day "20240108" "1"
    ∷ day "20240106" "0"
    ∷ day "20240105" "1"
    ∷ day "20240105" "1"
    ∷ day "20240104" "1"
    ∷ []

open_days : open_dates (some "20240104") "20240107" calendar ≡ "20240105" ∷ []
unfolding open_dates open_date window_dates distinct sort place text_before count get
open_days = refl

date_is_parsed : parse_date "20240105" ≡ ok 19727
unfolding parse_date day_number without_prefix read prefix days_before_month is_leap
date_is_parsed = refl

time_is_parsed : parse_hhmm (some (str "18:30")) ≡ ok 66_600_000_000
unfolding parse_hhmm split_colon read
time_is_parsed = refl

-- the database of the calendar
abbrev collected : Store
collected = record queue { raw_rows = calendar }

days_are_read : open_trade_dates collected none 19729 ≡ ok (19726 ∷ 19727 ∷ [])
unfolding open_trade_dates open_dates open_date window_dates distinct sort place text_before count
    get parse_dates parse_date day_number without_prefix read prefix days_before_month is_leap ymd
    civil show show_from
days_are_read = refl

-- the latest of the two days, as there is no watermark
candidates_of_exact_example :
    In 19727 (candidates_of none (19726 ∷ 19727 ∷ [])) ↔ IsCandidate collected none 19729 19727
candidates_of_exact_example = candidates_of_exact collected none 19729 days_are_read 19727

abbrev host : Host
host = record {
  worker_id = "w1";
  environment = "dev";
  hostname = "h";
  process_id = 1;
  version = "1";
}

recover_lost_workers_idle_example :
    recover_lost_workers 900_000_000 "lost" 60 (register_worker 1 host [])
    ≡ ([], register_worker 1 host [])
recover_lost_workers_idle_example =
    recover_lost_workers_idle 900_000_000 "lost" 60 (registers 1 host nobody)
