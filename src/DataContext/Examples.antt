-- ===== src/DataContext/Examples.antt =====
-- The theorems about the data context at a small market of two codes.
use quant_stock.Base.{
  ◌≡◌, ◌⊎◌, refl, ℕ, Bool, true, false, String, none, some, List, [], ◌∷◌, str_eq, if◌then◌else◌,
  sort, place, select,
}
use quant_stock.Base.Result.{ok, attribute_error, programming_error}
use quant_stock.DataContext.Query.{
  Frequency, TimeMode, QualityPolicy, AdjustmentMethod, SecurityScope, QueryContext, naive, aware,
  contains, is_full_market, quality_policy_allowed_statuses,
}
use quant_stock.DataContext.Cutoff.{resolve_cutoff, CutoffOutcome, resolve_cutoff_exact}
use quant_stock.DataContext.Readers.{
  DailyRow, MinuteRow, FinancialRow, SuspendRow, read_daily, daily_visible, read_minute,
  read_financial, read_events,
}
use quant_stock.DataContext.Readers.Answer.{Answer}
use quant_stock.DataContext.Readers.Gate.{build_quality_clause, resolve_security_codes}
use quant_stock.DataContext.Readers.Exact.{DailySeen, read_daily_exact}
use quant_stock.DataContext.Readers.Refused.{
  Refused, OfMarket, IsUnsupported, read_minute-Refused, read_financial-Refused,
}
use quant_stock.DataContext.Readers.Events.{EventAnswer, read_events_exact}

-- an order on the two codes of the samples
abbrev a_first : String → String → Bool
a_first c d = if str_eq c "A" then str_eq d "B" else false

abbrev pool : SecurityScope
pool = record { mode = "pool"; codes = some ("A" ∷ "B" ∷ []) }

abbrev query : QueryContext
query = record {
  security_scope = pool;
  frequency = Frequency.minute_5;
  start_date = some 10;
  end_date = none;
  start_time = none;
  end_time = some 900;
  as_of_time = some (aware 500);
  available_at_cutoff = none;
  time_mode = TimeMode.backtest;
  adjustment_method = AdjustmentMethod.unadjusted;
  quality_policy = QualityPolicy.standard;
  report_type = "income";
  revision_version = none;
  event_type = none;
}

abbrev bar : String → ℕ → ℕ → String → DailyRow ℕ
bar code day at status = record {
  security_code = code;
  trade_date = day;
  open_price = some 100;
  high = some 110;
  low = some 90;
  close = some 105;
  pre_close = none;
  volume_share = some 1000;
  amount_cny = some 105_000;
  available_at = at;
  quality_status = status;
  source = "tushare";
}

abbrev daily : List (DailyRow ℕ)
daily =
    bar "B" 11 400 "PASSED"
    ∷ bar "A" 12 450 "WARNING"
    ∷ bar "A" 11 420 "FAILED"
    ∷ bar "A" 13 600 "PASSED"
    ∷ bar "C" 11 300 "PASSED"
    ∷ []

-- the failed, the later and the unwanted row are left out
daily_answer :
    read_daily a_first 1000 daily query
    ≡ ok (bar "A" 12 450 "WARNING" ∷ bar "B" 11 400 "PASSED" ∷ [])
unfolding read_daily daily_visible resolve_cutoff build_quality_clause resolve_security_codes
    contains quality_policy_allowed_statuses sort place select
daily_answer = refl

abbrev minutes : List (MinuteRow ℕ)
minutes =
    record {
      security_code = "A";
      frequency = "5min";
      trade_time = 800;
      open_price = 104;
      high = 106;
      low = 103;
      close = 105;
      volume_share = some 10;
      amount_cny = none;
      clean_batch_id = 1;
      published_at = 480;
    }
    ∷ []

abbrev reports : List (FinancialRow ℕ)
reports =
    record {
      ts_code = "B";
      end_date = 3;
      revision_version = 2;
      is_current = true;
      figures = some 7 ∷ [];
      available_at = 200;
      quality_status = "PASSED";
      source = "tushare";
    }
    ∷ []

abbrev suspends : List SuspendRow
suspends =
    record {
      security_code = "A";
      trade_date = 12;
      event_type = "S";
      available_at = 400;
      quality_status = "PASSED";
    }
    ∷ []

resolve_cutoff_exact_example :
    CutoffOutcome 1000 TimeMode.strategy
      (some (naive 500))
      (some (aware 700))
      (resolve_cutoff 1000 TimeMode.strategy (some (naive 500)) (some (aware 700)))
resolve_cutoff_exact_example =
    resolve_cutoff_exact 1000 TimeMode.strategy (some (naive 500)) (some (aware 700))

read_daily_exact_example :
    Answer 1000 query (DailySeen 1000 query) daily (read_daily a_first 1000 daily query)
read_daily_exact_example = read_daily_exact a_first 1000 daily query

read_minute-Refused_example :
    Refused 1000 query
      (OfMarket query)
      (is_full_market query.security_scope ≡ false)
      (attribute_error "available_at")
      (read_minute a_first 1000 minutes query)
read_minute-Refused_example = read_minute-Refused a_first 1000 minutes query

read_financial-Refused_example :
    Refused 1000 query
      (IsUnsupported query)
      ((query.report_type ≡ "income") ⊎ (query.report_type ≡ "indicator"))
      (programming_error "column security_code does not exist")
      (read_financial a_first 1000 reports [] query)
read_financial-Refused_example = read_financial-Refused a_first 1000 reports [] query

read_events_exact_example :
    EventAnswer {Num = ℕ} a_first 1000 suspends [] query
      (read_events a_first 1000 suspends [] query)
read_events_exact_example = read_events_exact a_first 1000 suspends [] query
