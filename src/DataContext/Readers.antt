-- ===== src/DataContext/Readers.antt =====
-- app/datacontext/readers: each reader selects the rows of one CLEAN table that a query may see.
-- `code_before` is the database's order on codes; prices and volumes are values of a type `Num`.
pub mod Gate
pub mod Answer
pub mod Exact
pub mod Refused
pub mod Events
use quant_stock.Base.{
  ℕ, Bool, true, false, ◌&&◌, ◌||◌, not, String, Option, none, some, List, [], ◌∷◌, ◌++◌, leb, ltb,
  ◌==◌, str_eq, if◌then◌else◌, is_none, is_value, select, sort, map,
}
use quant_stock.Base.Result.{
  Result, ok, err, value_error, attribute_error, programming_error, raise_if, require, ◌>>=◌, ◌>>◌,
}
use quant_stock.DataContext.Query.{
  Frequency, frequency_value, QualityPolicy, SecurityScope, QueryContext, is_full_market,
}
use quant_stock.DataContext.Cutoff.{resolve_cutoff}
use quant_stock.DataContext.Readers.Gate.{resolve_security_codes, listed_codes, passes, within}

-- clean.stock_daily
pub record DailyRow (Num : Type 0) : Type 0 where
  pub security_code : String
  pub trade_date : ℕ
  pub open_price : Option Num
  pub high : Option Num
  pub low : Option Num
  pub close : Option Num
  pub pre_close : Option Num
  pub volume_share : Option Num
  pub amount_cny : Option Num
  pub available_at : ℕ
  pub quality_status : String
  pub source : String

-- clean.stock_minute. It has no column of the time at which a bar was available, and none of its quality.
pub record MinuteRow (Num : Type 0) : Type 0 where
  pub security_code : String
  pub frequency : String
  pub trade_time : ℕ
  pub open_price : Num
  pub high : Num
  pub low : Num
  pub close : Num
  pub volume_share : Option ℕ
  pub amount_cny : Option Num
  pub clean_batch_id : ℕ
  pub published_at : ℕ

-- clean.financial_income and clean.financial_indicator, with their business fields as a list
pub record FinancialRow (Num : Type 0) : Type 0 where
  pub ts_code : String
  pub end_date : ℕ
  pub revision_version : ℕ
  pub is_current : Bool
  pub figures : List (Option Num)
  pub available_at : ℕ
  pub quality_status : String
  pub source : String

-- clean.stock_suspend_event
pub record SuspendRow : Type 0 where
  pub security_code : String
  pub trade_date : ℕ
  pub event_type : String
  pub available_at : ℕ
  pub quality_status : String

-- clean.stock_limit_price
pub record LimitRow (Num : Type 0) : Type 0 where
  pub security_code : String
  pub trade_date : ℕ
  pub up_limit : Option Num
  pub down_limit : Option Num
  pub available_at : ℕ
  pub quality_status : String

-- a row of the merged answer of `read_events`
pub data EventRow (Num : Type 0) : Type 0 where
  suspend : SuspendRow → EventRow Num
  limit_price : LimitRow Num → EventRow Num

-- event_type in (None, family)
abbrev pub asks_for : String → Option String → Bool
asks_for family none = true
asks_for family (some t) = str_eq t family

-- ORDER BY code, then a number
abbrev pub by_code : (String → String → Bool) → String → ℕ → String → ℕ → Bool
by_code code_before c m d n = code_before c d || str_eq c d && ltb m n

abbrev pub context_cutoff : ℕ → QueryContext → Result ℕ
context_cutoff now q = resolve_cutoff now q.time_mode q.as_of_time q.available_at_cutoff

-- the tests of the WHERE clauses
module _ {Num : Type 0} where
  -- the WHERE clause of `read_daily`
  unfoldable pub daily_visible : ℕ → QueryContext → DailyRow Num → Bool
  daily_visible cutoff q r =
      passes cutoff q.quality_policy (resolve_security_codes q.security_scope) r.security_code
        r.quality_status r.available_at
      && within q.start_date q.end_date r.trade_date

  -- CleanStockMinute's attributes of texts and of times, by name
  abbrev pub minute_text : String → Option (MinuteRow Num → String)
  minute_text name =
      if str_eq name "security_code"
      then some (λ r. r.security_code)
      else if str_eq name "frequency"
      then some (λ r. r.frequency)
      else none

  abbrev pub minute_time : String → Option (MinuteRow Num → ℕ)
  minute_time name =
      if str_eq name "trade_time"
      then some (λ r. r.trade_time)
      else if str_eq name "published_at"
      then some (λ r. r.published_at)
      else none

  unfoldable pub minute_visible :
      (MinuteRow Num → ℕ) → (MinuteRow Num → String) → ℕ → QueryContext → MinuteRow Num → Bool
  minute_visible available_at quality_status cutoff q r =
      passes cutoff q.quality_policy (listed_codes q.security_scope.codes) r.security_code
        (quality_status r) (available_at r)
      && (str_eq (frequency_value q.frequency) "daily"
          || str_eq r.frequency (frequency_value q.frequency))
      && within q.start_time q.end_time r.trade_time

  unfoldable pub limit_visible : ℕ → QueryContext → LimitRow Num → Bool
  limit_visible cutoff q r =
      passes cutoff q.quality_policy (resolve_security_codes q.security_scope) r.security_code
        r.quality_status r.available_at
      && within q.start_date q.end_date r.trade_date

  -- _TABLE_BY_REPORT_TYPE: the two tables, by report type
  abbrev pub table_by_report_type :
      String → List (FinancialRow Num) → List (FinancialRow Num) → Option (List (FinancialRow Num))
  table_by_report_type t income indicator =
      if str_eq t "income"
      then some income
      else if str_eq t "indicator"
      then some indicator
      else none

  -- is_current = true, or the revision that is asked for
  abbrev pub revision_matches : Option ℕ → FinancialRow Num → Bool
  revision_matches none r = r.is_current
  revision_matches (some v) r = r.revision_version == v

  -- the columns of texts, and of numbers, dates and times, by name
  abbrev pub financial_text : String → Option (FinancialRow Num → String)
  financial_text name =
      if str_eq name "ts_code"
      then some (λ r. r.ts_code)
      else if str_eq name "_quality_status"
      then some (λ r. r.quality_status)
      else if str_eq name "_source"
      then some (λ r. r.source)
      else none

  abbrev pub financial_number : String → Option (FinancialRow Num → ℕ)
  financial_number name =
      if str_eq name "end_date"
      then some (λ r. r.end_date)
      else if str_eq name "revision_version"
      then some (λ r. r.revision_version)
      else if str_eq name "_available_at"
      then some (λ r. r.available_at)
      else none

  unfoldable pub financial_visible :
      (FinancialRow Num → String) → ℕ → QueryContext → FinancialRow Num → Bool
  financial_visible security_code cutoff q r =
      passes cutoff q.quality_policy (resolve_security_codes q.security_scope) (security_code r)
        r.quality_status r.available_at
      && revision_matches q.revision_version r

unfoldable pub suspend_visible : ℕ → QueryContext → SuspendRow → Bool
suspend_visible cutoff q r =
    passes cutoff q.quality_policy (resolve_security_codes q.security_scope) r.security_code
      r.quality_status r.available_at
    && within q.start_date q.end_date r.trade_date

-- _read_suspend
unfoldable pub read_suspend :
    (String → String → Bool) → ℕ → QueryContext → List SuspendRow → List SuspendRow
read_suspend code_before cutoff q table =
    sort (λ a b. by_code code_before a.security_code a.trade_date b.security_code b.trade_date)
      (select (suspend_visible cutoff q) table)

module _ {Num : Type 0} (code_before : String → String → Bool) (now : ℕ) where
  unfoldable pub read_daily : List (DailyRow Num) → QueryContext → Result (List (DailyRow Num))
  read_daily table q = do
    cutoff ← context_cutoff now q
    ok (
        sort (λ a b. by_code code_before a.security_code a.trade_date b.security_code b.trade_date)
          (select (daily_visible cutoff q) table))

  unfoldable pub read_minute : List (MinuteRow Num) → QueryContext → Result (List (MinuteRow Num))
  read_minute table q = do
    raise_if (is_full_market q.security_scope)
        (value_error "Full market minute scan is not allowed")
    cutoff ← context_cutoff now q
    available_at ← require (minute_time "available_at") (attribute_error "available_at")
    quality_status ← require (minute_text "quality_status") (attribute_error "quality_status")
    ok (
        sort (λ a b. by_code code_before a.security_code a.trade_time b.security_code b.trade_time)
          (select (minute_visible available_at quality_status cutoff q) table))

  -- ORDER BY security_code, report_period, revision_version
  abbrev pub financial_before :
      (FinancialRow Num → String)
      → (FinancialRow Num → ℕ)
      → FinancialRow Num
      → FinancialRow Num
      → Bool
  financial_before security_code report_period a b =
      by_code code_before (security_code a) (report_period a) (security_code b) (report_period b)
      || str_eq (security_code a) (security_code b)
        && (report_period a == report_period b && ltb a.revision_version b.revision_version)

  -- the database refuses a statement that names a column which the table does not have
  unfoldable pub read_financial :
      List (FinancialRow Num)
      → List (FinancialRow Num)
      → QueryContext
      → Result (List (FinancialRow Num))
  read_financial income indicator q = do
    table ←
        require (table_by_report_type q.report_type income indicator)
          (value_error "unsupported report_type")
    cutoff ← context_cutoff now q
    security_code ←
        require (financial_text "security_code")
          (programming_error "column security_code does not exist")
    report_period ←
        require (financial_number "report_period")
          (programming_error "column report_period does not exist")
    ok (
        sort (financial_before security_code report_period)
          (select (financial_visible security_code cutoff q) table))

  -- _read_limit_price
  unfoldable pub read_limit_price : ℕ → QueryContext → List (LimitRow Num) → List (LimitRow Num)
  read_limit_price cutoff q table =
      sort (λ a b. by_code code_before a.security_code a.trade_date b.security_code b.trade_date)
        (select (limit_visible cutoff q) table)

  unfoldable pub read_events :
      List SuspendRow → List (LimitRow Num) → QueryContext → Result (List (EventRow Num))
  read_events suspends limits q = do
    cutoff ← context_cutoff now q
    ok (
        (if asks_for "suspend" q.event_type
          then map suspend (read_suspend code_before cutoff q suspends)
          else [])
        ++ (if asks_for "limit_price" q.event_type
            then map limit_price (read_limit_price cutoff q limits)
            else []))
