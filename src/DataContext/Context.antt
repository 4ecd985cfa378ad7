-- ===== src/DataContext/Context.antt =====
-- app/datacontext/context.py: DataContext, the facade over the readers. Each query makes the context that its reader
-- is given; the tables are those of the CLEAN layer.
use quant_stock.Base.{
  ℕ, Bool, true, false, ◌&&◌, leb, String, Option, none, some, List, [], ◌∷◌, map, str_eq, select,
  if◌then◌else◌,
}
use quant_stock.Base.Result.{Result, ok, err, value_error, type_error, ◌>>=◌}
use quant_stock.DataContext.Query.{
  Frequency, frequency_value, AdjustmentMethod, QualityPolicy, TimeMode, SecurityScope,
  security_scope, DateTime, QueryContext,
}
use quant_stock.DataContext.Readers.{
  DailyRow, MinuteRow, FinancialRow, SuspendRow, LimitRow, EventRow, context_cutoff, read_daily,
  read_minute, read_financial, read_events,
}
use quant_stock.DataContext.Readers.Gate.{resolve_security_codes, in_codes, within}
use quant_stock.DataContext.Adjustment.{FactorRow, AdjustedRow, apply_adjustment}
use quant_stock.DataContext.Alignment.{Aligned, align_to_calendar}

-- SecurityScope | str | Sequence[str], or a value of another type
pub data ScopeArg : Type 0 where
  scope : SecurityScope → ScopeArg
  code : String → ScopeArg
  codes : List String → ScopeArg
  other : ScopeArg

-- _coerce_scope
unfoldable pub coerce_scope : ScopeArg → Result SecurityScope
coerce_scope (scope s) = ok s
coerce_scope (code c) = security_scope "single" (some (c ∷ []))
coerce_scope (codes []) = err (value_error "security scope received an empty code list")
coerce_scope (codes (c ∷ [])) = security_scope "single" (some (c ∷ []))
coerce_scope (codes (c ∷ d ∷ cs)) = security_scope "pool" (some (c ∷ d ∷ cs))
coerce_scope other = err (type_error "unsupported security scope type")

-- Frequency(value)
frequency_of_value : String → List Frequency → Result Frequency
frequency_of_value s [] = err (value_error "unsupported frequency")
frequency_of_value s (f ∷ fs) =
    let rest = frequency_of_value s fs in if str_eq s (frequency_value f) then ok f else rest

-- Frequency | str, or a value of another type
pub data FrequencyArg : Type 0 where
  frequency : Frequency → FrequencyArg
  text : String → FrequencyArg
  other_type : FrequencyArg

-- _coerce_frequency
unfoldable pub coerce_frequency : FrequencyArg → Result Frequency
unfolding frequency_of_value
coerce_frequency (frequency f) = ok f
coerce_frequency (text s) = frequency_of_value s (
    Frequency.daily ∷ Frequency.weekly ∷ Frequency.monthly ∷ Frequency.minute_1 ∷ Frequency.minute_5
    ∷ Frequency.minute_15 ∷ Frequency.minute_30 ∷ Frequency.minute_60 ∷ [])
coerce_frequency other_type = err (type_error "unsupported frequency type")

-- a context with the defaults of its fields
abbrev pub new_context :
    TimeMode → SecurityScope → Option DateTime → Option DateTime → QualityPolicy → QueryContext
new_context time_mode s as_of_time available_at_cutoff quality = record {
  security_scope = s;
  frequency = Frequency.daily;
  start_date = none;
  end_date = none;
  start_time = none;
  end_time = none;
  as_of_time = as_of_time;
  available_at_cutoff = available_at_cutoff;
  time_mode = time_mode;
  adjustment_method = AdjustmentMethod.unadjusted;
  quality_policy = quality;
  report_type = "income";
  revision_version = none;
  event_type = none;
}

-- clean.trade_calendar
pub record CalendarRow : Type 0 where
  pub calendar_date : ℕ
  pub is_open : Bool
  pub available_at : ℕ

-- the answer of query_daily: bars, bars with the keys of the adjustment, or what the alignment returns
pub data DailyAnswer (Num : Type 0) : Type 0 where
  bars : List (DailyRow Num) → DailyAnswer Num
  adjusted : List (AdjustedRow Num) → DailyAnswer Num
  aligned : Aligned Num → DailyAnswer Num

-- the rows whose keys the alignment reads
abbrev pub answer_rows : {Num : Type 0} → DailyAnswer Num → List (DailyRow Num)
answer_rows (bars rows) = rows
answer_rows (adjusted rows) = map (λ r. r.row) rows
answer_rows (aligned a) = []

abbrev pub is_resampled : Frequency → Bool
is_resampled Frequency.weekly = true
is_resampled Frequency.monthly = true
is_resampled _ = false

-- the WHERE clauses of _read_adj_factors and _read_calendar
abbrev pub factor_visible : {Num : Type 0} → ℕ → QueryContext → FactorRow Num → Bool
factor_visible cutoff q f =
    leb f.available_at cutoff
    && in_codes (resolve_security_codes q.security_scope) f.security_code
    && within q.start_date q.end_date f.trade_date

abbrev pub calendar_visible : ℕ → QueryContext → CalendarRow → Bool
calendar_visible cutoff q d =
    leb d.available_at cutoff && d.is_open && within q.start_date q.end_date d.calendar_date

unfoldable pub read_adj_factors :
    {Num : Type 0} → ℕ → List (FactorRow Num) → QueryContext → Result (List (FactorRow Num))
read_adj_factors now table q = do
  cutoff ← context_cutoff now q
  ok (select (factor_visible cutoff q) table)

unfoldable pub read_calendar : ℕ → List CalendarRow → QueryContext → Result (List ℕ)
read_calendar now table q = do
  cutoff ← context_cutoff now q
  ok (map (λ (d : CalendarRow). d.calendar_date) (select (calendar_visible cutoff q) table))

-- the instants at which a query of daily bars reads the clock: for the bars, the factors and the calendar
pub record Clock : Type 0 where
  pub rows_at : ℕ
  pub factors_at : ℕ
  pub calendar_at : ℕ

-- the arguments of query_daily besides the scope
pub record DailyQuery : Type 0 where
  pub start_date : Option ℕ
  pub end_date : Option ℕ
  pub as_of_time : Option DateTime
  pub adjustment : AdjustmentMethod
  pub quality : QualityPolicy
  pub frequency : Frequency
  pub available_at_cutoff : Option DateTime

abbrev pub daily_context : TimeMode → SecurityScope → DailyQuery → QueryContext
daily_context time_mode s a =
    record (new_context time_mode s a.as_of_time a.available_at_cutoff a.quality) {
      frequency = a.frequency;
      start_date = a.start_date;
      end_date = a.end_date;
      adjustment_method = a.adjustment;
    }

module _ {Num : Type 0} (scale divide add : Num → Num → Num) (less : Num → Num → Bool)
    (is_zero : Num → Bool) (month_of : ℕ → ℕ × ℕ) (code_before : String → String → Bool) where
  -- `if adjustment != AdjustmentMethod.NONE`
  adjust_rows :
      ℕ
      → List (FactorRow Num)
      → QueryContext
      → AdjustmentMethod
      → List (DailyRow Num)
      → Result (DailyAnswer Num)
  adjust_rows now factors q AdjustmentMethod.unadjusted rows = ok (bars rows)
  adjust_rows now factors q method rows = do
    visible ← read_adj_factors now factors q
    ok (adjusted (apply_adjustment scale divide is_zero rows visible method))

  unfoldable pub query_daily :
      Clock
      → TimeMode
      → List (DailyRow Num)
      → List (FactorRow Num)
      → List CalendarRow
      → ScopeArg
      → DailyQuery
      → Result (DailyAnswer Num)
  unfolding adjust_rows
  query_daily clock time_mode table factors calendar arg a = do
    s ← coerce_scope arg
    let q = daily_context time_mode s a
    rows ← read_daily code_before clock.rows_at table q
    answer ← adjust_rows clock.factors_at factors q a.adjustment rows
    (if is_resampled a.frequency
        then (do
          days ← read_calendar clock.calendar_at calendar q
          ok (aligned (align_to_calendar add less month_of (answer_rows answer) days a.frequency)))
        else ok answer)

module _ {Num : Type 0} (code_before : String → String → Bool) (now : ℕ)
    (time_mode : TimeMode) where
  unfoldable pub query_minute :
      List (MinuteRow Num)
      → ScopeArg
      → Option ℕ
      → Option ℕ
      → FrequencyArg
      → Option DateTime
      → QualityPolicy
      → Option DateTime
      → Result (List (MinuteRow Num))
  query_minute table arg start_time end_time asked as_of_time quality available_at_cutoff = do
    s ← coerce_scope arg
    f ← coerce_frequency asked
    read_minute code_before now table
        (record (new_context time_mode s as_of_time available_at_cutoff quality) {
          frequency = f;
          start_time = start_time;
          end_time = end_time;
        })

  unfoldable pub query_financial :
      List (FinancialRow Num)
      → List (FinancialRow Num)
      → ScopeArg
      → String
      → Option DateTime
      → Option ℕ
      → QualityPolicy
      → Option DateTime
      → Result (List (FinancialRow Num))
  query_financial income indicator arg report_type as_of_time revision quality available_at_cutoff =
      do
        s ← coerce_scope arg
        read_financial code_before now income indicator
            (record (new_context time_mode s as_of_time available_at_cutoff quality) {
              report_type = report_type;
              revision_version = revision;
            })

  unfoldable pub query_events :
      List SuspendRow
      → List (LimitRow Num)
      → ScopeArg
      → Option String
      → Option ℕ
      → Option ℕ
      → Option DateTime
      → QualityPolicy
      → Option DateTime
      → Result (List (EventRow Num))
  query_events suspends limits arg event_type start_date end_date as_of_time quality
        available_at_cutoff =
      do
        s ← coerce_scope arg
        read_events code_before now suspends limits
            (record (new_context time_mode s as_of_time available_at_cutoff quality) {
              event_type = event_type;
              start_date = start_date;
              end_date = end_date;
            })
