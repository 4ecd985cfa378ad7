-- ===== src/Collect/Scheduler/Dates.antt =====
-- app/collect/scheduler.py: the texts of dates and times, and the open days of the RAW trade calendar.
use Prim.Native.Char.{code}
use quant_stock.Base.{
  ℕ, zero, suc, ◌+◌, ◌-◌, ◌*◌, ◌/◌, ◌%◌, Bool, true, ◌&&◌, not, String, Option, none, some, List,
  [], ◌∷◌, ◌==◌, leb, ltb, str_eq, sort, count, if◌then◌else◌,
}
use quant_stock.Base.Result.{
  Result, ok, err, value_error, type_error, raise_if, require, ◌>>=◌, ◌>>◌,
}
use quant_stock.Base.Json.{Json, str, get, truthy}
use quant_stock.Base.Text.{prefix}
use quant_stock.Base.TextOrder.{text_before}
use quant_stock.Base.Decimal.{read}
use quant_stock.Base.Calendar.{days_before_month}
use quant_stock.Collect.Model.{RawRow, seconds}

-- text[n:]
unfoldable pub without_prefix : ℕ → String → String
without_prefix zero s = s
without_prefix (suc n) String.[] = String.[]
without_prefix (suc n) (String.◌∷◌ c s) = without_prefix n s

-- the texts before and after the first colon
unfoldable pub split_colon : String → Option (String × String)
split_colon String.[] = none
split_colon (String.◌∷◌ c s) =
    let rest = split_colon s in
    if code c == b':'
    then some (String.[], s)
    else elim rest [ none ↦ none | some p ↦ some (String.◌∷◌ c p.0, p.1) ]

-- _parse_hhmm, as a part of the day; the default is midnight
unfoldable pub parse_hhmm : Option Json → Result ℕ
parse_hhmm none = ok 0
parse_hhmm (some (str s)) = if str_eq s "" then ok 0 else (do
  parts ← require (split_colon s) (value_error "not enough values to unpack")
  hour ← require (read parts.0) (value_error "invalid literal for int()")
  minute ← require (read parts.1) (value_error "invalid literal for int()")
  raise_if (not (ltb hour 24 && ltb minute 60)) (value_error "hour or minute out of range")
  ok (seconds (hour * 3600 + minute * 60)))
parse_hhmm (some v) = if truthy v then err (type_error "value has no split") else ok 0

-- days since 1970-01-01 of a day of the proleptic Gregorian calendar
unfoldable pub day_number : ℕ → ℕ → ℕ → ℕ
day_number y m d =
    let y' = if leb m 2 then y - 1 else y in
    let era = y' / 400 in
    let yoe = y' % 400 in
    let doy = (153 * ((m + 9) % 12) + 2) / 5 + d - 1 in
    let doe = yoe * 365 + yoe / 4 - yoe / 100 + doy in era * 146_097 + doe - 719_468

-- the days of a month
abbrev pub month_length : ℕ → ℕ → ℕ
month_length y m = if m == 12 then 31 else days_before_month y (m + 1) - days_before_month y m

-- datetime.strptime(value, "%Y%m%d").date() of a text of eight digits
unfoldable pub parse_date : String → Result ℕ
parse_date s = do
  y ← require (read (prefix 4 s)) (value_error "time data does not match format")
  m ← require (read (prefix 2 (without_prefix 4 s))) (value_error "time data does not match format")
  d ← require (read (without_prefix 6 s)) (value_error "time data does not match format")
  raise_if (not (leb 1 m && leb m 12 && leb 1 d && leb d (month_length y m)))
      (value_error "time data does not match format")
  ok (day_number y m d)

unfoldable pub parse_dates : List String → Result (List ℕ)
parse_dates [] = ok []
parse_dates (s ∷ ss) = do d ← parse_date s; rest ← parse_dates ss; ok (d ∷ rest)

-- the date of a row, from its item, its is_open and its cal_date
abbrev pub is_open_day : Bool → Option Json → Option Json → Option String
is_open_day true (some (str o)) (some (str c)) = if str_eq o "1" then some c else none
is_open_day _ _ _ = none

-- cal_date of a row of the trade calendar with is_open == "1"
unfoldable pub open_date : RawRow → Option String
open_date r =
    is_open_day (str_eq r.item_code "trade_calendar") (get r.business "is_open")
      (get r.business "cal_date")

-- cal_date <= through AND, where there is one, cal_date > after
abbrev pub in_window : Option String → String → String → Bool
in_window none through c = not (text_before through c)
in_window (some after) through c = not (text_before through c) && text_before after c

-- the date is taken if the row has one and it is in the window
abbrev pub keep_date : Option String → String → Option String → List String → List String
keep_date after through none rest = rest
keep_date after through (some c) rest = if in_window after through c then c ∷ rest else rest

-- the WHERE clause on the rows
unfoldable pub window_dates : Option String → String → List RawRow → List String
window_dates after through [] = []
window_dates after through (r ∷ rows) =
    keep_date after through (open_date r) (window_dates after through rows)

-- DISTINCT
unfoldable pub distinct : List String → List String
distinct [] = []
distinct (c ∷ cs) = let rest = distinct cs in if count (str_eq c) rest == 0 then c ∷ rest else rest

-- SELECT DISTINCT cal_date ... ORDER BY cal_date ASC
unfoldable pub open_dates : Option String → String → List RawRow → List String
open_dates after through rows = sort text_before (distinct (window_dates after through rows))
