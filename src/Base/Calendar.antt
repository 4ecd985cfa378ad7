-- ===== src/Base/Calendar.antt =====
-- What the program uses of Python's dates: `date`, `datetime.combine`, `strftime` and `isoformat`.
-- A date is the number of days since 1970-01-01, an instant the number of microseconds since then in
-- UTC, and the zone is Asia/Shanghai, which is eight hours ahead.
mod Examples
use Prim.Native.Nat.{ℕ, ◌+◌, ◌-◌, ◌*◌, ◌/◌, ◌%◌}
use Prim.Native.String.{String, ◌++◌}
use mathlib.Core.Bool.{Bool, ◌&&◌, ◌||◌, not}
use quant_stock.Base.Tests.{ltb, ◌==◌, if◌then◌else◌}
use quant_stock.Base.Decimal.{show, digit}

abbrev pub day_length : ℕ
day_length = 86_400_000_000

abbrev pub zone : ℕ
zone = 28_800_000_000

-- the day, and the part of the day, of an instant in Shanghai
abbrev pub local_date : ℕ → ℕ
local_date t = (t + zone) / day_length

abbrev pub local_time : ℕ → ℕ
local_time t = (t + zone) % day_length

-- datetime.combine(d, time.min, tzinfo=SHANGHAI), and with time.max
abbrev pub day_start : ℕ → ℕ
day_start d = d * day_length - zone

abbrev pub day_end : ℕ → ℕ
day_end d = d * day_length + (day_length - 1) - zone

pub record Civil : Type 0 where
  pub year : ℕ
  pub month : ℕ
  pub day : ℕ

-- The proleptic Gregorian calendar, by eras of 400 years that begin on the first of March.
unfoldable pub civil : ℕ → Civil
civil d =
    let z = d + 719_468 in
    let era = z / 146_097 in
    let doe = z % 146_097 in
    let yoe = (doe + doe / 36_524 - (doe / 1460 + doe / 146_096)) / 365 in
    let doy = doe - (365 * yoe + yoe / 4 - yoe / 100) in
    let mp = (5 * doy + 2) / 153 in
    let month = if ltb mp 10 then mp + 3 else mp - 9 in
    record {
      year = (if ltb month 3 then yoe + era * 400 + 1 else yoe + era * 400);
      month = month;
      day = doy - (153 * mp + 2) / 5 + 1;
    }

unfoldable pub is_leap : ℕ → Bool
is_leap y = (y % 4 == 0) && not (y % 100 == 0) || (y % 400 == 0)

-- days of the year before the first of a month
unfoldable pub days_before_month : ℕ → ℕ → ℕ
days_before_month y m =
    let base =
      if m == 1
      then 0
      else if m == 2
      then 31
      else if m == 3
      then 59
      else if m == 4
      then 90
      else if m == 5
      then 120
      else if m == 6
      then 151
      else if m == 7
      then 181
      else if m == 8
      then 212
      else if m == 9
      then 243
      else if m == 10
      then 273
      else if m == 11
      then 304
      else 334 in
    if is_leap y && ltb 2 m then base + 1 else base

-- date(d.year, 12, 31): the days that are left of the year are added
unfoldable pub year_end : ℕ → ℕ
year_end d =
    let c = civil d in
    d + ((if is_leap c.year then 366 else 365) - (days_before_month c.year c.month + c.day))

abbrev pub two_digits : ℕ → String
two_digits n = digit (n / 10) ++ digit (n % 10)

-- the year of a date of the model has four digits
unfoldable pub ymd : ℕ → String
ymd d = let c = civil d in show c.year ++ (two_digits c.month ++ two_digits c.day)

-- date.isoformat
unfoldable pub iso_date : ℕ → String
iso_date d =
    let c = civil d in show c.year ++ ("-" ++ (two_digits c.month ++ ("-" ++ two_digits c.day)))

-- the isoformat of the first and of the last instant of a day in Shanghai
unfoldable pub iso_start : ℕ → String
iso_start d = iso_date d ++ "T00:00:00+08:00"

unfoldable pub iso_end : ℕ → String
iso_end d = iso_date d ++ "T23:59:59.999999+08:00"

-- strftime("%H:%M:%S") and strftime("%H%M%S") in Shanghai
unfoldable pub hms : String → ℕ → String
hms sep t =
    let s = local_time t / 1_000_000 in
    two_digits (s / 3600) ++ (sep ++ (two_digits (s / 60 % 60) ++ (sep ++ two_digits (s % 60))))
