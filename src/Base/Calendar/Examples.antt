-- ===== src/Base/Calendar/Examples.antt =====
-- Dates against the calendar.
use quant_stock.Base.{◌+◌, ◌≡◌, refl}
use quant_stock.Base.Calendar.{
  ymd, year_end, civil, is_leap, days_before_month, iso_end, iso_date, local_date, day_start,
  day_end, hms,
}
use quant_stock.Base.Decimal.{show, show_from}

leap_day : ymd 19_782 ≡ "20240229"
unfolding ymd civil show show_from
leap_day = refl

first_of_march : ymd 19_783 ≡ "20240301"
unfolding ymd civil show show_from
first_of_march = refl

new_year : ymd (year_end 19_782) ≡ "20241231"
unfolding ymd civil show show_from year_end is_leap days_before_month
new_year = refl

last_instant : iso_end 20_453 ≡ "2025-12-31T23:59:59.999999+08:00"
unfolding iso_end iso_date civil show show_from
last_instant = refl

same_day : local_date (day_end 20_453) ≡ 20_453
same_day = refl

opening : hms ":" (day_start 20_453 + 34_200_000_000) ≡ "09:30:00"
unfolding hms
opening = refl
