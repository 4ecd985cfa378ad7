-- ===== src/Governance/MinuteRules.antt =====
-- app/governance/minute_rules.py: the minutes of a trading day. A time is a number of
-- minutes in the zone of Shanghai, whose day `d` starts at `d * 1440`.
pub mod Grid
mod Examples
use quant_stock.Base.{
  ℕ, zero, suc, ◌+◌, ◌*◌, ◌-◌, ◌≡◌, Bool, true, false, String, Option, none, some, List, [], ◌∷◌,
  ◌++◌, leb, not, str_eq, if◌then◌else◌,
}
use quant_stock.Base.Result.{Result, ok, err, value_error, raise_if, ◌>>◌}

-- datetime.combine(trade_date, time(hour, minute), tzinfo=SHANGHAI)
abbrev pub at_time : ℕ → ℕ → ℕ → ℕ
at_time day hour minute = day * 1440 + (hour * 60 + minute)

-- `while t <= end: result.append(t); t += timedelta(minutes=1)`
unfoldable pub minutes_until : ℕ → ℕ → ℕ → List ℕ
minutes_until zero t end = []
minutes_until (suc fuel) t end =
    let rest = minutes_until fuel (t + 1) end in if leb t end then t ∷ rest else []

-- one turn for each minute of the session
abbrev pub session : ℕ → ℕ → List ℕ
session start end = minutes_until ((end + 1) - start) start end

unfoldable pub expected_minute_grid : ℕ → String → Result (List ℕ)
expected_minute_grid day frequency = do
  raise_if (not (str_eq frequency "1min"))
      (value_error "formal minute grid is not defined for the frequency")
  ok (
      session (at_time day 9 30) (at_time day 11 30)
      ++ session (at_time day 13 1) (at_time day 15 0))
