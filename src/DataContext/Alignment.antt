-- ===== src/DataContext/Alignment.antt =====
-- app/datacontext/alignment.py: daily bars grouped by trading weeks or months.
-- A day is a day number; `month_of` gives the year and the month of a day, as Python's `date` does.
pub mod Weeks
pub mod Groups
mod Examples
use quant_stock.Base.{
  ℕ, zero, suc, ◌+◌, ◌-◌, Bool, true, false, ◌&&◌, String, Option, none, some, List, [], ◌∷◌, ◌++◌,
  map, ltb, ◌==◌, str_eq, if◌then◌else◌, sort, update,
}
use quant_stock.DataContext.Query.{Frequency}
use quant_stock.DataContext.Readers.{DailyRow}

-- sorted({d for d in calendar_dates}): each day once, in order
unfoldable pub insert_day : ℕ → List ℕ → List ℕ
insert_day d [] = d ∷ []
insert_day d (e ∷ es) =
    let rest = insert_day d es in
    if d == e then e ∷ es else if ltb d e then d ∷ e ∷ es else e ∷ rest

unfoldable pub sorted_days : List ℕ → List ℕ
sorted_days [] = []
sorted_days (d ∷ ds) = insert_day d (sorted_days ds)

-- hasattr(value, "days"): a `date` has no attribute of this name; a `timedelta` has
abbrev pub has_days : Bool
has_days = false

-- (value - previous).days if hasattr(value, "days") else 1
abbrev pub gap_between : ℕ → ℕ → ℕ
gap_between value previous = if has_days then value - previous else 1

-- the week after a day of the loop
abbrev pub next_week : ℕ → Option ℕ → ℕ → ℕ
next_week current none value = current
next_week current (some previous) value =
    if ltb 1 (gap_between value previous) then suc current else current

-- the loop of _trading_week_index: days with their weeks
unfoldable pub week_index : ℕ → Option ℕ → List ℕ → List (ℕ × ℕ)
week_index current previous [] = []
week_index current previous (d ∷ ds) =
    (d, next_week current previous d) ∷ week_index (next_week current previous d) (some d) ds

unfoldable pub trading_week_index : List ℕ → List (ℕ × ℕ)
trading_week_index calendar = week_index 0 none (sorted_days calendar)

-- index.get(day)
unfoldable pub week_of : List (ℕ × ℕ) → ℕ → Option ℕ
week_of [] day = none
week_of (e ∷ es) day = let rest = week_of es day in if e.0 == day then some e.1 else rest

-- the keys of the two groupings; a day that is in no week has the key none
pub data GroupKey : Type 0 where
  week_key : String → Option ℕ → GroupKey
  month_key : String → ℕ → ℕ → GroupKey

abbrev pub same_option : Option ℕ → Option ℕ → Bool
same_option none none = true
same_option (some a) (some b) = a == b
same_option _ _ = false

abbrev pub same_key : GroupKey → GroupKey → Bool
same_key (week_key c w) (week_key d v) = str_eq c d && same_option w v
same_key (month_key c y m) (month_key d z n) = str_eq c d && (y == z && m == n)
same_key _ _ = false

-- _group_by: the groups in the order in which their keys come up, each with its rows in order
module _ {A : Type 0} (key : A → GroupKey) where
  -- grouped.setdefault(key(row), []).append(row)
  unfoldable pub add_row : A → List (GroupKey × List A) → List (GroupKey × List A)
  add_row r [] = (key r, r ∷ []) ∷ []
  add_row r (g ∷ gs) =
      let rest = add_row r gs in
      if same_key g.0 (key r) then (g.0, g.1 ++ r ∷ []) ∷ gs else g ∷ rest

  unfoldable pub group_by : List A → List (GroupKey × List A) → List (GroupKey × List A)
  group_by [] groups = groups
  group_by (r ∷ rs) groups = group_by rs (add_row r groups)

-- a resampled bar; the keys of the head row are always there
pub record AlignedRow (Num : Type 0) : Type 0 where
  pub security_code : String
  pub trade_date : ℕ
  pub open_price : Option Num
  pub close : Option Num
  pub high : Option Num
  pub low : Option Num
  pub volume_share : Option Num
  pub amount_cny : Option Num
  pub available_at : ℕ
  pub quality_status : String
  pub source : String

module _ {Num : Type 0} (add : Num → Num → Num) (less : Num → Num → Bool) where
  -- _first_value
  unfoldable pub first_present : (DailyRow Num → Option Num) → List (DailyRow Num) → Option Num
  first_present field [] = none
  first_present field (r ∷ rs) = elim (field r) [ some v ↦ some v | none ↦ first_present field rs ]

  -- _last_value
  unfoldable pub last_present : (DailyRow Num → Option Num) → List (DailyRow Num) → Option Num
  last_present field [] = none
  last_present field (r ∷ rs) = elim (last_present field rs) [ some v ↦ some v | none ↦ field r ]

  -- total is None, or a value is
  abbrev pub merge : (Num → Num → Num) → Option Num → Option Num → Option Num
  merge op total none = total
  merge op none (some v) = some v
  merge op (some t) (some v) = some (op t v)

  -- a fold over the values that are there
  unfoldable pub fold_present :
      (Num → Num → Num)
      → (DailyRow Num → Option Num)
      → Option Num
      → List (DailyRow Num)
      → Option Num
  fold_present op field total [] = total
  fold_present op field total (r ∷ rs) = fold_present op field (merge op total (field r)) rs

  -- Python's max and min keep the first of equal values
  abbrev pub larger : Num → Num → Num
  larger a b = if less a b then b else a

  abbrev pub smaller : Num → Num → Num
  smaller a b = if less b a then b else a

  abbrev last_date : ℕ → List (DailyRow Num) → ℕ
  last_date d [] = d
  last_date d (r ∷ rs) = last_date r.trade_date rs

  bar_of : List (DailyRow Num) → List (AlignedRow Num)
  unfolding first_present last_present fold_present
  bar_of [] = []
  bar_of (head ∷ rest) =
      let rows = head ∷ rest in
      record {
        security_code = head.security_code;
        trade_date = last_date head.trade_date rest;
        open_price = first_present (λ r. r.open_price) rows;
        close = last_present (λ r. r.close) rows;
        high = fold_present larger (λ r. r.high) none rows;
        low = fold_present smaller (λ r. r.low) none rows;
        volume_share = fold_present add (λ r. r.volume_share) none rows;
        amount_cny = fold_present add (λ r. r.amount_cny) none rows;
        available_at = head.available_at;
        quality_status = head.quality_status;
        source = head.source;
      }
      ∷ []

  -- _aggregate: the one bar of a group, which is never empty
  unfoldable pub aggregate : List (DailyRow Num) → List (AlignedRow Num)
  unfolding bar_of
  aggregate group = bar_of (sort (λ a b. ltb a.trade_date b.trade_date) group)

  abbrev pub aggregate_groups : List (GroupKey × List (DailyRow Num)) → List (AlignedRow Num)
  aggregate_groups [] = []
  aggregate_groups (g ∷ gs) = aggregate g.1 ++ aggregate_groups gs

-- the rows as they are, or the resampled bars
pub data Aligned (Num : Type 0) : Type 0 where
  unchanged : List (DailyRow Num) → Aligned Num
  resampled : List (AlignedRow Num) → Aligned Num

module _ {Num : Type 0} (add : Num → Num → Num) (less : Num → Num → Bool)
    (month_of : ℕ → ℕ × ℕ) where
  abbrev pub weekly_key : List ℕ → DailyRow Num → GroupKey
  unfolding trading_week_index week_of
  weekly_key calendar r =
      week_key r.security_code (week_of (trading_week_index calendar) r.trade_date)

  abbrev pub monthly_key : DailyRow Num → GroupKey
  monthly_key r = let m = month_of r.trade_date in month_key r.security_code m.0 m.1

  -- rows of no bars are answered with no bars, whatever the frequency
  unfoldable pub align_to_calendar : List (DailyRow Num) → List ℕ → Frequency → Aligned Num
  align_to_calendar [] calendar frequency = unchanged []
  align_to_calendar rows calendar Frequency.weekly =
      resampled (aggregate_groups add less (group_by (weekly_key calendar) rows []))
  align_to_calendar rows calendar Frequency.monthly =
      resampled (aggregate_groups add less (group_by monthly_key rows []))
  align_to_calendar rows calendar _ = unchanged rows
