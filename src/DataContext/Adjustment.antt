-- ===== src/DataContext/Adjustment.antt =====
-- app/datacontext/adjustment.py: prices scaled by adjustment factors, over copies of the rows.
-- Prices and factors are values of a type `Num` with the operations that the code calls.
pub mod Anchor
pub mod Gaps
mod Examples
use quant_stock.Base.{
  ℕ, Bool, true, false, ◌&&◌, String, Option, none, some, List, [], ◌∷◌, map, ltb, ◌==◌, str_eq,
  if◌then◌else◌, sort,
}
use quant_stock.DataContext.Query.{AdjustmentMethod}
use quant_stock.DataContext.Readers.{DailyRow}

-- clean.stock_adj_factor
pub record FactorRow (Num : Type 0) : Type 0 where
  pub security_code : String
  pub trade_date : ℕ
  pub adj_factor : Option Num
  pub available_at : ℕ

-- a row of the answer, with the two keys that it may have besides those of a bar
pub record AdjustedRow (Num : Type 0) : Type 0 where
  pub row : DailyRow Num
  pub adjustment_gap : Bool
  pub adjustment_method : Option AdjustmentMethod

module _ {Num : Type 0} where
  -- factor_lookup.get((code, day)): of rows with one key, the last that has a value counts
  unfoldable pub factor_at : List (FactorRow Num) → String → ℕ → Option Num
  factor_at [] code day = none
  factor_at (f ∷ fs) code day = elim (factor_at fs code day) [
    | some v ↦ some v
    | none ↦ if str_eq f.security_code code && f.trade_date == day then f.adj_factor else none
  ]

  abbrev pub entry_of : String → FactorRow Num → Option Num → List (ℕ × Num) → List (ℕ × Num)
  entry_of code f none entries = entries
  entry_of code f (some v) entries =
      if str_eq f.security_code code then (f.trade_date, v) ∷ entries else entries

  -- per_security[code]
  unfoldable pub entries_of : List (FactorRow Num) → String → List (ℕ × Num)
  entries_of [] code = []
  entries_of (f ∷ fs) code = entry_of code f f.adj_factor (entries_of fs code)

  abbrev pub earlier : ℕ × Num → ℕ × Num → Bool
  earlier a b = ltb a.0 b.0

  -- entries[0][1]
  abbrev pub first_value : List (ℕ × Num) → Option Num
  first_value [] = none
  first_value (e ∷ es) = some e.1

  -- entries[-1][1]
  abbrev pub last_value : List (ℕ × Num) → Option Num
  last_value [] = none
  last_value (e ∷ []) = some e.1
  last_value (e ∷ f ∷ es) = last_value (f ∷ es)

  -- _resolve_base_factor, at one code
  unfoldable pub resolve_base_factor : List (FactorRow Num) → AdjustmentMethod → String → Option Num
  resolve_base_factor factors AdjustmentMethod.backward_adj code =
      first_value (sort earlier (entries_of factors code))
  resolve_base_factor factors _ code = last_value (sort earlier (entries_of factors code))

  -- the row as it is, marked
  abbrev pub gap_row : DailyRow Num → AdjustedRow Num
  gap_row r = record {
    row = record r { quality_status = "WARNING" };
    adjustment_gap = true;
    adjustment_method = none;
  }

  module _ (scale divide : Num → Num → Num) (is_zero : Num → Bool) where
    abbrev pub scaled : Num → Option Num → Option Num
    scaled ratio none = none
    scaled ratio (some v) = some (scale v ratio)

    -- the prices times the ratio
    abbrev pub scaled_row : AdjustmentMethod → Num → DailyRow Num → AdjustedRow Num
    scaled_row method ratio r = record {
      row = record r {
        open_price = scaled ratio r.open_price;
        high = scaled ratio r.high;
        low = scaled ratio r.low;
        close = scaled ratio r.close;
        pre_close = scaled ratio r.pre_close;
      };
      adjustment_gap = false;
      adjustment_method = some method;
    }

    abbrev pub adjust_by :
        AdjustmentMethod → DailyRow Num → Option Num → Option Num → AdjustedRow Num
    adjust_by method r none base = gap_row r
    adjust_by method r (some factor) none = gap_row r
    adjust_by method r (some factor) (some base) =
        if is_zero base then gap_row r else scaled_row method (divide factor base) r

    unfoldable pub adjust_row :
        List (FactorRow Num) → AdjustmentMethod → DailyRow Num → AdjustedRow Num
    adjust_row factors method r =
        adjust_by method r (factor_at factors r.security_code r.trade_date)
          (resolve_base_factor factors method r.security_code)

    abbrev pub plain_row : DailyRow Num → AdjustedRow Num
    plain_row r = record { row = r; adjustment_gap = false; adjustment_method = none }

    unfoldable pub apply_adjustment :
        List (DailyRow Num) → List (FactorRow Num) → AdjustmentMethod → List (AdjustedRow Num)
    apply_adjustment rows factors AdjustmentMethod.unadjusted = map plain_row rows
    apply_adjustment rows factors method = map (adjust_row factors method) rows
