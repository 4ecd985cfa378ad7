-- ===== src/DataContext/Adjustment/Examples.antt =====
-- The adjustment at a bar and two factors.
use quant_stock.Base.{
  ℕ, ◌*◌, ◌/◌, ◌≡◌, ◌↔◌, ◌⊎◌, refl, Bool, true, none, some, List, [], ◌∷◌, ◌==◌, sort, place,
}
use quant_stock.DataContext.Query.{AdjustmentMethod}
use quant_stock.DataContext.Readers.{DailyRow}
use quant_stock.DataContext.Adjustment.{
  FactorRow, factor_at, entries_of, resolve_base_factor, adjust_row,
}
use quant_stock.DataContext.Adjustment.Anchor.{
  HasFactor, AnchorOutcome, resolve_base_factor_anchors,
}
use quant_stock.DataContext.Adjustment.Gaps.{HasZeroBase, adjust_row_gap}

abbrev factor_of : ℕ → ℕ → FactorRow ℕ
factor_of day v = record {
  security_code = "A";
  trade_date = day;
  adj_factor = some v;
  available_at = day;
}

abbrev factors : List (FactorRow ℕ)
factors = factor_of 12 2 ∷ factor_of 10 6 ∷ []

abbrev bar_of : ℕ → DailyRow ℕ
bar_of day = record {
  security_code = "A";
  trade_date = day;
  open_price = some 10;
  high = some 12;
  low = some 9;
  close = some 11;
  pre_close = none;
  volume_share = some 1000;
  amount_cny = none;
  available_at = 20;
  quality_status = "PASSED";
  source = "tushare";
}

latest_base : resolve_base_factor factors AdjustmentMethod.forward_adj "A" ≡ some 2
unfolding resolve_base_factor sort place entries_of
latest_base = refl

abbrev is_zero : ℕ → Bool
is_zero n = n == 0

tripled :
    (adjust_row
      (λ a b. a * b)
      (λ a b. a / b)
      is_zero
      factors
      AdjustmentMethod.forward_adj
      (bar_of 10)).row.close
    ≡ some 33
unfolding adjust_row factor_at resolve_base_factor sort place entries_of
tripled = refl

resolve_base_factor_anchors_example :
    AnchorOutcome factors AdjustmentMethod.forward_adj "A"
      (resolve_base_factor factors AdjustmentMethod.forward_adj "A")
resolve_base_factor_anchors_example =
    resolve_base_factor_anchors factors AdjustmentMethod.forward_adj "A"

adjust_row_gap_example :
    ((adjust_row
        (λ a b. a * b)
        (λ a b. a / b)
        is_zero
        factors
        AdjustmentMethod.forward_adj
        (bar_of 11)).adjustment_gap
      ≡ true)
    ↔ (((v : ℕ) → ¬ HasFactor factors "A" 11 v)
        ⊎ HasZeroBase
            (λ a b. a * b)
            (λ a b. a / b)
            is_zero
            factors
            AdjustmentMethod.forward_adj
            "A")
adjust_row_gap_example =
    adjust_row_gap (λ a b. a * b) (λ a b. a / b) is_zero factors AdjustmentMethod.forward_adj
      (bar_of 11)
