-- ===== src/DataContext/Alignment/Examples.antt =====
-- The alignment at a calendar of two weeks.
use quant_stock.Base.{ℕ, ◌≡◌, refl, some, [], ◌∷◌, here, there, select}
use quant_stock.DataContext.Alignment.{
  GroupKey, week_key, same_key, group_by, add_row, week_of, trading_week_index, week_index,
  sorted_days, insert_day,
}
use quant_stock.DataContext.Alignment.Weeks.{trading_week_index_constant}
use quant_stock.DataContext.Alignment.Groups.{rows_of, group_by-eq-select}

-- two Mondays, a week apart
weeks_apart : week_of (trading_week_index (7 ∷ 14 ∷ [])) 14 ≡ some 0
unfolding week_of trading_week_index week_index sorted_days insert_day
weeks_apart = refl

abbrev key_of : ℕ → GroupKey
key_of n = week_key "A" (some n)

two_groups : group_by key_of (1 ∷ 2 ∷ 1 ∷ []) [] ≡ (key_of 1, 1 ∷ 1 ∷ []) ∷ (key_of 2, 2 ∷ []) ∷ []
unfolding group_by add_row
two_groups = refl

trading_week_index_constant_example : week_of (trading_week_index (7 ∷ 14 ∷ [])) 14 ≡ some 0
trading_week_index_constant_example = trading_week_index_constant (7 ∷ 14 ∷ []) (there (here refl))

group_by-eq-select_example :
    rows_of key_of (key_of 1) (group_by key_of (1 ∷ 2 ∷ 1 ∷ []) [])
    ≡ select (λ n. same_key (key_of n) (key_of 1)) (1 ∷ 2 ∷ 1 ∷ [])
group_by-eq-select_example = group_by-eq-select key_of (key_of 1) (1 ∷ 2 ∷ 1 ∷ [])
