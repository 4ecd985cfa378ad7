-- ===== src/Governance/MinuteRules/Examples.antt =====
-- The grid of the first day.
use quant_stock.Governance.MinuteRules.{expected_minute_grid}
use quant_stock.Governance.MinuteRules.Grid.{GridOutcome, expected_minute_grid_exact}

expected_minute_grid_exact_example : GridOutcome 1 "1min" (expected_minute_grid 1 "1min")
expected_minute_grid_exact_example = expected_minute_grid_exact 1 "1min"
