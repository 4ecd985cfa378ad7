-- ===== src/Collect/RateLimit/Examples.antt =====
-- The rate limiter with two calls a minute.
use quant_stock.Base.{◌≡◌, ◌≤◌, refl, some, [], ◌∷◌, ◌++◌, arith, count}
use quant_stock.Collect.RateLimit.{evict, attempt, acquire, acquire_loop, Run, start, admit}
use quant_stock.Collect.RateLimit.Bound.{in_minute, rate_bounded}
use quant_stock.Collect.RateLimit.Progress.{acquire_second_turn}

-- two calls, at 5 and at 9
two_calls : Run 2 9 (9 ∷ 5 ∷ []) (5 ∷ 9 ∷ [])
unfolding attempt evict
two_calls = admit (admit (start 0) (omega arith) refl) (omega arith) refl

third_waits : attempt 2 20 (5 ∷ 9 ∷ []) ≡ (some 59_999_985, 5 ∷ 9 ∷ [])
unfolding attempt evict
third_waits = refl

-- the third is admitted when the first is a minute old
third_admitted :
    acquire (some 2) (20 ∷ 60_000_005 ∷ []) (5 ∷ 9 ∷ []) ≡ some (59_999_985, 9 ∷ 60_000_005 ∷ [])
unfolding acquire acquire_loop attempt evict
third_admitted = refl

rate_bounded_example : count (in_minute 3) (9 ∷ 5 ∷ []) ≤ 2
rate_bounded_example = rate_bounded two_calls 3

acquire_second_turn_example :
    acquire (some 2) (20 ∷ 60_000_005 ∷ []) (5 ∷ 9 ∷ [])
    ≡ some (59_999_985, evict 60_000_005 (5 ∷ 9 ∷ []) ++ 60_000_005 ∷ [])
acquire_second_turn_example =
    acquire_second_turn 1 two_calls (omega arith) third_waits (omega arith)
