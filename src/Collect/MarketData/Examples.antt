-- ===== src/Collect/MarketData/Examples.antt =====
-- The theorems about keys, plans and enqueueing at concrete requests.
use Prim.Native.String.{◌++◌ as text_append}
use quant_stock.Base.{
  ℕ, Bool, true, false, ◌≡◌, refl, ◌+◌, String, none, some, List, [], ◌∷◌, first, count, arith,
}
use quant_stock.Base.Decimal.{show}
use quant_stock.Base.Result.{Result, ok, err}
use quant_stock.Base.Json.{
  get, Json, null, flag, num, str, array, object, Items, nil, cons, Dict, empty, entry,
}
use quant_stock.Collect.StateMachine.{TaskStatus}
use quant_stock.Collect.Model.{CollectTask, RequestSlice, Store}
use quant_stock.Collect.Idempotency.{build_request_hash, content_key}
use quant_stock.Collect.Idempotency.Canonical.{swapped, build_request_hash-Reordered}
use quant_stock.Collect.Planners.{plan_trade_date_slice}
use quant_stock.Collect.Planners.TradeCalendar.{plan_trade_calendar_slices}
use quant_stock.Collect.Planners.TradeCalendar.Cover.{PlanOutcome, plan_trade_calendar_slices_exact}
use quant_stock.Collect.Creation.{submit, new_slice, create_task_idempotent}
use quant_stock.Collect.Creation.Once.{IsUnique, submit-IsUnique}
use quant_stock.Collect.MarketData.{
  Draws, enqueue_trade_date_item, is_trade_date_item, catalog, trade_date_task, trade_date_slices,
  page_size_of,
}
use quant_stock.Collect.MarketData.Repeat.{enqueue_trade_date_again}
use quant_stock.Collect.Samples.{task, queue}

-- a digest for the examples
unfoldable mutual
  text_of : Json → String
  text_of null = "null"
  text_of (flag true) = "true"
  text_of (flag false) = "false"
  text_of (num n) = show n
  text_of (str s) = s
  text_of (array vs) = items_text vs
  text_of (object d) = dict_text d

  items_text : Items → String
  items_text nil = "]"
  items_text (cons v vs) = text_append (text_of v) (text_append "," (items_text vs))

  dict_text : Dict → String
  dict_text empty = "}"
  dict_text (entry k v d) =
      text_append k (text_append ":" (text_append (text_of v) (text_append "," (dict_text d))))

build_request_hash-Reordered_example :
    build_request_hash text_of "tushare:stock_daily" "daily"
      (entry "trade_date" (str "20240105") (entry "limit" (num 6000) empty))
      "v1"
    ≡ build_request_hash text_of "tushare:stock_daily" "daily"
        (entry "limit" (num 6000) (entry "trade_date" (str "20240105") empty))
        "v1"
build_request_hash-Reordered_example =
    build_request_hash-Reordered text_of "tushare:stock_daily" "daily" "v1"
      (swapped "trade_date" "limit" (str "20240105") (num 6000) empty (λ e. cc))

plan_trade_calendar_slices_exact_example :
    PlanOutcome text_of "SSE" "tushare:trade_calendar" "v1" 19700 19800
      (plan_trade_calendar_slices text_of "SSE" "tushare:trade_calendar" "v1" 19700 19800)
plan_trade_calendar_slices_exact_example =
    plan_trade_calendar_slices_exact text_of "SSE" "tushare:trade_calendar" "v1" 19700 19800

abbrev market : Store
market = record queue {
  tasks = [];
  slices = [];
  items = record { data_item_id = 1; code = "stock_daily"; frequency = some "day" } ∷ [];
}

abbrev draws : ℕ → Draws
draws n = record { task_id = n; trace_id = n + 1; slice_id = λ i. n + 2 + i }

abbrev one_slice : CollectTask → Result (List RequestSlice)
one_slice t = ok (new_slice 5 t "p" 0 empty "h" none none none none ∷ [])

abbrev stored : CollectTask
stored = record (task TaskStatus.pending) { idempotency_version = some 1 }

abbrev after : Store
after = record market {
  tasks = stored ∷ [];
  slices = new_slice 5 stored "p" 0 empty "h" none none none none ∷ [];
}

submitted : submit (task TaskStatus.pending) one_slice market ≡ ok (stored, true, after)
unfolding submit create_task_idempotent first
submitted = refl

market-IsUnique : IsUnique market.tasks
unfolding count
market-IsUnique version key = omega arith

submit-IsUnique_example : IsUnique after.tasks
submit-IsUnique_example =
    submit-IsUnique (task TaskStatus.pending) one_slice market market-IsUnique submitted

abbrev enqueued : Result (CollectTask × Bool × Store)
enqueued =
    enqueue_trade_date_item text_of (draws 100) "stock_daily" 19727 "INCREMENTAL" "scheduler" none
      market

abbrev left_by : Result (CollectTask × Bool × Store) → CollectTask × Bool × Store
left_by (ok r) = r
left_by (err e) = (stored, false, market)

enqueue_succeeds : enqueued ≡ ok (left_by enqueued)
unfolding enqueue_trade_date_item is_trade_date_item catalog trade_date_task trade_date_slices
    page_size_of submit create_task_idempotent first text_of content_key get plan_trade_date_slice
enqueue_succeeds = refl

enqueue_trade_date_again_example :
    (u : CollectTask) × (enqueue_trade_date_item text_of
        (draws 200)
        "stock_daily"
        19727
        "INCREMENTAL"
        "operator"
        (some "again")
        (left_by enqueued).2
      ≡ ok (u, false, (left_by enqueued).2))
enqueue_trade_date_again_example =
    enqueue_trade_date_again text_of (draws 100) (draws 200) "stock_daily" 19727 "INCREMENTAL"
      "scheduler" "operator" none (some "again") market enqueue_succeeds
