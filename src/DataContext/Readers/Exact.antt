-- ===== src/DataContext/Readers/Exact.antt =====
-- app/datacontext/readers: which rows a query is answered with.
use quant_stock.Base.{ℕ, ◌≤◌, ◌≡◌, ◌↔◌, Bool, true, String, List}
use quant_stock.DataContext.Query.{QueryContext}
use quant_stock.DataContext.Readers.{DailyRow, daily_visible, read_daily}
use quant_stock.DataContext.Readers.Gate.{InWindow, resolve_security_codes}
use quant_stock.DataContext.Readers.Answer.{Admissible, Shown, Answer, seen_iff, reader_exact}

module _ {Num : Type 0} (now : ℕ) (q : QueryContext) where
  abbrev pub DailySeen : DailyRow Num → Type 0
  DailySeen r =
      Shown now q (resolve_security_codes q.security_scope) r.security_code r.quality_status
        r.available_at
      × InWindow q.start_date q.end_date r.trade_date

  daily_right :
      (c : ℕ)
      → ((d : ℕ) → Admissible now q d ↔ (d ≤ c))
      → (r : DailyRow Num) → (daily_visible c q r ≡ true) ↔ DailySeen r
  unfolding daily_visible
  daily_right c h r =
      seen_iff now q c h _ r.security_code r.quality_status r.available_at q.start_date q.end_date
        r.trade_date

module _ {Num : Type 0} (code_before : String → String → Bool) (now : ℕ) where
  -- A daily query is answered with exactly the rows of the table that were available at an instant
  -- admissible to the query, that pass the publish gate of its quality policy, and whose code and
  -- date it asks for; it raises only where no instant is admissible.
  pub read_daily_exact :
      (table : List (DailyRow Num)) (q : QueryContext)
      → Answer now q (DailySeen now q) table (read_daily code_before now table q)
  unfolding read_daily
  read_daily_exact table q =
      reader_exact now q _ (λ c. daily_visible c q) (DailySeen now q) table (daily_right now q)
