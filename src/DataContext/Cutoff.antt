-- ===== src/DataContext/Cutoff.antt =====
-- app/datacontext/time_semantics.py: the bound on `available_at` of every query.
use quant_stock.Base.{ℕ, ◌↔◌, ◌≤◌, min, Option, none, some, arith}
use quant_stock.Base.Result.{Result, ok, err, value_error}
use quant_stock.DataContext.Query.{TimeMode, DateTime, naive, aware}

-- _ensure_aware: a naive time is read as UTC
abbrev pub ensure_aware : DateTime → ℕ
ensure_aware (naive t) = t
ensure_aware (aware t) = t

unfoldable pub resolve_cutoff : ℕ → TimeMode → Option DateTime → Option DateTime → Result ℕ
resolve_cutoff now TimeMode.research as_of none = ok now
resolve_cutoff now TimeMode.research as_of (some cutoff) = ok (min now (ensure_aware cutoff))
resolve_cutoff now TimeMode.strategy none cutoff =
    err (value_error "strategy time mode requires as_of_time")
resolve_cutoff now TimeMode.strategy (some anchor) none = ok (min (ensure_aware anchor) now)
resolve_cutoff now TimeMode.strategy (some anchor) (some cutoff) =
    ok (min (ensure_aware anchor) (ensure_aware cutoff))
resolve_cutoff now TimeMode.backtest none cutoff =
    err (value_error "backtest time mode requires as_of_time")
resolve_cutoff now TimeMode.backtest (some anchor) none = ok (ensure_aware anchor)
resolve_cutoff now TimeMode.backtest (some anchor) (some cutoff) =
    ok (min (ensure_aware anchor) (ensure_aware cutoff))

-- a bound that is there only if the value is
abbrev pub Within : ℕ → Option DateTime → Type 0
Within c none = Unit
Within c (some t) = c ≤ ensure_aware t

-- The bounds that the design sets on the cutoff of each mode (REQ-CORE-021): research reads what is
-- available now; strategy and backtest need a point in time and read nothing that came after it; a
-- requested cutoff bounds every mode.
abbrev pub IsAdmissible : ℕ → TimeMode → Option DateTime → Option DateTime → ℕ → Type 0
IsAdmissible now TimeMode.research as_of cutoff c = (c ≤ now) × Within c cutoff
IsAdmissible now TimeMode.strategy none cutoff c = ⊥
IsAdmissible now TimeMode.strategy (some t) none c = (c ≤ ensure_aware t) × (c ≤ now)
IsAdmissible now TimeMode.strategy (some t) (some u) c = (c ≤ ensure_aware t) × (c ≤ ensure_aware u)
IsAdmissible now TimeMode.backtest none cutoff c = ⊥
IsAdmissible now TimeMode.backtest (some t) cutoff c = (c ≤ ensure_aware t) × Within c cutoff

-- what a call may answer: the instant up to which all are admissible and after which none is, or
-- an error where no instant is
abbrev pub CutoffOutcome : ℕ → TimeMode → Option DateTime → Option DateTime → Result ℕ → Type 0
CutoffOutcome now mode as_of cutoff (ok c) =
    (d : ℕ) → IsAdmissible now mode as_of cutoff d ↔ (d ≤ c)
CutoffOutcome now mode as_of cutoff (err e) = (d : ℕ) → ¬ IsAdmissible now mode as_of cutoff d

-- In every mode, where resolve_cutoff answers an instant, the admissible instants are those up to
-- it, so that it is the latest of them; where it raises, no instant is admissible.
pub resolve_cutoff_exact :
    (now : ℕ) (mode : TimeMode) (as_of cutoff : Option DateTime)
    → CutoffOutcome now mode as_of cutoff (resolve_cutoff now mode as_of cutoff)
unfolding resolve_cutoff
resolve_cutoff_exact now TimeMode.research as_of none = λ d. ground arith
resolve_cutoff_exact now TimeMode.research as_of (some t) = λ d. ground arith
resolve_cutoff_exact now TimeMode.strategy none cutoff = λ d h. h
resolve_cutoff_exact now TimeMode.strategy (some t) none = λ d. ground arith
resolve_cutoff_exact now TimeMode.strategy (some t) (some u) = λ d. ground arith
resolve_cutoff_exact now TimeMode.backtest none cutoff = λ d h. h
resolve_cutoff_exact now TimeMode.backtest (some t) none = λ d. ground arith
resolve_cutoff_exact now TimeMode.backtest (some t) (some u) = λ d. ground arith
