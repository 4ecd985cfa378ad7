-- ===== src/DataContext/Query.antt =====
-- app/datacontext/query.py: the value objects of a query.
use quant_stock.Base.{
  ℕ, Bool, true, false, ◌&&◌, not, String, Option, none, some, List, [], ◌∷◌, length, ◌==◌, str_eq,
  if◌then◌else◌,
}
use quant_stock.Base.Result.{Result, ok, value_error, raise_if, ◌>>◌}

pub data Frequency : Type 0 where
  daily weekly monthly minute_1 minute_5 minute_15 minute_30 minute_60 : Frequency

abbrev pub frequency_value : Frequency → String
frequency_value Frequency.daily = "daily"
frequency_value Frequency.weekly = "weekly"
frequency_value Frequency.monthly = "monthly"
frequency_value Frequency.minute_1 = "1min"
frequency_value Frequency.minute_5 = "5min"
frequency_value Frequency.minute_15 = "15min"
frequency_value Frequency.minute_30 = "30min"
frequency_value Frequency.minute_60 = "60min"

pub data AdjustmentMethod : Type 0 where
  unadjusted forward_adj backward_adj : AdjustmentMethod

abbrev pub adjustment_value : AdjustmentMethod → String
adjustment_value AdjustmentMethod.unadjusted = "none"
adjustment_value AdjustmentMethod.forward_adj = "forward_adj"
adjustment_value AdjustmentMethod.backward_adj = "backward_adj"

pub data QualityPolicy : Type 0 where
  strict standard lenient : QualityPolicy

pub data TimeMode : Type 0 where
  research strategy backtest : TimeMode

-- the allow-list of a policy
unfoldable pub quality_policy_allowed_statuses : QualityPolicy → List String
quality_policy_allowed_statuses QualityPolicy.strict = "PASSED" ∷ []
quality_policy_allowed_statuses QualityPolicy.standard = "PASSED" ∷ "WARNING" ∷ []
quality_policy_allowed_statuses QualityPolicy.lenient = "PASSED" ∷ "WARNING" ∷ []

-- value in collection
unfoldable pub contains : String → List String → Bool
contains s [] = false
contains s (x ∷ xs) = let rest = contains s xs in if str_eq s x then true else rest

pub record SecurityScope : Type 0 where
  pub mode : String
  pub codes : Option (List String)

-- not codes
abbrev pub no_codes : Option (List String) → Bool
no_codes none = true
no_codes (some []) = true
no_codes (some (c ∷ cs)) = false

abbrev one_code : Option (List String) → Bool
one_code none = true
one_code (some cs) = length cs == 1

-- SecurityScope(mode=..., codes=...), with the checks of __post_init__
unfoldable pub security_scope : String → Option (List String) → Result SecurityScope
unfolding contains
security_scope mode codes = do
  raise_if (not (contains mode ("single" ∷ "pool" ∷ "full_market" ∷ [])))
      (value_error "unsupported security scope mode")
  raise_if (contains mode ("single" ∷ "pool" ∷ []) && no_codes codes)
      (value_error "security scope mode requires non-empty codes")
  raise_if (str_eq mode "single" && not (one_code codes))
      (value_error "security scope mode 'single' requires exactly one code")
  ok (record { mode = mode; codes = codes })

abbrev pub is_full_market : SecurityScope → Bool
is_full_market s = str_eq s.mode "full_market"

-- A Python datetime: an instant in UTC, written with or without its zone.
pub data DateTime : Type 0 where
  naive aware : ℕ → DateTime

pub record QueryContext : Type 0 where
  pub security_scope : SecurityScope
  pub frequency : Frequency
  pub start_date : Option ℕ
  pub end_date : Option ℕ
  pub start_time : Option ℕ
  pub end_time : Option ℕ
  pub as_of_time : Option DateTime
  pub available_at_cutoff : Option DateTime
  pub time_mode : TimeMode
  pub adjustment_method : AdjustmentMethod
  pub quality_policy : QualityPolicy
  pub report_type : String
  pub revision_version : Option ℕ
  pub event_type : Option String
