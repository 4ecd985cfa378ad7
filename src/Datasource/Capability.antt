-- ===== src/Datasource/Capability.antt =====
-- app/datasource/capability.py: the probe of a binding.
pub mod Stops
mod Examples
use Prim.Native.String.{◌++◌ as text_append}
use quant_stock.Base.{
  ℕ, Bool, true, false, not, String, Option, none, some, List, [], ◌∷◌, ◌==◌, first, length, update,
  str_eq, if◌then◌else◌,
}
use quant_stock.Base.Result.{Result, ok, err, value_error, raise_if, require, ◌>>=◌, ◌>>◌}
use quant_stock.Base.Json.{str, Dict, empty, entry}
use quant_stock.Base.Calendar.{ymd, local_date}
use quant_stock.Collect.Model.{SourceBinding, DataSource, Store}
use quant_stock.Collect.Executor.Settle.{Failure}
use quant_stock.Collect.Executor.Rows.{set_binding}
use quant_stock.Collect.Executor.{Response, answered, refused, missing_fields, join}

pub record ProbeSpec : Type 0 where
  pub params : Dict
  pub fields : List String

pub record ProbeResult : Type 0 where
  pub binding_code : String
  pub capability_status : String
  pub schema_fingerprint : Option String
  pub response_rows : ℕ
  pub error_type : Option String
  pub message : Option String

abbrev spec : Dict → List String → Result ProbeSpec
spec params fields = ok (record { params = params; fields = fields })

abbrev on_day : String → Dict
on_day day = entry "trade_date" (str day) empty

abbrev since_2024 : String → Dict
since_2024 end_day =
    entry "ts_code" (str "000001.SZ")
      (entry "start_date" (str "20240101") (entry "end_date" (str end_day) empty))

unfoldable pub build_probe_spec : String → ℕ → Result ProbeSpec
build_probe_spec api_name now =
    let day = ymd (local_date now) in
    if str_eq api_name "trade_cal"
    then spec
        (entry "exchange" (str "SSE")
          (entry "start_date" (str day) (entry "end_date" (str day) empty)))
        ("exchange" ∷ "cal_date" ∷ "is_open" ∷ "pretrade_date" ∷ [])
    else if str_eq api_name "stock_basic"
    then spec (entry "exchange" (str "") (entry "list_status" (str "L") empty))
        ("ts_code" ∷ "symbol" ∷ "name" ∷ "list_status" ∷ "list_date" ∷ "exchange" ∷ [])
    else if str_eq api_name "daily"
    then spec (on_day day)
        ("ts_code" ∷ "trade_date" ∷ "open" ∷ "high" ∷ "low" ∷ "close" ∷ "vol" ∷ "amount" ∷ [])
    else if str_eq api_name "adj_factor"
    then spec (on_day day) ("ts_code" ∷ "trade_date" ∷ "adj_factor" ∷ [])
    else if str_eq api_name "daily_basic"
    then spec (on_day day)
        ("ts_code" ∷ "trade_date" ∷ "close" ∷ "turnover_rate" ∷ "pe" ∷ "pb" ∷ "total_mv" ∷ [])
    else if str_eq api_name "suspend_d"
    then spec (on_day day) ("ts_code" ∷ "trade_date" ∷ "suspend_timing" ∷ "suspend_type" ∷ [])
    else if str_eq api_name "stk_limit"
    then spec (on_day day) ("trade_date" ∷ "ts_code" ∷ "pre_close" ∷ "up_limit" ∷ "down_limit" ∷ [])
    else if str_eq api_name "stk_mins"
    then spec
        (entry "ts_code" (str "000001.SZ") (
          entry "freq" (str "1min") (
            entry "start_date" (str "2024-01-02 09:00:00")
              (entry "end_date" (str "2024-01-02 15:30:00") empty))))
        ("ts_code" ∷ "trade_time" ∷ "open" ∷ "close" ∷ "high" ∷ "low" ∷ "vol" ∷ "amount" ∷ [])
    else if str_eq api_name "income"
    then spec (since_2024 day) (
        "ts_code" ∷ "ann_date" ∷ "f_ann_date" ∷ "end_date" ∷ "report_type" ∷ "comp_type"
        ∷ "end_type" ∷ "update_flag" ∷ "basic_eps" ∷ "revenue" ∷ "n_income_attr_p" ∷ [])
    else if str_eq api_name "fina_indicator"
    then spec (since_2024 day) (
        "ts_code" ∷ "ann_date" ∷ "end_date" ∷ "eps" ∷ "dt_eps" ∷ "roe" ∷ "roa" ∷ "debt_to_assets"
        ∷ "update_flag" ∷ [])
    else err (value_error "No capability probe spec configured for api")

-- _probe_status
unfoldable pub probe_status : String → String
probe_status error_type =
    if str_eq error_type "AUTH_ERROR"
    then "temporarily_unavailable"
    else if str_eq error_type "PERMISSION_DENIED"
    then "permission_denied"
    else if str_eq error_type "RATE_LIMITED"
    then "rate_limited"
    else if str_eq error_type "INVALID_REQUEST"
    then "temporarily_unavailable"
    else if str_eq error_type "NETWORK_ERROR"
    then "temporarily_unavailable"
    else "provider_error"

-- source.health_status and last_health_check_at, where the source is there
abbrev pub set_health : ℕ → ℕ → String → Store → Store
set_health source_id now health db = record db {
  sources =
      update (λ s. s.source_id == source_id)
        (λ s. record s { health_status = health; last_health_check_at = some now }) db.sources;
}

-- binding.capability_status, last_probe_status and last_probe_at
abbrev pub probed : ℕ → String → SourceBinding → SourceBinding
probed now status b = record b {
  capability_status = status;
  last_probe_status = some status;
  last_probe_at = some now;
}

-- what the probe makes of the answer of the provider
unfoldable pub settle_probe : ℕ → SourceBinding → ProbeSpec → Response → Store → ProbeResult × Store
settle_probe now b spec (refused failure) db =
    let status = probe_status failure.error_type in
    (
      record {
        binding_code = b.binding_code;
        capability_status = status;
        schema_fingerprint = none;
        response_rows = 0;
        error_type = some failure.error_type;
        message = some failure.message;
      },
      set_health b.source_id now
          (if str_eq failure.error_type "AUTH_ERROR" then "unavailable" else "degraded")
          (set_binding b.source_binding_id
            (λ b. record (probed now status b) { last_failure_at = some now }) db),
    )
settle_probe now b spec (answered columns rows fingerprint) db =
    let missing = missing_fields columns spec.fields in
    let status = if length missing == 0 then "available" else "schema_changed" in
    (
      record {
        binding_code = b.binding_code;
        capability_status = status;
        schema_fingerprint = some fingerprint;
        response_rows = length rows;
        error_type = (if length missing == 0 then none else some "SCHEMA_CHANGED");
        message =
            (if length missing == 0
              then none
              else some (text_append "Missing expected fields: " (join missing)));
      },
      set_health b.source_id now (if length missing == 0 then "healthy" else "degraded") (
          set_binding b.source_binding_id
            (λ b. record (probed now status b) { schema_fingerprint = some fingerprint }) db),
    )

-- the provider is a function from requests to answers
unfoldable pub probe_binding :
    ℕ → (String → Dict → List String → Response) → String → Store → Result (ProbeResult × Store)
probe_binding now query binding_code db = do
  b ←
      require (first (λ b. str_eq b.binding_code binding_code) db.bindings)
        (value_error "SourceBinding not found")
  raise_if (not (str_eq b.adapter_type "tushare"))
      (value_error "Unsupported adapter type for probe")
  spec ← build_probe_spec b.api_name now
  ok (settle_probe now b spec (query b.api_name spec.params spec.fields) db)
