-- ===== src/Datasource/Errors.antt =====
-- app/datasource/errors.py: the kind of a provider's exception, told from its message and its class. The texts are
-- taken in lower case, and the message with its secrets struck out.
use quant_stock.Base.{ℕ, Bool, true, false, ◌||◌, ◌&&◌, String, List, [], ◌∷◌, ◌==◌, if◌then◌else◌}
use quant_stock.Base.Text.{codes}
use quant_stock.Collect.Executor.Settle.{Failure}

-- text.startswith(word), on code points
starts_with : List ℕ → List ℕ → Bool
starts_with xs [] = true
starts_with [] (w ∷ ws) = false
starts_with (x ∷ xs) (w ∷ ws) = x == w && starts_with xs ws

occurs : List ℕ → List ℕ → Bool
unfolding starts_with
occurs [] ws = starts_with [] ws
occurs (x ∷ xs) ws = let rest = occurs xs ws in starts_with (x ∷ xs) ws || rest

-- any(token in text for token in words)
unfoldable pub any_in : List String → String → Bool
unfolding occurs
any_in [] text = false
any_in (w ∷ ws) text = let rest = any_in ws text in occurs (codes text) (codes w) || rest

abbrev failure : String → String → Bool → Failure
failure kind message again = record { error_type = kind; message = message; retryable = again }

unfoldable pub classify_provider_exception : String → String → String → Failure
classify_provider_exception message lowered class_name =
    if any_in ("无权限" ∷ "权限" ∷ "积分不足" ∷ "permission denied" ∷ "not allowed" ∷ []) lowered
    then failure "PERMISSION_DENIED" message false
    else if any_in ("频次" ∷ "每分钟" ∷ "访问太频繁" ∷ "rate limit" ∷ "too many requests" ∷ []) lowered
    then failure "RATE_LIMITED" message true
    else if any_in ("token" ∷ "凭证" ∷ "认证" ∷ "authentication" ∷ "unauthorized" ∷ []) lowered
    then failure "AUTH_ERROR" message false
    else if any_in ("参数" ∷ "parameter" ∷ "invalid request" ∷ "必须输入" ∷ []) lowered
    then failure "INVALID_REQUEST" message false
    else if any_in ("timeout" ∷ "connection" ∷ "network" ∷ []) class_name
        || any_in ("timeout" ∷ "timed out" ∷ "connection reset" ∷ "connection aborted" ∷ "网络" ∷ [])
            lowered
    then failure "NETWORK_ERROR" message true
    else failure "PROVIDER_ERROR" message true
