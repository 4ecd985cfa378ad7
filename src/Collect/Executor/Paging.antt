-- ===== src/Collect/Executor/Paging.antt =====
-- app/collect/executor.py: offset pages, and the chunks of an insert.
pub mod Chunks
pub mod Pages
use quant_stock.Base.{
  ℕ, zero, suc, ◌+◌, Bool, true, false, ◌&&◌, String, Option, none, some, List, [], ◌∷◌, leb, ltb,
  str_eq, take, drop, length, if◌then◌else◌,
}
use quant_stock.Base.Result.{Result, ok, err, value_error, raise_if, ◌>>=◌, ◌>>◌}
use quant_stock.Base.Json.{num, Dict, get_or, put, to_int}

-- `max_rows_per_request or 0`
abbrev pub number_or : Option ℕ → ℕ → ℕ
number_or none d = d
number_or (some zero) d = d
number_or (some (suc n)) d = suc n

-- pagination_mode == "offset"
abbrev pub is_offset : Option String → Bool
is_offset none = false
is_offset (some mode) = str_eq mode "offset"

unfoldable pub next_offset_page_params : Dict → ℕ → Option ℕ → Option String → Result (Option Dict)
next_offset_page_params request_params response_rows max_rows_per_request pagination_mode =
    if is_offset pagination_mode
    then (do
      page_size ← to_int (get_or request_params "limit" (num (number_or max_rows_per_request 0)))
      raise_if (leb page_size 0) (value_error "offset pagination requires a positive page size")
      (if ltb response_rows page_size then ok none else (do
        current_offset ← to_int (get_or request_params "offset" (num 0))
        ok (
            some (
              put (put request_params "limit" (num page_size)) "offset"
                (num (current_offset + page_size)))))))
    else ok none

unfoldable pub is_continuation_page : Dict → Option String → Result Bool
is_continuation_page request_params pagination_mode =
    if is_offset pagination_mode
    then (do offset ← to_int (get_or request_params "offset" (num 0)); ok (ltb 0 offset))
    else ok false

module _ {ℓ} {A : Type ℓ} where
  -- for start in range(0, len(values), size): yield values[start : start + size]
  unfoldable pub chunks : ℕ → ℕ → List A → List (List A)
  chunks zero size values = []
  chunks (suc fuel) size [] = []
  chunks (suc fuel) size (v ∷ vs) = take size (v ∷ vs) ∷ chunks fuel size (drop size (v ∷ vs))

  -- fuel for each value
  unfoldable pub chunk_rows : ℕ → List A → Result (List (List A))
  chunk_rows size values = do
    raise_if (leb size 0) (value_error "chunk size must be positive")
    ok (chunks (length values) size values)
