-- ===== src/Collect/Executor/Raw.antt =====
-- app/collect/executor.py: the RAW rows of an answer. `digest` hashes canonical JSON (Collect/Idempotency).
pub mod Unique
pub mod Written
use quant_stock.Base.{
  ℕ, Bool, true, false, ◌&&◌, not, String, Option, none, some, List, [], ◌∷◌, ◌++◌, ◌==◌, str_eq,
  length, count, if◌then◌else◌,
}
use quant_stock.Base.Result.{Result, ok, err, runtime_error, raise_if, require, ◌>>=◌, ◌>>◌}
use quant_stock.Base.Json.{Json, null, str, object, Dict, empty, entry, get, get_or, put, to_text}
use quant_stock.Collect.Model.{
  RequestSlice, SourceBinding, RunStatus, CollectRun, RawBatch, RawRow, Store,
}
use quant_stock.Collect.Idempotency.{content_key}
use quant_stock.Collect.Creation.{text_or}
use quant_stock.Collect.Executor.Fields.{item_fields}
use quant_stock.Collect.Executor.Paging.{chunk_rows}
use quant_stock.Collect.Executor.Rows.{set_raw_batch}

-- {field: row.get(field) for field in fields}
unfoldable pub business_of : Dict → List String → Dict
business_of row [] = empty
business_of row (f ∷ fs) =
    entry f (elim (get row f) [ none ↦ null | some v ↦ v ]) (business_of row fs)

-- str(business["is_open"]) unless it is None
open_text : Option Json → Dict → Dict
open_text none d = d
open_text (some null) d = d
open_text (some v) d = put d "is_open" (str (to_text v))

-- slice_row.frequency or str(slice_row.request_params.get("freq") or "")
abbrev frequency_of : RequestSlice → String
frequency_of s = text_or s.frequency (to_text (get_or s.request_params "freq" (str "")))

-- what the loop does to the values of one row, by item
unfoldable pub adapt : String → RequestSlice → Dict → Result Dict
unfolding open_text
adapt item_code s business =
    if str_eq item_code "trade_calendar"
    then ok (open_text (get business "is_open") business)
    else if str_eq item_code "stock_minute"
    then (do
      raise_if (str_eq (frequency_of s) "")
          (runtime_error "stock_minute requires frequency in request context")
      ok (put business "frequency" (str (frequency_of s))))
    else ok business

-- the business columns of each row, as the loop makes them
unfoldable pub businesses_of : String → RequestSlice → List String → List Dict → Result (List Dict)
businesses_of item_code s fields [] = ok []
businesses_of item_code s fields (row ∷ rows) =
    let rest = businesses_of item_code s fields rows in
    do business ← adapt item_code s (business_of row fields); others ← rest; ok (business ∷ others)

-- the columns of index_elements, in the table of an item
abbrev pub same_content : RawRow → RawRow → Bool
same_content a b =
    str_eq b.item_code a.item_code
    && str_eq b.source a.source
    && str_eq b.source_api a.source_api
    && str_eq b.content_hash a.content_hash

-- INSERT ... ON CONFLICT DO NOTHING of one row, and of the rows of a chunk
unfoldable pub insert_row : RawRow → List RawRow → List RawRow
insert_row r rows = if count (same_content r) rows == 0 then rows ++ r ∷ [] else rows

unfoldable pub insert_rows : List RawRow → List RawRow → List RawRow
insert_rows [] rows = rows
insert_rows (r ∷ rs) rows = insert_rows rs (insert_row r rows)

unfoldable pub insert_chunks : List (List RawRow) → List RawRow → List RawRow
insert_chunks [] rows = rows
insert_chunks (c ∷ cs) rows = insert_chunks cs (insert_rows c rows)

abbrev pub raw_insert_batch_size : ℕ
raw_insert_batch_size = 1000

-- the instants and the id of one write
pub record Writing : Type 0 where
  pub fetched_at : ℕ
  pub batch_at : ℕ
  pub written_at : ℕ
  pub raw_batch_id : ℕ

-- _new_raw_batch
unfoldable pub new_raw_batch : Writing → CollectRun → RequestSlice → SourceBinding → ℕ → RawBatch
new_raw_batch w run s binding row_count = record {
  raw_batch_id = w.raw_batch_id;
  run_id = run.run_id;
  slice_id = s.slice_id;
  source_binding_id = binding.source_binding_id;
  request_hash = s.request_hash;
  row_count = row_count;
  status = RunStatus.writing;
  schema_version = binding.field_mapping_version;
  started_at = w.batch_at;
  finished_at = none;
}

module _ (digest : Json → String) where
  abbrev pub raw_row : Writing → String → CollectRun → RequestSlice → SourceBinding → Dict → RawRow
  raw_row w item_code run s binding business = record {
    item_code = item_code;
    source = "tushare";
    source_api = binding.api_name;
    collect_run_id = run.run_id;
    raw_batch_id = w.raw_batch_id;
    fetched_at = w.fetched_at;
    request_hash = s.request_hash;
    content_hash = content_key digest (object business);
    schema_version = binding.field_mapping_version;
    business = business;
  }

  unfoldable pub raw_values :
      Writing → String → CollectRun → RequestSlice → SourceBinding → List Dict → List RawRow
  raw_values w item_code run s binding [] = []
  raw_values w item_code run s binding (business ∷ rest) =
      raw_row w item_code run s binding business ∷ raw_values w item_code run s binding rest

  unfoldable pub write_rows :
      Writing
      → String
      → CollectRun
      → RequestSlice
      → SourceBinding
      → List Dict
      → Store
      → Result Store
  write_rows w item_code run s binding rows db = do
    fields ← require (item_fields item_code) (runtime_error "Unsupported DataItem writer")
    businesses ← businesses_of item_code s fields rows
    chunks ← chunk_rows raw_insert_batch_size (raw_values w item_code run s binding businesses)
    let batch = new_raw_batch w run s binding (length rows)
    ok (
        set_raw_batch w.raw_batch_id
          (λ b. record b { status = RunStatus.succeeded; finished_at = some w.written_at })
          (record db {
            raw_batches = db.raw_batches ++ batch ∷ [];
            raw_rows = insert_chunks chunks db.raw_rows;
          }))
