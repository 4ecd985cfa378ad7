-- ===== src/DataContext/Snapshot/Examples.antt =====
-- A snapshot of two batches, one of them without a quality run.
use quant_stock.Base.{
  ℕ, ◌≡◌, refl, Bool, false, String, Option, none, some, List, [], ◌∷◌, select, sort, place,
}
use quant_stock.Base.Result.{ok}
use quant_stock.DataContext.Query.{naive, contains}
use quant_stock.DataContext.Cutoff.{resolve_cutoff}
use quant_stock.DataContext.Snapshot.{
  PublishedBatch, ItemRow, build_snapshot, build_at, item_ids, included_batches, holds_id, sum_rows,
}
use quant_stock.DataContext.Snapshot.Inputs.{SnapshotOutcome, build_snapshot_exact}

abbrev batch_of : String → Option ℕ → PublishedBatch
batch_of id run = record {
  clean_batch_id = id;
  data_item_id = 4;
  status = "PUBLISHED";
  superseded_at = none;
  published_at = some 90;
  published_quality_run_id = run;
  published_content_hash = none;
  published_rows = some 12;
}

abbrev batches : List PublishedBatch
batches = batch_of "b1" (some 1) ∷ batch_of "b2" none ∷ []

abbrev items : List ItemRow
items = record { data_item_id = 4; code = "stock_daily" } ∷ []

abbrev first_or_none : List String → String
first_or_none [] = "none"
first_or_none (s ∷ ss) = s

abbrev never : String → String → Bool
never a b = false

-- one input, one batch skipped
frozen :
    build_snapshot never first_or_none 500 items batches
      ("stock_daily" ∷ [])
      (naive 100)
      "STANDARD"
      "none"
      none
    ≡ ok (
      record {
        status = "READY";
        as_of_time = naive 100;
        available_at_cutoff = 100;
        data_item_codes = "stock_daily" ∷ [];
        quality_policy_version = "STANDARD";
        adjustment_policy = "none";
        content_fingerprint = "b1";
        skipped_failed_count = 1;
        total_rows = 12;
      },
      record {
        clean_batch_id = "b1";
        quality_policy_version = "STANDARD";
        as_of_time = naive 100;
        available_at_cutoff = 100;
      }
          ∷ [],
    )
unfolding build_snapshot build_at resolve_cutoff item_ids included_batches holds_id sum_rows
    contains select sort place
frozen = refl

build_snapshot_exact_example :
    SnapshotOutcome never first_or_none 500 items batches
      ("stock_daily" ∷ [])
      (naive 100)
      "STANDARD"
      "none"
      none
      (build_snapshot never first_or_none 500 items batches
        ("stock_daily" ∷ [])
        (naive 100)
        "STANDARD"
        "none"
        none)
build_snapshot_exact_example =
    build_snapshot_exact never first_or_none 500 items batches ("stock_daily" ∷ []) (naive 100)
      "STANDARD" "none" none
