-- ===== src/DataContext/Snapshot.antt =====
-- app/datacontext/snapshot_builder.py: a reproducible view of the published batches.
-- `digest` is sha256 over the texts joined by "|"; `text_before` is Python's order on texts.
pub mod Inputs
mod Examples
use quant_stock.Base.{
  ℕ, ◌+◌, ◌-◌, ◌≡◌, Bool, true, false, ◌&&◌, ◌||◌, not, String, Option, none, some, List, [], ◌∷◌,
  map, leb, ◌==◌, str_eq, if◌then◌else◌, is_none, select, sort, length,
}
use quant_stock.Base.Result.{Result, ok, err, value_error, raise_if, ◌>>=◌, ◌>>◌}
use quant_stock.DataContext.Query.{TimeMode, DateTime, QualityPolicy, AdjustmentMethod, contains}
use quant_stock.DataContext.Cutoff.{resolve_cutoff}

-- clean.clean_batch, as a snapshot reads it
pub record PublishedBatch : Type 0 where
  pub clean_batch_id : String
  pub data_item_id : ℕ
  pub status : String
  pub superseded_at : Option ℕ
  pub published_at : Option ℕ
  pub published_quality_run_id : Option ℕ
  pub published_content_hash : Option String
  pub published_rows : Option ℕ

-- meta.data_item
pub record ItemRow : Type 0 where
  pub data_item_id : ℕ
  pub code : String

pub record DataSnapshot : Type 0 where
  pub status : String
  pub as_of_time : DateTime
  pub available_at_cutoff : ℕ
  pub data_item_codes : List String
  pub quality_policy_version : String
  pub adjustment_policy : String
  pub content_fingerprint : String
  pub skipped_failed_count : ℕ
  pub total_rows : ℕ

-- clean_batch_id of each DataSnapshotInput, with the values that it repeats
pub record DataSnapshotInput : Type 0 where
  pub clean_batch_id : String
  pub quality_policy_version : String
  pub as_of_time : DateTime
  pub available_at_cutoff : ℕ

-- DataItem.code.in_(codes), then the ids
unfoldable pub item_ids : List String → List ItemRow → List ℕ
item_ids codes items = map (λ i. i.data_item_id) (select (λ i. contains i.code codes) items)

unfoldable pub holds_id : ℕ → List ℕ → Bool
holds_id n [] = false
holds_id n (i ∷ ids) = let rest = holds_id n ids in if n == i then true else rest

-- published_at IS NULL OR published_at <= cutoff
abbrev pub published_by : ℕ → Option ℕ → Bool
published_by cutoff none = true
published_by cutoff (some t) = leb t cutoff

-- the WHERE clause on the batches
abbrev pub is_candidate : List ℕ → ℕ → PublishedBatch → Bool
is_candidate ids cutoff b =
    holds_id b.data_item_id ids
    && str_eq b.status "PUBLISHED"
    && is_none b.superseded_at
    && published_by cutoff b.published_at

-- published_quality_run_id is None
abbrev pub is_unverified : PublishedBatch → Bool
is_unverified b = is_none b.published_quality_run_id

-- published_content_hash or str(clean_batch_id)
abbrev pub content_hash : PublishedBatch → String
content_hash b = elim b.published_content_hash [
  | none ↦ b.clean_batch_id
  | some h ↦ if str_eq h "" then b.clean_batch_id else h
]

-- sum(int(batch.published_rows or 0))
unfoldable pub sum_rows : List PublishedBatch → ℕ
sum_rows [] = 0
sum_rows (b ∷ bs) = elim b.published_rows [ none ↦ sum_rows bs | some n ↦ n + sum_rows bs ]

abbrev pub is_empty {ℓ} : {A : Type ℓ} → List A → Bool
is_empty [] = true
is_empty (x ∷ xs) = false

-- the batches that pass the quality gate
unfoldable pub included_batches : List ℕ → ℕ → List PublishedBatch → List PublishedBatch
included_batches ids cutoff batches =
    select (λ b. not (is_unverified b)) (select (is_candidate ids cutoff) batches)

-- DataSnapshotInput(...) of a batch
abbrev pub input_of : String → DateTime → ℕ → PublishedBatch → DataSnapshotInput
input_of policy as_of_time cutoff b = record {
  clean_batch_id = b.clean_batch_id;
  quality_policy_version = policy;
  as_of_time = as_of_time;
  available_at_cutoff = cutoff;
}

module _ (text_before : String → String → Bool) (digest : List String → String) where
  -- build_snapshot, once the cutoff is resolved
  unfoldable pub build_at :
      List ItemRow
      → List PublishedBatch
      → List String
      → DateTime
      → String
      → String
      → ℕ
      → Result (DataSnapshot × List DataSnapshotInput)
  build_at items batches codes as_of_time policy adjustment cutoff = do
    raise_if (is_empty codes) (value_error "data_item_codes must not be empty")
    let ids = item_ids codes items
    raise_if (is_empty ids) (value_error "no DataItem found for codes")
    let included = included_batches ids cutoff batches
    ok (
      record {
        status = "READY";
        as_of_time = as_of_time;
        available_at_cutoff = cutoff;
        data_item_codes = codes;
        quality_policy_version = policy;
        adjustment_policy = adjustment;
        content_fingerprint = digest (sort text_before (map content_hash included));
        skipped_failed_count =
            length (select is_unverified (select (is_candidate ids cutoff) batches));
        total_rows = sum_rows included;
      },
      map (input_of policy as_of_time cutoff) included,
    )

  unfoldable pub build_snapshot :
      ℕ
      → List ItemRow
      → List PublishedBatch
      → List String
      → DateTime
      → String
      → String
      → Option DateTime
      → Result (DataSnapshot × List DataSnapshotInput)
  build_snapshot now items batches codes as_of_time policy adjustment requested = do
    cutoff ← resolve_cutoff now TimeMode.backtest (some as_of_time) requested
    build_at items batches codes as_of_time policy adjustment cutoff
