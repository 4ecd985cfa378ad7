-- ===== src/Collect/Executor/Examples.antt =====
-- The theorems about executions and turns at a small database, with one answer of a provider.
use quant_stock.Base.{
  ℕ, ◌<◌, true, false, ◌≡◌, refl, inr, String, none, some, List, [], ◌∷◌, update, first, select,
  best, count, arith, map,
}
use quant_stock.Base.Result.{Result, ok, err}
use quant_stock.Base.Json.{get_text, Json, num, str, Dict, empty, entry, get}
use quant_stock.Collect.StateMachine.{TaskStatus, SliceStatus}
use quant_stock.Collect.Model.{stage_of, CollectTask, RequestSlice, CollectRun, RunStatus, Store}
use quant_stock.Collect.Repository.{
  ClaimedSlice, claim_next_slice, claimable, next_slice, complete_slice, guarded_update,
}
use quant_stock.Collect.Recovery.{recover_expired_claims, recover_all}
use quant_stock.Collect.Samples.{task, slice, held, binding, queue, unlocked}
use quant_stock.Collect.Executor.Fields.{item_fields, adj_factor_fields}
use quant_stock.Collect.Executor.Paging.{chunk_rows, next_offset_page_params}
use quant_stock.Collect.Executor.Paging.Chunks.{ChunkOutcome, chunk_rows_exact}
use quant_stock.Collect.Executor.Paging.Pages.{requests, Pages, requests_cover}
use quant_stock.Collect.Executor.Raw.{Writing, write_rows, businesses_of, adapt}
use quant_stock.Collect.Executor.Raw.Unique.{IsUnique}
use quant_stock.Collect.Executor.Raw.Written.{write_rows-IsUnique, write_rows_again}
use quant_stock.Collect.Executor.Settle.{Failure, Held, handle_provider_failure}
use quant_stock.Collect.Executor.Settle.Policy.{FailureOutcome, handle_provider_failure_exact}
use quant_stock.Collect.Executor.Finalize.{
  Mark, move_watermark, finalize_task_if_complete, close_task,
}
use quant_stock.Collect.Executor.Finalize.Watermarks.{marks, move_watermark_grows}
use quant_stock.Collect.Executor.{
  Response, answered, execute_claimed_slice, settle, missing_fields, is_expected_non_empty, accept,
  note_success,
}
use quant_stock.Collect.Executor.Rows.{get_or_create_run, running_run, max_run_number}
use quant_stock.Collect.MarketData.{is_trade_date_item}
use quant_stock.Collect.Creation.{submit, create_task_idempotent}
use quant_stock.Governance.Tasks.{
  enqueue_clean_for_collect_task, is_p4_item, clean_request, scope_for_source_task,
  stage_definition, enqueue_stage_task, stage_task, stage_slice, stage_key,
}
use quant_stock.Collect.Idempotency.{content_key}
use quant_stock.Collect.Worker.{
  Turn, TurnEnd, idle, worked, handed_on, left_by as abandoned, work, collect, settle_claim,
  claim_of, by_stage,
}
use quant_stock.Collect.Worker.Ending.{TurnOutcome, work_ends_lease}

chunk_rows_exact_example :
    ChunkOutcome {A = ℕ} 2 (1 ∷ 2 ∷ 3 ∷ []) (chunk_rows {A = ℕ} 2 (1 ∷ 2 ∷ 3 ∷ []))
chunk_rows_exact_example = chunk_rows_exact {A = ℕ} 2 (1 ∷ 2 ∷ 3 ∷ [])

abbrev page : Dict
page = entry "trade_date" (str "20240105") (entry "limit" (num 2) (entry "offset" (num 0) empty))

requests_cover_example : Pages 5 2 0 (requests 5 none 6 2 0 page)
unfolding get
requests_cover_example =
    requests_cover 5 none 6 2 0 page (omega arith) (refl, refl) (omega arith) (omega arith)

abbrev digest : Json → String
digest v = "h"

abbrev run : ℕ → CollectRun
run id = record {
  run_id = id;
  task_id = 7;
  run_number = id;
  status = RunStatus.running;
  worker_id = some "w1";
  started_at = some 1;
  finished_at = none;
  heartbeat_at = some 1;
  error_type = none;
  error_message = none;
  request_count = 0;
  row_count = 0;
}

abbrev writing : ℕ → Writing
writing id = record { fetched_at = 10; batch_at = 11; written_at = 12; raw_batch_id = id }

abbrev factors : List Dict
factors =
    entry "ts_code" (str "000001.SZ")
      (entry "trade_date" (str "20240105") (entry "adj_factor" (str "1.5") empty))
    ∷ []

abbrev left_by : Result Store → Store
left_by (ok db) = db
left_by (err e) = queue

abbrev wrote : ℕ → Store → Result Store
wrote id = write_rows digest (writing id) "stock_adj_factor" (run id) held binding factors

wrote_once : wrote 1 queue ≡ ok (left_by (wrote 1 queue))
unfolding write_rows item_fields businesses_of adapt chunk_rows
wrote_once = refl

wrote_twice : wrote 2 (left_by (wrote 1 queue)) ≡ ok (left_by (wrote 2 (left_by (wrote 1 queue))))
unfolding write_rows item_fields businesses_of adapt chunk_rows
wrote_twice = refl

no_rows-IsUnique : IsUnique queue.raw_rows
unfolding count
no_rows-IsUnique r = omega arith

write_rows-IsUnique_example : IsUnique (left_by (wrote 1 queue)).raw_rows
write_rows-IsUnique_example =
    write_rows-IsUnique digest (writing 1) "stock_adj_factor" (run 1) held binding factors queue
      no_rows-IsUnique wrote_once

write_rows_again_example :
    (left_by (wrote 2 (left_by (wrote 1 queue)))).raw_rows ≡ (left_by (wrote 1 queue)).raw_rows
write_rows_again_example =
    write_rows_again digest (writing 1) (writing 2) "stock_adj_factor" (run 1) (run 2) held binding
      factors queue wrote_once wrote_twice

abbrev claimed : ClaimedSlice
claimed = record {
  slice_id = 11;
  task_id = 7;
  lease_token = 99;
  request_params = empty;
  request_hash = "h";
}

abbrev holding : Held
holding = record {
  claimed = claimed;
  task = task TaskStatus.running;
  run = run 1;
  attempt_id = 5;
  binding = binding;
}

abbrev timeout : Failure
timeout = record { error_type = "NETWORK_ERROR"; message = "timed out"; retryable = true }

handle_provider_failure_exact_example :
    FailureOutcome 5000 holding timeout 1 queue
      (handle_provider_failure 5000 holding timeout 1 queue)
handle_provider_failure_exact_example = handle_provider_failure_exact 5000 holding timeout 1 queue

abbrev year : CollectTask
year = record (task TaskStatus.running) { time_start = some 100; time_end = some 200 }

abbrev global : Mark
global = record { scope_key = "GLOBAL"; frequency = "day"; collected_at = some 200 }

move_watermark_grows_example :
    0 < count (marks 1 global 150) (move_watermark 300 global year binding [])
move_watermark_grows_example = move_watermark_grows 300 global year binding 150 [] (inr refl)

abbrev turn : Turn
turn = record {
  claimed_at = 1_000_000;
  lease_token = 42;
  lease_seconds = 60;
  readings = record {
    run_at = 1_000_001;
    attempt_at = 1_000_002;
    settled_at = 1_000_003;
    completed_at = 1_000_004;
    waited = 0;
    run_id = 70;
    attempt_id = 71;
    page_slice_id = 72;
    writing = writing 73;
    closing = record { finalized_at = 1_000_005; clean_task_id = 74; clean_slice_id = 75 };
  };
  failed_at = 1_000_006;
  text = "failed";
  fault = false;
  closing_fault = none;
}

abbrev provider : String → Dict → List String → Response
provider api params fields = answered adj_factor_fields factors "f"

-- a task of one slice, whose item has a definition of its cleaning
abbrev ready : Store
ready = record queue {
  tasks = year ∷ [];
  slices = slice 12 0 ∷ [];
  items = record { data_item_id = 1; code = "stock_adj_factor"; frequency = some "day" } ∷ [];
  definitions =
      record {
        task_definition_id = 6;
        task_code = "clean:stock_adj_factor";
        data_item_id = 1;
        update_mode = none;
        availability_rule = empty;
        priority = 30;
        enabled = true;
        definition_version = "v1";
      }
      ∷ [];
}

-- the database that the turn leaves
abbrev left : TurnEnd → Store
left (idle db) = db
left (worked c db) = db
left (handed_on c db) = db
left (abandoned e c db) = db

abbrev done : Store
done = left (work digest provider turn true "w2" unlocked ready)

turn_collects :
    map (λ (s : RequestSlice). s.status) done.slices
    ≡ SliceStatus.succeeded ∷ SliceStatus.pending ∷ []
unfolding work claim_next_slice next_slice best select recover_expired_claims recover_all claimable
    first get settle_claim collect by_stage execute_claimed_slice update item_fields settle
    missing_fields count get_text next_offset_page_params get_or_create_run running_run
    max_run_number is_expected_non_empty is_trade_date_item accept write_rows businesses_of adapt
    chunk_rows complete_slice guarded_update finalize_task_if_complete
    enqueue_clean_for_collect_task is_p4_item clean_request scope_for_source_task stage_definition
    enqueue_stage_task submit create_task_idempotent stage_task stage_slice close_task note_success
    stage_key content_key stage_of
turn_collects = refl

turn_closes :
    map (λ (t : CollectTask). t.status) done.tasks ≡ TaskStatus.succeeded ∷ TaskStatus.pending ∷ []
unfolding work claim_next_slice next_slice best select recover_expired_claims recover_all claimable
    first get settle_claim collect by_stage execute_claimed_slice update item_fields settle
    missing_fields count get_text next_offset_page_params get_or_create_run running_run
    max_run_number is_expected_non_empty is_trade_date_item accept write_rows businesses_of adapt
    chunk_rows complete_slice guarded_update finalize_task_if_complete
    enqueue_clean_for_collect_task is_p4_item clean_request scope_for_source_task stage_definition
    enqueue_stage_task submit create_task_idempotent stage_task stage_slice close_task note_success
    stage_key content_key stage_of
turn_closes = refl

work_ends_lease_example :
    TurnOutcome turn
      (claim_of turn "w2" unlocked ready).0
      (work digest provider turn true "w2" unlocked ready)
work_ends_lease_example = work_ends_lease digest provider turn true "w2" unlocked ready
