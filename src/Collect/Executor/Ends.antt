-- ===== src/Collect/Executor/Ends.antt =====
-- app/collect/executor.py and the worker's round: an execution ends the lease that it works under.
use quant_stock.Base.{
  if◌then◌else◌, ℕ, ◌+◌, ◌≡◌, refl, Bool, true, false, ◌&&◌, ◌||◌, ◌==◌, not, length, inl, inr, ltb,
  leb, String, Option, none, List, [], ◌∷◌, ◌++◌, count, count-append, arith, Bool-cases,
  Option-cases,
}
use quant_stock.Base.Result.{ok_or_err, Result, ok, err, Error, require, ◌>>=◌}
use quant_stock.Base.Json.{Json, Dict}
use quant_stock.Collect.Model.{
  CollectTask, RequestSlice, DataItem, SourceBinding, Store, seconds, get_item, get_task,
  get_binding, get_slice,
}
use quant_stock.Collect.Repository.{ClaimedSlice, holds_lease}
use quant_stock.Collect.Creation.{submit}
use quant_stock.Collect.Creation.Once.{submit-slices}
use quant_stock.Collect.Queue.Leases.{IsStale, settled-IsStale, write, complete, release, fail}
use quant_stock.Collect.Executor.Fields.{item_fields}
use quant_stock.Collect.Executor.Paging.{
  number_or, is_offset, next_offset_page_params, is_continuation_page,
}
use quant_stock.Collect.Executor.Rows.{get_or_create_run}
use quant_stock.Collect.Executor.Raw.{write_rows}
use quant_stock.Collect.Executor.Settle.{
  Failure, Held, note_failure, max_attempts, retry_delay, give_up, handle_provider_failure,
}
use quant_stock.Collect.Executor.Finalize.{
  Closing, close_task, succeed, is_cancelled, is_remaining, finalize_task_if_complete,
}
use quant_stock.Governance.Tasks.{
  is_p4_item, clean_request, stage_task, stage_slice, enqueue_stage_task,
  enqueue_clean_for_collect_task,
}
use quant_stock.Collect.Executor.{
  Response, answered, refused, Readings, note_success, ensure_page, pagination_mode, missing_fields,
  is_expected_non_empty, schema_changed, possible_truncation, source_empty, accept, settle,
  execute_claimed_slice,
}

-- a call that returns leaves no row under the token
pub data Ends (slice_id token : ℕ) : Result Store → Type 0 where
  returned : {db : Store} → IsStale slice_id token db → Ends slice_id token (ok db)
  raised : {e : Error} → Ends slice_id token (err e)

module _ (slice_id token : ℕ) where
  stale_snoc :
      (xs : List RequestSlice) (s : RequestSlice)
      → count (holds_lease slice_id token) xs ≡ 0
      → s.lease_token ≡ none
      → count (holds_lease slice_id token) (xs ++ s ∷ []) ≡ 0
  unfolding count
  stale_snoc xs s stale free =
      let more = count-append (holds_lease slice_id token) xs (s ∷ []) in
      let off : holds_lease slice_id token s ≡ false = rw free (ground arith) in ground arith

  Ends-bind :
      {A : Type 0} (r : Result A) (rest : A → Result Store)
      → ((a : A) → Ends slice_id token (rest a))
      → Ends slice_id token (r >>= rest)
  Ends-bind (ok a) rest each = each a
  Ends-bind (err e) rest each = raised

  Ends-if :
      (b : Bool) (x y : Result Store)
      → Ends slice_id token x
      → Ends slice_id token y
      → Ends slice_id token (if b then x else y)
  Ends-if true x y hx hy = hx
  Ends-if false x y hx hy = hy

  CleanEnds : Result (Option (CollectTask × Bool) × Store) → Type 0
  CleanEnds (ok r) = IsStale slice_id token r.1
  CleanEnds (err e) = Unit {0}

  enqueue_clean-Ends :
      (digest : Json → String) (task_id clean_slice_id : ℕ) (source : CollectTask)
      (by reason : String) (db : Store)
      → IsStale slice_id token db
      → CleanEnds (enqueue_clean_for_collect_task digest task_id clean_slice_id source by reason db)
  unfolding enqueue_clean_for_collect_task enqueue_stage_task CleanEnds stage_slice
  enqueue_clean-Ends digest task_id clean_slice_id source by reason db stale =
      elim (Option-cases (get_item db source.data_item_id)) [
        | inl missing ↦ rw missing stale
        | inr (item, found) ↦ elim (Bool-cases (is_p4_item item.code)) [
          | inr other ↦ rw (found, other) stale
          | inl known ↦ elim (ok_or_err (clean_request item source by reason db)) [
            | inr (e, refusal) ↦ rw (found, known, refusal) tt
            | inl (r, asked) ↦
                let plan : CollectTask → Result (List RequestSlice) =
                  λ t. ok (stage_slice digest clean_slice_id r t ∷ []) in
                elim (ok_or_err (submit (stage_task digest task_id r) plan db)) [
                  | inr (e, refusal) ↦ rw (found, known, asked, refusal) tt
                  | inl (answer, done) ↦
                      elim (submit-slices (stage_task digest task_id r) plan db done) [
                        | inl same ↦ rw (found, known, asked, done) (rw same stale)
                        | inr (u, new, planned, added) ↦
                            let one : new ≡ stage_slice digest clean_slice_id r u ∷ [] = cc in
                            rw (found, known, asked, done)
                              (rw (added, one)
                                (stale_snoc db.slices (stage_slice digest clean_slice_id r u) stale
                                  refl))
                      ]
                ]
          ]
        ]
      ]

  finalize-Ends :
      (digest : Json → String) (c : Closing) (t : CollectTask) (run_id : ℕ)
      (binding : SourceBinding) (item : DataItem) (db : Store)
      → IsStale slice_id token db
      → Ends slice_id token (finalize_task_if_complete digest c t run_id binding item db)
  unfolding finalize_task_if_complete close_task CleanEnds
  finalize-Ends digest c t run_id binding item db stale =
      elim (Bool-cases (is_cancelled t.status)) [
        | inl cancelled ↦ rw cancelled (returned stale)
        | inr kept ↦
            elim (Bool-cases
              (not (count (is_remaining t.task_id) db.slices == 0) || not t.planning_complete)) [
                | inl more ↦ rw (kept, more) (returned stale)
                | inr over ↦
                    let closed = close_task c.finalized_at t run_id binding item db in
                    let cleaned =
                      enqueue_clean-Ends digest c.clean_task_id c.clean_slice_id
                        (succeed c.finalized_at t) "system" "automatic P4 clean after collection"
                        closed stale in
                    elim (ok_or_err (
                      enqueue_clean_for_collect_task digest c.clean_task_id c.clean_slice_id
                        (succeed c.finalized_at t) "system" "automatic P4 clean after collection"
                        closed)) [
                          | inr (e, refusal) ↦ rw (kept, over, refusal) raised
                          | inl (answer, done) ↦
                              rw (kept, over, done) (returned (rw done at cleaned))
                        ]
              ]
      ]

handle_provider_failure-Ends :
    (now : ℕ) (held : Held) (failure : Failure) (attempts : ℕ) (db : Store)
    → Ends held.claimed.slice_id held.claimed.lease_token
        (handle_provider_failure now held failure attempts db)
unfolding handle_provider_failure give_up write
handle_provider_failure-Ends now held failure attempts db =
    let slice_id = held.claimed.slice_id in
    let token = held.claimed.lease_token in
    let noted = note_failure now held failure db in
    elim (ok_or_err (max_attempts held.binding)) [
      | inr (e, bad) ↦ rw bad raised
      | inl (most, good) ↦ elim (Bool-cases (failure.retryable && ltb attempts most)) [
        | inl again ↦
            rw (good, again)
              (returned (
                settled-IsStale slice_id token
                  (release failure.error_type (now + seconds (retry_delay attempts))) noted refl))
        | inr over ↦
            rw (good, over)
              (returned (settled-IsStale slice_id token (fail failure.error_type) noted refl))
      ]
    ]

accept-Ends :
    (digest : Json → String) (now : Readings) (held : Held) (s : RequestSlice) (item : DataItem)
    (next : Option Dict) (rows : List Dict) (fingerprint : String) (db : Store)
    → Ends held.claimed.slice_id held.claimed.lease_token
        (accept digest now held s item next rows fingerprint db)
unfolding accept write
accept-Ends digest now held s item next rows fingerprint db =
    let slice_id = held.claimed.slice_id in
    let token = held.claimed.lease_token in
    Ends-bind slice_id token
      (write_rows digest now.writing item.code held.run s held.binding rows db) _
      λ stored.
        Ends-bind slice_id token
          (ensure_page digest now.page_slice_id held.task s held.binding next stored) _
          λ paged.
            finalize-Ends slice_id token digest now.closing held.task held.run.run_id held.binding
              item _
              (settled-IsStale slice_id token (complete now.completed_at (length rows))
                (note_success now held (length rows) fingerprint paged) refl)

settle-Ends :
    (digest : Json → String) (now : Readings) (held : Held) (s : RequestSlice) (item : DataItem)
    (fields : List String) (response : Response) (db : Store)
    → Ends held.claimed.slice_id held.claimed.lease_token
        (settle digest now held s item fields response db)
unfolding settle
settle-Ends digest now held s item fields (refused failure) db =
    handle_provider_failure-Ends now.settled_at held failure s.attempt_count db
settle-Ends digest now held s item fields (answered columns rows fingerprint) db =
    let fails : (failure : Failure)
        → Ends held.claimed.slice_id held.claimed.lease_token
            (handle_provider_failure now.settled_at held failure s.attempt_count db) =
      λ failure. handle_provider_failure-Ends now.settled_at held failure s.attempt_count db in
    let accepts : (next : Option Dict)
        → Ends held.claimed.slice_id held.claimed.lease_token
            (accept digest now held s item next rows fingerprint db) =
      λ next. accept-Ends digest now held s item next rows fingerprint db in
    let rows_in = length rows in
    let mode = pagination_mode held.binding in
    let most = number_or held.binding.max_rows_per_request 0 in
    let missing = missing_fields columns fields in
    let either = Ends-if held.claimed.slice_id held.claimed.lease_token in
    either (not (length missing == 0)) _ _ (fails (schema_changed missing)) (
      Ends-bind held.claimed.slice_id held.claimed.lease_token
        (next_offset_page_params s.request_params rows_in held.binding.max_rows_per_request mode) _
        λ next.
          either (ltb 0 most && leb most rows_in && not (is_offset mode)) _ _
            (fails (possible_truncation rows_in most))
            (either (is_expected_non_empty item.code && rows_in == 0) _ _
              (Ends-bind held.claimed.slice_id held.claimed.lease_token
                (is_continuation_page s.request_params mode) _
                λ continues. either continues _ _ (accepts next) (fails (source_empty item.code)))
              (accepts next)))

-- An execution that returns has ended the lease that it works under, whatever the provider answers: no slice
-- is RUNNING under its token.
pub execute_claimed_slice-Ends :
    (digest : Json → String) (now : Readings) (query : String → Dict → List String → Response)
    (claimed : ClaimedSlice) (worker_id : String) (db : Store)
    → Ends claimed.slice_id claimed.lease_token
        (execute_claimed_slice digest now query claimed worker_id db)
unfolding execute_claimed_slice
execute_claimed_slice-Ends digest now query claimed worker_id db =
    Ends-bind claimed.slice_id claimed.lease_token (require (get_slice db claimed.slice_id) _) _
      λ s.
        Ends-bind claimed.slice_id claimed.lease_token (require (get_task db claimed.task_id) _) _
          λ t.
            Ends-bind claimed.slice_id claimed.lease_token
              (require (get_binding db t.source_binding_id) _) _
              λ binding.
                Ends-bind claimed.slice_id claimed.lease_token
                  (require (get_item db t.data_item_id) _) _
                  λ item.
                    Ends-bind claimed.slice_id claimed.lease_token
                      (require (item_fields item.code) _) _
                      λ fields.
                        settle-Ends digest now
                          (record {
                            claimed = claimed;
                            task = (get_or_create_run now.run_at now.run_id t worker_id db).1;
                            run = (get_or_create_run now.run_at now.run_id t worker_id db).0;
                            attempt_id = now.attempt_id;
                            binding = binding;
                          })
                          s item fields (query binding.api_name s.request_params fields) _
