-- ===== src/Collect/Repository.antt =====
-- app/collect/repository.py: TaskRepository. Each method takes the instant that it reads from the
-- clock, the ids that it draws, and the database; it returns the database that it leaves.
-- `locked` holds for a row that another transaction has locked (FOR UPDATE SKIP LOCKED).
use quant_stock.Base.{
  ℕ, ◌+◌, Bool, true, false, ◌&&◌, ◌||◌, not, String, Option, none, some, leb, ltb, ◌==◌, is_value,
  select, count, best, str_eq,
}
use quant_stock.Base.Json.{Json, Dict, get, str}
use quant_stock.Collect.StateMachine.{TaskStatus, SliceStatus}
use quant_stock.Collect.Model.{
  CollectTask, RequestSlice, SourceBinding, Store, get_task, get_binding, set_slices, seconds,
}

pub record ClaimedSlice : Type 0 where
  pub slice_id : ℕ
  pub task_id : ℕ
  pub lease_token : ℕ
  pub request_params : Dict
  pub request_hash : String

-- CollectTask.status.in_(("PENDING", "RUNNING", "PARTIAL"))
abbrev pub task_is_open : TaskStatus → Bool
task_is_open TaskStatus.pending = true
task_is_open TaskStatus.running = true
task_is_open TaskStatus.partial = true
task_is_open _ = false

-- RequestSlice.status.in_(("PENDING", "RETRY_WAIT"))
abbrev pub slice_is_queued : SliceStatus → Bool
slice_is_queued SliceStatus.pending = true
slice_is_queued SliceStatus.retry_wait = true
slice_is_queued _ = false

abbrev pub slice_is_running : SliceStatus → Bool
slice_is_running SliceStatus.running = true
slice_is_running _ = false

-- or_(next_retry_at.is_(None), next_retry_at <= now)
abbrev pub is_due : Option ℕ → ℕ → Bool
is_due none now = true
is_due (some t) now = leb t now

-- object_scope["stage"].astext.in_(("CLEAN", "QUALITY"))
unfoldable pub is_stage_value : Option Json → Bool
is_stage_value (some (str s)) = str_eq s "CLEAN" || str_eq s "QUALITY"
is_stage_value _ = false

unfoldable pub capability_blocks : String → Bool
capability_blocks c =
    str_eq c "permission_denied" || str_eq c "schema_changed" || str_eq c "temporarily_unavailable"

binding_allows : CollectTask → Option SourceBinding → Bool
unfolding is_stage_value capability_blocks
binding_allows t none = false
binding_allows t (some b) =
    b.enabled
    && (is_stage_value (get t.object_scope "stage") || not (capability_blocks b.capability_status))

task_allows : Store → Option CollectTask → Bool
unfolding binding_allows
task_allows db none = false
task_allows db (some t) =
    task_is_open t.status && binding_allows t (get_binding db t.source_binding_id)

-- the WHERE clause of `claim_next_slice`, over the joined rows
unfoldable pub claimable : Store → ℕ → RequestSlice → Bool
unfolding task_allows
claimable db now s =
    slice_is_queued s.status && is_due s.next_retry_at now && task_allows db (get_task db s.task_id)

-- ORDER BY priority ASC, slice_order ASC
unfoldable pub precedes : RequestSlice → RequestSlice → Bool
precedes a b =
    ltb a.priority b.priority || a.priority == b.priority && ltb a.slice_order b.slice_order

unfoldable pub next_slice : Store → ℕ → (RequestSlice → Bool) → Option RequestSlice
next_slice db now locked =
    best precedes (select (λ s. claimable db now s && not (locked s)) db.slices)

-- the row that a claim writes
abbrev pub lease : ℕ → ℕ → String → ℕ → RequestSlice → RequestSlice
lease now token worker_id lease_seconds s = record s {
  status = SliceStatus.running;
  leased_by = some worker_id;
  leased_at = some now;
  heartbeat_at = some now;
  lease_expires_at = some (now + seconds lease_seconds);
  lease_token = some token;
  attempt_count = s.attempt_count + 1;
}

claim_row : ℕ → ℕ → String → ℕ → Store → Option RequestSlice → Option ClaimedSlice × Store
claim_row now token worker_id lease_seconds db none = (none, db)
claim_row now token worker_id lease_seconds db (some s) = (
  some (record {
    slice_id = s.slice_id;
    task_id = s.task_id;
    lease_token = token;
    request_params = s.request_params;
    request_hash = s.request_hash;
  }),
  set_slices (λ r. r.slice_id == s.slice_id) (lease now token worker_id lease_seconds) db,
)

unfoldable pub claim_next_slice :
    ℕ → ℕ → (RequestSlice → Bool) → String → ℕ → Store → Option ClaimedSlice × Store
unfolding claim_row
claim_next_slice now token locked worker_id lease_seconds db =
    claim_row now token worker_id lease_seconds db (next_slice db now locked)

-- the guard of every write by a lease holder
abbrev pub holds_lease : ℕ → ℕ → RequestSlice → Bool
holds_lease slice_id token s =
    s.slice_id == slice_id && is_value s.lease_token token && slice_is_running s.status

-- UPDATE ... WHERE slice_id = :id AND lease_token = :token AND status = 'RUNNING'; rowcount == 1
unfoldable pub guarded_update : ℕ → ℕ → (RequestSlice → RequestSlice) → Store → Bool × Store
guarded_update slice_id token f db = (
  count (holds_lease slice_id token) db.slices == 1,
  set_slices (holds_lease slice_id token) f db,
)

abbrev pub beat_row : ℕ → ℕ → RequestSlice → RequestSlice
beat_row now lease_seconds s = record s {
  heartbeat_at = some now;
  lease_expires_at = some (now + seconds lease_seconds);
}

unfoldable pub heartbeat_slice : ℕ → ℕ → ℕ → ℕ → Store → Bool × Store
heartbeat_slice now slice_id token lease_seconds =
    guarded_update slice_id token (beat_row now lease_seconds)

abbrev pub complete_row : ℕ → ℕ → RequestSlice → RequestSlice
complete_row now response_rows s = record s {
  status = SliceStatus.succeeded;
  response_rows = some response_rows;
  lease_expires_at = none;
  heartbeat_at = some now;
}

unfoldable pub complete_slice : ℕ → ℕ → ℕ → ℕ → Store → Bool × Store
complete_slice now slice_id token response_rows =
    guarded_update slice_id token (complete_row now response_rows)

-- the lease columns set to NULL
abbrev pub unlease : RequestSlice → RequestSlice
unlease s = record s {
  leased_by = none;
  leased_at = none;
  lease_expires_at = none;
  lease_token = none;
}

abbrev pub release_row : String → ℕ → RequestSlice → RequestSlice
release_row error_type next_retry_at s = record (unlease s) {
  status = SliceStatus.retry_wait;
  last_error_type = some error_type;
  next_retry_at = some next_retry_at;
}

unfoldable pub release_slice_for_retry : ℕ → ℕ → String → ℕ → Store → Bool × Store
release_slice_for_retry slice_id token error_type next_retry_at =
    guarded_update slice_id token (release_row error_type next_retry_at)

abbrev pub failed_row : String → RequestSlice → RequestSlice
failed_row error_type s = record (unlease s) {
  status = SliceStatus.failed;
  last_error_type = some error_type;
}

unfoldable pub fail_slice : ℕ → ℕ → String → Store → Bool × Store
fail_slice slice_id token error_type = guarded_update slice_id token (failed_row error_type)
