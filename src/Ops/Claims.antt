-- ===== src/Ops/Claims.antt =====
-- What an operator's request means for the claims that follow.
use quant_stock.Base.{
  ℕ, ◌≡◌, refl, sym, ◌∙◌, inl, inr, Bool, true, false, String, Option, none, some, arith, ◌==◌,
  if◌then◌else◌, Bool-cases, Option-cases, update, count, ==_iff, In-update, count_zero, ◌<◌,
}
use quant_stock.Base.Result.{ok}
use quant_stock.Base.Json.{Dict}
use quant_stock.Collect.StateMachine.{TaskStatus}
use quant_stock.Collect.Model.{CollectTask, RequestSlice, Store, get_task, set_task}
use quant_stock.Collect.Repository.{ClaimedSlice, task_is_open, claimable, claim_next_slice}
use quant_stock.Collect.Queue.Claiming.{claim_next_slice_correct}
use quant_stock.Collect.Queue.Steps.{slices-pause}
use quant_stock.Ops.Stored.{
  get-set_task, found_id, IsStored, pause-IsStored, cancel-IsStored, retry-IsStored,
}
use quant_stock.Ops.Service.{
  pause_task, resume_task, cancel_task, retry_task, is_queued_of, cancel_row, is_failed_of,
  retry_row, record_audit,
}

claimable_open :
    (db : Store) (now : ℕ) (s : RequestSlice) (t : CollectTask)
    → get_task db s.task_id ≡ some t
    → claimable db now s ≡ true
    → task_is_open t.status ≡ true
unfolding claimable
claimable_open db now s t found h = ground arith

pub claimed_task :
    (s : RequestSlice) (c : ClaimedSlice) {slice_id token : ℕ} {params : Dict} {hash : String}
    → some (
        let r : ClaimedSlice = record {
          slice_id = slice_id;
          task_id = s.task_id;
          lease_token = token;
          request_params = params;
          request_hash = hash;
        } in
        r)
      ≡ some c
    → s.task_id ≡ c.task_id
claimed_task s c h = ground arith

-- A claim returns only slices of tasks that are PENDING, RUNNING or PARTIAL.
claim_of_open :
    (db : Store) (now token : ℕ) (locked : RequestSlice → Bool) (worker : String) (n : ℕ)
    (c : ClaimedSlice) (t : CollectTask)
    → get_task db c.task_id ≡ some t
    → (claim_next_slice now token locked worker n db).0 ≡ some c
    → task_is_open t.status ≡ true
claim_of_open db now token locked worker n c t found h =
    elim (claim_next_slice_correct db now locked token worker n) [
      | inl (_, e, _) ↦ cc e
      | inr (s, next, e, _) ↦
          let same = claimed_task s c (sym e ∙ h) in
          claimable_open db now s t (rw same found) next.candidate.1
    ]

-- the claim is one of this task's slices
abbrev pub claims : ℕ → Option ClaimedSlice → Bool
claims i none = false
claims i (some c) = c.task_id == i

unclaimed :
    (db : Store) (i : ℕ) (t : CollectTask)
    → get_task db i ≡ some t
    → task_is_open t.status ≡ false
    → (now token : ℕ) (locked : RequestSlice → Bool) (worker : String) (n : ℕ)
    → claims i (claim_next_slice now token locked worker n db).0 ≡ false
unclaimed db i t found closed now token locked worker n =
    elim (Option-cases (claim_next_slice now token locked worker n db).0) [
      | inl nothing ↦ rw nothing
      | inr (c, e) ↦ rw e (elim (Bool-cases (c.task_id == i)) [
        | inl hit ↦
            cc (claim_of_open db now token locked worker n c t (rw ((==_iff _ _).0 hit) found) e)
        | inr miss ↦ miss
      ])
    ]

-- After a task has been paused, no claim returns a slice of it, at any time, by any worker.
pub pause_stops_claims :
    (db db' : Store) (now i : ℕ) (reason : Option String) (t' : CollectTask)
    → pause_task now i reason db ≡ ok (some t', db')
    → (later token : ℕ) (locked : RequestSlice → Bool) (worker : String) (n : ℕ)
    → claims i (claim_next_slice later token locked worker n db').0 ≡ false
pause_stops_claims db db' now i reason t' h =
    let (stored, paused) = pause-IsStored db i now reason h in unclaimed db' i t' stored (rw paused)

dequeued :
    (i : ℕ) (s : RequestSlice)
    → is_queued_of i (if is_queued_of i s then cancel_row s else s) ≡ false
dequeued i s = ground arith

-- A task that is cancelled is CANCELLED in the database, none of its slices is left PENDING or in
-- RETRY_WAIT, and no later claim returns a slice of it.
pub cancel_stops_claims :
    (db db' : Store) (now i : ℕ) (reason : Option String) (t' : CollectTask)
    → cancel_task now i reason db ≡ ok (some t', db')
    → IsStored i t' db' TaskStatus.cancelled
      × (count (is_queued_of i) db'.slices ≡ 0)
      × ((later token : ℕ) (locked : RequestSlice → Bool) (worker : String) (n : ℕ)
          → claims i (claim_next_slice later token locked worker n db').0 ≡ false)
cancel_stops_claims db db' now i reason t' h =
    let (stored, swept) = cancel-IsStored db i now reason h in
    (
      stored,
      rw swept (
          count_zero (is_queued_of i) _ λ r m.
            let (s, _, e) = In-update (is_queued_of i) cancel_row db.slices m in
            rw e (dequeued i s)),
      unclaimed db' i t' stored.0 (rw stored.1),
    )

unfailed :
    (i : ℕ) (s : RequestSlice)
    → is_failed_of i (if is_failed_of i s then retry_row s else s) ≡ false
unfailed i s = ground arith

-- A retry that succeeds leaves the task PENDING and none of its slices FAILED or LOST; a slice that
-- was is PENDING with no lease and no delay, and every other slice is as it was.
pub retry_requeues :
    (db db' : Store) (i : ℕ) (reason : Option String) (t' : CollectTask)
    → retry_task i reason db ≡ ok (some t', db')
    → IsStored i t' db' TaskStatus.pending
      × (count (is_failed_of i) db'.slices ≡ 0)
      × (db'.slices ≡ update (is_failed_of i) retry_row db.slices)
      × (0 < count (is_failed_of i) db.slices)
retry_requeues db db' i reason t' h =
    let (stored, swept, some_failed) = retry-IsStored db i reason h in
    (
      stored,
      rw swept (
          count_zero (is_failed_of i) _ λ r m.
            let (s, _, e) = In-update (is_failed_of i) retry_row db.slices m in
            rw e (unfailed i s)),
      swept,
      ground arith,
    )

-- Resuming a task that was just paused succeeds: the task is PENDING again, with no pause time and
-- no pause reason, and neither call has touched a slice.
pub resume-pause :
    (db db' : Store) (now i : ℕ) (reason : Option String) (t' : CollectTask)
    → pause_task now i reason db ≡ ok (some t', db')
    → (t'' : CollectTask) × (db'' : Store) × (resume_task i db' ≡ ok (some t'', db''))
      × IsStored i t'' db'' TaskStatus.pending
      × (t''.paused_at ≡ none)
      × (t''.pause_reason ≡ none)
      × (db''.slices ≡ db.slices)
unfolding resume_task
resume-pause db db' now i reason t' h =
    let (stored, paused) = pause-IsStored db i now reason h in
    let t'' = record t' { status = TaskStatus.pending; paused_at = none; pause_reason = none } in
    (
      t'',
      record_audit "resume" t' t'.status TaskStatus.pending none
          (set_task t'.task_id (λ _. t'') db'),
      rw (stored, paused),
      (get-set_task db' i t' _ (found_id db' i stored) (found_id db' i stored) stored, refl),
      refl,
      refl,
      (rw h at (slices-pause now i reason db)),
    )
