-- ===== src/Collect/Worker/Ending.antt =====
-- app/collect/worker.py: how a turn leaves the slice that it has claimed.
use quant_stock.Base.{
  ℕ, ◌≡◌, ◌≢◌, ◌⊎◌, refl, Bool, false, String, Option, none, some, List, inl, inr, Bool-cases,
  Option-cases, count_zero, first, first-eq_some, first-eq_none, In-update, ==_iff, &&-eq_true,
  arith, ◌==◌, ◌&&◌, is_value, if◌then◌else◌,
}
use quant_stock.Base.Result.{Error, Result, err, index_error, ok_or_err}
use quant_stock.Base.Json.{Json, Dict}
use quant_stock.Base.Text.{prefix}
use quant_stock.Collect.Model.{RequestSlice, Store, Stage, stage_of}
use quant_stock.Collect.Repository.{ClaimedSlice, holds_lease, slice_is_running}
use quant_stock.Collect.Recovery.{fail_row, fail_claim_after_unhandled}
use quant_stock.Collect.Queue.Leases.{IsStale}
use quant_stock.Collect.Queue.Steps.{slices-abort_none, slices-abort_some}
use quant_stock.Collect.Executor.{Response}
use quant_stock.Collect.Executor.Ends.{Ends, returned, raised, execute_claimed_slice-Ends}
use quant_stock.Collect.Worker.{
  Turn, TurnEnd, idle, worked, handed_on, left_by, first_line, close_claim, settle_claim, collect,
  by_stage, after_claim, claim_of, work,
}

failed-not_held :
    (slice_id token id : ℕ) (error_type : String) (r : RequestSlice)
    → id ≡ slice_id
    → holds_lease slice_id token (if r.slice_id == id then fail_row error_type r else r) ≡ false
failed-not_held slice_id token id error_type r same = ground arith

abort-IsStale :
    (now : ℕ) (c : ClaimedSlice) (worker error_type message : String) (db : Store)
    → IsStale c.slice_id c.lease_token
        (fail_claim_after_unhandled now c worker error_type message db)
abort-IsStale now c worker error_type message db =
    elim (Option-cases (first (holds_lease c.slice_id c.lease_token) db.slices)) [
      | inl nobody ↦ rw (slices-abort_none now c worker error_type message db nobody) (
          count_zero (holds_lease c.slice_id c.lease_token) db.slices
            λ r m. first-eq_none (holds_lease c.slice_id c.lease_token) nobody m)
      | inr (s, found) ↦
          let held = (first-eq_some (holds_lease c.slice_id c.lease_token) db.slices found).1 in
          let same : s.slice_id ≡ c.slice_id =
            (==_iff s.slice_id c.slice_id).0
              (&&-eq_true (s.slice_id == c.slice_id) (is_value s.lease_token c.lease_token)
                (&&-eq_true (s.slice_id == c.slice_id && is_value s.lease_token c.lease_token)
                  (slice_is_running s.status) held).0).0 in
          rw (slices-abort_some now c worker error_type message db found) (
            count_zero (holds_lease c.slice_id c.lease_token) _ λ r m.
              let (q, _, e) =
                In-update (λ q. q.slice_id == s.slice_id) (fail_row error_type) db.slices m in
              rw e (failed-not_held c.slice_id c.lease_token s.slice_id error_type q same))
    ]

-- how a turn may end, for what it has claimed
abbrev pub TurnOutcome : Turn → Option ClaimedSlice → TurnEnd → Type 0
TurnOutcome turn claim (idle db) = claim ≡ none
TurnOutcome turn claim (worked c db) =
    (claim ≡ some c)
    × (stage_of c.request_params ≡ Stage.collect)
    × IsStale c.slice_id c.lease_token db
TurnOutcome turn claim (handed_on c db) =
    (claim ≡ some c) × (stage_of c.request_params ≢ Stage.collect)
TurnOutcome turn claim (left_by e c db) =
    (claim ≡ some c)
    × (stage_of c.request_params ≡ Stage.collect)
    × (((turn.text ≡ "") × (e ≡ index_error "list index out of range"))
        ⊎ (turn.closing_fault ≡ some e))

-- a text without a first line is empty
first_line-err :
    (s : String) {e : Error}
    → first_line s ≡ err e
    → (s ≡ "") × (e ≡ index_error "list index out of range")
unfolding first_line
first_line-err String.[] h = (refl, cc)
first_line-err (String.◌∷◌ c s) h = cc

module _ (turn : Turn) (c : ClaimedSlice) (worker_id : String) where
  close_claim-TurnOutcome :
      (error_type : String) (db : Store)
      → stage_of c.request_params ≡ Stage.collect
      → TurnOutcome turn
          (some c)
          (close_claim turn c worker_id error_type (first_line turn.text) db)
  unfolding close_claim
  close_claim-TurnOutcome error_type db stage = elim (ok_or_err (first_line turn.text)) [
    | inr (e, raised_by) ↦ rw raised_by (refl, stage, inl (first_line-err turn.text raised_by))
    | inl (line, read) ↦ elim (Option-cases turn.closing_fault) [
      | inr (e, faulty) ↦ rw (read, faulty) (refl, stage, inr refl)
      | inl fine ↦
          rw (read, fine)
            (refl, stage, abort-IsStale turn.failed_at c worker_id error_type (prefix 1000 line) db)
    ]
  ]

  settle_claim-TurnOutcome :
      {r : Result Store} (db : Store)
      → stage_of c.request_params ≡ Stage.collect
      → Ends c.slice_id c.lease_token r
      → TurnOutcome turn (some c) (settle_claim turn c worker_id r db)
  unfolding settle_claim close_claim
  settle_claim-TurnOutcome db stage (returned {db = done} stale) = elim (Bool-cases turn.fault) [
    | inl faulty ↦ rw faulty (close_claim-TurnOutcome "WRITE_FAILED" db stage)
    | inr fine ↦ rw fine (refl, stage, stale)
  ]
  settle_claim-TurnOutcome db stage raised =
      close_claim-TurnOutcome (if turn.fault then "WRITE_FAILED" else "UNKNOWN_ERROR") db stage

module _ (digest : Json → String) (query : String → Dict → List String → Response) (turn : Turn)
    (token_is_set : Bool) where
  collect-Ends :
      (c : ClaimedSlice) (worker_id : String) (db : Store)
      → Ends c.slice_id c.lease_token (collect digest query turn token_is_set c worker_id db)
  unfolding collect
  collect-Ends c worker_id db = elim (Bool-cases token_is_set) [
    | inl set ↦ rw set (execute_claimed_slice-Ends digest turn.readings query c worker_id db)
    | inr unset ↦ rw unset raised
  ]

  by_stage-TurnOutcome :
      (stage : Stage) (c : ClaimedSlice) (worker_id : String) (db : Store)
      → stage_of c.request_params ≡ stage
      → TurnOutcome turn (some c) (by_stage digest query stage turn token_is_set c worker_id db)
  unfolding by_stage
  by_stage-TurnOutcome Stage.collect c worker_id db same =
      settle_claim-TurnOutcome turn c worker_id db same (collect-Ends c worker_id db)
  by_stage-TurnOutcome Stage.clean c worker_id db same = (refl, λ other. cc)
  by_stage-TurnOutcome Stage.quality c worker_id db same = (refl, λ other. cc)

  after_claim-TurnOutcome :
      (worker_id : String) (claim : Option ClaimedSlice × Store)
      → TurnOutcome turn claim.0 (after_claim digest query turn token_is_set worker_id claim)
  unfolding after_claim
  after_claim-TurnOutcome worker_id (none, db) = refl
  after_claim-TurnOutcome worker_id (some c, db) =
      by_stage-TurnOutcome (stage_of c.request_params) c worker_id db refl

-- A turn that claims a slice of the collection ends the lease before it is over, whatever the provider answers,
-- whatever the executor raises, whether the token of the provider is set or the database refuses the transaction:
-- no slice is RUNNING under the token of the claim. The exceptions are that the worker is left by an IndexError,
-- if the text of what is raised is empty, or by what the handler's own transaction raises. Only a slice of a later
-- stage is handed on, and a turn is idle only if it has claimed nothing.
pub work_ends_lease :
    (digest : Json → String) (query : String → Dict → List String → Response) (turn : Turn)
    (token_is_set : Bool) (worker_id : String) (locked : RequestSlice → Bool) (db : Store)
    → TurnOutcome turn
        (claim_of turn worker_id locked db).0
        (work digest query turn token_is_set worker_id locked db)
unfolding work
work_ends_lease digest query turn token_is_set worker_id locked db =
    after_claim-TurnOutcome digest query turn token_is_set worker_id _
