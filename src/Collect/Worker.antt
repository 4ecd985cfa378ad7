-- ===== src/Collect/Worker.antt =====
-- app/collect/worker.py: one turn of run_worker. A slice of the stages CLEAN and QUALITY is handed to the
-- executors of app/governance/executor.py, where the turn of the model stops. A fault is an SQLAlchemyError that
-- the database raises in a transaction of the turn, or at its end.
pub mod Ending
pub mod Registry
use Prim.Native.Char.{code}
use quant_stock.Base.{
  ℕ, Bool, true, false, ◌&&◌, ◌||◌, ◌==◌, leb, not, String, Option, none, some, List, if◌then◌else◌,
}
use quant_stock.Base.Result.{Error, Result, ok, err, runtime_error, index_error, raise_if, ◌>>◌}
use quant_stock.Base.Json.{Json, Dict}
use quant_stock.Base.Text.{prefix}
use quant_stock.Collect.Model.{RequestSlice, Store, Stage, stage_of}
use quant_stock.Collect.Repository.{ClaimedSlice, claim_next_slice}
use quant_stock.Collect.Recovery.{recover_expired_claims, fail_claim_after_unhandled}
use quant_stock.Collect.Executor.{Response, Readings, execute_claimed_slice}

-- what one turn is given: the clock's readings and the token of the claim, and what goes wrong. The text is what
-- str() gives for the exception that is raised, or for its `orig`; closing_fault is that of the handler's own
-- transaction.
pub record Turn : Type 0 where
  pub claimed_at : ℕ
  pub lease_token : ℕ
  pub lease_seconds : ℕ
  pub readings : Readings
  pub failed_at : ℕ
  pub text : String
  pub fault : Bool
  pub closing_fault : Option Error

-- how a turn ends: nothing is claimed, the slice is worked on, it is handed to the executor of its stage, or the
-- worker is left by an exception
pub data TurnEnd : Type 0 where
  idle : Store → TurnEnd
  worked : ClaimedSlice → Store → TurnEnd
  handed_on : ClaimedSlice → Store → TurnEnd
  left_by : Error → ClaimedSlice → Store → TurnEnd

-- the line boundaries of splitlines
is_line_break : ℕ → Bool
is_line_break c = leb 10 c && leb c 13 || leb 28 c && leb c 30 || c == 133 || c == 8232 || c == 8233

up_to_break : String → String
unfolding is_line_break
up_to_break String.[] = String.[]
up_to_break (String.◌∷◌ c s) =
    let rest = up_to_break s in if is_line_break (code c) then String.[] else String.◌∷◌ c rest

-- text.splitlines()[0]
unfoldable pub first_line : String → Result String
unfolding up_to_break
first_line String.[] = err (index_error "list index out of range")
first_line (String.◌∷◌ c s) = ok (up_to_break (String.◌∷◌ c s))

-- the handler's transaction
unfoldable pub close_claim : Turn → ClaimedSlice → String → String → Result String → Store → TurnEnd
close_claim turn claimed worker_id error_type (err e) db = left_by e claimed db
close_claim turn claimed worker_id error_type (ok line) db = elim turn.closing_fault [
  | some e ↦ left_by e claimed db
  | none ↦
      worked claimed (
        fail_claim_after_unhandled turn.failed_at claimed worker_id error_type (prefix 1000 line)
          db)
]

-- `except Exception`: the session is rolled back, and the claim is failed in a transaction of its own
unfoldable pub settle_claim : Turn → ClaimedSlice → String → Result Store → Store → TurnEnd
settle_claim turn claimed worker_id (ok done) db =
    if turn.fault
    then close_claim turn claimed worker_id "WRITE_FAILED" (first_line turn.text) db
    else worked claimed done
settle_claim turn claimed worker_id (err e) db =
    close_claim turn claimed worker_id (if turn.fault then "WRITE_FAILED" else "UNKNOWN_ERROR")
      (first_line turn.text) db

-- the transaction that recovers the expired leases and claims a slice; a turn in which it raises, and is rolled
-- back, is not among the turns of the model
abbrev pub claim_of : Turn → String → (RequestSlice → Bool) → Store → Option ClaimedSlice × Store
claim_of turn worker_id locked db =
    claim_next_slice turn.claimed_at turn.lease_token locked worker_id turn.lease_seconds
      (recover_expired_claims turn.claimed_at locked db).1

module _ (digest : Json → String) (query : String → Dict → List String → Response) where
  -- the collection branch of the turn
  unfoldable pub collect : Turn → Bool → ClaimedSlice → String → Store → Result Store
  collect turn token_is_set claimed worker_id db = do
    raise_if (not token_is_set) (runtime_error "QUANTSTOCK1_TUSHARE_TOKEN is not configured")
    execute_claimed_slice digest turn.readings query claimed worker_id db

  -- the branches on the stage of the slice
  unfoldable pub by_stage : Stage → Turn → Bool → ClaimedSlice → String → Store → TurnEnd
  by_stage Stage.collect turn token_is_set claimed worker_id db =
      settle_claim turn claimed worker_id (collect turn token_is_set claimed worker_id db) db
  by_stage _ turn token_is_set claimed worker_id db = handed_on claimed db

  unfoldable pub after_claim : Turn → Bool → String → Option ClaimedSlice × Store → TurnEnd
  after_claim turn token_is_set worker_id (none, db) = idle db
  after_claim turn token_is_set worker_id (some claimed, db) =
      by_stage (stage_of claimed.request_params) turn token_is_set claimed worker_id db

  -- what is claimed is worked on
  unfoldable pub work : Turn → Bool → String → (RequestSlice → Bool) → Store → TurnEnd
  unfolding after_claim by_stage
  work turn token_is_set worker_id locked db =
      after_claim turn token_is_set worker_id (claim_of turn worker_id locked db)
