-- ===== src/Collect/Queue/Examples.antt =====
-- The theorems about the queue at the sample queue.
use quant_stock.Base.{
  ◌≡◌, refl, ◌⊎◌, false, none, some, arith, In, here, there, update, first, select, best,
}
use quant_stock.Base.Json.{empty, get}
use quant_stock.Collect.StateMachine.{TaskStatus, SliceStatus}
use quant_stock.Collect.StateMachine.Edges.{TaskEdge}
use quant_stock.Collect.Model.{RequestSlice}
use quant_stock.Collect.Repository.{claim_next_slice, next_slice, claimable, precedes, lease}
use quant_stock.Collect.Recovery.{requeue, recover_expired_claims}
use quant_stock.Collect.Samples.{task, slice, held, queue, queue_with, unlocked}
use quant_stock.Collect.Queue.Claiming.{ClaimOutcome, claim_next_slice_correct}
use quant_stock.Collect.Queue.Leases.{beat, complete, fail, write, settled_once, claim_fences}
use quant_stock.Collect.Queue.Recovering.{
  IsKeyed, is_keyed, is_keyed-IsKeyed, is_recovered, recover_expired_claims-eq-update,
}
use quant_stock.Collect.Queue.Steps.{
  Reach, claim, recover, operate, Request, next, perform, committed,
}
use quant_stock.Collect.Queue.Invariant.{Inv, IsSound, Reach-Inv}
use quant_stock.Collect.Queue.Transitions.{Moves, Step-Moves}
use quant_stock.Collect.Queue.Reopening.{IsLost, recover_reopens}

claim_lowest_order :
    (claim_next_slice 5000 42 unlocked "w2" 60 queue).0
    ≡ some (record {
      slice_id = 13;
      task_id = 7;
      lease_token = 42;
      request_params = empty;
      request_hash = "h";
    })
unfolding claim_next_slice next_slice best select claimable precedes first get
claim_lowest_order = refl

queue-IsKeyed : IsKeyed queue.slices
unfolding is_keyed
queue-IsKeyed = is_keyed-IsKeyed queue.slices refl

claim_next_slice_correct_example :
    ClaimOutcome queue 5000 unlocked 42 "w2" 60 (claim_next_slice 5000 42 unlocked "w2" 60 queue)
claim_next_slice_correct_example = claim_next_slice_correct queue 5000 unlocked 42 "w2" 60

settled_once_example :
    let db = (write 11 99 (complete 2000 300) queue).1 in
    write 11 99 (fail "NETWORK_ERROR") db ≡ (false, db)
settled_once_example = settled_once 11 99 (complete 2000 300) (fail "NETWORK_ERROR") queue refl

claim_fences_example :
    let db = (claim_next_slice 5000 42 unlocked "w2" 60 queue).1 in
    write 13 99 (beat 6000 60) db ≡ (false, db)
claim_fences_example =
    claim_fences 5000 42 60 unlocked "w2" queue _ 99 (beat 6000 60) claim_lowest_order (omega arith)

recover_expired_claims-eq-update_example :
    (recover_expired_claims 70_000_000 unlocked queue).1.slices
    ≡ update (is_recovered 70_000_000 unlocked) (requeue 70_000_000) queue.slices
recover_expired_claims-eq-update_example =
    recover_expired_claims-eq-update 70_000_000 unlocked queue queue-IsKeyed

queue-IsSound : (s : RequestSlice) → In s queue.slices → IsSound s
queue-IsSound s (here e) = rw e (ground arith)
queue-IsSound s (there (here e)) = rw e (ground arith)
queue-IsSound s (there (there (here e))) = rw e (ground arith)
queue-IsSound s (there (there (there m))) = elim m [ ]

queue-Inv : Inv queue
queue-Inv = record { keyed = queue-IsKeyed; sound = queue-IsSound }

Reach-Inv_example : Inv (
    committed
      (perform
        (Request.cancel 80_000_000 7 none)
        (recover_expired_claims 70_000_000 unlocked queue).1)
      (recover_expired_claims 70_000_000 unlocked queue).1)
Reach-Inv_example = Reach-Inv queue-Inv (
    next (next Reach.here (recover 70_000_000 unlocked))
      (operate (Request.cancel 80_000_000 7 none)))

abbrev claimed_row : RequestSlice
claimed_row = lease 5000 42 "w2" 60 (slice 13 1)

claimed_member : In claimed_row (claim_next_slice 5000 42 unlocked "w2" 60 queue).1.slices
unfolding claim_next_slice next_slice best select claimable precedes first get update
claimed_member = there (there (here refl))

Step-Moves_example :
    (r : RequestSlice) × In r queue.slices × (13 ≡ r.slice_id) × Moves r.status SliceStatus.running
Step-Moves_example =
    Step-Moves {db = queue} claimed_row queue-IsKeyed (claim 5000 42 unlocked "w2" 60)
      claimed_member

recover_reopens_example :
    IsLost 7 (recover_expired_claims 70_000_000 unlocked (queue_with TaskStatus.cancelled)).1
    × ((TaskStatus.cancelled ≡ TaskStatus.running)
        ⊎ (¬ TaskEdge TaskStatus.cancelled TaskStatus.partial))
unfolding first
recover_reopens_example =
    recover_reopens 70_000_000 unlocked (queue_with TaskStatus.cancelled) held
      (task TaskStatus.cancelled) (here refl) refl refl
