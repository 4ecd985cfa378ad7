-- ===== src/Collect/Queue/Transitions.antt =====
-- The steps of the queue against the transition table of app/collect/state_machine.py.
use quant_stock.Base.{◌≡◌, true, In}
use quant_stock.Collect.StateMachine.{SliceStatus}
use quant_stock.Collect.StateMachine.Edges.{SliceEdge, slice_edges}
use quant_stock.Collect.Model.{RequestSlice, Store}
use quant_stock.Collect.Repository.{slice_is_queued, slice_is_running}
use quant_stock.Collect.Queue.Leases.{beat, complete, release, fail}
use quant_stock.Collect.Queue.Recovering.{IsKeyed}
use quant_stock.Collect.Queue.Steps.{
  Change, same, leased, wrote, requeued, aborted, dropped, retried, Step, Step-Sweep,
}
use quant_stock.Collect.Queue.Invariant.{Change-slice_id, Sweep-Changes}
use quant_stock.Ops.Service.{slice_is_failed}

-- the documented edges, and the one step of the code that is not among them
pub data Moves : SliceStatus → SliceStatus → Type 0 where
  stay : {s : SliceStatus} → Moves s s
  edge : {s t : SliceStatus} → SliceEdge s t → Moves s t
  claim_waiting : Moves SliceStatus.retry_wait SliceStatus.running

ruleset moves = (stay, edge, claim_waiting, slice_edges)

queued-Moves :
    (s : SliceStatus)
    → slice_is_queued s ≡ true
    → Moves s SliceStatus.running × Moves s SliceStatus.cancelled
queued-Moves SliceStatus.pending h = (search moves, search moves)
queued-Moves SliceStatus.retry_wait h = (search moves, search moves)
queued-Moves _ h = cc

running-Moves :
    (s : SliceStatus)
    → slice_is_running s ≡ true
    → Moves s s
      × Moves s SliceStatus.succeeded
      × Moves s SliceStatus.retry_wait
      × Moves s SliceStatus.failed
running-Moves SliceStatus.running h = (search moves, search moves, search moves, search moves)
running-Moves _ h = cc

failed-Moves : (s : SliceStatus) → slice_is_failed s ≡ true → Moves s SliceStatus.pending
failed-Moves SliceStatus.failed h = search moves
failed-Moves SliceStatus.lost h = search moves
failed-Moves _ h = cc

Change-Moves : {r r' : RequestSlice} → Change r r' → Moves r.status r'.status
Change-Moves same = stay
Change-Moves {r} (leased now token worker n h) = (queued-Moves r.status h).0
Change-Moves {r} (wrote (beat _ _) h) = stay
Change-Moves {r} (wrote (complete _ _) h) = (running-Moves r.status h).1
Change-Moves {r} (wrote (release _ _) h) = (running-Moves r.status h).2
Change-Moves {r} (wrote (fail _) h) = (running-Moves r.status h).3
Change-Moves {r} (requeued now h) = (running-Moves r.status h).2
Change-Moves {r} (aborted e h) = (running-Moves r.status h).3
Change-Moves {r} (dropped h) = (queued-Moves r.status h).1
Change-Moves {r} (retried h) = failed-Moves r.status h

-- Whatever step the queue takes, each slice row comes from the row with its id and its status has
-- stayed, followed an edge of SLICE_TRANSITIONS, or gone from RETRY_WAIT to RUNNING.
pub Step-Moves :
    {db db' : Store} (r' : RequestSlice)
    → IsKeyed db.slices
    → Step db db'
    → In r' db'.slices
    → (r : RequestSlice) × In r db.slices × (r'.slice_id ≡ r.slice_id) × Moves r.status r'.status
Step-Moves r' keyed step m =
    let (r, member, change) = Sweep-Changes (Step-Sweep keyed step) r' m in
    (r, member, Change-slice_id change, Change-Moves change)

no_edge : {s : SliceStatus} → s ≡ SliceStatus.retry_wait → ¬ SliceEdge s SliceStatus.running
no_edge e SliceEdge.claim = cc
