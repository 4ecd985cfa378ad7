-- ===== src/Collect/StateMachine/Edges.antt =====
-- The transition tables of app/collect/state_machine.py as relations, and what the tables allow.
use quant_stock.Base.{◌≡◌, refl, ◌≢◌, ◌↔◌, ◌⊎◌, arith}
use quant_stock.Base.Result.{ok}
use quant_stock.Collect.StateMachine.{
  TaskStatus, SliceStatus, task_text, slice_text, task_transitions, slice_transitions,
  ensure_transition,
}

-- the states from which a task may be given up by an operator
pub data IsCancellable : TaskStatus → Type 0 where
  pending : IsCancellable TaskStatus.pending
  running : IsCancellable TaskStatus.running
  waiting_source : IsCancellable TaskStatus.waiting_source
  waiting_dependency : IsCancellable TaskStatus.waiting_dependency
  capacity_blocked : IsCancellable TaskStatus.capacity_blocked
  paused : IsCancellable TaskStatus.paused
  partial : IsCancellable TaskStatus.partial

-- what a task may become, read off the design: who finishes, who waits, who may be cancelled
pub data TaskEdge : TaskStatus → TaskStatus → Type 0 where
  start : TaskEdge TaskStatus.pending TaskStatus.running
  succeed : TaskEdge TaskStatus.running TaskStatus.succeeded
  stop_partial : TaskEdge TaskStatus.running TaskStatus.partial
  fail : TaskEdge TaskStatus.running TaskStatus.failed
  pause : TaskEdge TaskStatus.running TaskStatus.paused
  await_source : TaskEdge TaskStatus.running TaskStatus.waiting_source
  await_dependency : TaskEdge TaskStatus.running TaskStatus.waiting_dependency
  block : TaskEdge TaskStatus.running TaskStatus.capacity_blocked
  source_ready : TaskEdge TaskStatus.waiting_source TaskStatus.pending
  source_failed : TaskEdge TaskStatus.waiting_source TaskStatus.failed
  dependency_ready : TaskEdge TaskStatus.waiting_dependency TaskStatus.pending
  dependency_failed : TaskEdge TaskStatus.waiting_dependency TaskStatus.failed
  unblock : TaskEdge TaskStatus.capacity_blocked TaskStatus.pending
  resume : TaskEdge TaskStatus.paused TaskStatus.pending
  redo : TaskEdge TaskStatus.partial TaskStatus.pending
  give_up : TaskEdge TaskStatus.partial TaskStatus.failed
  retry : TaskEdge TaskStatus.failed TaskStatus.pending
  cancel : {s : TaskStatus} → IsCancellable s → TaskEdge s TaskStatus.cancelled

-- what a slice may become
pub data SliceEdge : SliceStatus → SliceStatus → Type 0 where
  claim : SliceEdge SliceStatus.pending SliceStatus.running
  drop : SliceEdge SliceStatus.pending SliceStatus.cancelled
  succeed : SliceEdge SliceStatus.running SliceStatus.succeeded
  fail : SliceEdge SliceStatus.running SliceStatus.failed
  release : SliceEdge SliceStatus.running SliceStatus.retry_wait
  divide : SliceEdge SliceStatus.running SliceStatus.split
  abort : SliceEdge SliceStatus.running SliceStatus.cancelled
  lose : SliceEdge SliceStatus.running SliceStatus.lost
  requeue : SliceEdge SliceStatus.retry_wait SliceStatus.pending
  drop_waiting : SliceEdge SliceStatus.retry_wait SliceStatus.cancelled
  recover : SliceEdge SliceStatus.lost SliceStatus.pending
  drop_lost : SliceEdge SliceStatus.lost SliceStatus.cancelled
  retry : SliceEdge SliceStatus.failed SliceStatus.pending

ruleset task_edges = (
  TaskEdge.start, TaskEdge.succeed, stop_partial, TaskEdge.fail, pause, await_source,
  await_dependency, block, source_ready, source_failed, dependency_ready, dependency_failed,
  unblock, resume, redo, give_up, TaskEdge.retry, cancel, IsCancellable.pending,
  IsCancellable.running, IsCancellable.waiting_source, IsCancellable.waiting_dependency,
  IsCancellable.capacity_blocked, IsCancellable.paused, IsCancellable.partial,
)

pub ruleset slice_edges = (
  claim, drop, SliceEdge.succeed, SliceEdge.fail, release, divide, abort, lose, requeue,
  drop_waiting, recover, drop_lost, SliceEdge.retry,
)

abbrev TaskAllows : TaskStatus → TaskStatus → Type 0
TaskAllows s t = ensure_transition (task_text s) (task_text t) task_transitions ≡ ok tt

abbrev SliceAllows : SliceStatus → SliceStatus → Type 0
SliceAllows s t = ensure_transition (slice_text s) (slice_text t) slice_transitions ≡ ok tt

allowed_task : (s t : TaskStatus) → TaskAllows s t → TaskEdge s t
unfolding ensure_transition
allowed_task TaskStatus.pending TaskStatus.running h = TaskEdge.start
allowed_task TaskStatus.running TaskStatus.succeeded h = TaskEdge.succeed
allowed_task TaskStatus.waiting_source TaskStatus.pending h = source_ready
allowed_task TaskStatus.waiting_dependency TaskStatus.pending h = dependency_ready
allowed_task TaskStatus.capacity_blocked TaskStatus.pending h = unblock
allowed_task TaskStatus.paused TaskStatus.pending h = resume
allowed_task TaskStatus.partial TaskStatus.pending h = redo
allowed_task TaskStatus.failed TaskStatus.pending h = TaskEdge.retry
allowed_task TaskStatus.succeeded TaskStatus.pending h = cc
allowed_task TaskStatus.cancelled TaskStatus.pending h = cc
allowed_task _ _ h = first_of (cc, search task_edges)

task_allowed : {s t : TaskStatus} → TaskEdge s t → TaskAllows s t
unfolding ensure_transition
task_allowed (cancel IsCancellable.pending) = refl
task_allowed (cancel IsCancellable.running) = refl
task_allowed (cancel _) = refl
task_allowed _ = refl

allowed_slice : (s t : SliceStatus) → SliceAllows s t → SliceEdge s t
unfolding ensure_transition
allowed_slice SliceStatus.pending SliceStatus.running h = claim
allowed_slice SliceStatus.running SliceStatus.succeeded h = SliceEdge.succeed
allowed_slice SliceStatus.retry_wait SliceStatus.pending h = requeue
allowed_slice SliceStatus.lost SliceStatus.pending h = recover
allowed_slice SliceStatus.failed SliceStatus.pending h = SliceEdge.retry
allowed_slice SliceStatus.succeeded SliceStatus.pending h = cc
allowed_slice SliceStatus.split SliceStatus.pending h = cc
allowed_slice SliceStatus.cancelled SliceStatus.pending h = cc
allowed_slice _ _ h = first_of (cc, search slice_edges)

slice_allowed : {s t : SliceStatus} → SliceEdge s t → SliceAllows s t
unfolding ensure_transition
slice_allowed claim = refl
slice_allowed _ = refl

-- `ensure_transition` accepts exactly the edges of the two diagrams and raises on everything else.
pub ensure_transition_exact :
    ((s t : TaskStatus) → TaskAllows s t ↔ TaskEdge s t)
    × ((s t : SliceStatus) → SliceAllows s t ↔ SliceEdge s t)
ensure_transition_exact =
    (λ s t. (allowed_task s t, task_allowed), λ s t. (allowed_slice s t, slice_allowed))

-- a run of legal task transitions
pub data TaskPath : TaskStatus → TaskStatus → Type 0 where
  here : {s : TaskStatus} → TaskPath s s
  then : {s t u : TaskStatus} → TaskEdge s t → TaskPath t u → TaskPath s u

-- the statuses that no transition leaves
abbrev pub IsTerminal : TaskStatus → Type 0
IsTerminal s = (s ≡ TaskStatus.succeeded) ⊎ (s ≡ TaskStatus.cancelled)

pub stuck : {s t : TaskStatus} → IsTerminal s → TaskEdge s t → ⊥
stuck h TaskEdge.start = ground arith
stuck h (cancel IsCancellable.pending) = ground arith
stuck h (cancel _) = ground arith
stuck h _ = ground arith

-- SUCCEEDED and CANCELLED are final: no run of legal transitions leaves them.
pub terminal_stays : {s t : TaskStatus} → IsTerminal s → TaskPath s t → s ≡ t
terminal_stays h here = refl
terminal_stays h (then e p) = absurd (stuck h e)

-- From every status but CANCELLED a run of legal transitions leads to SUCCEEDED.
pub reaches_succeeded :
    (s : TaskStatus) → s ≢ TaskStatus.cancelled → TaskPath s TaskStatus.succeeded
reaches_succeeded TaskStatus.succeeded h = here
reaches_succeeded TaskStatus.cancelled h = absurd (h refl)
reaches_succeeded TaskStatus.pending h = search (TaskPath.here, then, task_edges)
reaches_succeeded _ h = search (TaskPath.here, then, task_edges)
