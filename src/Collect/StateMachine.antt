-- ===== src/Collect/StateMachine.antt =====
-- app/collect/state_machine.py: the documented transitions of tasks and slices.
-- A status column holds a text; the data types list the texts that the tables name.
pub mod Edges
use quant_stock.Base.{String, Bool, true, false, List, [], ◌∷◌, str_eq, if◌then◌else◌}
use quant_stock.Base.Result.{Result, ok, err, value_error}

pub data TaskStatus : Type 0 where
  pending running waiting_source waiting_dependency capacity_blocked : TaskStatus
  paused partial succeeded failed cancelled : TaskStatus

pub data SliceStatus : Type 0 where
  pending running retry_wait lost succeeded failed split cancelled : SliceStatus

abbrev pub task_text : TaskStatus → String
task_text TaskStatus.pending = "PENDING"
task_text TaskStatus.running = "RUNNING"
task_text TaskStatus.waiting_source = "WAITING_SOURCE"
task_text TaskStatus.waiting_dependency = "WAITING_DEPENDENCY"
task_text TaskStatus.capacity_blocked = "CAPACITY_BLOCKED"
task_text TaskStatus.paused = "PAUSED"
task_text TaskStatus.partial = "PARTIAL"
task_text TaskStatus.succeeded = "SUCCEEDED"
task_text TaskStatus.failed = "FAILED"
task_text TaskStatus.cancelled = "CANCELLED"

abbrev pub slice_text : SliceStatus → String
slice_text SliceStatus.pending = "PENDING"
slice_text SliceStatus.running = "RUNNING"
slice_text SliceStatus.retry_wait = "RETRY_WAIT"
slice_text SliceStatus.lost = "LOST"
slice_text SliceStatus.succeeded = "SUCCEEDED"
slice_text SliceStatus.failed = "FAILED"
slice_text SliceStatus.split = "SPLIT"
slice_text SliceStatus.cancelled = "CANCELLED"

-- dict[str, set[str]]
abbrev pub Transitions : Type 0
Transitions = List (String × List String)

abbrev pub task_transitions : Transitions
task_transitions =
    ("PENDING", "RUNNING" ∷ "CANCELLED" ∷ [])
    ∷ (
      "RUNNING",
      "SUCCEEDED" ∷ "PARTIAL" ∷ "FAILED" ∷ "PAUSED" ∷ "CANCELLED" ∷ "WAITING_SOURCE"
          ∷ "WAITING_DEPENDENCY" ∷ "CAPACITY_BLOCKED" ∷ [],
    )
    ∷ ("WAITING_SOURCE", "PENDING" ∷ "FAILED" ∷ "CANCELLED" ∷ [])
    ∷ ("WAITING_DEPENDENCY", "PENDING" ∷ "FAILED" ∷ "CANCELLED" ∷ [])
    ∷ ("CAPACITY_BLOCKED", "PENDING" ∷ "CANCELLED" ∷ [])
    ∷ ("PAUSED", "PENDING" ∷ "CANCELLED" ∷ [])
    ∷ ("PARTIAL", "PENDING" ∷ "FAILED" ∷ "CANCELLED" ∷ [])
    ∷ ("SUCCEEDED", [])
    ∷ ("FAILED", "PENDING" ∷ [])
    ∷ ("CANCELLED", [])
    ∷ []

abbrev pub slice_transitions : Transitions
slice_transitions =
    ("PENDING", "RUNNING" ∷ "CANCELLED" ∷ [])
    ∷ ("RUNNING", "SUCCEEDED" ∷ "FAILED" ∷ "RETRY_WAIT" ∷ "SPLIT" ∷ "CANCELLED" ∷ "LOST" ∷ [])
    ∷ ("RETRY_WAIT", "PENDING" ∷ "CANCELLED" ∷ [])
    ∷ ("LOST", "PENDING" ∷ "CANCELLED" ∷ [])
    ∷ ("SUCCEEDED", [])
    ∷ ("FAILED", "PENDING" ∷ [])
    ∷ ("SPLIT", [])
    ∷ ("CANCELLED", [])
    ∷ []

-- transitions.get(current, set())
targets : String → Transitions → List String
targets current [] = []
targets current ((from, to) ∷ rest) =
    let later = targets current rest in if str_eq from current then to else later

-- target in targets
contains : String → List String → Bool
contains target [] = false
contains target (t ∷ ts) = let later = contains target ts in if str_eq t target then true else later

unfoldable pub ensure_transition : String → String → Transitions → Result (Unit {0})
unfolding targets contains
ensure_transition current target transitions =
    if contains target (targets current transitions)
    then ok tt
    else err (value_error "illegal state transition")
