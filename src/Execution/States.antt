-- ===== src/Execution/States.antt =====
-- execution.py, the state machine: `ExecutionState`, `ALLOWED_TRANSITIONS`, `coerce_state` and
-- `validate_transition`. A state given as a text or as the enumeration is its text.
pub mod Runs
use graph_coder.Base.{
  String, Bool, true, false, not, List, Option, none, some, ◌==◌, Result, ok, err, raise_if, ◌>>=◌,
  ◌>>◌, if◌then◌else◌,
}
use graph_coder.Graph.Node.{GraphError}

-- The exceptions of execution.py; `graph_error` is one of graph.py that passes through.
pub data ExecutionError : Type 0 where
  unknown_state : String → ExecutionError
  bad_transition : (node source destination : String) → ExecutionError
  unknown_verdict : String → ExecutionError
  not_awaiting_review : (node state : String) → ExecutionError
  needs_defect needs_instruction : (node : String) → ExecutionError
  escalation_missing : (node : String) (keys : List String) → ExecutionError
  unknown_node : String → ExecutionError
  key_error : String → ExecutionError
  graph_error : GraphError → ExecutionError
  -- A search of the model that ran out of fuel: not an exception of the program.
  out_of_fuel : ExecutionError

abbrev pub Tried : Type 0 → Type 0
Tried A = Result ExecutionError A

pub data ExecutionState : Type 0 where
  pending ready running awaiting_review repair_required completed blocked human_required failed
        cancelled :
      ExecutionState

unfoldable pub state_name : ExecutionState → String
state_name pending = "pending"
state_name ready = "ready"
state_name running = "running"
state_name awaiting_review = "awaiting_review"
state_name repair_required = "repair_required"
state_name completed = "completed"
state_name blocked = "blocked"
state_name human_required = "human_required"
state_name failed = "failed"
state_name cancelled = "cancelled"

-- `ExecutionState(value)`, with its ValueError turned into a ContractError.
unfoldable pub coerce_state : String → Tried ExecutionState
coerce_state s =
    if s == "pending"
    then ok pending
    else if s == "ready"
    then ok ready
    else if s == "running"
    then ok running
    else if s == "awaiting_review"
    then ok awaiting_review
    else if s == "repair_required"
    then ok repair_required
    else if s == "completed"
    then ok completed
    else if s == "blocked"
    then ok blocked
    else if s == "human_required"
    then ok human_required
    else if s == "failed"
    then ok failed
    else if s == "cancelled"
    then ok cancelled
    else err (unknown_state s)

-- `destination in ALLOWED_TRANSITIONS[source]`.
unfoldable pub allowed : ExecutionState → ExecutionState → Bool
allowed pending ready = true
allowed pending blocked = true
allowed pending cancelled = true
allowed ready running = true
allowed ready blocked = true
allowed ready cancelled = true
allowed running awaiting_review = true
allowed running blocked = true
allowed running human_required = true
allowed running failed = true
allowed running cancelled = true
allowed awaiting_review completed = true
allowed awaiting_review repair_required = true
allowed awaiting_review human_required = true
allowed awaiting_review cancelled = true
allowed repair_required running = true
allowed repair_required human_required = true
allowed repair_required cancelled = true
allowed blocked pending = true
allowed blocked ready = true
allowed blocked human_required = true
allowed blocked cancelled = true
allowed human_required ready = true
allowed human_required running = true
allowed human_required cancelled = true
allowed human_required failed = true
allowed completed repair_required = true
allowed failed ready = true
allowed failed cancelled = true
allowed _ _ = false

unfoldable pub validate_transition : String → String → String → Tried ExecutionState
unfolding coerce_state allowed state_name
validate_transition current target node_id = do
  source ← coerce_state current
  destination ← coerce_state target
  raise_if (not (allowed source destination))
      (bad_transition node_id (state_name source) (state_name destination))
  ok destination
