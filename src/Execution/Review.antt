-- ===== src/Execution/Review.antt =====
-- execution.py `apply_manager_review`: the verdict of a manager on a node that awaits review.
pub mod Verdicts
use graph_coder.Base.{
  String, Bool, true, false, not, ◌&&◌, ◌||◌, List, [], ◌∷◌, Option, none, some, Dict, lookup,
  get_or, keep, is_nil, ◌==◌, has, ok, err, raise_if, ◌>>=◌, ◌>>◌, if◌then◌else◌,
}
use graph_coder.Execution.States.{
  Tried, ExecutionState, awaiting_review, completed, repair_required, human_required, state_name,
  coerce_state, validate_transition, unknown_verdict, not_awaiting_review, needs_defect,
  needs_instruction, escalation_missing, key_error,
}

abbrev pub is_awaiting : ExecutionState → Bool
is_awaiting awaiting_review = true
is_awaiting _ = false

abbrev pub manager_verdicts : List String
manager_verdicts = "pass" ∷ "repair_required" ∷ "human_required" ∷ []

-- `VERDICT_TO_STATE[verdict]`.
unfoldable pub verdict_state : String → Tried ExecutionState
verdict_state v =
    if v == "pass"
    then ok completed
    else if v == "repair_required"
    then ok repair_required
    else if v == "human_required"
    then ok human_required
    else err (key_error v)

abbrev pub escalation_keys : List String
escalation_keys = "question" ∷ "attempts_made" ∷ "impacted_nodes" ∷ []

-- `(escalation or {}).get(key)` as a test. The escalation maps each key to whether its value is
-- true for Python.
unfoldable pub supplied : Option (Dict Bool) → String → Bool
unfolding lookup
supplied none key = false
supplied (some escalation) key = get_or key false escalation

-- `[key for key in keys if not (escalation or {}).get(key)]`.
unfoldable pub unsupplied : Option (Dict Bool) → List String → List String
unfolding supplied
unsupplied escalation [] = []
unsupplied escalation (key ∷ keys) =
    let rest = unsupplied escalation keys in if supplied escalation key then rest else key ∷ rest

-- The checks of a repair_required verdict.
unfoldable pub check_repair : Bool → String → List String → List String → Tried Unit
check_repair repair node_id defects repair_instructions = do
  raise_if (repair && is_nil defects) (needs_defect node_id)
  raise_if (repair && is_nil repair_instructions) (needs_instruction node_id)

-- The check of a human_required verdict.
unfoldable pub check_escalation : Bool → String → Option (Dict Bool) → Tried Unit
unfolding unsupplied
check_escalation human node_id escalation =
    raise_if (human && not (is_nil (unsupplied escalation escalation_keys)))
      (escalation_missing node_id (unsupplied escalation escalation_keys))

unfoldable pub apply_manager_review :
    String → String → String → List String → List String → Option (Dict Bool) → Tried ExecutionState
unfolding coerce_state state_name verdict_state check_repair check_escalation validate_transition
apply_manager_review current verdict node_id defects repair_instructions escalation = do
  source ← coerce_state current
  raise_if (not (has verdict manager_verdicts)) (unknown_verdict verdict)
  raise_if (not (is_awaiting source)) (not_awaiting_review node_id (state_name source))
  check_repair (verdict == "repair_required") node_id defects repair_instructions
  check_escalation (verdict == "human_required") node_id escalation
  target ← verdict_state verdict
  validate_transition (state_name source) (state_name target) node_id
