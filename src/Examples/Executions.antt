-- ===== src/Examples/Executions.antt =====
-- The theorems on execution.py at the sample plan.
use graph_coder.Base.{
  String, Bool, true, false, List, [], ◌∷◌, none, some, has, distinct, Dict, lookup, insert, ok,
  err, ◌==◌, ◌≡◌, ◌≢◌, ◌↔◌, ◌⊎◌, refl, if◌then◌else◌,
}
use graph_coder.Graph.Node.{ids, duplicate_ids}
use graph_coder.Graph.Ancestors.Reached.{DependsOn}
use graph_coder.Execution.States.{
  ExecutionState, pending, ready, running, awaiting_review, repair_required, completed,
  human_required, cancelled, coerce_state, allowed, unknown_node, graph_error,
}
use graph_coder.Execution.States.Runs.{Visits, Visits, Run, next, here, Run-reviewed, Run-open}
use graph_coder.Execution.Review.{apply_manager_review}
use graph_coder.Execution.Review.Verdicts.{Accepted, apply_manager_review-Accepted}
use graph_coder.Execution.Blocking.{block_descendants}
use graph_coder.Execution.Blocking.Descendants.{block_descendants-DependsOn}
use graph_coder.Execution.Frontier.{Frontier, compute_frontier}
use graph_coder.Execution.Frontier.Resolved.{HasStates}
use graph_coder.Execution.Frontier.Exact.{IsFrontier, compute_frontier-IsFrontier}
use graph_coder.Examples.Samples.{nodes, graph, closed-IsClosed}

abbrev states : Dict String
states = ("design", "completed") ∷ ("api", "human_required") ∷ []

one_of :
    (b c : Bool)
    → (s : ExecutionState) × (coerce_state
          (elim (if b then some "completed" else if c then some "human_required" else none) [
            | none ↦ "pending"
            | some w ↦ w
          ])
        ≡ ok s)
unfolding coerce_state
one_of true c = (completed, refl)
one_of false true = (human_required, refl)
one_of false false = (pending, refl)

known_states : HasStates (nodes none) states
unfolding lookup
known_states x h = one_of ("design" == x) ("api" == x)

compute_frontier-IsFrontier_example :
    (f : Frontier) × (compute_frontier (graph none) states ≡ ok f)
    × IsFrontier (nodes none) states f
compute_frontier-IsFrontier_example =
    compute_frontier-IsFrontier (graph none) states refl (closed-IsClosed (nodes none) refl)
      known_states

block_descendants-DependsOn_example :
    (distinct (ids (nodes none)) ≡ false)
      × (block_descendants (graph none) "design" ≡ err (graph_error duplicate_ids))
    ⊎ (distinct (ids (nodes none)) ≡ true)
      × (has "design" (ids (nodes none)) ≡ false)
      × (block_descendants (graph none) "design" ≡ err (unknown_node "design"))
    ⊎ ((result : List String) × (block_descendants (graph none) "design" ≡ ok result)
        × ((x : String)
            → (has x result ≡ true) ↔ ((x ≢ "design") × DependsOn (nodes none) "design" x)))
block_descendants-DependsOn_example = block_descendants-DependsOn (graph none) "design"

abbrev waiting : String
waiting = "awaiting_review"

apply_manager_review-Accepted_example :
    (apply_manager_review waiting "repair_required" "api"
        ("flaky test" ∷ [])
        ("pin the clock" ∷ [])
        none
      ≡ ok repair_required)
    ↔ ((waiting ≡ "awaiting_review")
        × Accepted
            ("flaky test" ∷ [])
            ("pin the clock" ∷ [])
            none
            "repair_required"
            repair_required)
apply_manager_review-Accepted_example =
    apply_manager_review-Accepted waiting "repair_required" "api" ("flaky test" ∷ [])
      ("pin the clock" ∷ []) none repair_required

passing : Run pending completed
unfolding allowed
passing = next completed (next awaiting_review (next running (next ready here refl) refl) refl) refl

Run-reviewed_example : Visits running passing × Visits awaiting_review passing
Run-reviewed_example = Run-reviewed pending passing (λ e. cc) (λ e. cc)

Run-open_example :
    ((human_required ≢ cancelled) ↔ Run human_required completed)
    × ((t : ExecutionState) → Run cancelled t → t ≡ cancelled)
Run-open_example = Run-open human_required

-- Runs of the code. The second shows that a node whose own state is blocked is reported ready.
run :
    (compute_frontier (graph none) states
      ≡ ok (record {
        ready = "Director" ∷ "ui" ∷ [];
        blocked = "docs" ∷ [];
        awaiting_review = [];
        human_required = "api" ∷ [];
      }))
unfolding compute_frontier insert
run = refl

blocked_run :
    compute_frontier (graph none) (("design", "blocked") ∷ [])
    ≡ ok (record {
      ready = "Director" ∷ "design" ∷ [];
      blocked = "api" ∷ "docs" ∷ "ui" ∷ [];
      awaiting_review = [];
      human_required = [];
    })
unfolding compute_frontier insert
blocked_run = refl
