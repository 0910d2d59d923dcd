-- ===== src/Execution/Frontier.antt =====
-- execution.py `Frontier` and `compute_frontier`.
pub mod Resolved
pub mod Exact
use graph_coder.Base.{
  String, Bool, true, false, not, ◌||◌, List, [], ◌∷◌, ◌++◌, Option, none, some, has, lookup,
  get_or, Dict, sorted, sort_by, str_leb, ok, err, raise_if, ◌>>=◌, ◌>>◌, if◌then◌else◌,
}
use graph_coder.Graph.Node.{GraphNode, ExecutionGraph, by_id, ids}
use graph_coder.Execution.States.{
  Tried, ExecutionState, pending, ready, running, awaiting_review, repair_required, completed,
  blocked, human_required, failed, cancelled, coerce_state, key_error,
}
use graph_coder.Execution.Blocking.{lift_graph, block_descendants}

pub record Frontier : Type 0 where
  pub ready : List String
  pub blocked : List String
  pub awaiting_review : List String
  pub human_required : List String

-- `Frontier.to_dict`.
unfoldable pub to_dict : Frontier → Dict (List String)
to_dict f =
    ("ready", f.ready)
    ∷ ("blocked", f.blocked)
    ∷ ("awaiting_review", f.awaiting_review)
    ∷ ("human_required", f.human_required)
    ∷ []

-- `state in DEPENDENCY_SATISFYING_STATES`.
abbrev pub is_completed : ExecutionState → Bool
is_completed completed = true
is_completed _ = false

-- The states whose dependents are isolated.
abbrev pub is_isolating : ExecutionState → Bool
is_isolating human_required = true
is_isolating blocked = true
is_isolating failed = true
is_isolating _ = false

-- The states that the main loop passes over: terminal ones, and three more.
abbrev pub is_passed_over : ExecutionState → Bool
is_passed_over completed = true
is_passed_over failed = true
is_passed_over cancelled = true
is_passed_over running = true
is_passed_over awaiting_review = true
is_passed_over human_required = true
is_passed_over _ = false

abbrev pub is_human : ExecutionState → Bool
is_human human_required = true
is_human _ = false

abbrev pub is_review : ExecutionState → Bool
is_review awaiting_review = true
is_review _ = false

-- `resolved`, node by node.
unfoldable pub resolve : List GraphNode → Dict String → Tried (Dict ExecutionState)
unfolding lookup coerce_state
resolve [] states = ok []
resolve (n ∷ ns) states = do
  state ← coerce_state (get_or n.id "pending" states)
  rest ← resolve ns states
  ok ((n.id, state) ∷ rest)

-- `sorted(resolved.items())`: the keys are distinct.
abbrev pub item_leb : String × ExecutionState → String × ExecutionState → Bool
item_leb a b = str_leb a.0 b.0

-- `isolated |= block_descendants(...)`, item by item.
unfoldable pub isolate : ExecutionGraph → Dict ExecutionState → List String → Tried (List String)
unfolding block_descendants
isolate g [] isolated = ok isolated
isolate g ((id, state) ∷ rest) isolated = elim (is_isolating state) [
  | true ↦ block_descendants g id >>= λ more. isolate g rest (isolated ++ more)
  | false ↦ isolate g rest isolated
]

-- `d[key]`, which may raise.
unfoldable pub key : {A : Type 0} → String → Dict A → Tried A
unfolding lookup
key x d = elim (lookup x d) [ none ↦ err (key_error x) | some v ↦ ok v ]

-- `all(resolved[dependency] in DEPENDENCY_SATISFYING_STATES for ...)`, which stops at the first
-- that is not.
unfoldable pub satisfied : Dict ExecutionState → List String → Tried Bool
unfolding key
satisfied resolved [] = ok true
satisfied resolved (d ∷ ds) = key d resolved >>= λ state. elim (is_completed state) [
  | true ↦ satisfied resolved ds
  | false ↦ ok false
]

-- The body of the main loop: nothing, or whether the node is ready.
unfoldable pub dispatch :
    Dict ExecutionState → Dict GraphNode → List String → String → Tried (Option Bool)
unfolding key satisfied
dispatch resolved nodes isolated x = key x resolved >>= λ state. elim (is_passed_over state) [
  | true ↦ ok none
  | false ↦ key x nodes >>= λ n. satisfied resolved n.depends_on >>= λ all_completed.
      ok (some (not (has x isolated || not all_completed)))
]

abbrev pub place : String → Option Bool → List String × List String → List String × List String
place x none (go, stop) = (go, stop)
place x (some true) (go, stop) = (x ∷ go, stop)
place x (some false) (go, stop) = (go, x ∷ stop)

unfoldable pub classify :
    Dict ExecutionState
    → Dict GraphNode
    → List String
    → List String
    → Tried (List String × List String)
unfolding dispatch
classify resolved nodes isolated [] = ok ([], [])
classify resolved nodes isolated (x ∷ xs) = do
  decision ← dispatch resolved nodes isolated x
  rest ← classify resolved nodes isolated xs
  ok (place x decision rest)

-- `[node_id for node_id in ... if resolved[node_id] is ...]`.
unfoldable pub in_state :
    (ExecutionState → Bool) → Dict ExecutionState → List String → Tried (List String)
unfolding key
in_state test resolved [] = ok []
in_state test resolved (x ∷ xs) = do
  state ← key x resolved
  rest ← in_state test resolved xs
  ok (if test state then x ∷ rest else rest)

unfoldable pub compute_frontier : ExecutionGraph → Dict String → Tried Frontier
unfolding lift_graph by_id resolve isolate classify in_state sorted
compute_frontier g states = do
  nodes ← lift_graph (by_id g)
  resolved ← resolve g.nodes states
  isolated ← isolate g (sort_by item_leb resolved) []
  (go, stop) ← classify resolved nodes isolated (sorted (ids g.nodes))
  review ← in_state is_review resolved (sorted (ids g.nodes))
  human ← in_state is_human resolved (sorted (ids g.nodes))
  ok (record { ready = go; blocked = stop; awaiting_review = review; human_required = human })
