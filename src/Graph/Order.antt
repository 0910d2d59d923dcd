-- ===== src/Graph/Order.antt =====
-- graph.py `topological_nodes` (without its call of `validate`) and `_validate_acyclic_and_depth`:
-- Kahn's algorithm. Each id is queued once, so as many rounds as there are nodes are fuel enough.
pub mod Invariant
pub mod Loop
pub mod Depth
pub mod Correct
pub mod Acyclic
use graph_coder.Base.{
  ℕ, zero, suc, ◌+◌, ◌-◌, max, String, Bool, true, false, not, ◌&&◌, ◌||◌, List, [], ◌∷◌, ◌++◌, map,
  Option, none, some, length, is_nil, Dict, lookup, get_or, insert, eqb, ltb, if◌then◌else◌, ok,
  err, raise_if, ◌>>=◌, ◌>>◌,
}
use graph_coder.Graph.Node.{
  GraphNode, ExecutionGraph, Checked, GraphError, cyclic, too_deep, out_of_fuel, key_error, ids,
  entries, ℤ, exceeds,
}
use graph_coder.Graph.Edges.{Edges, edges_of}

-- The variables of the loop of `topological_nodes`; `ordered` by ids. A degree is never below
-- zero, since each edge is taken off once.
pub record Sort : Type 0 where
  pub ordered : List String
  pub queue : List String
  pub indegree : Dict ℕ

-- `indegree[child] -= 1`, and `queue.append(child)` where that gives zero.
unfoldable pub release : Sort → String → Sort
release s child =
    let degree = get_or child 0 s.indegree in
    record {
      ordered = s.ordered;
      queue = if eqb degree 1 then s.queue ++ child ∷ [] else s.queue;
      indegree = insert child (degree - 1) s.indegree;
    }

-- `for child in children[node_id]`.
unfoldable pub release_all : Sort → List String → Sort
unfolding release
release_all s [] = s
release_all s (child ∷ todo) = release_all (release s child) todo

-- `queue.popleft()` and `ordered.append(...)`.
unfoldable pub pop : Sort → String → List String → Sort
pop s x rest = record { ordered = s.ordered ++ x ∷ []; queue = rest; indegree = s.indegree }

-- `while queue`.
unfoldable pub sort_loop : Edges → ℕ → Sort → Option Sort
unfolding release_all pop
sort_loop edges zero s = elim s.queue [ [] ↦ some s | _ ∷ _ ↦ none ]
sort_loop edges (suc fuel) s = elim s.queue [
  | [] ↦ some s
  | x ∷ rest ↦ sort_loop edges fuel (release_all (pop s x rest) (get_or x [] edges))
]

-- `{node.id: len(node.depends_on) for node in self.nodes}`.
unfoldable pub degrees : List GraphNode → Dict ℕ
degrees [] = []
degrees (n ∷ ns) = (n.id, length n.depends_on) ∷ degrees ns

-- `[node.id for node in self.nodes if indegree[node.id] == 0]`.
unfoldable pub roots : Dict ℕ → List GraphNode → List String
roots indegree [] = []
roots indegree (n ∷ ns) =
    let rest = roots indegree ns in if eqb (get_or n.id 0 indegree) 0 then n.id ∷ rest else rest

unfoldable pub start : List GraphNode → Sort
unfolding degrees roots
start nodes = record { ordered = []; queue = roots (degrees nodes) nodes; indegree = degrees nodes }

unfoldable pub sort_nodes : List GraphNode → Option Sort
unfolding start sort_loop edges_of
sort_nodes nodes = sort_loop (edges_of nodes) (length nodes) (start nodes)

-- `nodes[node_id]` for each id.
unfoldable pub pick : Dict GraphNode → List String → Checked (List GraphNode)
unfolding lookup
pick nodes [] = ok []
pick nodes (x ∷ xs) = elim (lookup x nodes) [
  | none ↦ err (key_error x)
  | some n ↦ do rest ← pick nodes xs; ok (n ∷ rest)
]

unfoldable pub topological_order : List GraphNode → Checked (List GraphNode)
unfolding sort_nodes pick
topological_order nodes = elim (sort_nodes nodes) [
  | none ↦ err out_of_fuel
  | some s ↦ pick (entries nodes) s.ordered
]

-- The variables of the loop of `_validate_acyclic_and_depth`.
pub record Levels : Type 0 where
  pub seen : List String
  pub queue : List String
  pub indegree : Dict ℕ
  pub depth : Dict ℕ

-- The body of `for child in children[node_id]`.
unfoldable pub relax : String → Levels → String → Levels
relax node_id s child =
    let degree = get_or child 0 s.indegree in
    record {
      seen = s.seen;
      queue = if eqb degree 1 then s.queue ++ child ∷ [] else s.queue;
      indegree = insert child (degree - 1) s.indegree;
      depth = insert child (max (get_or child 1 s.depth) (get_or node_id 1 s.depth + 1)) s.depth;
    }

unfoldable pub relax_all : String → Levels → List String → Levels
unfolding relax
relax_all node_id s [] = s
relax_all node_id s (child ∷ todo) = relax_all node_id (relax node_id s child) todo

unfoldable pub pop_level : Levels → String → List String → Levels
pop_level s x rest = record {
  seen = s.seen ++ x ∷ [];
  queue = rest;
  indegree = s.indegree;
  depth = s.depth;
}

unfoldable pub level_loop : Edges → ℕ → Levels → Option Levels
unfolding relax_all pop_level
level_loop edges zero s = elim s.queue [ [] ↦ some s | _ ∷ _ ↦ none ]
level_loop edges (suc fuel) s = elim s.queue [
  | [] ↦ some s
  | x ∷ rest ↦ level_loop edges fuel (relax_all x (pop_level s x rest) (get_or x [] edges))
]

-- `indegree[node.id] += 1`, once for each dependency.
unfoldable pub tally_node : String → List String → Dict ℕ → Dict ℕ
tally_node id [] indegree = indegree
tally_node id (dep ∷ deps) indegree =
    tally_node id deps (insert id (get_or id 0 indegree + 1) indegree)

unfoldable pub tally : List GraphNode → Dict ℕ → Dict ℕ
unfolding tally_node
tally [] indegree = indegree
tally (n ∷ ns) indegree = tally ns (tally_node n.id n.depends_on indegree)

-- `{node_id: 0 for node_id in nodes}`.
unfoldable pub zeros : List GraphNode → Dict ℕ
zeros [] = []
zeros (n ∷ ns) = (n.id, 0) ∷ zeros ns

-- `[node_id for node_id, degree in indegree.items() if degree == 0]`.
unfoldable pub zero_keys : Dict ℕ → List String
zero_keys [] = []
zero_keys ((id, degree) ∷ rest) =
    let others = zero_keys rest in if eqb degree 0 then id ∷ others else others

-- `{node_id: 1 for node_id in queue}`.
unfoldable pub first_level : List String → Dict ℕ → Dict ℕ
first_level [] depth = depth
first_level (x ∷ xs) depth = first_level xs (insert x 1 depth)

-- `max(depth.values())`, asked only where there are some.
unfoldable pub max_value : Dict ℕ → ℕ
max_value [] = 0
max_value ((id, level) ∷ rest) = max level (max_value rest)

unfoldable pub start_levels : List GraphNode → Levels
unfolding tally zeros zero_keys first_level
start_levels nodes =
    let indegree = tally nodes (zeros nodes) in
    let queue = zero_keys indegree in
    record { seen = []; queue = queue; indegree = indegree; depth = first_level queue [] }

unfoldable pub level_nodes : List GraphNode → Option Levels
unfolding start_levels level_loop edges_of
level_nodes nodes = level_loop (edges_of nodes) (length nodes) (start_levels nodes)

unfoldable pub validate_acyclic_and_depth : List GraphNode → ℤ → Checked Unit
unfolding level_nodes max_value
validate_acyclic_and_depth nodes max_depth = elim (level_nodes nodes) [
  | none ↦ err out_of_fuel
  | some s ↦ do
    raise_if (not (eqb (length s.seen) (length nodes))) cyclic
    raise_if (not (is_nil s.depth) && exceeds (max_value s.depth) max_depth) too_deep
]
