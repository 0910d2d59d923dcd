-- ===== src/Graph/Ready.antt =====
-- graph.py `ready_frontier`.
pub mod Exact
use graph_coder.Base.{
  String, Bool, true, false, not, ◌&&◌, List, [], ◌∷◌, is_none, has, all, keep, map, Dict, lookup,
  sorted, subset, ok, ◌>>=◌, ◌>>◌, if◌then◌else◌,
}
use graph_coder.Graph.Node.{GraphNode, ExecutionGraph, Checked, by_id, ids}

-- The filter of the generator; `all(... in completed_ids ...)` is a subset test.
unfoldable pub is_ready : List String → Dict GraphNode → GraphNode → Bool
unfolding lookup
is_ready completed nodes n =
    not (has n.id completed) && subset n.depends_on completed && not (is_none (lookup n.id nodes))

unfoldable pub ready_frontier : ExecutionGraph → List String → Checked (List String)
unfolding is_ready by_id sorted
ready_frontier g completed = do
  nodes ← by_id g
  ok (sorted (ids (keep (is_ready completed nodes) g.nodes)))
