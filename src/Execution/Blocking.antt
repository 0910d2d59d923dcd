-- ===== src/Execution/Blocking.antt =====
-- execution.py `dependents` and `block_descendants`: a breadth-first search along the edges of
-- dependents, on a queue.
pub mod Descendants
use graph_coder.Base.{
  String, Bool, true, false, not, ◌||◌, List, [], ◌∷◌, ◌++◌, Option, none, some, length, has,
  get_or, lookup, Result, ok, err, raise_if, ◌>>=◌, ◌>>◌, ◌==◌, ◌≡◌, refl, arith, ◌+◌, ℕ,
  has-append, length-append,
}
use graph_coder.Walk.{Frontier, Outcome, done, missing, out_of_fuel, walk}
use graph_coder.Walk.Facts.{budget}
use graph_coder.Graph.Node.{GraphNode, ExecutionGraph, Checked, by_id, ids}
use graph_coder.Graph.Edges.{Edges, edges_of}
use graph_coder.Execution.States.{Tried, unknown_node, graph_error, key_error}
use graph_coder.Execution.States

-- `queue.popleft()` and `queue.extend(...)`.
abbrev pub queue : Frontier
queue = record {
  push = λ rest new. rest ++ new;
  has-push = λ x rest new. has-append x rest new;
  length-push = λ rest new. length-append rest new;
}

-- `edges.get(node_id, ())`.
unfoldable pub followers : Edges → String → Option (List String)
unfolding lookup
followers edges x = some (get_or x [] edges)

-- An exception of graph.py passes through.
unfoldable pub lift_graph : {A : Type 0} → Checked A → Tried A
lift_graph (ok a) = ok a
lift_graph (err e) = err (graph_error e)

unfoldable pub finish : Outcome → Tried (List String)
finish (done seen) = ok seen
finish (missing x) = err (key_error x)
finish out_of_fuel = err States.out_of_fuel

unfoldable pub descend : List GraphNode → String → Tried (List String)
unfolding edges_of followers finish walk budget lookup
descend nodes failed_node_id =
    let edges = edges_of nodes in
    let first = get_or failed_node_id [] edges in
    finish (
      walk queue (followers edges) (λ x. x == failed_node_id)
        (budget (followers edges) (ids nodes) first) [] first)

unfoldable pub block_descendants : ExecutionGraph → String → Tried (List String)
unfolding by_id lift_graph descend
block_descendants g failed_node_id = do
  nodes ← lift_graph (by_id g)
  raise_if (not (has failed_node_id (ids g.nodes))) (unknown_node failed_node_id)
  descend g.nodes failed_node_id
