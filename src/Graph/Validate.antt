-- ===== src/Graph/Validate.antt =====
-- graph.py `ExecutionGraph.validate` and `topological_nodes`. The method sets the producer of each
-- output to its node; the model returns the graph with those producers, where the method returns.
pub mod Nodes
pub mod Sound
use graph_coder.Base.{
  String, Bool, true, false, not, ◌&&◌, ◌||◌, List, [], ◌∷◌, ◌++◌, Option, none, some, is_nil,
  is_none, keep, length, Dict, lookup, ◌==◌, ok, err, raise_if, ◌>>=◌, ◌>>◌, if◌then◌else◌,
}
use graph_coder.Graph.Node.{
  ArtifactRef, GraphNode, ExecutionGraph, Checked, schema, entries, by_id, ℤ, exceeds, below_one,
  check_limits, unsupported_schema, too_many_nodes, bounds_not_positive, root_missing, empty_id,
  unknown_references, exceeds_max_fanout, producer_not_node, unknown_frontier,
}
use graph_coder.Graph.Order.{validate_acyclic_and_depth, topological_order}
use graph_coder.Graph.Authority.{validate_authority}
use graph_coder.Graph.Artifacts.{validate_artifacts}
use graph_coder.Graph.Writes.{validate_write_safety}

-- `[x for x in xs if x not in nodes]`.
unfoldable pub missing_from : Dict GraphNode → List String → List String
missing_from nodes xs = keep (λ x. is_none (lookup x nodes)) xs

-- `artifact.producer not in (None, node.id)`.
unfoldable pub other_producer : String → Option String → Bool
other_producer id none = false
other_producer id (some p) = not (p == id)

-- The loop over the outputs of a node.
unfoldable pub claim_outputs : String → List ArtifactRef → Checked (List ArtifactRef)
unfolding other_producer
claim_outputs id [] = ok []
claim_outputs id (a ∷ rest) = do
  raise_if (other_producer id a.producer) (producer_not_node a.name)
  rest' ← claim_outputs id rest
  ok (record a { producer = some id } ∷ rest')

-- The body of the loop over the nodes.
unfoldable pub check_node : Dict GraphNode → ℤ → GraphNode → Checked GraphNode
unfolding check_limits missing_from claim_outputs
check_node nodes max_fanout n = do
  raise_if (n.id == "") empty_id
  check_limits n.limits n.id
  let missing = missing_from nodes (n.depends_on ++ n.children)
  raise_if (not (is_nil missing)) (unknown_references n.id missing)
  raise_if (exceeds (length n.children) max_fanout) (exceeds_max_fanout n.id)
  outputs ← claim_outputs n.id n.artifact_outputs
  ok (record n { artifact_outputs = outputs })

unfoldable pub check_nodes : Dict GraphNode → ℤ → List GraphNode → Checked (List GraphNode)
unfolding check_node
check_nodes nodes max_fanout [] = ok []
check_nodes nodes max_fanout (n ∷ ns) = do
  n' ← check_node nodes max_fanout n
  rest ← check_nodes nodes max_fanout ns
  ok (n' ∷ rest)

unfoldable pub validate : ExecutionGraph → Checked ExecutionGraph
unfolding check_nodes missing_from validate_artifacts validate_acyclic_and_depth
    validate_write_safety validate_authority by_id
validate g = do
  raise_if (not (g.schema_version == schema)) (unsupported_schema g.schema_version)
  raise_if (exceeds (length g.nodes) g.max_nodes) too_many_nodes
  raise_if (below_one g.max_nodes || below_one g.max_depth || below_one g.max_fanout)
      bounds_not_positive
  nodes ← by_id g
  raise_if (is_none (lookup g.root_id nodes)) (root_missing g.root_id)
  claimed ← check_nodes nodes g.max_fanout g.nodes
  -- The nodes of the dictionary are the same objects.
  let nodes' = entries claimed
  let unknown = missing_from nodes' g.frontier
  raise_if (not (is_nil unknown)) (unknown_frontier unknown)
  validate_artifacts nodes' claimed
  validate_acyclic_and_depth claimed g.max_depth
  validate_write_safety claimed
  validate_authority g.root_id nodes' claimed
  ok (record g { nodes = claimed })

-- `topological_nodes`, which validates first.
unfoldable pub topological_nodes : ExecutionGraph → Checked (List GraphNode)
unfolding validate topological_order
topological_nodes g = do g' ← validate g; topological_order g'.nodes
