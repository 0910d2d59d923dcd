-- ===== src/Graph/Authority.antt =====
-- graph.py `_validate_authority`: the boundary between managers and workers.
pub mod Boundary
use graph_coder.Base.{
  String, Bool, true, false, not, ◌&&◌, List, [], ◌∷◌, Option, none, some, is_nil, Dict, lookup,
  ◌==◌, ok, err, raise_if, ◌>>=◌, ◌>>◌, if◌then◌else◌,
}
use graph_coder.Graph.Node.{
  GraphNode, Checked, is_manage, is_composite, is_advisory, manage_not_composite,
  manage_not_advisory, manage_writes, advisory_writes, reviews_itself, unknown_review_owner,
  bad_review_owner,
}

-- The tests on the node itself.
unfoldable pub check_role : GraphNode → Checked Unit
check_role n =
    if is_manage n.kind
    then (do
      raise_if (not (is_composite n.role)) (manage_not_composite n.id)
      raise_if (not (is_advisory n.authority)) (manage_not_advisory n.id)
      raise_if (not (is_nil n.write_scopes)) (manage_writes n.id))
    else raise_if (is_advisory n.authority && not (is_nil n.write_scopes)) (advisory_writes n.id)

-- The tests on the node's review owner.
unfoldable pub check_review_owner : String → Dict GraphNode → GraphNode → Checked Unit
check_review_owner root_id nodes n = elim n.review_owner [
  | none ↦ ok tt
  | some name ↦ do
    raise_if (name == n.id) (reviews_itself n.id)
    elim (lookup name nodes) [
      | none ↦ err (unknown_review_owner n.id name)
      | some owner ↦
          raise_if (not (owner.id == root_id) && not (is_manage owner.kind))
            (bad_review_owner n.id owner.id)
    ]
]

unfoldable pub validate_authority : String → Dict GraphNode → List GraphNode → Checked Unit
unfolding check_role check_review_owner
validate_authority root_id nodes [] = ok tt
validate_authority root_id nodes (n ∷ ns) = do
  check_role n
  check_review_owner root_id nodes n
  validate_authority root_id nodes ns
