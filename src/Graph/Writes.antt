-- ===== src/Graph/Writes.antt =====
-- graph.py `_validate_write_safety`: nodes that may run side by side do not write the same paths.
pub mod Safe
use graph_coder.Base.{
  String, Bool, true, false, not, ◌&&◌, ◌||◌, List, [], ◌∷◌, ◌++◌, Option, none, some, is_nil, any,
  keep, has, unique, sorted, Dict, lookup, get_or, ◌==◌, ok, err, raise_if, ◌>>=◌, ◌>>◌,
  if◌then◌else◌,
}
use graph_coder.Graph.Node.{GraphNode, Checked, unsafe_writes, key_error}
use graph_coder.Graph.Scope.{scopes_overlap}
use graph_coder.Graph.Ancestors.{ancestors}

-- `{node.id: self._ancestors(node.id, nodes) for node in self.nodes}`.
unfoldable pub reachability : List GraphNode → List GraphNode → Checked (Dict (List String))
unfolding ancestors
reachability nodes [] = ok []
reachability nodes (n ∷ ns) = do
  above ← ancestors n.id nodes
  rest ← reachability nodes ns
  ok ((n.id, above) ∷ rest)

-- The set of the left scopes that overlap some right scope.
unfoldable pub overlap : GraphNode → GraphNode → List String
unfolding scopes_overlap
overlap left right =
    unique (keep (λ l. any (λ r. scopes_overlap l r) right.write_scopes) left.write_scopes)

-- `left is not None and left == right`.
unfoldable pub same_strategy : Option String → Option String → Bool
same_strategy none r = false
same_strategy (some l) none = false
same_strategy (some l) (some r) = l == r

-- The body of the inner loop. Both ids are keys of the dictionary.
unfoldable pub check_pair : Dict (List String) → GraphNode → GraphNode → Checked Unit
unfolding overlap same_strategy
check_pair reach left right =
    let shared = overlap left right in
    let ordered =
      has left.id (get_or right.id [] reach) || has right.id (get_or left.id [] reach) in
    let merged = same_strategy left.merge_strategy right.merge_strategy in
    if is_nil shared
    then ok tt
    else raise_if (not ordered && not merged) (unsafe_writes (sorted shared) left.id right.id)

-- `for right in self.nodes[index + 1 :]`.
unfoldable pub check_against : Dict (List String) → GraphNode → List GraphNode → Checked Unit
unfolding check_pair
check_against reach left [] = ok tt
check_against reach left (right ∷ rest) = do
  check_pair reach left right
  check_against reach left rest

unfoldable pub check_pairs : Dict (List String) → List GraphNode → Checked Unit
unfolding check_against
check_pairs reach [] = ok tt
check_pairs reach (n ∷ ns) = do check_against reach n ns; check_pairs reach ns

unfoldable pub validate_write_safety : List GraphNode → Checked Unit
unfolding reachability check_pairs
validate_write_safety nodes = do reach ← reachability nodes nodes; check_pairs reach nodes
