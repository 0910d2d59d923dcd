-- ===== src/Graph/Artifacts.antt =====
-- graph.py `_validate_artifacts`: who produces each artifact, and that its consumers wait for it.
pub mod Handoff
use graph_coder.Base.{
  String, Bool, true, false, not, ◌&&◌, List, [], ◌∷◌, Option, none, some, is_nil, is_none, has,
  Dict, lookup, insert, ◌==◌, ok, err, raise_if, ◌>>=◌, ◌>>◌, if◌then◌else◌,
}
use graph_coder.Graph.Node.{
  ArtifactRef, GraphNode, Checked, multiple_producers, external_has_producer, no_producer,
  producer_unknown, must_depend_on,
}

-- The first loop, for the outputs of one node.
unfoldable pub collect_outputs : String → List ArtifactRef → Dict String → Checked (Dict String)
collect_outputs id [] producers = ok producers
collect_outputs id (a ∷ rest) producers = elim (lookup a.name producers) [
  | none ↦ collect_outputs id rest (insert a.name id producers)
  | some first ↦
      if first == id
      then collect_outputs id rest (insert a.name id producers)
      else err (multiple_producers a.name first id)
]

unfoldable pub collect_producers : List GraphNode → Dict String → Checked (Dict String)
unfolding collect_outputs
collect_producers [] producers = ok producers
collect_producers (n ∷ ns) producers = do
  producers' ← collect_outputs n.id n.artifact_outputs producers
  collect_producers ns producers'

-- `artifact.producer or producers.get(artifact.name)`: an empty text counts as absent.
unfoldable pub producer_of : Dict String → ArtifactRef → Option String
producer_of producers a = elim a.producer [
  | none ↦ lookup a.name producers
  | some p ↦ if p == "" then lookup a.name producers else some p
]

-- The tests on an input, once its producer is known.
unfoldable pub check_producer :
    Dict GraphNode → GraphNode → ArtifactRef → Option String → Checked Unit
check_producer nodes n a none = raise_if (a.required && not a.external) (no_producer a.name n.id)
check_producer nodes n a (some p) = do
  raise_if a.external (external_has_producer a.name)
  raise_if (is_none (lookup p nodes)) (producer_unknown a.name p)
  raise_if (not (has p n.depends_on) && not (p == n.id)) (must_depend_on n.id p)

unfoldable pub check_inputs :
    Dict GraphNode → Dict String → GraphNode → List ArtifactRef → Checked Unit
unfolding check_producer producer_of
check_inputs nodes producers n [] = ok tt
check_inputs nodes producers n (a ∷ rest) = do
  check_producer nodes n a (producer_of producers a)
  check_inputs nodes producers n rest

unfoldable pub check_consumers : Dict GraphNode → Dict String → List GraphNode → Checked Unit
unfolding check_inputs
check_consumers nodes producers [] = ok tt
check_consumers nodes producers (n ∷ ns) = do
  check_inputs nodes producers n n.artifact_inputs
  check_consumers nodes producers ns

unfoldable pub validate_artifacts : Dict GraphNode → List GraphNode → Checked Unit
unfolding collect_producers check_consumers
validate_artifacts nodes ns = do
  producers ← collect_producers ns []
  check_consumers nodes producers ns
