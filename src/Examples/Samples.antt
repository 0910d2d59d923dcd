-- ===== src/Examples/Samples.antt =====
-- A small plan: a director that manages, one exploration, and three implementations behind it.
use graph_coder.Base.{
  String, Bool, true, false, ◌&&◌, List, [], ◌∷◌, Option, none, some, subset, has-subset, ◌≡◌,
  arith, In, inl, inr, subst,
}
use graph_coder.Graph.Node.{
  NodeKind, manage, explore, implement, atomic, composite, advisory_only, implementation, medium,
  normal, FailureDomain, ArtifactRef, GraphNode, ExecutionGraph, pos, schema, ids,
}
use graph_coder.Graph.Order.Acyclic.{IsClosed}

abbrev pub worker : String → NodeKind → List String → List String → GraphNode
worker name kind needs writes = record {
  id = name;
  kind = kind;
  title = name;
  prompt = "do it";
  unit_ids = [];
  parent_owner = some "Director";
  role = atomic;
  authority = implementation;
  review_owner = some "Director";
  depends_on = needs;
  artifact_inputs = [];
  artifact_outputs = [];
  read_scopes = [];
  write_scopes = writes;
  acceptance = [];
  review = record { required = false; reviewers = []; checklist = [] };
  route = record {
    adapter = "jcode";
    model = none;
    effort = none;
    spawn_mode = none;
    capabilities = [];
  };
  risk = medium;
  priority = normal;
  limits = record { max_attempts = pos 1; heartbeat_seconds = pos 300; max_expansions = pos 0 };
  failure_domain = FailureDomain.node;
  merge_strategy = none;
  children = [];
}

abbrev pub director : GraphNode
director = record (worker "Director" manage [] []) {
  role = composite;
  authority = advisory_only;
  review_owner = none;
  children = "design" ∷ [];
}

abbrev pub spec : Option String → ArtifactRef
spec producer = record {
  name = "spec";
  type = "generic";
  producer = producer;
  required = true;
  external = false;
}

abbrev pub design : Option String → GraphNode
design producer = record (worker "design" explore [] []) { artifact_outputs = spec producer ∷ [] }

abbrev pub api : GraphNode
api = record (worker "api" implement ("design" ∷ []) ("src/api" ∷ [])) {
  artifact_inputs = spec none ∷ [];
}

abbrev pub ui : GraphNode
ui = worker "ui" implement ("design" ∷ []) ("src/ui/*.ts" ∷ [])

abbrev pub docs : GraphNode
docs = worker "docs" implement ("api" ∷ []) ("src/api/docs" ∷ [])

abbrev pub nodes : Option String → List GraphNode
nodes producer = director ∷ docs ∷ design producer ∷ api ∷ ui ∷ []

abbrev pub graph : Option String → ExecutionGraph
graph producer = record {
  nodes = nodes producer;
  root_id = "Director";
  schema_version = schema;
  frontier = "design" ∷ [];
  max_nodes = pos 100;
  max_depth = pos 6;
  max_fanout = pos 8;
}

-- Two nodes that wait for each other.
abbrev pub knot : List GraphNode
knot = worker "a" explore ("b" ∷ []) [] ∷ worker "b" explore ("a" ∷ []) [] ∷ []

abbrev closed : List String → List GraphNode → Bool
closed known [] = true
closed known (n ∷ ns) = subset n.depends_on known && closed known ns

closed_lem :
    (known : List String) (ns : List GraphNode)
    → closed known ns ≡ true
    → (n : GraphNode) → In n ns
    → subset n.depends_on known ≡ true
closed_lem known [] h n i = elim i [ ]
closed_lem known (m ∷ ns) h n (inl e) =
    subst (λ (z : GraphNode). subset z.depends_on known ≡ true) e (ground arith)
closed_lem known (m ∷ ns) h n (inr i) = closed_lem known ns (ground arith) n i

-- A computed test of the dependencies.
pub closed-IsClosed : (ns : List GraphNode) → closed (ids ns) ns ≡ true → IsClosed ns
closed-IsClosed ns h n i d k = has-subset d n.depends_on (ids ns) (closed_lem (ids ns) ns h n i) k
