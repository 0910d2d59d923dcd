-- ===== src/Graph/Node.antt =====
-- graph.py, the data: kinds, roles, nodes and graphs, and `by_id`.
-- A text field that `__post_init__` coerces into an enumeration has that enumeration as its type.
-- `cost` and `metadata` are not read by graph.py and are left out.
pub use graph_coder.Base.Integers.{ℤ, pos, negsuc}
use graph_coder.Base.{
  ℕ, String, Bool, true, false, not, ◌&&◌, Option, none, some, List, [], ◌∷◌, ltb, leb, ◌==◌,
  distinct, Dict, Result, ok, raise_if, ◌>>◌, if◌then◌else◌,
}

-- The exceptions of graph.py, each with what its message names.
pub data GraphError : Type 0 where
  unsupported_schema : String → GraphError
  too_many_nodes bounds_not_positive duplicate_ids : GraphError
  root_missing : String → GraphError
  empty_id : GraphError
  bad_max_attempts bad_heartbeat_seconds bad_max_expansions : (node : String) → GraphError
  unknown_references : (node : String) (missing : List String) → GraphError
  exceeds_max_fanout : (node : String) → GraphError
  producer_not_node : (artifact : String) → GraphError
  unknown_frontier : (missing : List String) → GraphError
  multiple_producers : (artifact first second : String) → GraphError
  external_has_producer : (artifact : String) → GraphError
  no_producer : (artifact node : String) → GraphError
  producer_unknown : (artifact producer : String) → GraphError
  must_depend_on : (node producer : String) → GraphError
  cyclic too_deep : GraphError
  unsafe_writes : (scopes : List String) (left right : String) → GraphError
  manage_not_composite manage_not_advisory manage_writes advisory_writes :
      (node : String) → GraphError
  reviews_itself : (node : String) → GraphError
  unknown_review_owner bad_review_owner : (node owner : String) → GraphError
  key_error : (key : String) → GraphError
  -- A search of the model that ran out of fuel: not an exception of the program.
  out_of_fuel : GraphError

abbrev pub Checked : Type 0 → Type 0
Checked A = Result GraphError A

pub data NodeKind : Type 0 where
  manage explore spike implement verify integrate repair release : NodeKind

pub data NodeRole : Type 0 where
  atomic composite : NodeRole

pub data NodeAuthority : Type 0 where
  advisory_only implementation : NodeAuthority

pub data Priority : Type 0 where
  low normal high critical : Priority

pub data Risk : Type 0 where
  low medium high critical : Risk

pub data FailureDomain : Type 0 where
  node branch graph external : FailureDomain

-- `NodeKind(value)`; `none` is the ValueError.
unfoldable pub node_kind : String → Option NodeKind
node_kind s =
    if s == "manage"
    then some manage
    else if s == "explore"
    then some explore
    else if s == "spike"
    then some spike
    else if s == "implement"
    then some implement
    else if s == "verify"
    then some verify
    else if s == "integrate"
    then some integrate
    else if s == "repair"
    then some repair
    else if s == "release"
    then some release
    else none

unfoldable pub kind_name : NodeKind → String
kind_name manage = "manage"
kind_name explore = "explore"
kind_name spike = "spike"
kind_name implement = "implement"
kind_name verify = "verify"
kind_name integrate = "integrate"
kind_name repair = "repair"
kind_name release = "release"

abbrev pub is_manage : NodeKind → Bool
is_manage manage = true
is_manage _ = false

abbrev pub is_composite : NodeRole → Bool
is_composite composite = true
is_composite atomic = false

abbrev pub is_advisory : NodeAuthority → Bool
is_advisory advisory_only = true
is_advisory implementation = false

-- `lo <= n <= hi`, for bounds that are not negative.
abbrev pub in_range : ℕ → ℕ → ℤ → Bool
in_range lo hi (pos n) = leb lo n && leb n hi
in_range lo hi (negsuc n) = false

-- `n > bound`, for a length.
abbrev pub exceeds : ℕ → ℤ → Bool
exceeds n (pos bound) = ltb bound n
exceeds n (negsuc bound) = true

-- `n < 1`.
abbrev pub below_one : ℤ → Bool
below_one (pos n) = ltb n 1
below_one (negsuc n) = true

pub record ArtifactRef : Type 0 where
  pub name : String
  pub type : String
  pub producer : Option String
  pub required : Bool
  pub external : Bool

pub record ReviewPolicy : Type 0 where
  pub required : Bool
  pub reviewers : List String
  pub checklist : List String

pub record RouteSpec : Type 0 where
  pub adapter : String
  pub model : Option String
  pub effort : Option String
  pub spawn_mode : Option String
  pub capabilities : List String

pub record Limits : Type 0 where
  pub max_attempts : ℤ
  pub heartbeat_seconds : ℤ
  pub max_expansions : ℤ

-- `Limits.validate`.
unfoldable pub check_limits : Limits → String → Checked Unit
check_limits l node_id = do
  raise_if (not (in_range 1 10 l.max_attempts)) (bad_max_attempts node_id)
  raise_if (not (in_range 1 86400 l.heartbeat_seconds)) (bad_heartbeat_seconds node_id)
  raise_if (not (in_range 0 100 l.max_expansions)) (bad_max_expansions node_id)

pub record GraphNode : Type 0 where
  pub id : String
  pub kind : NodeKind
  pub title : String
  pub prompt : String
  pub unit_ids : List String
  pub parent_owner : Option String
  pub role : NodeRole
  pub authority : NodeAuthority
  pub review_owner : Option String
  pub depends_on : List String
  pub artifact_inputs : List ArtifactRef
  pub artifact_outputs : List ArtifactRef
  pub read_scopes : List String
  pub write_scopes : List String
  pub acceptance : List String
  pub review : ReviewPolicy
  pub route : RouteSpec
  pub risk : Risk
  pub priority : Priority
  pub limits : Limits
  pub failure_domain : FailureDomain
  pub merge_strategy : Option String
  pub children : List String

pub record ExecutionGraph : Type 0 where
  pub nodes : List GraphNode
  pub root_id : String
  pub schema_version : String
  pub frontier : List String
  pub max_nodes : ℤ
  pub max_depth : ℤ
  pub max_fanout : ℤ

abbrev pub schema : String
schema = "graph-coder/v1"

-- `[node.id for node in nodes]`.
abbrev pub ids : List GraphNode → List String
ids [] = []
ids (n ∷ ns) = n.id ∷ ids ns

-- `{node.id: node for node in nodes}`, for distinct ids.
abbrev pub entries : List GraphNode → Dict GraphNode
entries [] = []
entries (n ∷ ns) = (n.id, n) ∷ entries ns

unfoldable pub by_id : ExecutionGraph → Checked (Dict GraphNode)
by_id g = do raise_if (not (distinct (ids g.nodes))) duplicate_ids; ok (entries g.nodes)
