-- ===== src/Recovery/Stored.antt =====
-- recovery.py `ready_frontier` and `human_required_nodes`, queries on the tables `graph_nodes` and
-- `graph_edges` of db.py. SQLite orders texts by their bytes, which is the order of code points.
pub mod Dispatchable
use graph_coder.Base.{
  String, Bool, true, false, not, ◌&&◌, ◌||◌, List, [], ◌∷◌, has, keep, sorted, sort_by, str_leb,
  ◌==◌,
}

-- The columns that the queries read.
pub record NodeRow : Type 0 where
  pub graph_id : String
  pub node_id : String
  pub node_type : String
  pub role : String
  pub status : String
  pub failure_domain : String
  pub data_json : String

pub record EdgeRow : Type 0 where
  pub graph_id : String
  pub source_node_id : String
  pub target_node_id : String

abbrev pub node_ids : List NodeRow → List String
node_ids [] = []
node_ids (n ∷ ns) = n.node_id ∷ node_ids ns

-- The join with the dependency: a row that it names and that is not completed.
unfoldable pub is_unfinished : EdgeRow → NodeRow → Bool
is_unfinished edge dependency =
    dependency.graph_id == edge.graph_id
    && dependency.node_id == edge.source_node_id
    && not (dependency.status == "completed")

unfoldable pub has_unfinished : EdgeRow → List NodeRow → Bool
unfolding is_unfinished
has_unfinished edge [] = false
has_unfinished edge (d ∷ ds) = is_unfinished edge d || has_unfinished edge ds

-- The subquery under NOT EXISTS.
unfoldable pub is_held : List NodeRow → NodeRow → List EdgeRow → Bool
unfolding has_unfinished
is_held nodes node [] = false
is_held nodes node (e ∷ es) =
    (e.graph_id == node.graph_id && e.target_node_id == node.node_id && has_unfinished e nodes)
    || is_held nodes node es

abbrev pub open_states : List String
open_states = "pending" ∷ "ready" ∷ "repair_required" ∷ []

unfoldable pub is_dispatchable : List NodeRow → List EdgeRow → NodeRow → Bool
unfolding is_held
is_dispatchable nodes edges node =
    node.role == "atomic" && has node.status open_states && not (is_held nodes node edges)

unfoldable pub ready_frontier : List NodeRow → List EdgeRow → List String
unfolding is_dispatchable sorted
ready_frontier nodes edges = sorted (node_ids (keep (is_dispatchable nodes edges) nodes))

abbrev pub row_leb : NodeRow → NodeRow → Bool
row_leb a b = str_leb a.node_id b.node_id

unfoldable pub human_required_nodes : List NodeRow → List NodeRow
human_required_nodes nodes = sort_by row_leb (keep (λ n. n.status == "human_required") nodes)
