-- ===== src/Examples/Recoveries.antt =====
-- The theorem on recovery.py at three stored nodes.
use graph_coder.Base.{String, true, List, [], ◌∷◌, has, ◌≡◌, ◌↔◌, refl}
use graph_coder.Recovery.Stored.{NodeRow, EdgeRow, ready_frontier}
use graph_coder.Recovery.Stored.Dispatchable.{IsOpen, ready_frontier-IsOpen}

abbrev row : String → String → NodeRow
row name status = record {
  graph_id = "g";
  node_id = name;
  node_type = "implement";
  role = "atomic";
  status = status;
  failure_domain = "node";
  data_json = "{}";
}

abbrev rows : List NodeRow
rows = row "c" "pending" ∷ row "b" "pending" ∷ row "a" "completed" ∷ row "d" "blocked" ∷ []

abbrev edges : List EdgeRow
edges =
    record { graph_id = "g"; source_node_id = "a"; target_node_id = "b" }
    ∷ record { graph_id = "g"; source_node_id = "b"; target_node_id = "c" }
    ∷ []

ready_frontier-IsOpen_example : (has "b" (ready_frontier rows edges) ≡ true) ↔ IsOpen rows edges "b"
ready_frontier-IsOpen_example = ready_frontier-IsOpen rows edges "b"

-- A run of the code: a blocked node is left out.
run : ready_frontier rows edges ≡ "b" ∷ []
unfolding ready_frontier
run = refl
