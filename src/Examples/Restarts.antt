-- ===== src/Examples/Restarts.antt =====
-- The theorems on a restart and on a person's decision, with an attempt in flight and a node that
-- waits.
use graph_coder.Base.{ℕ, String, List, [], ◌∷◌, none, some, ok, ◌≡◌, refl}
use graph_coder.Values.{Members, Items}
use graph_coder.Recovery.Stored.{NodeRow}
use graph_coder.Recovery.Restart.{Store, Resumed, restart, resume_human_required}
use graph_coder.Recovery.Restart.Sound.{IsRestarted, restart-IsRestarted}
use graph_coder.Recovery.Restart.Decided.{IsResumed, resume_human_required-IsResumed}
use graph_coder.Examples.Ledgers.{library, empty, empty-IsSound}

abbrev supply : ℕ → String × String
supply n = ("e1", "t1")

abbrev waiting : NodeRow
waiting = record {
  graph_id = "g";
  node_id = "a";
  node_type = "implement";
  role = "atomic";
  status = "human_required";
  failure_domain = "node";
  data_json = "";
}

abbrev store : Store
store = record {
  attempts =
      record {
        id = "t1";
        task_id = none;
        node_id = some "a";
        unit_id = none;
        role = "worker";
        status = "running";
      }
      ∷ [];
  units =
      record { plan_id = "P-1"; unit_id = "IU-1"; status = "completed"; evidence_hash = some "h" }
      ∷ [];
  nodes = waiting ∷ [];
  edges = [];
  ledger = empty;
}

restarted : (out : Store × List String) × (restart library supply store ≡ ok out)
unfolding restart
restarted = (_, refl)

restart-IsRestarted_example : IsRestarted library supply store restarted.0.0
restart-IsRestarted_example =
    restart-IsRestarted library supply store restarted.0.0 restarted.0.1 empty-IsSound restarted.1

resumed :
    (out : Store × Resumed) × (resume_human_required library supply store "a" "go on" "user" "ready"
      ≡ ok out)
unfolding resume_human_required
resumed = (_, refl)

resume_human_required-IsResumed_example :
    (row : NodeRow) × (kept : Members) × (history : Items) × IsResumed library supply store "a"
      "go on" "user" "ready" row kept history resumed.0.0 resumed.0.1
resume_human_required-IsResumed_example =
    resume_human_required-IsResumed library supply store "a" "go on" "user" "ready" resumed.0.0
      resumed.0.1 empty-IsSound resumed.1

-- A run of the code: the node may be dispatched again.
run :
    (out : Store × Resumed) × (resume_human_required library supply store "a" "go on" "user" "ready"
      ≡ ok out)
    × (out.1.ready_frontier ≡ "a" ∷ [])
unfolding resume_human_required
run = (_, refl, refl)
