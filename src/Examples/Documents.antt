-- ===== src/Examples/Documents.antt =====
-- The theorem on plans.py at a plan of one requirement, one example and one unit.
use graph_coder.Base.{[], ◌∷◌, insert, ok, ◌≡◌, ◌↔◌, refl}
use graph_coder.Graph.Node.{pos}
use graph_coder.Values.{no_members, null}
use graph_coder.Plans.Documents.{ImplementationUnit, PlanDocument}
use graph_coder.Plans.Trace.{check_traceability}
use graph_coder.Plans.Trace.Named.{NamesEachOther, check_traceability-NamesEachOther}

abbrev pub unit : ImplementationUnit
unit = record {
  unit_id = "IU-1";
  objective = "parse";
  acceptance = [];
  dependencies = [];
  write_scope = "src" ∷ [];
  status = "pending";
  requirement_ids = "R-1" ∷ [];
  semantic_hash = "";
  title = "";
  acceptance_example_ids = "AE-1" ∷ [];
  rationale = "";
  input_artifacts = [];
  inspect_targets = [];
  read_scope = [];
  forbidden_scope = [];
  interfaces = [];
  procedure = [];
  forward_proof = [];
  regression_proof = [];
  commands = [];
  output_artifacts = [];
  output_contract = [];
  progress_contract = no_members;
  risk = "medium";
  complexity = "medium";
  capability_profile = no_members;
  primary_route = null;
  fallback_route = null;
  attempt_limit = pos 2;
  escalation_conditions = [];
  stop_conditions = [];
  completion_evidence = [];
  manager_id = "";
  review_contract = no_members;
  context_manifest = no_members;
  retry_policy = no_members;
  failure_domain = "node";
}

abbrev pub plan : PlanDocument
plan = record {
  metadata = no_members;
  headings = [];
  units = unit ∷ [];
  requirements = record { requirement_id = "R-1"; description = ""; unit_ids = "IU-1" ∷ [] } ∷ [];
  acceptance_examples =
      record { example_id = "AE-1"; description = ""; unit_ids = "IU-1" ∷ [] } ∷ [];
  invariants = [];
  content_hash = "";
  plan_id = "P-1";
  source = "";
}

check_traceability-NamesEachOther_example : (check_traceability plan ≡ ok tt) ↔ NamesEachOther plan
check_traceability-NamesEachOther_example = check_traceability-NamesEachOther plan refl refl refl

-- A run of the code.
run : check_traceability plan ≡ ok tt
unfolding check_traceability insert
run = refl
