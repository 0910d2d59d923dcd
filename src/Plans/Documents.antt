-- ===== src/Plans/Documents.antt =====
-- plans.py, the data of a plan. A mapping of a unit is its members as JSON values.
use graph_coder.Base.{String, List}
use graph_coder.Graph.Node.{ℤ}
use graph_coder.Values.{Json, Members}

pub record ImplementationUnit : Type 0 where
  pub unit_id : String
  pub objective : String
  pub acceptance : List String
  pub dependencies : List String
  pub write_scope : List String
  pub status : String
  pub requirement_ids : List String
  pub semantic_hash : String
  pub title : String
  pub acceptance_example_ids : List String
  pub rationale : String
  pub input_artifacts : List String
  pub inspect_targets : List String
  pub read_scope : List String
  pub forbidden_scope : List String
  pub interfaces : List String
  pub procedure : List String
  pub forward_proof : List String
  pub regression_proof : List String
  pub commands : List String
  pub output_artifacts : List String
  pub output_contract : List String
  pub progress_contract : Members
  pub risk : String
  pub complexity : String
  pub capability_profile : Members
  pub primary_route : Json
  pub fallback_route : Json
  pub attempt_limit : ℤ
  pub escalation_conditions : List String
  pub stop_conditions : List String
  pub completion_evidence : List String
  pub manager_id : String
  pub review_contract : Members
  pub context_manifest : Members
  pub retry_policy : Members
  pub failure_domain : String

pub record Requirement : Type 0 where
  pub requirement_id : String
  pub description : String
  pub unit_ids : List String

pub record AcceptanceExample : Type 0 where
  pub example_id : String
  pub description : String
  pub unit_ids : List String

pub record PlanInvariant : Type 0 where
  pub invariant_id : String
  pub description : String
  pub unit_ids : List String

pub record PlanDocument : Type 0 where
  pub metadata : Members
  pub headings : List (String × String)
  pub units : List ImplementationUnit
  pub requirements : List Requirement
  pub acceptance_examples : List AcceptanceExample
  pub invariants : List PlanInvariant
  pub content_hash : String
  pub plan_id : String
  pub source : String

-- What a plan lacks, by the texts of `collect_readiness_defects`.
pub data Defect : Type 0 where
  not_ready no_requirements no_acceptance_examples no_invariants : Defect
  unit_missing progress_missing : (unit name : String) → Defect
  timeout_invalid retry_unbounded attempt_limit_invalid completed_without_evidence : String → Defect
  unknown_dependencies : String → List String → Defect
  gate_unsatisfied gate_not_zero gate_unbounded : String → Defect
  cost_ceiling_missing : Defect

-- The texts of ContractValidationError.
pub data PlanError : Type 0 where
  requirement_without_unit unit_without_requirements example_without_unit : String → PlanError
  missing_unit missing_requirement trace_mismatch acceptance_mismatch :
      (source target : String) → PlanError
  no_frontmatter frontmatter_not_mapping wrong_contract wrong_readiness wrong_plan_id : PlanError
  wrong_version wrong_receipt wrong_approved approved_too_early unbound_approval : PlanError
  summary_approval approval_not_mapping : PlanError
  missing_frontmatter missing_hashes missing_headings : List String → PlanError
  duplicate_ids : String → PlanError
  invalid_ids : String → List String → PlanError
  gates_failed : List Defect → PlanError
  -- What Python itself raises: a missing key, and a value of another type than the code needs.
  missing_key : String → PlanError
  wrong_type : Json → PlanError
