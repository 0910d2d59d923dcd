-- ===== src/Routing/Models.antt =====
-- routing.py, the data. Floating-point numbers are a type `F`; the code compares them with `<`.
-- An explanation is a record of its figures; what only repeats the arguments is left out.
use graph_coder.Base.{String, Bool, List, Option}
use graph_coder.Graph.Node.{ℤ}

pub record TaskRequirements (F : Type 0) : Type 0 where
  pub task_id : String
  pub role : String
  pub pinned_model_id : Option String
  pub subscription_first : Bool
  pub equivalence_class : Option String
  pub repair_cost_factor : F
  pub escalation_cost : F
  pub requires_auth : Bool
  pub required_configuration : List String
  pub min_context_tokens : ℤ
  pub min_output_tokens : ℤ
  pub required_tools : List String
  pub required_modalities : List String
  pub require_streaming : Bool
  pub allowed_model_classes : List String
  pub required_policies : List String
  pub environment : String
  pub max_per_attempt_cost : F
  pub min_confidence : F
  pub quality_floor : F
  pub prefer_open_weight : Bool
  pub benchmark_weights : List (String × F)
  pub benchmark_version : String
  pub max_attempts : ℤ
  pub allowed_provider_ids : List String
  pub denied_provider_ids : List String
  pub allowed_model_ids : List String
  pub denied_model_ids : List String
  pub max_evidence_age_hours : F
  pub manual_override_model_id : Option String
  pub force_override : Bool

pub record ProviderCapabilities (F : Type 0) : Type 0 where
  pub provider_id : String
  pub authenticated : Bool
  pub configured : List String
  pub reliability : F
  pub environments : List String
  pub provider_class : String

pub record ModelCapabilities (F : Type 0) : Type 0 where
  pub model_id : String
  pub provider_id : String
  pub context_tokens : ℤ
  pub output_tokens : ℤ
  pub tools : List String
  pub modalities : List String
  pub streaming : Bool
  pub model_class : String
  pub policies : List String
  pub per_attempt_cost : F
  pub confidence : F
  pub latency_ms : F
  pub open_weight : Bool
  pub benchmarks : List (String × F)
  pub evidence_age_hours : F
  pub zero_marginal_cost : Bool
  pub equivalence_class : Option String

-- The figures of a score's `explanation`; the model and the provider stand in the score itself.
pub record ScoreExplanation (F : Type 0) : Type 0 where
  pub benchmark_coverage : F
  pub unscored_benchmark_weights : List String
  pub provider_adjusted_pass_probability : F
  pub attempt_cost : F
  pub probability_of_repair : F
  pub repair_cost : F
  pub probability_of_escalation : F
  pub escalation_cost : F
  pub expected_passing_cost : F
  pub fallback_model_id : Option String
  pub fallback_provider_id : Option String
  pub expected_passing_cost_with_fallback : Option F

pub record CandidateScore (F : Type 0) : Type 0 where
  pub model : ModelCapabilities F
  pub provider : ProviderCapabilities F
  pub external_score : F
  pub local_score : F
  pub quality : F
  pub expected_passing_cost : F
  pub fallback_model_id : Option String
  pub explanation : ScoreExplanation F

-- The texts that an elimination gives as its reason.
pub data Reason : Type 0 where
  provider_missing provider_not_allowed provider_denied model_not_allowed model_denied : Reason
  not_authenticated insufficient_context insufficient_output streaming_unavailable : Reason
  missing_configuration missing_tools missing_modalities missing_policies : List String → Reason
  class_disallowed environment_unavailable cost_exceeds confidence_below evidence_too_old : Reason
  duplicates_route : String → Reason
  group_available : String → Reason
  quality_below_floor : String → Reason
  override_not_found : Reason
  pinned_missing : String → Reason

pub record Elimination : Type 0 where
  pub model_id : String
  pub provider_id : Option String
  pub reasons : List Reason

-- What the code raises: `RoutingError`, by its texts, and a division by zero.
pub data RoutingProblem : Type 0 where
  reviewer_category director_not_pinned division_by_zero overflow : RoutingProblem
  unknown_role unknown_freshness : String → RoutingProblem

pub record VerifiedHistory (F : Type 0) : Type 0 where
  pub model_id : String
  pub successes : F
  pub attempts : F
  pub recency : F

-- The entries of a decision's `explanation`; a text list or flag that a decision does not give is
-- empty or false, as the receipt reads it.
pub record Explanation : Type 0 where
  pub pinned : Bool
  pub subscription_first_applied : Bool
  pub reseller_exception_required : Bool
  pub subscription_precedence_group : Option String
  pub open_weight_preference_applied : Bool
  pub pareto_frontier_model_ids : List String
  pub retained_model_ids : List String
  pub pinned_route_rejected : Option (List Reason)
  pub manual_override_model_id : Option String
  pub manual_override_forced : Bool
  pub manual_override_warnings : List Reason
  pub manual_override_rejected : List Reason
  pub selected_model_id : Option String

pub record RoutingDecision (F : Type 0) : Type 0 where
  pub selected : Option (CandidateScore F)
  pub candidates : List (CandidateScore F)
  pub eliminations : List Elimination
  pub explanation : Explanation
  pub scored : List (CandidateScore F)
