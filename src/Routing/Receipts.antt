-- ===== src/Routing/Receipts.antt =====
-- routing.py `build_route_receipt`: what must accompany a route assignment.
pub mod Fallback
use graph_coder.Base.{
  String, Bool, true, false, not, List, [], ◌∷◌, Option, none, some, is_nil, map, find, has, ok,
  err, ◌==◌, str_leb, sort_by, Dict, if◌then◌else◌,
}
use graph_coder.Routing.Models.{
  TaskRequirements, CandidateScore, Elimination, RoutingDecision, Reason, unknown_freshness,
}
use graph_coder.Routing.Scores.{Routed}
use graph_coder.Routing.Decision.{named}

pub record ConsideredRoute (F : Type 0) : Type 0 where
  pub model : String
  pub provider : String
  pub quality : F
  pub attempt_cost : F
  pub expected_passing_cost : F

pub record ChosenRoute (F : Type 0) : Type 0 where
  pub model : String
  pub provider : String
  pub expected_passing_cost : F

pub record FallbackRoute : Type 0 where
  pub model : String
  pub provider : Option String

pub record ScoreInputs (F : Type 0) : Type 0 where
  pub benchmark_weights : Dict F
  pub benchmark_version : String
  pub normalization_version : String
  pub quality_formula : String
  pub quality_floor : F
  pub repair_cost_factor : F
  pub escalation_cost : F

pub record RouteReceipt (F : Type 0) : Type 0 where
  pub receipt_contract : String
  pub node_id : String
  pub role : String
  pub considered_routes : List (ConsideredRoute F)
  -- As the decision gives them.
  pub disqualifications : List Elimination
  pub score_inputs : ScoreInputs F
  pub chosen_route : Option (ChosenRoute F)
  pub fallback_route : Option FallbackRoute
  pub subscription_first_applied : Bool
  pub reseller_exception_required : Bool
  pub subscription_precedence_group : Option String
  pub open_weight_preference_effect : String
  pub pinned : Bool
  pub pinned_route_rejected : Option (List Reason)
  pub registry_timestamp : String
  pub evidence_freshness : String
  pub tie_breakers_used : List String
  pub escalation_conditions : List String

abbrev pub tie_breakers : List String
tie_breakers =
    "expected_passing_cost" ∷ "evidence_confidence" ∷ "provider_reliability" ∷ "latency"
    ∷ "model_id" ∷ []

abbrev pub escalations : List String
escalations =
    "verification failure" ∷ "repeated tool-use failure" ∷ "context overflow"
    ∷ "provider unavailability" ∷ "raised task risk or capability"
    ∷ "capability-attributable review failure" ∷ []

module _ {F : Type 0} where
  abbrev pub considered : CandidateScore F → ConsideredRoute F
  considered s = record {
    model = s.model.model_id;
    provider = s.provider.provider_id;
    quality = s.quality;
    attempt_cost = s.model.per_attempt_cost;
    expected_passing_cost = s.expected_passing_cost;
  }

  -- `decision.scored or decision.candidates`.
  unfoldable pub considered_routes : RoutingDecision F → List (ConsideredRoute F)
  considered_routes decision =
      map considered (if is_nil decision.scored then decision.candidates else decision.scored)

  unfoldable pub score_inputs : TaskRequirements F → ScoreInputs F
  unfolding str_leb
  score_inputs task = record {
    benchmark_weights = sort_by (λ a b. str_leb a.0 b.0) task.benchmark_weights;
    benchmark_version = task.benchmark_version;
    normalization_version = "graph-coder/routing/v1";
    quality_formula = "(0.60*external+0.30*local)/0.90";
    quality_floor = task.quality_floor;
    repair_cost_factor = task.repair_cost_factor;
    escalation_cost = task.escalation_cost;
  }

  unfoldable pub chosen_route : Option (CandidateScore F) → Option (ChosenRoute F)
  chosen_route none = none
  chosen_route (some s) = some record {
    model = s.model.model_id;
    provider = s.provider.provider_id;
    expected_passing_cost = s.expected_passing_cost;
  }

  -- The provider of the first score of the fallback's model.
  abbrev pub provider_of : String → List (CandidateScore F) → Option String
  provider_of model scored = elim (find (λ s. s.model.model_id == model) scored) [
    | none ↦ none
    | some s ↦ some s.provider.provider_id
  ]

  unfoldable pub fallback_route : RoutingDecision F → Option FallbackRoute
  fallback_route decision = elim decision.selected [
    | none ↦ none
    | some s ↦ elim (named s.fallback_model_id) [
      | none ↦ none
      | some model ↦ some record { model = model; provider = provider_of model decision.scored }
    ]
  ]

  unfoldable pub build_route_receipt :
      TaskRequirements F → RoutingDecision F → String → String → Routed (RouteReceipt F)
  unfolding considered_routes score_inputs chosen_route fallback_route
  build_route_receipt task decision registry_timestamp evidence_freshness =
      if not (has evidence_freshness ("network" ∷ "cache" ∷ "stale_cache" ∷ []))
      then err (unknown_freshness evidence_freshness)
      else ok record {
        receipt_contract = "graph-coder/route_receipt/v1";
        node_id = task.task_id;
        role = task.role;
        considered_routes = considered_routes decision;
        disqualifications = decision.eliminations;
        score_inputs = score_inputs task;
        chosen_route = chosen_route decision.selected;
        fallback_route = fallback_route decision;
        subscription_first_applied = decision.explanation.subscription_first_applied;
        reseller_exception_required = decision.explanation.reseller_exception_required;
        subscription_precedence_group = decision.explanation.subscription_precedence_group;
        open_weight_preference_effect =
            if decision.explanation.open_weight_preference_applied
            then "applied"
            else "not applied";
        pinned = decision.explanation.pinned;
        pinned_route_rejected = decision.explanation.pinned_route_rejected;
        registry_timestamp = registry_timestamp;
        evidence_freshness = evidence_freshness;
        tie_breakers_used = tie_breakers;
        escalation_conditions = escalations;
      }
