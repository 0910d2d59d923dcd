-- ===== src/Examples/Routings.antt =====
-- The theorems on routing.py with natural numbers for the floating-point ones.
use graph_coder.Base.{ℕ, String, true, false, List, [], ◌∷◌, none, some, ltb, ◌≡◌, ◌↔◌, refl}
use graph_coder.Graph.Node.{pos}
use graph_coder.Routing.Models.{
  TaskRequirements, ProviderCapabilities, ModelCapabilities, CandidateScore,
}
use graph_coder.Routing.Filter.{hard_filter_reasons}
use graph_coder.Routing.Filter.Eligible.{IsEligible, hard_filter_reasons-IsEligible}
use graph_coder.Routing.Subscription.{apply_subscription_first}
use graph_coder.Routing.Subscription.Precedence.{IsPreferred, apply_subscription_first-IsPreferred}

abbrev pub task : TaskRequirements ℕ
task = record {
  task_id = "u1";
  role = "worker";
  pinned_model_id = none;
  subscription_first = true;
  equivalence_class = none;
  repair_cost_factor = 0;
  escalation_cost = 0;
  requires_auth = true;
  required_configuration = [];
  min_context_tokens = pos 1000;
  min_output_tokens = pos 0;
  required_tools = "bash" ∷ [];
  required_modalities = [];
  require_streaming = false;
  allowed_model_classes = [];
  required_policies = [];
  environment = "production";
  max_per_attempt_cost = 10;
  min_confidence = 0;
  quality_floor = 0;
  prefer_open_weight = false;
  benchmark_weights = [];
  benchmark_version = "v1";
  max_attempts = pos 2;
  allowed_provider_ids = [];
  denied_provider_ids = [];
  allowed_model_ids = [];
  denied_model_ids = "m9" ∷ [];
  max_evidence_age_hours = 100;
  manual_override_model_id = none;
  force_override = false;
}

abbrev pub provider : String → String → ProviderCapabilities ℕ
provider name class = record {
  provider_id = name;
  authenticated = true;
  configured = [];
  reliability = 1;
  environments = "production" ∷ [];
  provider_class = class;
}

abbrev pub model : String → String → ModelCapabilities ℕ
model name owner = record {
  model_id = name;
  provider_id = owner;
  context_tokens = pos 2000;
  output_tokens = pos 500;
  tools = "bash" ∷ [];
  modalities = "text" ∷ [];
  streaming = false;
  model_class = "general";
  policies = [];
  per_attempt_cost = 3;
  confidence = 1;
  latency_ms = 5;
  open_weight = false;
  benchmarks = [];
  evidence_age_hours = 2;
  zero_marginal_cost = false;
  equivalence_class = none;
}

abbrev pub score : String → String → String → CandidateScore ℕ
score name owner class = record {
  model = model name owner;
  provider = provider owner class;
  external_score = 1;
  local_score = 1;
  quality = 1;
  expected_passing_cost = 3;
  fallback_model_id = none;
  explanation = record {
    benchmark_coverage = 1;
    unscored_benchmark_weights = [];
    provider_adjusted_pass_probability = 1;
    attempt_cost = 3;
    probability_of_repair = 0;
    repair_cost = 0;
    probability_of_escalation = 0;
    escalation_cost = 0;
    expected_passing_cost = 3;
    fallback_model_id = none;
    fallback_provider_id = none;
    expected_passing_cost_with_fallback = none;
  };
}

abbrev scores : List (CandidateScore ℕ)
scores =
    score "m1" "shop" "reseller"
    ∷ score "m1" "own" "direct_oauth"
    ∷ score "m2" "api" "direct_api"
    ∷ []

hard_filter_reasons-IsEligible_example :
    (hard_filter_reasons ℕ ltb task (model "m1" "own") (some (provider "own" "direct_oauth")) ≡ [])
    ↔ IsEligible ℕ ltb task (model "m1" "own") (provider "own" "direct_oauth")
hard_filter_reasons-IsEligible_example =
    hard_filter_reasons-IsEligible ℕ ltb task (model "m1" "own") (provider "own" "direct_oauth")

apply_subscription_first-IsPreferred_example :
    IsPreferred scores (apply_subscription_first task scores)
apply_subscription_first-IsPreferred_example =
    apply_subscription_first-IsPreferred task scores refl refl

-- Runs of the code.
run :
    ((apply_subscription_first task scores).pool ≡ score "m1" "own" "direct_oauth" ∷ [])
    × (hard_filter_reasons ℕ ltb task (model "m1" "own") (some (provider "own" "direct_oauth"))
        ≡ [])
unfolding apply_subscription_first hard_filter_reasons
run = (refl, refl)
