-- ===== src/Routing/Filter.antt =====
-- routing.py `_hard_filter_reasons`: every requirement that a route fails is listed, in order.
pub mod Eligible
use graph_coder.Base.{
  String, Bool, true, false, not, ◌&&◌, ◌||◌, List, [], ◌∷◌, ◌++◌, Option, none, some, is_nil, has,
  ltb, sorted, unique, if◌then◌else◌,
}
use graph_coder.Graph.Node.{ℤ, pos, negsuc}
use graph_coder.Routing.Models.{
  TaskRequirements, ProviderCapabilities, ModelCapabilities, Reason, provider_missing,
  provider_not_allowed, provider_denied, model_not_allowed, model_denied, not_authenticated,
  insufficient_context, insufficient_output, streaming_unavailable, missing_configuration,
  missing_tools, missing_modalities, missing_policies, class_disallowed, environment_unavailable,
  cost_exceeds, confidence_below, evidence_too_old,
}

-- `a < b`.
abbrev pub below : ℤ → ℤ → Bool
below (pos a) (pos b) = ltb a b
below (pos a) (negsuc b) = false
below (negsuc a) (pos b) = true
below (negsuc a) (negsuc b) = ltb b a

-- `required - offered`.
unfoldable pub lacking : List String → List String → List String
lacking [] offered = []
lacking (x ∷ xs) offered = let rest = lacking xs offered in if has x offered then rest else x ∷ rest

-- `if test: reasons.append(reason)`.
unfoldable pub because : Bool → Reason → List Reason → List Reason
because true reason rest = reason ∷ rest
because false reason rest = rest

-- `missing = sorted(required - offered)`, with a reason where it is not empty.
unfoldable pub because_lacking :
    List String → List String → (List String → Reason) → List Reason → List Reason
unfolding lacking sorted because
because_lacking required offered reason rest =
    let missing = lacking required offered in
    because (not (is_nil missing)) (reason (sorted (unique missing))) rest

-- `allowed and value not in allowed`.
abbrev pub not_among : String → List String → Bool
not_among value allowed = not (is_nil allowed) && not (has value allowed)

module _ (F : Type 0) (less : F → F → Bool) where
  unfoldable pub provider_reasons :
      TaskRequirements F → ModelCapabilities F → ProviderCapabilities F → List Reason
  unfolding because_lacking because
  provider_reasons task model provider =
      because (not_among provider.provider_id task.allowed_provider_ids) provider_not_allowed (
        because (has provider.provider_id task.denied_provider_ids) provider_denied (
          because (not_among model.model_id task.allowed_model_ids) model_not_allowed (
            because (has model.model_id task.denied_model_ids) model_denied (
              because (task.requires_auth && not provider.authenticated) not_authenticated (
                because_lacking task.required_configuration provider.configured
                  missing_configuration [])))))

  unfoldable pub capability_reasons : TaskRequirements F → ModelCapabilities F → List Reason
  unfolding because_lacking because
  capability_reasons task model =
      because (below model.context_tokens task.min_context_tokens) insufficient_context (
        because (below model.output_tokens task.min_output_tokens) insufficient_output (
          because_lacking task.required_tools model.tools missing_tools (
            because_lacking task.required_modalities model.modalities missing_modalities (
              because (task.require_streaming && not model.streaming) streaming_unavailable (
                because (not_among model.model_class task.allowed_model_classes) class_disallowed
                  (because_lacking task.required_policies model.policies missing_policies []))))))

  unfoldable pub bound_reasons :
      TaskRequirements F → ModelCapabilities F → ProviderCapabilities F → List Reason
  unfolding because
  bound_reasons task model provider =
      because (not (has task.environment provider.environments)) environment_unavailable (
        because (less task.max_per_attempt_cost model.per_attempt_cost) cost_exceeds (
          because (less model.confidence task.min_confidence) confidence_below (
            because (less task.max_evidence_age_hours model.evidence_age_hours) evidence_too_old
              [])))

  unfoldable pub hard_filter_reasons :
      TaskRequirements F → ModelCapabilities F → Option (ProviderCapabilities F) → List Reason
  unfolding provider_reasons capability_reasons bound_reasons
  hard_filter_reasons task model none = provider_missing ∷ []
  hard_filter_reasons task model (some provider) =
      provider_reasons task model provider
      ++ (capability_reasons task model ++ bound_reasons task model provider)
