-- ===== src/Routing/Filter/Eligible.antt =====
-- When no requirement is failed.
use graph_coder.Base.{
  String, Bool, true, false, not, ◌&&◌, List, [], ◌∷◌, ◌++◌, some, is_nil, has, subset, ◌≡◌, ◌↔◌,
  arith, ap, true_of_not,
}
use graph_coder.Routing.Models.{TaskRequirements, ProviderCapabilities, ModelCapabilities, Reason}
use graph_coder.Routing.Filter.{
  below, lacking, because, because_lacking, not_among, provider_reasons, capability_reasons,
  bound_reasons, hard_filter_reasons,
}

lacking-subset : (xs ys : List String) → (is_nil (lacking xs ys) ≡ true) ↔ (subset xs ys ≡ true)
unfolding lacking
lacking-subset [] ys = ground arith
lacking-subset (x ∷ xs) ys = ground (arith, lacking-subset xs ys)

append-nil : (xs ys : List Reason) → (xs ++ ys ≡ []) ↔ ((xs ≡ []) × (ys ≡ []))
append-nil [] ys = ground arith
append-nil (x ∷ xs) ys = ground arith

module _ (F : Type 0) (less : F → F → Bool) (task : TaskRequirements F)
    (model : ModelCapabilities F) (provider : ProviderCapabilities F) where
  -- Every hard requirement of the unit is met by the model and its provider.
  pub record IsEligible : Type 0 where
    pub provider_allowed : not_among provider.provider_id task.allowed_provider_ids ≡ false
    pub provider_accepted : has provider.provider_id task.denied_provider_ids ≡ false
    pub model_allowed : not_among model.model_id task.allowed_model_ids ≡ false
    pub model_accepted : has model.model_id task.denied_model_ids ≡ false
    pub authenticated : (task.requires_auth && not provider.authenticated) ≡ false
    pub configured : subset task.required_configuration provider.configured ≡ true
    pub context : below model.context_tokens task.min_context_tokens ≡ false
    pub output : below model.output_tokens task.min_output_tokens ≡ false
    pub tools : subset task.required_tools model.tools ≡ true
    pub modalities : subset task.required_modalities model.modalities ≡ true
    pub streaming : (task.require_streaming && not model.streaming) ≡ false
    pub class_allowed : not_among model.model_class task.allowed_model_classes ≡ false
    pub policies : subset task.required_policies model.policies ≡ true
    pub environment : has task.environment provider.environments ≡ true
    pub cost : less task.max_per_attempt_cost model.per_attempt_cost ≡ false
    pub confidence : less model.confidence task.min_confidence ≡ false
    pub evidence : less task.max_evidence_age_hours model.evidence_age_hours ≡ false

  provider_reasons-nil : (provider_reasons F less task model provider ≡ []) ↔ (
      (not_among provider.provider_id task.allowed_provider_ids ≡ false)
      × (has provider.provider_id task.denied_provider_ids ≡ false)
      × (not_among model.model_id task.allowed_model_ids ≡ false)
      × (has model.model_id task.denied_model_ids ≡ false)
      × ((task.requires_auth && not provider.authenticated) ≡ false)
      × (subset task.required_configuration provider.configured ≡ true))
  unfolding provider_reasons because because_lacking
  provider_reasons-nil =
      ground (arith, lacking-subset task.required_configuration provider.configured)

  capability_reasons-nil : (capability_reasons F less task model ≡ []) ↔ (
      (below model.context_tokens task.min_context_tokens ≡ false)
      × (below model.output_tokens task.min_output_tokens ≡ false)
      × (subset task.required_tools model.tools ≡ true)
      × (subset task.required_modalities model.modalities ≡ true)
      × ((task.require_streaming && not model.streaming) ≡ false)
      × (not_among model.model_class task.allowed_model_classes ≡ false)
      × (subset task.required_policies model.policies ≡ true))
  unfolding capability_reasons because because_lacking
  capability_reasons-nil = ground (
    arith,
    lacking-subset task.required_tools model.tools,
    lacking-subset task.required_modalities model.modalities,
    lacking-subset task.required_policies model.policies,
  )

  bound_reasons-nil : (bound_reasons F less task model provider ≡ []) ↔ (
      (not (has task.environment provider.environments) ≡ false)
      × (less task.max_per_attempt_cost model.per_attempt_cost ≡ false)
      × (less model.confidence task.min_confidence ≡ false)
      × (less task.max_evidence_age_hours model.evidence_age_hours ≡ false))
  unfolding bound_reasons because
  bound_reasons-nil = ground arith

  -- The hard filter passes a model with a known provider exactly if the two meet every one of the
  -- unit's hard requirements.
  pub hard_filter_reasons-IsEligible :
      (hard_filter_reasons F less task model (some provider) ≡ []) ↔ IsEligible
  unfolding hard_filter_reasons
  hard_filter_reasons-IsEligible = (
    λ h.
        let (p, rest) =
          (append-nil (provider_reasons F less task model provider)
              (capability_reasons F less task model ++ bound_reasons F less task model provider)).0
            h in
        let (q, b) =
          (append-nil (capability_reasons F less task model)
              (bound_reasons F less task model provider)).0
            rest in
        let (p1, p2, p3, p4, p5, p6) = provider_reasons-nil.0 p in
        let (q1, q2, q3, q4, q5, q6, q7) = capability_reasons-nil.0 q in
        let (b1, b2, b3, b4) = bound_reasons-nil.0 b in
        record {
          provider_allowed = p1;
          provider_accepted = p2;
          model_allowed = p3;
          model_accepted = p4;
          authenticated = p5;
          configured = p6;
          context = q1;
          output = q2;
          tools = q3;
          modalities = q4;
          streaming = q5;
          class_allowed = q6;
          policies = q7;
          environment = true_of_not (has task.environment provider.environments) b1;
          cost = b2;
          confidence = b3;
          evidence = b4;
        },
    λ e.
        (append-nil (provider_reasons F less task model provider)
            (capability_reasons F less task model ++ bound_reasons F less task model provider)).1
          (
            provider_reasons-nil.1 (
              e.provider_allowed, e.provider_accepted, e.model_allowed, e.model_accepted,
              e.authenticated, e.configured,
            ),
            (append-nil (capability_reasons F less task model)
                  (bound_reasons F less task model provider)).1
                (
                  capability_reasons-nil.1 (
                    e.context, e.output, e.tools, e.modalities, e.streaming, e.class_allowed,
                    e.policies,
                  ),
                  bound_reasons-nil.1 (ap not e.environment, e.cost, e.confidence, e.evidence),
                ),
          ),
  )
