-- ===== src/Routing/Decision/Director.antt =====
-- The director's route and a route by override.
use graph_coder.Base.{
  nil_of_is_nil, String, true, List, [], ◌∷◌, Option, none, some, is_nil, find, find-some, In, ok,
  err, >>=-eq-ok, returned-injective, ◌==◌, eq_iff, ◌≡◌, ◌⊎◌, inl, inr, refl, sym, ap, ◌∙◌, subst,
  arith, Bool-cases, Option-cases,
}
use graph_coder.Routing.Models.{
  ProviderCapabilities, ModelCapabilities, CandidateScore, RoutingDecision, RoutingProblem,
  director_not_pinned, Reason,
}
use graph_coder.Routing.Selection.{other_model, attach_fallback}
use graph_coder.Routing.Selection.Fallback.{IsAttached, attach_fallback-IsAttached}
use graph_coder.Routing.Decision.{
  RouteRequest, provider_for, reasons_for, score_for, named, attach, pinned_selected,
  pinned_refused, route_pinned_director, route_model,
}
use graph_coder.Routing.Decision.Passed.{IsOf, score_for-IsOf}

module _ {F : Type 0} (q : RouteRequest F) where
  -- The pinned model, eligible, with no fallback.
  pub record IsPinned (wanted : String) (s : CandidateScore F) : Type 0 where
    pub listed : In s.model q.models
    pub wanted_model : s.model.model_id ≡ wanted
    pub provided : provider_for q s.model ≡ some s.provider
    pub clear : reasons_for q s.model ≡ []
    pub alone : s.fallback_model_id ≡ none

  -- A refusal, or the pinned model alone.
  pub record IsDirected (wanted : String) (d : RoutingDecision F) : Type 0 where
    pub pinned : d.explanation.pinned ≡ true
    pub route :
        ((d.selected ≡ none) × (d.candidates ≡ []))
        ⊎ ((s : CandidateScore F) × (d.selected ≡ some s)
            × (d.candidates ≡ s ∷ [])
            × IsPinned wanted s)

  alone_pool :
      (raw : CandidateScore F) (c : CandidateScore F)
      → In c (raw ∷ [])
      → other_model raw c ≡ true
      → ⊥
  alone_pool raw c (inl e) h =
      let same : raw.model.model_id ≡ c.model.model_id = ap (λ z. z.model.model_id) e in
      ground (arith, eq_iff c.model.model_id raw.model.model_id)
  alone_pool raw c (inr i) h = elim i [ ]

  attached_alone :
      (raw s : CandidateScore F) → IsAttached q.floats raw (raw ∷ []) s → s.fallback_model_id ≡ none
  attached_alone raw s same = elim same.fallback [
    | inl (e, _) ↦ e
    | inr (f, e, good) ↦ elim (alone_pool raw f good.candidate good.differs) [ ]
  ]

  pinned_selected-IsDirected :
      (wanted : String) (m : ModelCapabilities F) (p : ProviderCapabilities F)
      (raw : CandidateScore F)
      → In m q.models
      → m.model_id ≡ wanted
      → provider_for q m ≡ some p
      → reasons_for q m ≡ []
      → IsOf q m p raw
      → IsDirected wanted (pinned_selected q raw)
  unfolding pinned_selected attach
  pinned_selected-IsDirected wanted m p raw i e provided clear of =
      let out =
        attach_fallback q.floats raw (raw ∷ []) q.weighing.fallback_failure_weight
          q.task.max_attempts in
      let same =
        attach_fallback-IsAttached q.floats raw (raw ∷ []) q.weighing.fallback_failure_weight
          q.task.max_attempts in
      let model : m ≡ out.model = sym (same.model ∙ of.model) in
      let provider : p ≡ out.provider = sym (same.provider ∙ of.provider) in
      record {
        pinned = refl;
        route = inr (
          out,
          refl,
          refl,
          record {
            listed = subst (λ z. In z q.models) model i;
            wanted_model = subst (λ z. z.model_id ≡ wanted) model e;
            provided =
                subst (λ z. provider_for q z ≡ some out.provider) model
                  (subst (λ z. provider_for q m ≡ some z) provider provided);
            clear = subst (λ z. reasons_for q z ≡ []) model clear;
            alone = attached_alone raw out same;
          },
        );
      }

  pinned_refused-IsDirected :
      (wanted : String) (m : Option (ModelCapabilities F)) (reasons : List Reason)
      → IsDirected wanted (pinned_refused q wanted m reasons)
  unfolding pinned_refused
  pinned_refused-IsDirected wanted m reasons = record { pinned = refl; route = inl (refl, refl) }

  -- What is done once the model is found.
  pinned-cases :
      (wanted : String) (m : ModelCapabilities F) (d : RoutingDecision F)
      → named q.task.pinned_model_id ≡ some wanted
      → find (λ m. m.model_id == wanted) q.models ≡ some m
      → route_pinned_director q ≡ ok d
      → IsDirected wanted d
  unfolding route_pinned_director
  pinned-cases wanted m d e f h =
      let (i, t) = find-some (λ m. m.model_id == wanted) q.models m f in
      elim (Option-cases (provider_for q m)) [
        | inl g ↦
            subst (IsDirected wanted)
              (returned-injective RoutingProblem (rw (e, f, g, route_pinned_director) at h))
              (pinned_refused-IsDirected wanted (some m) _)
        | inr (p, g) ↦ elim (Bool-cases (is_nil (reasons_for q m))) [
          | inr r ↦
              subst (IsDirected wanted)
                (returned-injective RoutingProblem (rw (e, f, g, r, route_pinned_director) at h))
                (pinned_refused-IsDirected wanted (some m) (reasons_for q m))
          | inl r ↦
              let (raw, x, y) =
                >>=-eq-ok (score_for q m p) _ (rw (e, f, g, r, route_pinned_director) at h) in
              subst (IsDirected wanted) (returned-injective RoutingProblem y) (
                pinned_selected-IsDirected wanted m p raw i ((eq_iff m.model_id wanted).0 t) g
                  (nil_of_is_nil (reasons_for q m) (rw r refl)) (score_for-IsOf q m p raw x))
        ]
      ]

  director-cases :
      (wanted : String) (d : RoutingDecision F)
      → named q.task.pinned_model_id ≡ some wanted
      → route_pinned_director q ≡ ok d
      → IsDirected wanted d
  unfolding route_pinned_director
  director-cases wanted d e h = elim (Option-cases (find (λ m. m.model_id == wanted) q.models)) [
    | inr (m, f) ↦ pinned-cases wanted m d e f h
    | inl f ↦
        subst (IsDirected wanted)
          (returned-injective RoutingProblem (rw (e, f, route_pinned_director) at h))
          (pinned_refused-IsDirected wanted none _)
  ]

  -- For the director: where `route_model` returns, a model is pinned, and the decision either
  -- selects nothing or selects exactly the pinned model, which is one of the request's, passes
  -- every hard requirement with its provider, is the only candidate and has no fallback.
  pub route_model-IsDirected :
      (d : RoutingDecision F)
      → (q.task.role == "director") ≡ true
      → route_model q ≡ ok d
      → (wanted : String) × (named q.task.pinned_model_id ≡ some wanted) × IsDirected wanted d
  unfolding route_model route_pinned_director
  route_model-IsDirected d role h =
      let h' : route_pinned_director q ≡ ok d = rw role at h in
      elim (Option-cases (named q.task.pinned_model_id)) [
        | inl e ↦
            let absurd : err director_not_pinned ≡ ok d = rw (e, route_pinned_director) at h' in cc
        | inr (wanted, e) ↦ (wanted, e, director-cases wanted d e h')
      ]
