-- ===== src/Routing/Decision/Permitted.antt =====
-- What the decision on an ordinary unit holds.
use graph_coder.Base.{
  true, false, not, List, [], ◌++◌, some, keep, sort_by, In, In-keep, In-append, In-sort_by, ok,
  ◌≡◌, ◌⊎◌, inl, inr, sym, ap, ◌∙◌, subst,
}
use graph_coder.Routing.Models.{ModelCapabilities, CandidateScore, Elimination, RoutingDecision}
use graph_coder.Routing.Subscription.{SubscriptionOutcome}
use graph_coder.Routing.Subscription.Pool.{In-apply_subscription_first}
use graph_coder.Routing.Texts.{elimination_leb}
use graph_coder.Routing.Selection.{by_selection_key, key_less}
use graph_coder.Routing.Selection.Least.{first_least-In}
use graph_coder.Routing.Selection.Fallback.{IsAttached}
use graph_coder.Routing.Filter.{hard_filter_reasons}
use graph_coder.Routing.Filter.Eligible.{IsEligible, hard_filter_reasons-IsEligible}
use graph_coder.Routing.Decision.{
  RouteRequest, provider_for, reasons_for, model_leb, route_model, prefers_open, selection_pool,
  affordable, decide, below_floor, score_all, sorted_eliminations,
}
use graph_coder.Routing.Decision.Passed.{
  filtered-Passes, IsEliminated, filtered-covers, score_all-IsOf, score_all-covers,
}
use graph_coder.Routing.Decision.Chosen.{
  IsOrdinary, kept_of, candidates_of, candidate_of, sifted, route_model-decide, In-selection_pool,
}

module _ {F : Type 0} (q : RouteRequest F) where
  -- A route that the unit may take.
  pub record IsPermitted (s : CandidateScore F) : Type 0 where
    pub listed : In s.model q.models
    pub provided : provider_for q s.model ≡ some s.provider
    pub eligible : IsEligible F q.floats.less q.task s.model s.provider
    pub good : q.floats.at_most q.task.quality_floor s.quality ≡ true

  -- A raw score that the rule on subscriptions leaves is permitted.
  pooled-IsPermitted :
      (raw : List (CandidateScore F)) (t : CandidateScore F)
      → score_all q (sifted q).1 ≡ ok raw
      → In t (affordable q raw).pool
      → IsPermitted t
  unfolding affordable
  pooled-IsPermitted raw t e i =
      let (k, good) = (In-keep (λ s. q.floats.at_most q.task.quality_floor s.quality) t raw).0 (
        In-apply_subscription_first t
          (keep (λ s. q.floats.at_most q.task.quality_floor s.quality) raw) q.task i) in
      let (m, p, j, of) = score_all-IsOf q (sifted q).1 raw t e k in
      let passes = filtered-Passes q (sort_by model_leb q.models) m p j in
      let same_model = sym of.model in
      let same_provider = sym of.provider in
      let provided =
        subst (λ z. provider_for q z ≡ some t.provider) same_model
          (subst (λ z. provider_for q m ≡ some z) same_provider passes.provided) in
      record {
        listed =
            subst (λ z. In z q.models) same_model
              ((In-sort_by model_leb m q.models).0 passes.listed);
        provided = provided;
        eligible = (hard_filter_reasons-IsEligible F q.floats.less q.task t.model t.provider).0 (
            subst (λ z. hard_filter_reasons F q.floats.less q.task t.model z ≡ []) provided
              (subst (λ z. reasons_for q z ≡ []) same_model passes.clear));
        good = good;
      }

  attached-IsPermitted :
      (t s : CandidateScore F) (pool : List (CandidateScore F))
      → IsAttached q.floats t pool s
      → IsPermitted t
      → IsPermitted s
  attached-IsPermitted t s pool same h = record {
    listed = subst (λ z. In z q.models) (sym same.model) h.listed;
    provided =
        subst (λ z. provider_for q z ≡ some s.provider) (sym same.model)
          (subst (λ z. provider_for q t.model ≡ some z) (sym same.provider) h.provided);
    eligible =
        subst (λ z. IsEligible F q.floats.less q.task z s.provider) (sym same.model)
          (subst (λ z. IsEligible F q.floats.less q.task t.model z) (sym same.provider) h.eligible);
    good = subst (λ z. q.floats.at_most q.task.quality_floor z ≡ true) (sym same.quality) h.good;
  }

  pub decide-selected :
      (eliminations : List Elimination) (raw : List (CandidateScore F))
      (outcome : SubscriptionOutcome F) (s : CandidateScore F)
      → (decide q eliminations raw outcome).selected ≡ some s
      → In s (candidates_of q outcome)
  unfolding decide
  decide-selected eliminations raw outcome s h =
      In-selection_pool q s (candidates_of q outcome)
        (first_least-In q.floats (selection_pool q (candidates_of q outcome)) s h)

  -- For a unit that is not the director's and has no override: the route that `route_model` selects
  -- is a model of the request with its provider, meets every hard requirement, and reaches the
  -- quality floor.
  pub route_model-IsPermitted :
      (d : RoutingDecision F) (s : CandidateScore F)
      → IsOrdinary q
      → route_model q ≡ ok d
      → d.selected ≡ some s
      → IsPermitted s
  route_model-IsPermitted d s plain h chosen =
      let (raw, e, g) = route_model-decide q d plain h in
      let i =
        decide-selected (sifted q).0 raw (affordable q raw) s (ap (λ z. z.selected) g ∙ chosen) in
      let (t, j, same) = candidate_of q (affordable q raw) s i in
      attached-IsPermitted t s (kept_of q (affordable q raw)) same (pooled-IsPermitted raw t e j)

  -- Where the preference for open weights applies, the route is such a model.
  abbrev pub InPreference : List (CandidateScore F) → CandidateScore F → Type 0
  InPreference candidates t = prefers_open q candidates ≡ true → t.model.open_weight ≡ true

  -- The selected route is a candidate and first among those that the preference admits.
  pub record IsFirst (candidates : List (CandidateScore F)) (s : CandidateScore F) : Type 0 where
    pub candidate : In s candidates
    pub preferred : InPreference candidates s
    pub first :
        (t : CandidateScore F)
        → In t candidates
        → InPreference candidates t
        → key_less q.floats t s ≡ false

  -- A model is scored, or eliminated with the reasons of the hard filter.
  abbrev pub Accounted : RoutingDecision F → ModelCapabilities F → Type 0
  Accounted d m =
      ((s : CandidateScore F) × In s d.scored × (s.model ≡ m))
      ⊎ ((e : Elimination) × In e d.eliminations × IsEliminated q m e)

  decide-Accounted :
      (raw : List (CandidateScore F)) (outcome : SubscriptionOutcome F) (m : ModelCapabilities F)
      → score_all q (sifted q).1 ≡ ok raw
      → In m q.models
      → Accounted (decide q (sifted q).0 raw outcome) m
  unfolding decide by_selection_key sorted_eliminations
  decide-Accounted raw outcome m e i =
      elim (filtered-covers q (sort_by model_leb q.models) m
        ((In-sort_by model_leb m q.models).1 i)) [
          | inl (p, j) ↦
              let (s, k, of) = score_all-covers q (sifted q).1 raw m p e j in
              inl (s, (In-sort_by (λ a b. not (key_less q.floats b a)) s raw).1 k, of.model)
          | inr (w, j, out) ↦ inr (
            w,
            (In-sort_by (elimination_leb q.library) w _).1 (
                (In-append w ((sifted q).0 ++ below_floor q raw) outcome.eliminations).1
                  (inl ((In-append w (sifted q).0 (below_floor q raw)).1 (inl j)))),
            out,
          )
        ]

  -- For a unit that is not the director's and has no override: every model of the request is
  -- accounted for. The decision has a score of it, or an elimination of it with all the reasons
  -- that the hard filter gives.
  pub route_model-Accounted :
      (d : RoutingDecision F) (m : ModelCapabilities F)
      → IsOrdinary q
      → route_model q ≡ ok d
      → In m q.models
      → Accounted d m
  route_model-Accounted d m plain h i =
      let (raw, e, g) = route_model-decide q d plain h in
      subst (λ z. Accounted z m) g (decide-Accounted raw (affordable q raw) m e i)
