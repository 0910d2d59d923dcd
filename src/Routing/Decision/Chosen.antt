-- ===== src/Routing/Decision/Chosen.antt =====
-- The route that `route_model` selects for a unit that has no override.
use graph_coder.Base.{
  false, List, [], ◌∷◌, ◌++◌, none, map, any, sort_by, In, In-keep, In-map_inv, ok, >>=-eq-ok,
  returned-injective, ◌==◌, ◌≡◌, inl, inr, refl, sym, ◌∙◌, subst, Bool-cases,
}
use graph_coder.Routing.Models.{
  ProviderCapabilities, ModelCapabilities, CandidateScore, Elimination, RoutingDecision,
  RoutingProblem,
}
use graph_coder.Routing.Subscription.{SubscriptionOutcome}
use graph_coder.Routing.Selection.{dominates, frontier_from, pareto_frontier}
use graph_coder.Routing.Selection.Fallback.{IsAttached, attach_fallback-IsAttached}
use graph_coder.Routing.Decision.{
  RouteRequest, model_leb, named, filtered, score_all, attach, best_quality, retained, prefers_open,
  selection_pool, affordable, decide, route_scored, route_model,
}

pub In-frontier_from :
    {F : Type 0} (q : RouteRequest F) (s : CandidateScore F) (seen scores : List (CandidateScore F))
    → In s (frontier_from q.floats seen scores)
    → In s scores
unfolding frontier_from
In-frontier_from q s seen [] i = i
In-frontier_from q s seen (x ∷ rest) i =
    elim (Bool-cases (any (λ other. dominates q.floats other x) (seen ++ rest))) [
      | inl e ↦ inr (In-frontier_from q s (seen ++ x ∷ []) rest (rw e at i))
      | inr e ↦ elim (rw e at i) [
        | inl f ↦ inl f
        | inr j ↦ inr (In-frontier_from q s (seen ++ x ∷ []) rest j)
      ]
    ]

module _ {F : Type 0} (q : RouteRequest F) where
  pub In-retained :
      (s : CandidateScore F) (scores : List (CandidateScore F))
      → In s (retained q scores)
      → In s scores
  unfolding retained
  In-retained s [] i = i
  In-retained s (x ∷ rest) i =
      ((In-keep
          (λ t.
            q.floats.at_most
              (q.floats.minus (best_quality q x.quality rest) q.weighing.retain_within_best)
              t.quality)
          s (x ∷ rest)).0
        i).0

  pub In-selection_pool :
      (s : CandidateScore F) (pool : List (CandidateScore F))
      → In s (selection_pool q pool)
      → In s pool
  unfolding selection_pool
  In-selection_pool s pool i = elim (Bool-cases (prefers_open q pool)) [
    | inl e ↦ ((In-keep _ s pool).0 (rw e at i)).0
    | inr e ↦ rw e at i
  ]

  -- The scores that the choice is between.
  abbrev pub kept_of : SubscriptionOutcome F → List (CandidateScore F)
  kept_of outcome = retained q (pareto_frontier q.floats outcome.pool)

  abbrev pub candidates_of : SubscriptionOutcome F → List (CandidateScore F)
  candidates_of outcome = map (attach q (kept_of outcome)) (kept_of outcome)

  -- A candidate is a retained score with its fallback.
  pub candidate_of :
      (outcome : SubscriptionOutcome F) (s : CandidateScore F)
      → In s (candidates_of outcome)
      → (t : CandidateScore F) × In t outcome.pool × IsAttached q.floats t (kept_of outcome) s
  unfolding attach pareto_frontier
  candidate_of outcome s i =
      let kept = kept_of outcome in
      let (t, j, e) = In-map_inv (attach q kept) s kept i in
      (
        t,
        In-frontier_from q t [] outcome.pool
            (In-retained t (pareto_frontier q.floats outcome.pool) j),
        subst (IsAttached q.floats t kept) e (
            attach_fallback-IsAttached q.floats t kept q.weighing.fallback_failure_weight
              q.task.max_attempts),
      )

  -- What `route_model` runs for a unit that no director and no override decides.
  pub record IsOrdinary : Type 0 where
    pub undirected : (q.task.role == "director") ≡ false
    pub free : named q.task.manual_override_model_id ≡ none

  abbrev pub sifted : List Elimination × List (ModelCapabilities F × ProviderCapabilities F)
  sifted = filtered q (sort_by model_leb q.models)

  route_scored-decide :
      (eliminations : List Elimination) (raw : List (CandidateScore F))
      → named q.task.manual_override_model_id ≡ none
      → route_scored q eliminations raw ≡ ok (decide q eliminations raw (affordable q raw))
  unfolding route_scored
  route_scored-decide eliminations raw h = rw (h, route_scored) refl

  pub route_model-decide :
      (d : RoutingDecision F)
      → IsOrdinary
      → route_model q ≡ ok d
      → (raw : List (CandidateScore F)) × (score_all q sifted.1 ≡ ok raw)
        × (decide q sifted.0 raw (affordable q raw) ≡ d)
  unfolding route_model
  route_model-decide d plain h =
      let (raw, e, g) = >>=-eq-ok (score_all q sifted.1) _ (rw plain.undirected at h) in
      (
        raw,
        e,
        returned-injective RoutingProblem (sym (route_scored-decide sifted.0 raw plain.free) ∙ g),
      )
