-- ===== src/Routing/Receipts/Fallback.antt =====
-- The fallback that a receipt names comes with its provider.
use graph_coder.Base.{
  String, not, List, [], ◌∷◌, Option, none, some, find-some, find_of_In, keep, In, In-keep,
  In-sort_by, has, ok, returned-injective, ◌==◌, eq_iff, ◌≡◌, inl, inr, refl, sym, ap, ◌∙◌, subst,
  arith, Bool-cases,
}
use graph_coder.Routing.Models.{CandidateScore, Elimination, RoutingDecision, RoutingProblem}
use graph_coder.Routing.Subscription.{SubscriptionOutcome}
use graph_coder.Routing.Subscription.Pool.{In-apply_subscription_first}
use graph_coder.Routing.Selection.{pareto_frontier, by_selection_key, key_less}
use graph_coder.Routing.Decision.{RouteRequest, affordable, decide, named, route_model}
use graph_coder.Routing.Decision.Chosen.{
  IsOrdinary, In-frontier_from, In-retained, kept_of, candidate_of, sifted, route_model-decide,
}
use graph_coder.Routing.Decision.Permitted.{decide-selected}
use graph_coder.Routing.Receipts.{
  RouteReceipt, provider_of, fallback_route, build_route_receipt, chosen_route,
}

named-some : (o : Option String) (id : String) → named o ≡ some id → o ≡ some id
named-some none id h = h
named-some (some s) id h = ground (arith, eq_iff s "")

module _ {F : Type 0} (q : RouteRequest F) where
  kept-In :
      (raw : List (CandidateScore F)) (f : CandidateScore F)
      → In f (kept_of q (affordable q raw))
      → In f raw
  unfolding affordable pareto_frontier
  kept-In raw f i =
      ((In-keep (λ s. q.floats.at_most q.task.quality_floor s.quality) f raw).0 (
        In-apply_subscription_first f
          (keep (λ s. q.floats.at_most q.task.quality_floor s.quality) raw) q.task
          (In-frontier_from q f [] (affordable q raw).pool
            (In-retained q f (pareto_frontier q.floats (affordable q raw).pool) i)))).0

  decide-scored :
      (eliminations : List Elimination) (raw : List (CandidateScore F))
      (outcome : SubscriptionOutcome F) (f : CandidateScore F)
      → In f raw
      → In f (decide q eliminations raw outcome).scored
  unfolding decide by_selection_key
  decide-scored eliminations raw outcome f =
      (In-sort_by (λ a b. not (key_less q.floats b a)) f raw).1

  -- The fallback of the selected route is among the scores of the decision.
  fallback-scored :
      (d : RoutingDecision F) (s : CandidateScore F) (id : String)
      → IsOrdinary q
      → route_model q ≡ ok d
      → d.selected ≡ some s
      → s.fallback_model_id ≡ some id
      → (f : CandidateScore F) × In f d.scored × (f.model.model_id ≡ id)
  fallback-scored d s id plain h chosen e =
      let (raw, r, g) = route_model-decide q d plain h in
      let outcome = affordable q raw in
      let i = decide-selected q (sifted q).0 raw outcome s (ap (λ z. z.selected) g ∙ chosen) in
      let (t, j, same) = candidate_of q outcome s i in
      elim same.fallback [
        | inl (n, _) ↦ let bad : none ≡ some id = sym n ∙ e in cc
        | inr (f, n, good) ↦
            let sure : some f.model.model_id ≡ some id = sym n ∙ e in
            (
              f,
              subst (λ z. In f z.scored) g
                  (decide-scored (sifted q).0 raw outcome f (kept-In raw f good.candidate)),
              cc,
            )
      ]

  -- What the receipt says of a route and its fallback.
  pub record IsReceipt (s : CandidateScore F) (id : String) (d : RoutingDecision F)
      (r : RouteReceipt F) : Type 0 where
    pub chosen :
        r.chosen_route
        ≡ some record {
          model = s.model.model_id;
          provider = s.provider.provider_id;
          expected_passing_cost = s.expected_passing_cost;
        }
    pub fallback :
        (f : CandidateScore F) × In f d.scored
        × (f.model.model_id ≡ id)
        × (r.fallback_route ≡ some record { model = id; provider = some f.provider.provider_id })

  IsReceipt-of :
      (d : RoutingDecision F) (s f : CandidateScore F) (id stamp fresh : String)
      (r : RouteReceipt F)
      → d.selected ≡ some s
      → named s.fallback_model_id ≡ some id
      → In f d.scored
      → f.model.model_id ≡ id
      → build_route_receipt q.task d stamp fresh ≡ ok r
      → IsReceipt s id d r
  unfolding build_route_receipt chosen_route fallback_route
  IsReceipt-of d s f id stamp fresh r chosen e i same h =
      let (g, found) =
        find_of_In (λ z. z.model.model_id == id) d.scored f i
          ((eq_iff f.model.model_id id).1 same) in
      let (j, t) = find-some (λ z. z.model.model_id == id) d.scored g found in
      elim (Bool-cases (not (has fresh ("network" ∷ "cache" ∷ "stale_cache" ∷ [])))) [
        | inl bad ↦ let absurd = rw bad at h in cc
        | inr known ↦
            subst (IsReceipt s id d) (returned-injective RoutingProblem (rw known at h)) record {
              chosen = rw chosen refl;
              fallback = (
                g,
                j,
                (eq_iff g.model.model_id id).0 t,
                rw (chosen, e, fallback_route) (rw (found, provider_of) refl),
              );
            }
      ]

  -- For a unit that is not the director's and has no override, routed with a fallback whose id is
  -- not empty: every receipt of the decision names the selected route, and names the fallback with
  -- the provider of a score of the decision.
  pub build_route_receipt-IsReceipt :
      (d : RoutingDecision F) (s : CandidateScore F) (id stamp fresh : String) (r : RouteReceipt F)
      → IsOrdinary q
      → route_model q ≡ ok d
      → d.selected ≡ some s
      → named s.fallback_model_id ≡ some id
      → build_route_receipt q.task d stamp fresh ≡ ok r
      → IsReceipt s id d r
  build_route_receipt-IsReceipt d s id stamp fresh r plain h chosen e made =
      let (f, i, same) =
        fallback-scored d s id plain h chosen (named-some s.fallback_model_id id e) in
      IsReceipt-of d s f id stamp fresh r chosen e i same made
