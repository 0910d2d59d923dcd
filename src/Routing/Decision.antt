-- ===== src/Routing/Decision.antt =====
-- routing.py `route_model` and `_route_pinned_director`, and the check of a role.
pub mod Returns
pub mod Director
pub mod Permitted
pub mod Chosen
pub mod Passed
pub use graph_coder.Routing.Candidates.{RouteRequest}
unfoldable pub use graph_coder.Routing.Candidates.{
  route_roles, check_route_role, named, no_explanation, providers_by, history_by, model_leb,
  score_leb, sorted_ids, provider_for, reasons_for, score_for, filtered, score_all,
  sorted_eliminations, attach,
}
use graph_coder.Base.{
  String, Bool, true, false, not, ◌&&◌, ◌||◌, List, [], ◌∷◌, ◌++◌, Option, none, some, is_nil, map,
  keep, any, find, ok, err, ◌>>=◌, ◌==◌, str_leb, sort_by, has, insert, lookup, Dict, if◌then◌else◌,
}
use graph_coder.Values.{Library}
use graph_coder.Routing.Floats.{Floats, larger}
use graph_coder.Routing.Models.{
  TaskRequirements, ProviderCapabilities, ModelCapabilities, VerifiedHistory, CandidateScore,
  Elimination, Explanation, RoutingDecision, Reason, reviewer_category, unknown_role,
  director_not_pinned, quality_below_floor, override_not_found, pinned_missing,
}
use graph_coder.Routing.Filter.{hard_filter_reasons}
use graph_coder.Routing.Texts.{elimination_leb}
use graph_coder.Routing.Subscription.{SubscriptionOutcome, apply_subscription_first}
use graph_coder.Routing.Scores.{Weighing, Routed, score_candidate}
use graph_coder.Routing.Selection.{
  first_least, by_selection_key, pareto_frontier, attach_fallback, model_id_of,
}

module _ {F : Type 0} (q : RouteRequest F) where
  unfoldable pub override_rejected : String → List Elimination → List Reason → RoutingDecision F
  unfolding sorted_eliminations
  override_rejected wanted eliminations reasons = record {
    selected = none;
    candidates = [];
    eliminations = sorted_eliminations q eliminations;
    explanation = record no_explanation {
      manual_override_model_id = some wanted;
      manual_override_forced = q.task.force_override;
      manual_override_rejected = reasons;
    };
    scored = [];
  }

  -- The override is taken: its fallback comes from the other scores.
  unfoldable pub overridden :
      String
      → List Elimination
      → List (CandidateScore F)
      → ModelCapabilities F
      → CandidateScore F
      → RoutingDecision F
  unfolding sorted_eliminations attach hard_filter_reasons lookup insert
  overridden wanted eliminations raw model score =
      let others = keep (λ s. not (s.model.model_id == model.model_id)) raw in
      let chosen = attach q (score ∷ others) score in
      record {
        selected = some chosen;
        candidates = chosen ∷ [];
        eliminations = sorted_eliminations q eliminations;
        explanation = record no_explanation {
          manual_override_model_id = some wanted;
          manual_override_forced = q.task.force_override;
          manual_override_warnings = reasons_for q model;
          selected_model_id = some chosen.model.model_id;
        };
        scored = [];
      }

  unfoldable pub route_override :
      String → List Elimination → List (CandidateScore F) → Routed (RoutingDecision F)
  unfolding override_rejected overridden score_candidate hard_filter_reasons lookup insert
  route_override wanted eliminations raw = elim (find (λ m. m.model_id == wanted) q.models) [
    | none ↦ ok (override_rejected wanted eliminations (override_not_found ∷ []))
    | some model ↦ elim (provider_for q model) [
      | none ↦ ok (override_rejected wanted eliminations (reasons_for q model))
      | some provider ↦
          if is_nil (reasons_for q model) || q.task.force_override
          then (score_for q model provider >>= λ score.
              ok (overridden wanted eliminations raw model score))
          else ok (override_rejected wanted eliminations (reasons_for q model))
    ]
  ]

  -- The eliminations of the quality floor.
  unfoldable pub below_floor : List (CandidateScore F) → List Elimination
  below_floor [] = []
  below_floor (s ∷ rest) =
      let later = below_floor rest in
      if q.floats.less s.quality q.task.quality_floor
      then record {
        model_id = s.model.model_id;
        provider_id = some s.provider.provider_id;
        reasons = quality_below_floor (q.floats.fixed6 q.task.quality_floor) ∷ [];
      }
        ∷ later
      else later

  -- `max(score.quality for score in frontier)`, from the first.
  abbrev pub best_quality : F → List (CandidateScore F) → F
  best_quality best [] = best
  best_quality best (s ∷ rest) = best_quality (larger q.floats best s.quality) rest

  unfoldable pub retained : List (CandidateScore F) → List (CandidateScore F)
  retained [] = []
  retained (s ∷ rest) =
      keep
        (λ t.
          q.floats.at_most
            (q.floats.minus (best_quality s.quality rest) q.weighing.retain_within_best) t.quality)
        (s ∷ rest)

  abbrev pub prefers_open : List (CandidateScore F) → Bool
  prefers_open pool = q.task.prefer_open_weight && any (λ s. s.model.open_weight) pool

  unfoldable pub selection_pool : List (CandidateScore F) → List (CandidateScore F)
  selection_pool pool = if prefers_open pool then keep (λ s. s.model.open_weight) pool else pool

  -- The scores that reach the quality floor, after subscription-first.
  unfoldable pub affordable : List (CandidateScore F) → SubscriptionOutcome F
  unfolding apply_subscription_first
  affordable raw =
      apply_subscription_first q.task
        (keep (λ s. q.floats.at_most q.task.quality_floor s.quality) raw)

  -- The rest of `route_model`, on the pool that subscription-first leaves.
  unfoldable pub decide :
      List Elimination → List (CandidateScore F) → SubscriptionOutcome F → RoutingDecision F
  unfolding pareto_frontier retained attach selection_pool by_selection_key below_floor
      sorted_eliminations
  decide eliminations raw outcome =
      let frontier = pareto_frontier q.floats outcome.pool in
      let kept = retained frontier in
      let candidates = map (attach q kept) kept in
      let selected = first_least q.floats (selection_pool candidates) in
      record {
        selected = selected;
        candidates = by_selection_key q.floats candidates;
        eliminations =
            sorted_eliminations q ((eliminations ++ below_floor raw) ++ outcome.eliminations);
        explanation = record no_explanation {
          subscription_first_applied = outcome.applied;
          reseller_exception_required = outcome.reseller_exception_required;
          subscription_precedence_group = outcome.group;
          pareto_frontier_model_ids = sorted_ids frontier;
          retained_model_ids = sorted_ids candidates;
          open_weight_preference_applied = prefers_open candidates;
          selected_model_id = model_id_of selected;
        };
        scored = by_selection_key q.floats raw;
      }

  unfoldable pub pinned_refused :
      String → Option (ModelCapabilities F) → List Reason → RoutingDecision F
  pinned_refused wanted pinned reasons = record {
    selected = none;
    candidates = [];
    eliminations =
        record {
          model_id = wanted;
          provider_id = elim pinned [ none ↦ none | some m ↦ some m.provider_id ];
          reasons = reasons;
        }
        ∷ [];
    explanation = record no_explanation { pinned = true; pinned_route_rejected = some reasons };
    scored = [];
  }

  unfoldable pub pinned_selected : CandidateScore F → RoutingDecision F
  unfolding attach
  pinned_selected raw =
      let score = attach q (raw ∷ []) raw in
      record {
        selected = some score;
        candidates = score ∷ [];
        eliminations = [];
        explanation = record no_explanation {
          pinned = true;
          selected_model_id = some score.model.model_id;
        };
        scored = score ∷ [];
      }

  unfoldable pub route_pinned_director : Routed (RoutingDecision F)
  unfolding pinned_refused pinned_selected score_candidate hard_filter_reasons lookup insert
  route_pinned_director = elim (named q.task.pinned_model_id) [
    | none ↦ err director_not_pinned
    | some wanted ↦ elim (find (λ m. m.model_id == wanted) q.models) [
      | none ↦ ok (pinned_refused wanted none (pinned_missing wanted ∷ []))
      | some pinned ↦ elim (provider_for q pinned) [
        | none ↦ ok (pinned_refused wanted (some pinned) (reasons_for q pinned))
        | some provider ↦
            if is_nil (reasons_for q pinned)
            then (score_for q pinned provider >>= λ score. ok (pinned_selected score))
            else ok (pinned_refused wanted (some pinned) (reasons_for q pinned))
      ]
    ]
  ]

  -- What follows the scores, for any role but the director's.
  unfoldable pub route_scored :
      List Elimination → List (CandidateScore F) → Routed (RoutingDecision F)
  unfolding route_override decide affordable
  route_scored eliminations raw = elim (named q.task.manual_override_model_id) [
    | none ↦ ok (decide eliminations raw (affordable raw))
    | some wanted ↦ route_override wanted eliminations raw
  ]

  unfoldable pub route_model : Routed (RoutingDecision F)
  unfolding route_pinned_director filtered score_all route_scored str_leb
  route_model =
      if q.task.role == "director"
      then route_pinned_director
      else (let (eliminations, passed) = filtered q (sort_by model_leb q.models) in
          score_all q passed >>= λ raw. route_scored eliminations raw)
