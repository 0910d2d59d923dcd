-- ===== src/Routing/Candidates.antt =====
-- routing.py: the request, the candidates that pass the hard filter, and their scores.
use graph_coder.Base.{
  String, Bool, false, not, List, [], ◌∷◌, Option, none, some, is_nil, map, ok, err, ◌>>=◌, ◌==◌,
  str_leb, sort_by, has, insert, lookup, Dict, if◌then◌else◌,
}
use graph_coder.Values.{Library}
use graph_coder.Routing.Floats.{Floats}
use graph_coder.Routing.Models.{
  TaskRequirements, ProviderCapabilities, ModelCapabilities, VerifiedHistory, CandidateScore,
  Elimination, Explanation, Reason, reviewer_category, unknown_role,
}
use graph_coder.Routing.Filter.{hard_filter_reasons}
use graph_coder.Routing.Texts.{elimination_leb}
use graph_coder.Routing.Scores.{Weighing, Routed, score_candidate}
use graph_coder.Routing.Selection.{attach_fallback}

abbrev pub route_roles : List String
route_roles = "director" ∷ "manager" ∷ "worker" ∷ "research" ∷ "rehearsal" ∷ []

-- `TaskRequirements.__post_init__`.
unfoldable pub check_route_role : String → Routed (Unit {0})
check_route_role role =
    if has role route_roles
    then ok tt
    else if role == "reviewer"
    then err reviewer_category
    else err (unknown_role role)

-- The text, unless it is absent or empty.
abbrev pub named : Option String → Option String
named none = none
named (some s) = if s == "" then none else some s

abbrev pub no_explanation : Explanation
no_explanation = record {
  pinned = false;
  subscription_first_applied = false;
  reseller_exception_required = false;
  subscription_precedence_group = none;
  open_weight_preference_applied = false;
  pareto_frontier_model_ids = [];
  retained_model_ids = [];
  pinned_route_rejected = none;
  manual_override_model_id = none;
  manual_override_forced = false;
  manual_override_warnings = [];
  manual_override_rejected = [];
  selected_model_id = none;
}

module _ {F : Type 0} where
  -- `{provider.provider_id: provider for provider in providers}`: the last of an id counts.
  abbrev pub providers_by :
      Dict (ProviderCapabilities F) → List (ProviderCapabilities F) → Dict (ProviderCapabilities F)
  providers_by d [] = d
  providers_by d (p ∷ ps) = providers_by (insert p.provider_id p d) ps

  abbrev pub history_by :
      Dict (VerifiedHistory F) → List (VerifiedHistory F) → Dict (VerifiedHistory F)
  history_by d [] = d
  history_by d (h ∷ hs) = history_by (insert h.model_id h d) hs

  abbrev pub model_leb : ModelCapabilities F → ModelCapabilities F → Bool
  model_leb a b = str_leb a.model_id b.model_id

  abbrev pub score_leb : CandidateScore F → CandidateScore F → Bool
  score_leb a b = str_leb a.model.model_id b.model.model_id

  -- The ids of the scores, in order.
  abbrev pub sorted_ids : List (CandidateScore F) → List String
  sorted_ids scores = map (λ s. s.model.model_id) (sort_by score_leb scores)

-- The arguments of `route_model`, with what the code uses of Python.
pub record RouteRequest (F : Type 0) : Type 0 where
  pub floats : Floats F
  pub library : Library
  pub task : TaskRequirements F
  pub models : List (ModelCapabilities F)
  pub providers : List (ProviderCapabilities F)
  pub history : List (VerifiedHistory F)
  pub weighing : Weighing F

module _ {F : Type 0} (q : RouteRequest F) where
  abbrev pub provider_for : ModelCapabilities F → Option (ProviderCapabilities F)
  provider_for model = lookup model.provider_id (providers_by [] q.providers)

  abbrev pub reasons_for : ModelCapabilities F → List Reason
  reasons_for model = hard_filter_reasons F q.floats.less q.task model (provider_for model)

  abbrev pub score_for : ModelCapabilities F → ProviderCapabilities F → Routed (CandidateScore F)
  score_for model provider =
      score_candidate q.floats q.task model provider
        (lookup model.model_id (history_by [] q.history)) q.weighing

  -- The loop over the sorted models: the eliminations, and the pairs that pass.
  unfoldable pub filtered :
      List (ModelCapabilities F)
      → List Elimination × List (ModelCapabilities F × ProviderCapabilities F)
  unfolding hard_filter_reasons lookup insert
  filtered [] = ([], [])
  filtered (model ∷ rest) =
      let later = filtered rest in
      if not (is_nil (reasons_for model))
      then (
        record {
          model_id = model.model_id;
          provider_id = some model.provider_id;
          reasons = reasons_for model;
        }
            ∷ later.0,
        later.1,
      )
      else elim (provider_for model) [
        | none ↦ later
        | some provider ↦ (later.0, (model, provider) ∷ later.1)
      ]

  unfoldable pub score_all :
      List (ModelCapabilities F × ProviderCapabilities F) → Routed (List (CandidateScore F))
  unfolding score_candidate lookup insert
  score_all [] = ok []
  score_all ((model, provider) ∷ rest) =
      let later = score_all rest in
      score_for model provider >>= λ score. later >>= λ scores. ok (score ∷ scores)

  unfoldable pub sorted_eliminations : List Elimination → List Elimination
  unfolding elimination_leb
  sorted_eliminations = sort_by (elimination_leb q.library)

  unfoldable pub attach : List (CandidateScore F) → CandidateScore F → CandidateScore F
  unfolding attach_fallback
  attach candidates score =
      attach_fallback q.floats score candidates q.weighing.fallback_failure_weight
        q.task.max_attempts
