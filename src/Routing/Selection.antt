-- ===== src/Routing/Selection.antt =====
-- routing.py: the order of selection, the Pareto frontier and the fallback of a route.
pub mod Frontier
pub mod Least
pub mod Fallback
use graph_coder.Base.{
  ℕ, String, Bool, true, false, not, ◌&&◌, ◌||◌, List, [], ◌∷◌, ◌++◌, Option, none, some, is_nil,
  keep, any, ◌==◌, str_leb, sort_by, if◌then◌else◌,
}
use graph_coder.Graph.Node.{ℤ}
use graph_coder.Routing.Floats.{Floats, bounded}
use graph_coder.Routing.Models.{CandidateScore}
use graph_coder.Routing.Scores.{attempts_of}

module _ {F : Type 0} where
  abbrev pub other_model : CandidateScore F → CandidateScore F → Bool
  other_model score item = not (item.model.model_id == score.model.model_id)

  abbrev pub other_provider : CandidateScore F → CandidateScore F → Bool
  other_provider score item = not (item.provider.provider_id == score.provider.provider_id)

  abbrev pub model_id_of : Option (CandidateScore F) → Option String
  model_id_of none = none
  model_id_of (some s) = some s.model.model_id

  abbrev pub provider_id_of : Option (CandidateScore F) → Option String
  provider_id_of none = none
  provider_id_of (some s) = some s.provider.provider_id

module _ {F : Type 0} (floats : Floats F) where
  -- One place of the comparison of two tuples: the next place decides where the items are equal.
  abbrev pub before : F → F → Bool → Bool
  before a b rest = if floats.same a b then rest else floats.less a b

  -- `_selection_key(a) < _selection_key(b)`.
  unfoldable pub key_less : CandidateScore F → CandidateScore F → Bool
  unfolding str_leb
  key_less a b = before a.expected_passing_cost b.expected_passing_cost (
      before (floats.negate a.model.confidence) (floats.negate b.model.confidence) (
        before (floats.negate a.provider.reliability) (floats.negate b.provider.reliability) (
          before a.model.latency_ms b.model.latency_ms
            (not (str_leb b.model.model_id a.model.model_id)))))

  -- `min(xs, key=_selection_key)`, the first of the least.
  unfoldable pub least : CandidateScore F → List (CandidateScore F) → CandidateScore F
  unfolding key_less
  least best [] = best
  least best (s ∷ rest) = least (if key_less s best then s else best) rest

  abbrev pub first_least : List (CandidateScore F) → Option (CandidateScore F)
  first_least [] = none
  first_least (s ∷ rest) = some (least s rest)

  -- `sorted(xs, key=_selection_key)`.
  unfoldable pub by_selection_key : List (CandidateScore F) → List (CandidateScore F)
  unfolding key_less
  by_selection_key = sort_by λ a b. not (key_less b a)

  -- Whether `other` makes `score` dominated.
  unfoldable pub dominates : CandidateScore F → CandidateScore F → Bool
  dominates other score =
      floats.at_most score.quality other.quality
      && (floats.at_most other.expected_passing_cost score.expected_passing_cost
          && (floats.at_most score.provider.reliability other.provider.reliability
              && (floats.at_most other.model.latency_ms score.model.latency_ms
                  && (floats.less score.quality other.quality
                      || (floats.less other.expected_passing_cost score.expected_passing_cost
                          || (floats.less score.provider.reliability other.provider.reliability
                              || floats.less other.model.latency_ms score.model.latency_ms))))))

  -- The outer loop; the other scores are those before and those after.
  unfoldable pub frontier_from :
      List (CandidateScore F) → List (CandidateScore F) → List (CandidateScore F)
  unfolding dominates
  frontier_from seen [] = []
  frontier_from seen (score ∷ rest) =
      let later = frontier_from (seen ++ score ∷ []) rest in
      if any (λ other. dominates other score) (seen ++ rest) then later else score ∷ later

  unfoldable pub pareto_frontier : List (CandidateScore F) → List (CandidateScore F)
  unfolding frontier_from
  pareto_frontier = frontier_from []

  -- `min(different_provider or fallback_pool)`.
  unfoldable pub fallback_of :
      CandidateScore F → List (CandidateScore F) → Option (CandidateScore F)
  unfolding least
  fallback_of score candidates =
      let pool = keep (other_model score) candidates in
      let different = keep (other_provider score) pool in
      if is_nil different then first_least pool else first_least different

  -- The cost with the fallback's share.
  unfoldable pub cost_with : CandidateScore F → Option (CandidateScore F) → F → ℤ → F
  unfolding bounded
  cost_with score none failure_weight max_attempts = score.expected_passing_cost
  cost_with score (some fallback) failure_weight max_attempts =
      let pass = bounded floats (floats.times score.quality score.provider.reliability) in
      let failure = floats.power (floats.minus floats.one pass) (attempts_of max_attempts) in
      floats.plus score.expected_passing_cost
        (floats.times (floats.times failure_weight failure) fallback.expected_passing_cost)

  unfoldable pub attach_fallback :
      CandidateScore F → List (CandidateScore F) → F → ℤ → CandidateScore F
  unfolding fallback_of cost_with
  attach_fallback score candidates failure_weight max_attempts =
      let fallback = fallback_of score candidates in
      let total = floats.round12 (cost_with score fallback failure_weight max_attempts) in
      record {
        model = score.model;
        provider = score.provider;
        external_score = score.external_score;
        local_score = score.local_score;
        quality = score.quality;
        expected_passing_cost = total;
        fallback_model_id = model_id_of fallback;
        explanation = record (score.explanation) {
          fallback_model_id = model_id_of fallback;
          fallback_provider_id = provider_id_of fallback;
          expected_passing_cost_with_fallback = some total;
        };
      }
