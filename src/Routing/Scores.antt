-- ===== src/Routing/Scores.antt =====
-- routing.py: the score of a candidate, from benchmarks, verified history and expected cost.
use graph_coder.Base.{
  ℕ, zero, suc, String, Bool, List, [], ◌∷◌, ◌++◌, Option, none, some, is_nil, is_none, not, sorted,
  ok, ◌>>=◌, ◌>>◌, raise_if, Dict, Result, lookup, get_or, if◌then◌else◌,
}
use graph_coder.Graph.Node.{ℤ, pos, negsuc}
use graph_coder.Routing.Floats.{Floats, larger, bounded}
use graph_coder.Routing.Models.{
  TaskRequirements, ProviderCapabilities, ModelCapabilities, VerifiedHistory, CandidateScore,
  RoutingProblem, division_by_zero, overflow,
}

abbrev pub Routed : Type 0 → Type 0
Routed = Result RoutingProblem

-- `max(1, max_attempts)`.
abbrev pub attempts_of : ℤ → ℕ
attempts_of (pos zero) = 1
attempts_of (pos (suc n)) = suc n
attempts_of (negsuc n) = 1

module _ {F : Type 0} where
  -- `name in benchmarks`.
  abbrev pub reports : Dict F → String → Bool
  reports benchmarks name = not (is_none (lookup name benchmarks))

  -- `[name for name in names if name not in benchmarks]`, of the names of a dictionary.
  abbrev pub unreported : Dict F → Dict F → List String
  unreported benchmarks [] = []
  unreported benchmarks ((name, weight) ∷ weights) =
      let rest = unreported benchmarks weights in
      if reports benchmarks name then rest else name ∷ rest

-- The parameters of `route_model` that set how scores weigh.
pub record Weighing (F : Type 0) : Type 0 where
  pub local_prior_successes : F
  pub local_prior_attempts : F
  pub external_weight : F
  pub local_weight : F
  pub retain_within_best : F
  pub fallback_failure_weight : F

module _ {F : Type 0} (floats : Floats F) where
  abbrev pub ones : Dict F → Dict F
  ones [] = []
  ones ((name, value) ∷ rest) = (name, floats.one) ∷ ones rest

  -- `task.benchmark_weights or {name: 1.0 for name in model.benchmarks}`.
  unfoldable pub weights_of : TaskRequirements F → ModelCapabilities F → Dict F
  weights_of task model =
      if is_nil task.benchmark_weights then ones model.benchmarks else task.benchmark_weights

  -- `max(0.0, weight)`.
  abbrev pub positive : F → F
  positive = larger floats floats.zero

  abbrev pub masses : Dict F → List F
  masses [] = []
  masses ((name, weight) ∷ weights) = positive weight ∷ masses weights

  abbrev pub covered_masses : Dict F → Dict F → List F
  covered_masses benchmarks [] = []
  covered_masses benchmarks ((name, weight) ∷ weights) =
      let rest = covered_masses benchmarks weights in
      if reports benchmarks name then positive weight ∷ rest else rest

  unfoldable pub benchmark_coverage : TaskRequirements F → ModelCapabilities F → F
  unfolding weights_of lookup bounded
  benchmark_coverage task model =
      let weights = weights_of task model in
      let total = floats.sum (masses weights) in
      if floats.at_most total floats.zero
      then floats.zero
      else bounded floats (floats.over (floats.sum (covered_masses model.benchmarks weights)) total)

  -- The products that are summed: the weight by name, times the benchmark.
  abbrev pub products : Dict F → Dict F → Dict F → List F
  products all benchmarks [] = []
  products all benchmarks ((name, _) ∷ weights) =
      floats.times (positive (get_or name floats.zero all)) (get_or name floats.zero benchmarks)
      ∷ products all benchmarks weights

  unfoldable pub external_score : TaskRequirements F → ModelCapabilities F → F
  unfolding weights_of lookup bounded
  external_score task model =
      let weights = weights_of task model in
      let total = floats.sum (masses weights) in
      bounded floats (
        floats.times
          (if floats.at_most total floats.zero
            then floats.zero
            else floats.over (floats.sum (products weights model.benchmarks weights)) total)
          model.confidence)

  -- `a / b`.
  abbrev pub divide : F → F → Routed F
  divide a b =
      raise_if (floats.same b floats.zero) division_by_zero >>= λ checked. ok (floats.over a b)

  unfoldable pub local_score : Option (VerifiedHistory F) → Weighing F → Routed F
  unfolding bounded
  local_score none by = ok (
      bounded floats (
        if floats.same by.local_prior_attempts floats.zero
        then floats.zero
        else floats.over by.local_prior_successes by.local_prior_attempts))
  local_score (some history) by =
      let recency = positive history.recency in
      divide (floats.plus by.local_prior_successes (floats.times history.successes recency))
        (floats.plus by.local_prior_attempts (floats.times history.attempts recency))
      >>= λ share. ok (bounded floats share)

  -- `failure**index for index in range(attempts)`.
  abbrev pub powers : F → ℕ → List F
  powers failure zero = []
  powers failure (suc n) = powers failure n ++ floats.power failure n ∷ []

  unfoldable pub expected_cost : F → F → ℤ → F
  unfolding bounded
  expected_cost per_attempt_cost pass_probability max_attempts =
      let failure = floats.minus floats.one (bounded floats pass_probability) in
      floats.times per_attempt_cost (floats.sum (powers failure (attempts_of max_attempts)))

  -- `(w * external + v * local) / (w + v)`, or 0.0.
  unfoldable pub quality_of : Weighing F → F → F → F
  quality_of by external own =
      let denominator = floats.plus by.external_weight by.local_weight in
      if floats.same denominator floats.zero
      then floats.zero
      else floats.over
          (floats.plus (floats.times by.external_weight external)
            (floats.times by.local_weight own))
          denominator

  -- `(1.0 - pass_probability) ** max(1, max_attempts)` raises OverflowError: the probability is
  -- not bounded here, as it is for the other powers.
  unfoldable pub score_overflows :
      TaskRequirements F → ProviderCapabilities F → Weighing F → F → F → Bool
  unfolding quality_of bounded
  score_overflows task provider by external own =
      let pass = floats.times (quality_of by external own) (bounded floats provider.reliability) in
      floats.overflows (floats.minus floats.one pass) (attempts_of task.max_attempts)

  -- The score, once its two parts are known and the power does not overflow.
  unfoldable pub score_of :
      TaskRequirements F
      → ModelCapabilities F
      → ProviderCapabilities F
      → Weighing F
      → F
      → F
      → CandidateScore F
  unfolding quality_of bounded expected_cost benchmark_coverage lookup sorted
  score_of task model provider by external own =
      let quality = quality_of by external own in
      let pass = floats.times quality (bounded floats provider.reliability) in
      let attempt_cost = expected_cost model.per_attempt_cost pass task.max_attempts in
      let failure = floats.minus floats.one pass in
      let repair = bounded floats failure in
      let repair_cost = floats.times model.per_attempt_cost (positive task.repair_cost_factor) in
      let escalation = bounded floats (floats.power failure (attempts_of task.max_attempts)) in
      let escalation_cost = positive task.escalation_cost in
      let cost =
        floats.plus (floats.plus attempt_cost (floats.times repair repair_cost))
          (floats.times escalation escalation_cost) in
      record {
        model = model;
        provider = provider;
        external_score = floats.round12 external;
        local_score = floats.round12 own;
        quality = floats.round12 quality;
        expected_passing_cost = floats.round12 cost;
        fallback_model_id = none;
        explanation = record {
          benchmark_coverage = floats.round12 (benchmark_coverage task model);
          unscored_benchmark_weights = sorted (unreported model.benchmarks task.benchmark_weights);
          provider_adjusted_pass_probability = floats.round12 pass;
          attempt_cost = floats.round12 attempt_cost;
          probability_of_repair = floats.round12 repair;
          repair_cost = floats.round12 repair_cost;
          probability_of_escalation = floats.round12 escalation;
          escalation_cost = floats.round12 escalation_cost;
          expected_passing_cost = floats.round12 cost;
          fallback_model_id = none;
          fallback_provider_id = none;
          expected_passing_cost_with_fallback = none;
        };
      }

  unfoldable pub score_candidate :
      TaskRequirements F
      → ModelCapabilities F
      → ProviderCapabilities F
      → Option (VerifiedHistory F)
      → Weighing F
      → Routed (CandidateScore F)
  unfolding external_score local_score score_overflows score_of
  score_candidate task model provider history by = do
    own ← local_score history by
    raise_if (score_overflows task provider by (external_score task model) own) overflow
    ok (score_of task model provider by (external_score task model) own)
