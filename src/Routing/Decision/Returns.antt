-- ===== src/Routing/Decision/Returns.antt =====
-- When `route_model` returns a decision.
use graph_coder.Base.{false, In, ok, ◌≡◌}
use graph_coder.Routing.Models.{ProviderCapabilities, ModelCapabilities, VerifiedHistory}
use graph_coder.Routing.Scores.{Routed, positive, external_score, score_overflows}
use graph_coder.Routing.Decision.{RouteRequest}

-- Something is returned.
abbrev pub Returns : {A : Type 0} → Routed A → Type 0
Returns {A} r = (a : A) × (r ≡ ok a)

module _ {F : Type 0} (q : RouteRequest F) where
  -- No history brings the attempts to zero.
  abbrev pub IsDivisible : Type 0
  IsDivisible =
      (h : VerifiedHistory F)
      → In h q.history
      → q.floats.same
          (q.floats.plus q.weighing.local_prior_attempts
            (q.floats.times h.attempts (positive q.floats h.recency)))
          q.floats.zero
        ≡ false

  -- The power in a score of the request does not overflow, whatever the local score.
  abbrev pub FitsPowers : Type 0
  FitsPowers =
      (m : ModelCapabilities F) (p : ProviderCapabilities F) (own : F)
      → score_overflows q.floats q.task p q.weighing (external_score q.floats q.task m) own ≡ false
