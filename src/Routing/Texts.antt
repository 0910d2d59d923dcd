-- ===== src/Routing/Texts.antt =====
-- routing.py: the reasons for an elimination as texts, and their order.
use Prim.Native.String.{◌++◌}
use graph_coder.Base.{String, Bool, true, false, List, [], ◌∷◌, map, ◌==◌, str_leb, if◌then◌else◌}
use graph_coder.Values.{Library}
use graph_coder.Graph.Units.{join}
use graph_coder.Routing.Models.{
  Reason, Elimination, provider_missing, provider_not_allowed, provider_denied, model_not_allowed,
  model_denied, not_authenticated, insufficient_context, insufficient_output, streaming_unavailable,
  missing_configuration, missing_tools, missing_modalities, missing_policies, class_disallowed,
  environment_unavailable, cost_exceeds, confidence_below, evidence_too_old, duplicates_route,
  group_available, quality_below_floor, override_not_found, pinned_missing,
}

module _ (library : Library) where
  -- `f"{xs}"` of a list of texts.
  unfoldable pub repr_list : List String → String
  unfolding join
  repr_list xs = "[" ++ join ", " (map library.repr xs) ++ "]"

  unfoldable pub reason_text : Reason → String
  unfolding repr_list
  reason_text provider_missing = "authentication/configuration: provider missing"
  reason_text provider_not_allowed = "provider policy: provider not allowed"
  reason_text provider_denied = "provider policy: provider denied"
  reason_text model_not_allowed = "model policy: model not allowed"
  reason_text model_denied = "model policy: model denied"
  reason_text not_authenticated = "authentication/configuration: provider not authenticated"
  reason_text insufficient_context = "context/output: insufficient context"
  reason_text insufficient_output = "context/output: insufficient output"
  reason_text streaming_unavailable = "tools/modalities/streaming: streaming unavailable"
  reason_text (missing_configuration xs) = "authentication/configuration: missing " ++ repr_list xs
  reason_text (missing_tools xs) = "tools/modalities/streaming: missing tools " ++ repr_list xs
  reason_text (missing_modalities xs) =
      "tools/modalities/streaming: missing modalities " ++ repr_list xs
  reason_text (missing_policies xs) = "policies: missing " ++ repr_list xs
  reason_text class_disallowed = "model class: disallowed"
  reason_text environment_unavailable = "environment: unavailable"
  reason_text cost_exceeds = "per-attempt cost: exceeds maximum"
  reason_text confidence_below = "confidence: below minimum"
  reason_text evidence_too_old = "evidence freshness: too old"
  reason_text (duplicates_route route) =
      "subscription-first: duplicates the eligible route " ++ route
  reason_text (group_available name) =
      "subscription-first: precedence group " ++ name ++ " is available"
  reason_text (quality_below_floor floor) = "quality below floor " ++ floor
  reason_text override_not_found = "manual override: model not found"
  reason_text (pinned_missing model) =
      "pinned model " ++ library.repr model ++ " is not in the registry"

  -- `xs <= ys` on lists of texts.
  unfoldable pub texts_leb : List String → List String → Bool
  unfolding str_leb
  texts_leb [] ys = true
  texts_leb (x ∷ xs) [] = false
  texts_leb (x ∷ xs) (y ∷ ys) = let rest = texts_leb xs ys in if x == y then rest else str_leb x y

  -- `key=lambda item: (item["model_id"], item["reasons"])`.
  unfoldable pub elimination_leb : Elimination → Elimination → Bool
  unfolding reason_text texts_leb str_leb
  elimination_leb a b =
      if a.model_id == b.model_id
      then texts_leb (map reason_text a.reasons) (map reason_text b.reasons)
      else str_leb a.model_id b.model_id
