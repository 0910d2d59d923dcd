-- ===== src/Examples/Graphs.antt =====
-- The theorems on graph.py at the sample plan.
use graph_coder.Base.{
  String, true, false, List, [], ◌∷◌, Option, none, some, has, distinct, count, Dict, IsSorted,
  str_leb, ok, err, ◌≡◌, ◌↔◌, ◌⊎◌, refl, In, inl, inr, lookup, insert,
}
use graph_coder.Graph.Node.{GraphNode, ArtifactRef, ids, entries, cyclic, duplicate_ids, pos}
use graph_coder.Graph.Order.{validate_acyclic_and_depth}
use graph_coder.Graph.Order.Invariant.{IsOrdered}
use graph_coder.Graph.Order.Correct.{IsAcyclic, validate_acyclic_and_depth-eq-cyclic}
use graph_coder.Graph.Authority.{validate_authority}
use graph_coder.Graph.Authority.Boundary.{KeepsBoundary, validate_authority-eq-ok}
use graph_coder.Graph.Artifacts.{validate_artifacts}
use graph_coder.Graph.Artifacts.Handoff.{
  IsProducedBy, Makes, IsHandedOver, validate_artifacts_sound,
}
use graph_coder.Graph.Scope.{scopes_overlap}
use graph_coder.Graph.Writes.{validate_write_safety}
use graph_coder.Graph.Writes.Safe.{IsSafe, validate_write_safety_sound}
use graph_coder.Graph.Validate.{validate, topological_nodes}
use graph_coder.Graph.Validate.Sound.{IsWellFormed, validate-IsWellFormed, topological_nodes_sorts}
use graph_coder.Graph.Ready.{ready_frontier}
use graph_coder.Graph.Ready.Exact.{IsEligible, ready_frontier-IsEligible}
use graph_coder.Graph.Units.{PlanUnit, compile_plan_units}
use graph_coder.Graph.Units.Partition.{all_ids, compile_plan_units-count}
use graph_coder.Examples.Samples.{api, docs, nodes, graph, knot, closed-IsClosed}

abbrev designed : Option String
designed = some "design"

validated : validate (graph none) ≡ ok (graph designed)
unfolding validate insert
validated = refl

validate-IsWellFormed_example :
    IsWellFormed (graph designed)
    × (ids (nodes designed) ≡ ids (nodes none))
    × (graph designed ≡ record (graph none) { nodes = nodes designed })
validate-IsWellFormed_example = validate-IsWellFormed (graph none) (graph designed) validated

topological_nodes_sorts_example :
    (sorted : List GraphNode) × (topological_nodes (graph none) ≡ ok sorted)
    × IsOrdered (nodes designed) [] (ids sorted)
    × (distinct (ids sorted) ≡ true)
    × ((n : GraphNode) → In n sorted ↔ In n (nodes designed))
topological_nodes_sorts_example = topological_nodes_sorts (graph none) (graph designed) validated

compile_plan_units-count_example :
    (units : List PlanUnit) × (compile_plan_units (graph none) ≡ ok units)
    × (distinct (all_ids units) ≡ true)
    × ((x : String) → count x (all_ids units) ≡ count x (ids (nodes designed)))
compile_plan_units-count_example = compile_plan_units-count (graph none) (graph designed) validated

validate_acyclic_and_depth-eq-cyclic_example :
    (validate_acyclic_and_depth knot (pos 6) ≡ err cyclic) ↔ (¬ IsAcyclic knot)
validate_acyclic_and_depth-eq-cyclic_example =
    validate_acyclic_and_depth-eq-cyclic knot (pos 6) refl (closed-IsClosed knot refl)

written : validate_write_safety (nodes none) ≡ ok tt
unfolding validate_write_safety
written = refl

overlapping : scopes_overlap "src/api" "src/api/docs" ≡ true
unfolding scopes_overlap
overlapping = refl

validate_write_safety_sound_example : IsSafe (nodes none) api docs
validate_write_safety_sound_example =
    validate_write_safety_sound (nodes none) refl (closed-IsClosed (nodes none) refl) written api
      docs (inr (inr (inr (inl refl)))) (inr (inl refl)) (λ e. cc)
      (record {
        left = "src/api";
        right = "src/api/docs";
        from_left = inl refl;
        from_right = inl refl;
        common = overlapping;
      })

validate_authority-eq-ok_example :
    (validate_authority "Director" (entries (nodes none)) (nodes none) ≡ ok tt)
    ↔ ((n : GraphNode) → In n (nodes none) → KeepsBoundary "Director" (entries (nodes none)) n)
validate_authority-eq-ok_example =
    validate_authority-eq-ok "Director" (entries (nodes none)) (nodes none)

handed : validate_artifacts (entries (nodes designed)) (nodes designed) ≡ ok tt
unfolding validate_artifacts lookup insert
handed = refl

validate_artifacts_sound_example :
    (producers : Dict String) × ((n : GraphNode) → In n (nodes designed) → IsProducedBy producers n)
    × ((name p : String) → lookup name producers ≡ some p → Makes (nodes designed) name p)
    × ((n : GraphNode)
        → In n (nodes designed)
        → (a : ArtifactRef) → In a n.artifact_inputs
        → IsHandedOver (entries (nodes designed)) producers n a)
validate_artifacts_sound_example =
    validate_artifacts_sound (entries (nodes designed)) (nodes designed) handed

ready_frontier-IsEligible_example :
    (distinct (ids (nodes none)) ≡ false)
      × (ready_frontier (graph none) ("design" ∷ []) ≡ err duplicate_ids)
    ⊎ ((ready : List String) × (ready_frontier (graph none) ("design" ∷ []) ≡ ok ready)
        × IsSorted str_leb ready
        × ((x : String) → (has x ready ≡ true) ↔ IsEligible (nodes none) ("design" ∷ []) x))
ready_frontier-IsEligible_example = ready_frontier-IsEligible (graph none) ("design" ∷ [])

-- Runs of the code.
run : (ready_frontier (graph none) ("design" ∷ []) ≡ ok ("Director" ∷ "api" ∷ "ui" ∷ []))
unfolding ready_frontier
run = refl
