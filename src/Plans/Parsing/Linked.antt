-- ===== src/Plans/Parsing/Linked.antt =====
-- A plan that passes the checks of its identifiers and its traces has parts that name each other.
use graph_coder.Base.{List, [], ◌∷◌, map, distinct, true, ok, ◌≡◌, refl, ap, subst}
use graph_coder.Plans.Documents.{ImplementationUnit, Requirement, AcceptanceExample, PlanDocument}
use graph_coder.Plans.Checks.{requirement_ids_of, example_ids_of}
use graph_coder.Plans.Readiness.{unit_ids_of}
use graph_coder.Plans.Trace.{check_traceability}
use graph_coder.Plans.Trace.Named.{
  requirement_key, unit_key, example_key, NamesEachOther, check_traceability-NamesEachOther,
}

requirement_ids_of-map : (xs : List Requirement) → requirement_ids_of xs ≡ map requirement_key xs
requirement_ids_of-map [] = refl
requirement_ids_of-map (x ∷ xs) = ap (λ t. x.requirement_id ∷ t) (requirement_ids_of-map xs)

example_ids_of-map : (xs : List AcceptanceExample) → example_ids_of xs ≡ map example_key xs
example_ids_of-map [] = refl
example_ids_of-map (x ∷ xs) = ap (λ t. x.example_id ∷ t) (example_ids_of-map xs)

unit_ids_of-map : (xs : List ImplementationUnit) → unit_ids_of xs ≡ map unit_key xs
unit_ids_of-map [] = refl
unit_ids_of-map (x ∷ xs) = ap (λ t. x.unit_id ∷ t) (unit_ids_of-map xs)

pub traceability_names :
    (plan : PlanDocument)
    → distinct (requirement_ids_of plan.requirements) ≡ true
    → distinct (unit_ids_of plan.units) ≡ true
    → distinct (example_ids_of plan.acceptance_examples) ≡ true
    → check_traceability plan ≡ ok tt
    → NamesEachOther plan
traceability_names plan r u e h =
    let r' = subst (λ z. distinct z ≡ true) (requirement_ids_of-map plan.requirements) r in
    let u' = subst (λ z. distinct z ≡ true) (unit_ids_of-map plan.units) u in
    let e' = subst (λ z. distinct z ≡ true) (example_ids_of-map plan.acceptance_examples) e in
    (check_traceability-NamesEachOther plan r' u' e').0 h
