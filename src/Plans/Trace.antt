-- ===== src/Plans/Trace.antt =====
-- plans.py `check_traceability`: requirements, acceptance examples and units name each other. The
-- code walks over sets; the order in which it meets two errors is that of the lists here.
pub mod Linked
pub mod Gather
pub mod Named
use graph_coder.Base.{
  String, Bool, true, false, not, ◌&&◌, List, [], ◌∷◌, Option, none, some, is_nil, has, Dict,
  lookup, insert, Result, ok, err, raise_if, ◌>>=◌, ◌>>◌,
}
use graph_coder.Plans.Documents.{
  ImplementationUnit, Requirement, AcceptanceExample, PlanDocument, PlanError,
  requirement_without_unit, unit_without_requirements, example_without_unit, missing_unit,
  missing_requirement, trace_mismatch, acceptance_mismatch,
}

abbrev pub Tried : Type 0
Tried = Result PlanError (Unit {0})

abbrev pub Links : Type 0
Links = Dict (List String)

-- The four dict comprehensions: of two equal keys the later one counts.
unfoldable pub requirement_to_units : List Requirement → Links → Links
unfolding insert
requirement_to_units [] links = links
requirement_to_units (r ∷ rs) links =
    requirement_to_units rs (insert r.requirement_id r.unit_ids links)

unfoldable pub unit_to_requirements : List ImplementationUnit → Links → Links
unfolding insert
unit_to_requirements [] links = links
unit_to_requirements (u ∷ us) links =
    unit_to_requirements us (insert u.unit_id u.requirement_ids links)

unfoldable pub acceptance_to_units : List AcceptanceExample → Links → Links
unfolding insert
acceptance_to_units [] links = links
acceptance_to_units (e ∷ es) links = acceptance_to_units es (insert e.example_id e.unit_ids links)

unfoldable pub unit_to_acceptance : List ImplementationUnit → Links → Links
unfolding insert
unit_to_acceptance [] links = links
unit_to_acceptance (u ∷ us) links =
    unit_to_acceptance us (insert u.unit_id u.acceptance_example_ids links)

-- `if target not in other: raise ...` and `if source not in other[target]: raise ...`.
unfoldable pub check_link :
    (String → String → PlanError) → (String → String → PlanError) → Links → String → String → Tried
unfolding lookup
check_link missing mismatch other source target = elim (lookup target other) [
  | none ↦ err (missing source target)
  | some back ↦ raise_if (not (has source back)) (mismatch source target)
]

-- An inner loop: each target is a key of the other dictionary, and names the source.
unfoldable pub check_links :
    (String → String → PlanError)
    → (String → String → PlanError)
    → Links
    → String
    → List String
    → Tried
unfolding check_link
check_links missing mismatch other source [] = ok tt
check_links missing mismatch other source (target ∷ rest) = do
  check_link missing mismatch other source target
  check_links missing mismatch other source rest

-- An outer loop; `strict` says whether a source without targets is an error.
unfoldable pub check_sources :
    Bool
    → (String → PlanError)
    → (String → String → PlanError)
    → (String → String → PlanError)
    → Links
    → Links
    → Tried
unfolding check_links
check_sources strict empty missing mismatch other [] = ok tt
check_sources strict empty missing mismatch other ((source, targets) ∷ rest) = do
  raise_if (strict && is_nil targets) (empty source)
  check_links missing mismatch other source targets
  check_sources strict empty missing mismatch other rest

unfoldable pub check_traceability : PlanDocument → Tried
unfolding requirement_to_units unit_to_requirements acceptance_to_units unit_to_acceptance
    check_sources
check_traceability plan =
    let to_units = requirement_to_units plan.requirements [] in
    let to_requirements = unit_to_requirements plan.units [] in
    let example_units = acceptance_to_units plan.acceptance_examples [] in
    let unit_examples = unit_to_acceptance plan.units [] in
    check_sources true requirement_without_unit missing_unit trace_mismatch to_requirements to_units
    >> (check_sources true unit_without_requirements missing_requirement trace_mismatch to_units
          to_requirements
        >> (check_sources true example_without_unit acceptance_mismatch acceptance_mismatch
              unit_examples example_units
            >> check_sources false example_without_unit acceptance_mismatch acceptance_mismatch
                example_units unit_examples))
