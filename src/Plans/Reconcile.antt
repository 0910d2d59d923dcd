-- ===== src/Plans/Reconcile.antt =====
-- plans.py `reconcile_completed_units`: what stays completed when a plan changes.
pub mod Earned
use graph_coder.Base.{
  String, Bool, true, false, not, ◌&&◌, ◌||◌, List, [], ◌∷◌, Option, none, some, is_nil, keep, has,
  Dict, insert, lookup, Result, ok, ◌>>=◌, ◌==◌, if◌then◌else◌,
}
use graph_coder.Values.{Library}
use graph_coder.Plans.Documents.{ImplementationUnit, Requirement, PlanDocument, PlanError}
use graph_coder.Plans.Hashes.{semantic_unit_hash}
use graph_coder.Plans.Readiness.{collect_readiness_defects}

abbrev pub Units : Type 0
Units = Dict ImplementationUnit

-- `{unit.unit_id: unit for unit in previous.units}`.
abbrev pub units_by_id : Units → List ImplementationUnit → Units
units_by_id d [] = d
units_by_id d (u ∷ us) = units_by_id (insert u.unit_id u d) us

-- The plan with that unit alone, and the requirements that name it.
unfoldable pub alone : PlanDocument → ImplementationUnit → PlanDocument
alone current unit = record current {
  units = unit ∷ [];
  requirements = keep (λ r. has unit.unit_id r.unit_ids) current.requirements;
}

abbrev pub is_completed_status : ImplementationUnit → Bool
is_completed_status unit = unit.status == "completed"

-- `old is not None and old.semantic_hash and old.semantic_hash != expected`.
unfoldable pub is_changed : Option ImplementationUnit → String → Bool
is_changed none expected = false
is_changed (some old) expected =
    not (old.semantic_hash == "") && not (old.semantic_hash == expected)

unfoldable pub lacks_evidence : Option ImplementationUnit → Bool
lacks_evidence none = false
lacks_evidence (some old) = is_completed_status old && is_nil old.completion_evidence

abbrev pub was_completed : Option ImplementationUnit → Bool
was_completed none = false
was_completed (some old) = is_completed_status old

-- The status after the comparison.
unfoldable pub new_status : ImplementationUnit → Option ImplementationUnit → Bool → Bool → String
unfolding lacks_evidence
new_status unit old changed invalid =
    if is_completed_status unit
      && (elim old [ none ↦ true | some o ↦ false ] || (changed || (invalid || lacks_evidence old)))
    then "reopened"
    else if was_completed old && (not changed && not invalid)
    then "completed"
    else unit.status

unfoldable pub reconcile_unit :
    Library → Units → PlanDocument → ImplementationUnit → Result PlanError ImplementationUnit
unfolding semantic_unit_hash collect_readiness_defects alone new_status is_changed lookup
reconcile_unit library previous current unit =
    let expected = semantic_unit_hash library unit in
    let old = lookup unit.unit_id previous in
    collect_readiness_defects library (alone current unit) >>= λ defects. ok (record unit {
      status = new_status unit old (is_changed old expected) (not (is_nil defects));
      semantic_hash = expected;
    })

unfoldable pub reconcile_all :
    Library
    → Units
    → PlanDocument
    → List ImplementationUnit
    → Result PlanError (List ImplementationUnit)
unfolding reconcile_unit
reconcile_all library previous current [] = ok []
reconcile_all library previous current (unit ∷ rest) =
    let later = reconcile_all library previous current rest in
    reconcile_unit library previous current unit >>= λ one. later >>= λ more. ok (one ∷ more)

unfoldable pub reconcile_completed_units :
    Library → PlanDocument → PlanDocument → Result PlanError (List ImplementationUnit)
unfolding reconcile_all insert
reconcile_completed_units library previous current =
    reconcile_all library (units_by_id [] previous.units) current current.units
