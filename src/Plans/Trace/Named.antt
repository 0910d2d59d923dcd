-- ===== src/Plans/Trace/Named.antt =====
-- When a plan without repeated identifiers is traceable, in terms of its requirements, acceptance
-- examples and units.
use graph_coder.Base.{
  String, Bool, true, false, List, [], ◌∷◌, is_nil, has, lookup, insert, ok, distinct, map, ◌≡◌,
  ◌↔◌, refl, sym, ◌∙◌, subst, In,
}
use graph_coder.Plans.Documents.{ImplementationUnit, Requirement, AcceptanceExample, PlanDocument}
use graph_coder.Plans.Trace.{
  Links, requirement_to_units, unit_to_requirements, acceptance_to_units, unit_to_acceptance,
  check_traceability,
}
use graph_coder.Plans.Trace.Linked.{IsLinked, IsTraceable, check_traceability-IsTraceable}
use graph_coder.Plans.Trace.Gather.{pair_of, gather, gather-distinct, Named, IsLinked-Named}

requirement_to_units-gather :
    (xs : List Requirement) (d : Links)
    → requirement_to_units xs d
      ≡ gather (λ (x : Requirement). x.requirement_id) (λ (x : Requirement). x.unit_ids) xs d
unfolding requirement_to_units gather
requirement_to_units-gather [] d = refl
requirement_to_units-gather (x ∷ xs) d =
    requirement_to_units-gather xs (insert x.requirement_id x.unit_ids d)

unit_to_requirements-gather :
    (xs : List ImplementationUnit) (d : Links)
    → unit_to_requirements xs d
      ≡ gather
          (λ (x : ImplementationUnit). x.unit_id)
          (λ (x : ImplementationUnit). x.requirement_ids)
          xs
          d
unfolding unit_to_requirements gather
unit_to_requirements-gather [] d = refl
unit_to_requirements-gather (x ∷ xs) d =
    unit_to_requirements-gather xs (insert x.unit_id x.requirement_ids d)

acceptance_to_units-gather :
    (xs : List AcceptanceExample) (d : Links)
    → acceptance_to_units xs d
      ≡ gather
          (λ (x : AcceptanceExample). x.example_id)
          (λ (x : AcceptanceExample). x.unit_ids)
          xs
          d
unfolding acceptance_to_units gather
acceptance_to_units-gather [] d = refl
acceptance_to_units-gather (x ∷ xs) d =
    acceptance_to_units-gather xs (insert x.example_id x.unit_ids d)

unit_to_acceptance-gather :
    (xs : List ImplementationUnit) (d : Links)
    → unit_to_acceptance xs d
      ≡ gather
          (λ (x : ImplementationUnit). x.unit_id)
          (λ (x : ImplementationUnit). x.acceptance_example_ids)
          xs
          d
unfolding unit_to_acceptance gather
unit_to_acceptance-gather [] d = refl
unit_to_acceptance-gather (x ∷ xs) d =
    unit_to_acceptance-gather xs (insert x.unit_id x.acceptance_example_ids d)

-- Every requirement has a unit, every example has a unit and every unit has a requirement, and each
-- identifier that one of them names is that of one which names it in return.
pub record NamesEachOther (plan : PlanDocument) : Type 0 where
  pub requirements :
      (r : Requirement)
      → In r plan.requirements
      → (is_nil r.unit_ids ≡ false)
        × ((t : String)
            → has t r.unit_ids ≡ true
            → (u : ImplementationUnit) × In u plan.units
              × (u.unit_id ≡ t)
              × (has r.requirement_id u.requirement_ids ≡ true))
  pub units :
      (u : ImplementationUnit)
      → In u plan.units
      → (is_nil u.requirement_ids ≡ false)
        × ((t : String)
            → has t u.requirement_ids ≡ true
            → (r : Requirement) × In r plan.requirements
              × (r.requirement_id ≡ t)
              × (has u.unit_id r.unit_ids ≡ true))
  pub examples :
      (e : AcceptanceExample)
      → In e plan.acceptance_examples
      → (is_nil e.unit_ids ≡ false)
        × ((t : String)
            → has t e.unit_ids ≡ true
            → (u : ImplementationUnit) × In u plan.units
              × (u.unit_id ≡ t)
              × (has e.example_id u.acceptance_example_ids ≡ true))
  pub example_units :
      (u : ImplementationUnit) (t : String)
      → In u plan.units
      → has t u.acceptance_example_ids ≡ true
      → (e : AcceptanceExample) × In e plan.acceptance_examples
        × (e.example_id ≡ t)
        × (has u.unit_id e.unit_ids ≡ true)

-- The dictionary of a comprehension over distinct keys.
dictionary :
    {A : Type 0} (key : A → String) (value : A → List String) (xs : List A)
    → distinct (map key xs) ≡ true
    → gather key value xs [] ≡ map (pair_of key value) xs
unfolding lookup
dictionary key value xs u = gather-distinct key value xs [] u (λ k h. refl)

-- The key of each kind of record.
abbrev pub requirement_key : Requirement → String
requirement_key r = r.requirement_id

abbrev pub unit_key : ImplementationUnit → String
unit_key u = u.unit_id

abbrev pub example_key : AcceptanceExample → String
example_key e = e.example_id

module _ (plan : PlanDocument)
    (requirements : distinct (map requirement_key plan.requirements) ≡ true)
    (units : distinct (map unit_key plan.units) ≡ true)
    (examples : distinct (map example_key plan.acceptance_examples) ≡ true) where
  abbrev requirement_values : Requirement → List String
  requirement_values r = r.unit_ids

  abbrev unit_values : ImplementationUnit → List String
  unit_values u = u.requirement_ids

  abbrev example_values : AcceptanceExample → List String
  example_values e = e.unit_ids

  abbrev unit_examples : ImplementationUnit → List String
  unit_examples u = u.acceptance_example_ids

  to_units :
      requirement_to_units plan.requirements []
      ≡ map (pair_of requirement_key requirement_values) plan.requirements
  to_units =
      requirement_to_units-gather plan.requirements []
      ∙ dictionary requirement_key requirement_values plan.requirements requirements

  to_requirements :
      unit_to_requirements plan.units [] ≡ map (pair_of unit_key unit_values) plan.units
  to_requirements =
      unit_to_requirements-gather plan.units [] ∙ dictionary unit_key unit_values plan.units units

  to_example_units :
      acceptance_to_units plan.acceptance_examples []
      ≡ map (pair_of example_key example_values) plan.acceptance_examples
  to_example_units =
      acceptance_to_units-gather plan.acceptance_examples []
      ∙ dictionary example_key example_values plan.acceptance_examples examples

  to_examples : unit_to_acceptance plan.units [] ≡ map (pair_of unit_key unit_examples) plan.units
  to_examples =
      unit_to_acceptance-gather plan.units [] ∙ dictionary unit_key unit_examples plan.units units

  -- Two dictionaries, in terms of the lists that they are made of.
  exchanged :
      {A B : Type 0} (strict : Bool) (key : A → String) (value : A → List String) (xs : List A)
      (key' : B → String) (value' : B → List String) (ys : List B) (links other : Links)
      → links ≡ map (pair_of key value) xs
      → other ≡ map (pair_of key' value') ys
      → distinct (map key' ys) ≡ true
      → IsLinked strict other links ↔ Named strict key value xs key' value' ys
  exchanged strict key value xs key' value' ys links other e f u =
      subst (λ z. IsLinked strict z links ↔ Named strict key value xs key' value' ys) (sym f)
        (subst
          (λ z.
            IsLinked strict (map (pair_of key' value') ys) z
            ↔ Named strict key value xs key' value' ys)
          (sym e) (IsLinked-Named strict key value xs key' value' ys u))

  IsTraceable-NamesEachOther : IsTraceable plan ↔ NamesEachOther plan
  IsTraceable-NamesEachOther =
      let a =
        exchanged true requirement_key requirement_values plan.requirements unit_key unit_values
          plan.units _ _ to_units to_requirements units in
      let b =
        exchanged true unit_key unit_values plan.units requirement_key requirement_values
          plan.requirements _ _ to_requirements to_units requirements in
      let c =
        exchanged true example_key example_values plan.acceptance_examples unit_key unit_examples
          plan.units _ _ to_example_units to_examples units in
      let d =
        exchanged false unit_key unit_examples plan.units example_key example_values
          plan.acceptance_examples _ _ to_examples to_example_units examples in
      (
        λ h. record {
          requirements = a.0 h.requirements;
          units = b.0 h.units;
          examples = c.0 h.examples;
          example_units = λ u t i m. (d.0 h.example_units u i).1 t m;
        },
        λ k. record {
          requirements = a.1 k.requirements;
          units = b.1 k.units;
          examples = c.1 k.examples;
          example_units = d.1 (λ u i. (refl, λ t m. k.example_units u t i m));
        },
      )

  -- For a plan in which no two requirements, no two units and no two acceptance examples have one
  -- identifier: `check_traceability` passes exactly where each requirement and each example names a
  -- unit, each unit names a requirement, and whatever one of them names is there and names it in
  -- return, requirements and units as well as examples and units.
  pub check_traceability-NamesEachOther : (check_traceability plan ≡ ok tt) ↔ NamesEachOther plan
  check_traceability-NamesEachOther =
      let first = check_traceability-IsTraceable plan in
      let second = IsTraceable-NamesEachOther in
      (λ h. second.0 (first.0 h), λ k. first.1 (second.1 k))
