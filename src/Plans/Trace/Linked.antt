-- ===== src/Plans/Trace/Linked.antt =====
-- When a plan is traceable.
use graph_coder.Base.{
  String, Bool, true, false, not, ◌&&◌, List, [], ◌∷◌, some, is_nil, has, lookup, ok, raise_if,
  ◌==◌, eq_iff, eq_refl, ◌≡◌, ◌↔◌, inl, inr, refl, subst, arith, In, Bool-cases, Option-cases,
  >>=-eq-ok, raise_if-eq-ok, true_of_not,
}
use graph_coder.Plans.Documents.{
  PlanDocument, PlanError, requirement_without_unit, unit_without_requirements,
  example_without_unit, missing_unit, missing_requirement, trace_mismatch, acceptance_mismatch,
}
use graph_coder.Plans.Trace.{
  Links, requirement_to_units, unit_to_requirements, acceptance_to_units, unit_to_acceptance,
  check_link, check_links, check_sources, check_traceability,
}

-- `target` is a key of the dictionary and its value names `source`.
abbrev pub NamesBack : Links → String → String → Type 0
NamesBack other source target =
    (back : List String) × (lookup target other ≡ some back) × (has source back ≡ true)

-- Each key has a target where that is asked, and each target names the key in return.
abbrev pub IsLinked : Bool → Links → Links → Type 0
IsLinked strict other links =
    (source : String) (targets : List String)
    → In (source, targets) links
    → ((strict && is_nil targets) ≡ false)
      × ((target : String) → has target targets ≡ true → NamesBack other source target)

module _ (missing mismatch : String → String → PlanError) (other : Links) where
  check_link-eq-ok :
      (source target : String)
      → (check_link missing mismatch other source target ≡ ok tt) ↔ NamesBack other source target
  unfolding check_link
  check_link-eq-ok source target = elim (Option-cases (lookup target other)) [
    | inl e ↦ (λ h. cc (rw (e, check_link) at h), λ (back, l, m). cc)
    | inr (back, e) ↦ (
      λ h. (
        back,
        e,
        true_of_not (has source back) (
            raise_if-eq-ok (not (has source back)) (mismatch source target)
              (rw (e, check_link) at h)),
      ),
      λ (back', l, m). rw (l, check_link) (rw m refl),
    )
  ]

  check_links-eq-ok :
      (source : String) (targets : List String)
      → (check_links missing mismatch other source targets ≡ ok tt)
        ↔ ((target : String) → has target targets ≡ true → NamesBack other source target)
  unfolding check_links
  check_links-eq-ok source [] = (λ _ t h. cc, λ _. refl)
  check_links-eq-ok source (x ∷ xs) =
      let one = check_link-eq-ok source x in
      let rest = check_links-eq-ok source xs in
      (
        λ h t k.
            let (u, a, b) = >>=-eq-ok (check_link missing mismatch other source x) _ h in
            elim (Bool-cases (x == t)) [
              | inl e ↦ subst (NamesBack other source) ((eq_iff x t).0 e) (one.0 a)
              | inr e ↦ rest.0 b t (ground arith)
            ],
        λ f. rw (one.1 (f x (ground (arith, eq_refl x)))) (rest.1 (λ t k. f t (ground arith))),
      )

  check_sources-IsLinked :
      (strict : Bool) (empty : String → PlanError) (links : Links)
      → (check_sources strict empty missing mismatch other links ≡ ok tt)
        ↔ IsLinked strict other links
  unfolding check_sources
  check_sources-IsLinked strict empty [] = (λ _ s ts i. elim i [ ], λ _. refl)
  check_sources-IsLinked strict empty ((source, targets) ∷ links) =
      let one = check_links-eq-ok source targets in
      let rest = check_sources-IsLinked strict empty links in
      (
        λ h s ts i.
            let (u, a, b) = >>=-eq-ok (raise_if (strict && is_nil targets) (empty source)) _ h in
            let (w, c, d) = >>=-eq-ok (check_links missing mismatch other source targets) _ b in
            elim i [
              | inl e ↦
                  subst
                    (λ (z : String × List String).
                      ((strict && is_nil z.1) ≡ false)
                      × ((target : String) → has target z.1 ≡ true → NamesBack other z.0 target))
                    e (raise_if-eq-ok (strict && is_nil targets) (empty source) a, one.0 c)
              | inr j ↦ rest.0 d s ts j
            ],
        λ f.
            let (a, b) = f source targets (inl refl) in
            rw a (rw (one.1 b) (rest.1 (λ s ts i. f s ts (inr i)))),
      )

-- The dictionaries of requirements, acceptance examples and units name each other.
pub record IsTraceable (plan : PlanDocument) : Type 0 where
  pub requirements :
      IsLinked true (unit_to_requirements plan.units []) (requirement_to_units plan.requirements [])
  pub units :
      IsLinked true (requirement_to_units plan.requirements []) (unit_to_requirements plan.units [])
  pub examples :
      IsLinked true
        (unit_to_acceptance plan.units [])
        (acceptance_to_units plan.acceptance_examples [])
  pub example_units :
      IsLinked false
        (acceptance_to_units plan.acceptance_examples [])
        (unit_to_acceptance plan.units [])

pub check_traceability-IsTraceable :
    (plan : PlanDocument) → (check_traceability plan ≡ ok tt) ↔ IsTraceable plan
unfolding check_traceability
check_traceability-IsTraceable plan =
    let a =
      check_sources-IsLinked missing_unit trace_mismatch (unit_to_requirements plan.units []) true
        requirement_without_unit (requirement_to_units plan.requirements []) in
    let b =
      check_sources-IsLinked missing_requirement trace_mismatch
        (requirement_to_units plan.requirements []) true unit_without_requirements
        (unit_to_requirements plan.units []) in
    let c =
      check_sources-IsLinked acceptance_mismatch acceptance_mismatch
        (unit_to_acceptance plan.units []) true example_without_unit
        (acceptance_to_units plan.acceptance_examples []) in
    let d =
      check_sources-IsLinked acceptance_mismatch acceptance_mismatch
        (acceptance_to_units plan.acceptance_examples []) false example_without_unit
        (unit_to_acceptance plan.units []) in
    (
      λ h.
          let (u1, h1, k1) =
            >>=-eq-ok
              (check_sources true requirement_without_unit missing_unit trace_mismatch
                (unit_to_requirements plan.units []) (requirement_to_units plan.requirements []))
              _ h in
          let (u2, h2, k2) =
            >>=-eq-ok
              (check_sources true unit_without_requirements missing_requirement trace_mismatch
                (requirement_to_units plan.requirements []) (unit_to_requirements plan.units []))
              _ k1 in
          let (u3, h3, k3) =
            >>=-eq-ok
              (check_sources true example_without_unit acceptance_mismatch acceptance_mismatch
                (unit_to_acceptance plan.units [])
                (acceptance_to_units plan.acceptance_examples []))
              _ k2 in
          record {
            requirements = a.0 h1;
            units = b.0 h2;
            examples = c.0 h3;
            example_units = d.0 k3;
          },
      λ t. rw (a.1 t.requirements) (rw (b.1 t.units) (rw (c.1 t.examples) (d.1 t.example_units))),
    )
