-- ===== src/Plans/Reconcile/Earned.antt =====
-- What a completed unit of the reconciled plan holds.
use graph_coder.Base.{
  nil_of_is_nil, String, Bool, true, false, not, ◌&&◌, ◌||◌, List, [], ◌∷◌, ◌++◌, Option, none,
  some, is_nil, has, keep, unique, sorted, has-unique, lookup, ok, >>=-eq-ok, returned-injective,
  append-nil, ◌==◌, eq_iff, ◌≡◌, ◌⊎◌, inl, inr, refl, sym, ap, ◌∙◌, subst, arith, In, Bool-cases,
  Option-cases,
}
use graph_coder.Values.{Library, object, no_members, Members, get, get_or_null, is_text}
use graph_coder.Plans.Documents.{
  ImplementationUnit, PlanDocument, PlanError, not_ready, no_requirements, no_acceptance_examples,
  no_invariants, retry_unbounded, unknown_dependencies,
}
use graph_coder.Plans.Hashes.{semantic_unit_hash}
use graph_coder.Plans.Readiness.{
  collect_readiness_defects, plan_defects, all_unit_defects, unit_defects, required_fields,
  missing_fields, progress_defects, defect_if, unknown_of, readiness, gate_defects, is_empty,
}
use graph_coder.Plans.Reconcile.{
  units_by_id, alone, is_completed_status, is_changed, lacks_evidence, new_status, reconcile_unit,
  reconcile_all, reconcile_completed_units,
}

module _ (library : Library) (previous current : PlanDocument) where
  -- The unit was there before, asks for the same work, and the plan is ready for it.
  pub record IsEarned (v u old : ImplementationUnit) : Type 0 where
    pub listed : In u current.units
    pub same_id : v.unit_id ≡ u.unit_id
    pub same_dependencies : v.dependencies ≡ u.dependencies
    pub hashed : v.semantic_hash ≡ semantic_unit_hash library u
    pub known : lookup u.unit_id (units_by_id [] previous.units) ≡ some old
    pub unchanged : is_changed (some old) (semantic_unit_hash library u) ≡ false
    pub valid : collect_readiness_defects library (alone current u) ≡ ok []
    pub completed : (is_completed_status u ≡ true) ⊎ (is_completed_status old ≡ true)

  status-cases :
      (u : ImplementationUnit) (old : Option ImplementationUnit) (changed invalid : Bool)
      → (new_status u old changed invalid == "completed") ≡ true
      → (o : ImplementationUnit) × (old ≡ some o)
        × (changed ≡ false)
        × (invalid ≡ false)
        × ((is_completed_status u ≡ true) ⊎ (is_completed_status o ≡ true))
  unfolding new_status
  status-cases u none changed invalid h = elim (Bool-cases (is_completed_status u)) [
    | inl e ↦ let bad : ("reopened" == "completed") ≡ true = rw (e, new_status) at h in cc
    | inr e ↦ let bad : is_completed_status u ≡ true = rw (e, new_status) at h in cc
  ]
  status-cases u (some o) changed invalid h =
      elim (Bool-cases
        (is_completed_status u && (changed || (invalid || lacks_evidence (some o))))) [
          | inl e ↦ let bad : ("reopened" == "completed") ≡ true = rw (e, new_status) at h in cc
          | inr e ↦ elim (Bool-cases (is_completed_status o && (not changed && not invalid))) [
            | inl f ↦ (o, refl, ground arith, ground arith, ground arith)
            | inr f ↦
                let k : is_completed_status u ≡ true = rw (e, f, new_status) at h in
                (o, refl, ground arith, ground arith, inl k)
          ]
        ]

  unit-IsEarned :
      (u v : ImplementationUnit)
      → In u current.units
      → reconcile_unit library (units_by_id [] previous.units) current u ≡ ok v
      → is_completed_status v ≡ true
      → (old : ImplementationUnit) × IsEarned v u old
  unfolding reconcile_unit
  unit-IsEarned u v i h done =
      let (defects, e, f) = >>=-eq-ok (collect_readiness_defects library (alone current u)) _ h in
      let same = returned-injective PlanError f in
      let expected = semantic_unit_hash library u in
      let found = lookup u.unit_id (units_by_id [] previous.units) in
      let done' = subst (λ z. is_completed_status z ≡ true) (sym same) done in
      let (o, k, unchanged, valid, completed) =
        status-cases u found (is_changed found expected) (not (is_nil defects)) done' in
      (
        o,
        record {
          listed = i;
          same_id = ap (λ z. z.unit_id) (sym same);
          same_dependencies = ap (λ z. z.dependencies) (sym same);
          hashed = ap (λ z. z.semantic_hash) (sym same);
          known = k;
          unchanged = subst (λ z. is_changed z expected ≡ false) k unchanged;
          valid = e ∙ ap ok (nil_of_is_nil defects valid);
          completed = completed;
        },
      )

  all-IsEarned :
      (units out : List ImplementationUnit) (v : ImplementationUnit)
      → ((u : ImplementationUnit) → In u units → In u current.units)
      → reconcile_all library (units_by_id [] previous.units) current units ≡ ok out
      → In v out
      → is_completed_status v ≡ true
      → (u : ImplementationUnit) × (old : ImplementationUnit) × IsEarned v u old
  unfolding reconcile_all
  all-IsEarned [] out v sub h i done =
      elim (subst (In v) (sym (returned-injective PlanError h)) i) [ ]
  all-IsEarned (u ∷ rest) out v sub h i done =
      let previous_units = units_by_id [] previous.units in
      let (one, e, h1) = >>=-eq-ok (reconcile_unit library previous_units current u) _ h in
      let (more, f, h2) = >>=-eq-ok (reconcile_all library previous_units current rest) _ h1 in
      elim (subst (In v) (sym (returned-injective PlanError h2)) i) [
        | inl g ↦
            let (old, k) = unit-IsEarned u v (sub u (inl refl)) (e ∙ ap ok g) done in (u, old, k)
        | inr j ↦ all-IsEarned rest more v (λ w k. sub w (inr k)) f j done
      ]

  -- Where `reconcile_completed_units` returns: a unit of its result is completed only where the
  -- previous plan has the unit, its recorded hash is empty or that of the current unit, and the
  -- current plan with that unit alone has no readiness defect; one of the two units was completed.
  pub reconcile_completed_units-IsEarned :
      (out : List ImplementationUnit) (v : ImplementationUnit)
      → reconcile_completed_units library previous current ≡ ok out
      → In v out
      → (v.status == "completed") ≡ true
      → (u : ImplementationUnit) × (old : ImplementationUnit) × IsEarned v u old
  unfolding reconcile_completed_units
  reconcile_completed_units-IsEarned out v h i done =
      all-IsEarned current.units out v (λ u j. j) h i done

  unit_defects-known :
      (u : ImplementationUnit) (ids : List String) (d : String)
      → unit_defects ids u ≡ []
      → has d u.dependencies ≡ true
      → has d ids ≡ true
  unfolding unit_defects
  unit_defects-known u ids d h dep =
      let h1 = ((append-nil (missing_fields u.unit_id (required_fields u)) _).0 h).1 in
      let h2 = ((append-nil (progress_defects u) _).0 h1).1 in
      let h3 =
        ((append-nil
            (defect_if
              (not (is_empty u.retry_policy)
                && not (is_text "human_required" (get_or_null "then" u.retry_policy)))
              (retry_unbounded u.unit_id))
            _).0
          h2).1 in
      let h4 =
        ((append-nil
            (defect_if (not (is_nil (unknown_of u ids)))
              (unknown_dependencies u.unit_id (sorted (unknown_of u ids))))
            _).0
          h3).0 in
      elim (Bool-cases (has d ids)) [
        | inl e ↦ e
        | inr e ↦
            let i = keep-has (unique u.dependencies) ids d in
            elim (Bool-cases (not (is_nil (unknown_of u ids)))) [
              | inl k ↦ let bad = rw k at h4 in cc
              | inr k ↦ ground (arith, i, has-unique d u.dependencies)
            ]
      ]
    where
      keep-has :
          (xs ids : List String) (d : String)
          → is_nil (keep (λ x. not (has x ids)) xs) ≡ true
          → has d xs ≡ true
          → has d ids ≡ true
      keep-has [] ids d h k = cc
      keep-has (x ∷ xs) ids d h k = elim (Bool-cases (x == d)) [
        | inl e ↦ subst (λ z. has z ids ≡ true) ((eq_iff x d).0 e) (ground arith)
        | inr e ↦ keep-has xs ids d (ground arith) (ground arith)
      ]

  plan_defects-alone :
      (u : ImplementationUnit) (release : Members)
      → plan_defects (alone current u) release ≡ []
      → unit_defects (u.unit_id ∷ []) u ≡ []
  unfolding plan_defects alone all_unit_defects
  plan_defects-alone u release h =
      let h1 =
        ((append-nil (defect_if (is_nil (alone current u).requirements) no_requirements) _).0
          h).1 in
      let h2 =
        ((append-nil (defect_if (is_nil current.acceptance_examples) no_acceptance_examples) _).0
          h1).1 in
      let h3 = ((append-nil (defect_if (is_nil current.invariants) no_invariants) _).0 h2).1 in
      let h4 =
        ((append-nil (unit_defects (u.unit_id ∷ []) u ++ []) (gate_defects release)).0 h3).0 in
      ((append-nil (unit_defects (u.unit_id ∷ []) u) []).0 h4).0

  collect-alone :
      (u : ImplementationUnit)
      → collect_readiness_defects library (alone current u) ≡ ok []
      → unit_defects (u.unit_id ∷ []) u ≡ []
  unfolding collect_readiness_defects
  collect-alone u h =
      elim (Bool-cases (not (readiness library (alone current u) == "implementation-ready"))) [
        | inl e ↦
            let bad : not_ready ∷ [] ≡ [] =
              returned-injective PlanError (rw (e, collect_readiness_defects) at h) in
            cc
        | inr e ↦ elim (Option-cases (get "release_gate" (alone current u).metadata)) [
          | inl f ↦
              plan_defects-alone u no_members
                (returned-injective PlanError (rw (e, f, collect_readiness_defects) at h))
          | inr (object release, f) ↦
              plan_defects-alone u release
                (returned-injective PlanError (rw (e, f, collect_readiness_defects) at h))
          | inr (other, f) ↦ let bad = rw (e, f, collect_readiness_defects) at h in cc
        ]
      ]

  -- Where `reconcile_completed_units` returns, a unit of its result that is completed depends on no
  -- unit but itself: a unit that depends on another never stays completed.
  pub reconcile_completed_units-independent :
      (out : List ImplementationUnit) (v : ImplementationUnit) (d : String)
      → reconcile_completed_units library previous current ≡ ok out
      → In v out
      → (v.status == "completed") ≡ true
      → has d v.dependencies ≡ true
      → d ≡ v.unit_id
  reconcile_completed_units-independent out v d h i done dep =
      let (u, old, earned) = reconcile_completed_units-IsEarned out v h i done in
      let dep' = subst (λ z. has d z ≡ true) earned.same_dependencies dep in
      let known = unit_defects-known u (u.unit_id ∷ []) d (collect-alone u earned.valid) dep' in
      let same : u.unit_id ≡ d = ground (arith, eq_iff u.unit_id d) in sym same ∙ sym earned.same_id
