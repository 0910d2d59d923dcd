-- ===== src/Plans/Readiness.antt =====
-- plans.py `collect_readiness_defects`: everything that keeps a plan from being carried out.
use graph_coder.Base.{
  String, Bool, true, false, not, ◌&&◌, List, [], ◌∷◌, ◌++◌, none, some, is_nil, keep, has, sorted,
  unique, Result, ok, err, ◌>>=◌, raise_if, ltb, leb, ◌==◌, if◌then◌else◌,
}
use graph_coder.Graph.Node.{ℤ, pos, negsuc}
use graph_coder.Values.{
  Json, null, object, Members, no_members, member, Library, get, has_key, as_integer, is_zero,
  is_number, is_true, is_text, str_of, get_or_null,
}
use graph_coder.Plans.Documents.{
  ImplementationUnit, PlanDocument, PlanError, Defect, not_ready, no_requirements,
  no_acceptance_examples, no_invariants, unit_missing, progress_missing, timeout_invalid,
  retry_unbounded, attempt_limit_invalid, completed_without_evidence, unknown_dependencies,
  gate_unsatisfied, gate_not_zero, gate_unbounded, cost_ceiling_missing, wrong_type, gates_failed,
}

abbrev pub Examined : Type 0
Examined = Result PlanError (List Defect)

-- `if test: defects.append(defect)`.
abbrev pub defect_if : Bool → Defect → List Defect
defect_if true d = d ∷ []
defect_if false d = []

abbrev pub is_empty : Members → Bool
is_empty no_members = true
is_empty (member k v rest) = false

-- The fields that must have a value, and whether each has none.
unfoldable pub required_fields : ImplementationUnit → List (String × Bool)
required_fields unit =
    ("acceptance", is_nil unit.acceptance)
    ∷ ("inspect targets", is_nil unit.inspect_targets)
    ∷ ("write scope", is_nil unit.write_scope)
    ∷ ("procedure", is_nil unit.procedure)
    ∷ ("forward proof", is_nil unit.forward_proof)
    ∷ ("regression proof", is_nil unit.regression_proof)
    ∷ ("commands", is_nil unit.commands)
    ∷ ("output artifacts", is_nil unit.output_artifacts)
    ∷ ("output contract", is_nil unit.output_contract)
    ∷ ("progress contract", is_empty unit.progress_contract)
    ∷ ("manager_id", unit.manager_id == "")
    ∷ ("review contract", is_empty unit.review_contract)
    ∷ ("context manifest", is_empty unit.context_manifest)
    ∷ ("retry policy", is_empty unit.retry_policy)
    ∷ ("STOP conditions", is_nil unit.stop_conditions)
    ∷ ("completion evidence", is_nil unit.completion_evidence)
    ∷ []

unfoldable pub missing_fields : String → List (String × Bool) → List Defect
missing_fields unit [] = []
missing_fields unit ((name, missing) ∷ rest) =
    defect_if missing (unit_missing unit name) ++ missing_fields unit rest

-- `isinstance(n, int) and n > 0`.
abbrev pub is_positive : Json → Bool
is_positive value = elim (as_integer value) [
  | none ↦ false
  | some (pos n) ↦ ltb 0 n
  | some (negsuc n) ↦ false
]

unfoldable pub progress_defects : ImplementationUnit → List Defect
unfolding get
progress_defects unit =
    let contract = unit.progress_contract in
    let lacks : String → Bool = λ key. not (is_empty contract) && not (has_key key contract) in
    defect_if (lacks "checkpoint_every") (progress_missing unit.unit_id "checkpoint_every")
    ++ (defect_if (lacks "command_timeout_seconds")
          (progress_missing unit.unit_id "command_timeout_seconds")
        ++ elim (get "command_timeout_seconds" contract) [
          | none ↦ []
          | some null ↦ []
          | some timeout ↦ defect_if (not (is_positive timeout)) (timeout_invalid unit.unit_id)
        ])

-- `1 <= n <= 10`.
abbrev pub is_attempt_limit : ℤ → Bool
is_attempt_limit (pos n) = leb 1 n && leb n 10
is_attempt_limit (negsuc n) = false

-- `set(unit.dependencies) - unit_ids`.
abbrev pub unknown_of : ImplementationUnit → List String → List String
unknown_of unit unit_ids = keep (λ d. not (has d unit_ids)) (unique unit.dependencies)

unfoldable pub unit_defects : List String → ImplementationUnit → List Defect
unfolding required_fields missing_fields progress_defects get sorted
unit_defects unit_ids unit =
    let unknown = unknown_of unit unit_ids in
    missing_fields unit.unit_id (required_fields unit)
    ++ (progress_defects unit
        ++ (defect_if
              (not (is_empty unit.retry_policy)
                && not (is_text "human_required" (get_or_null "then" unit.retry_policy)))
              (retry_unbounded unit.unit_id)
            ++ (defect_if (not (is_nil unknown))
                  (unknown_dependencies unit.unit_id (sorted unknown))
                ++ (defect_if (not (is_attempt_limit unit.attempt_limit))
                      (attempt_limit_invalid unit.unit_id)
                    ++ defect_if ((unit.status == "completed") && is_nil unit.completion_evidence)
                        (completed_without_evidence unit.unit_id)))))

unfoldable pub all_unit_defects : List String → List ImplementationUnit → List Defect
unfolding unit_defects
all_unit_defects unit_ids [] = []
all_unit_defects unit_ids (unit ∷ rest) =
    unit_defects unit_ids unit ++ all_unit_defects unit_ids rest

abbrev pub required_truths : List String
required_truths =
    "all_leaf_rehearsals_passed" ∷ "high_risk_double_rehearsed" ∷ "artifact_handoffs_complete"
    ∷ "existing_failures_classified" ∷ "operations_complete_when_applicable"
    ∷ "manager_failure_classes_complete" ∷ []

abbrev pub zero_fields : List String
zero_fields =
    "open_p0_defects" ∷ "open_p1_defects" ∷ "unsafe_write_overlaps" ∷ "launch_blocking_questions"
    ∷ []

abbrev pub bound_fields : List String
bound_fields = "max_active_workers" ∷ "max_total_nodes" ∷ "max_graph_depth" ∷ "attempt_limit" ∷ []

-- One loop over keys of the gate.
unfoldable pub gate_loop : (String → Bool) → (String → Defect) → List String → List Defect
gate_loop passes defect [] = []
gate_loop passes defect (key ∷ keys) =
    defect_if (not (passes key)) (defect key) ++ gate_loop passes defect keys

unfoldable pub gate_defects : Members → List Defect
unfolding gate_loop get
gate_defects release =
    gate_loop (λ key. is_true (get_or_null key release)) gate_unsatisfied required_truths
    ++ (gate_loop (λ key. is_zero (get_or_null key release)) gate_not_zero zero_fields
        ++ (gate_loop (λ key. is_positive (get_or_null key release)) gate_unbounded bound_fields
            ++ defect_if (not (is_number (get_or_null "execution_cost_ceiling" release)))
                cost_ceiling_missing))

abbrev pub unit_ids_of : List ImplementationUnit → List String
unit_ids_of [] = []
unit_ids_of (u ∷ us) = u.unit_id ∷ unit_ids_of us

-- `str(self.metadata.get("artifact_readiness", ""))`.
abbrev pub readiness : Library → PlanDocument → String
readiness library plan = elim (get "artifact_readiness" plan.metadata) [
  | none ↦ ""
  | some v ↦ str_of library v
]

unfoldable pub plan_defects : PlanDocument → Members → List Defect
unfolding all_unit_defects gate_defects
plan_defects plan release =
    defect_if (is_nil plan.requirements) no_requirements
    ++ (defect_if (is_nil plan.acceptance_examples) no_acceptance_examples
        ++ (defect_if (is_nil plan.invariants) no_invariants
            ++ (all_unit_defects (unit_ids_of plan.units) plan.units ++ gate_defects release)))

unfoldable pub collect_readiness_defects : Library → PlanDocument → Examined
unfolding plan_defects get
collect_readiness_defects library plan =
    if not (readiness library plan == "implementation-ready")
    then ok (not_ready ∷ [])
    else elim (get "release_gate" plan.metadata) [
      | none ↦ ok (plan_defects plan no_members)
      | some (object release) ↦ ok (plan_defects plan release)
      | some other ↦ err (wrong_type other)
    ]

unfoldable pub check_maximum_reliability_gates :
    Library → PlanDocument → Result PlanError (Unit {0})
unfolding collect_readiness_defects
check_maximum_reliability_gates library plan = collect_readiness_defects library plan >>= λ defects.
    raise_if (not (is_nil defects)) (gates_failed defects)
