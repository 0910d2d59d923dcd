-- ===== src/Execution/Review/Verdicts.antt =====
-- When a manager's review is accepted, and what it makes of the node.
use graph_coder.Base.{
  String, Bool, true, false, not, List, Option, Dict, is_nil, ◌==◌, has, eq_iff, ok, raise_if,
  ◌>>=◌, ◌≡◌, ◌⊎◌, ◌↔◌, inl, inr, refl, arith, >>=-eq-ok, raise_if-eq-ok, true_of_not, subst, sym,
  ◌∙◌, ap,
}
use graph_coder.Execution.States.{
  ExecutionState, awaiting_review, repair_required, completed, human_required, state_name,
  coerce_state, allowed, validate_transition,
}
use graph_coder.Execution.Review.{
  is_awaiting, manager_verdicts, verdict_state, supplied, unsupplied, check_repair,
  check_escalation, apply_manager_review,
}

-- What a verdict has to come with, and the state that it gives.
pub data Accepted (defects instructions : List String) (escalation : Option (Dict Bool))
    : String → ExecutionState → Type 0 where
  passed : Accepted defects instructions escalation "pass" completed
  to_repair :
      is_nil defects ≡ false
      → is_nil instructions ≡ false
      → Accepted defects instructions escalation "repair_required" repair_required
  to_human :
      supplied escalation "question" ≡ true
      → supplied escalation "attempts_made" ≡ true
      → supplied escalation "impacted_nodes" ≡ true
      → Accepted defects instructions escalation "human_required" human_required

coerce_awaiting : (s : String) → coerce_state s ≡ ok awaiting_review → s ≡ "awaiting_review"
unfolding coerce_state
coerce_awaiting s h = ground (arith, eq_iff s "awaiting_review")

is_awaiting-eq : (s : ExecutionState) → is_awaiting s ≡ true → s ≡ awaiting_review
is_awaiting-eq s h = ground arith

verdict_cases :
    (v : String)
    → has v manager_verdicts ≡ true
    → (v ≡ "pass") ⊎ (v ≡ "repair_required") ⊎ (v ≡ "human_required")
verdict_cases v h =
    ground (arith, eq_iff "pass" v, eq_iff "repair_required" v, eq_iff "human_required" v)

repair_checked :
    (node_id : String) (defects instructions : List String) {t : Unit}
    → check_repair true node_id defects instructions ≡ ok t
    → (is_nil defects ≡ false) × (is_nil instructions ≡ false)
unfolding check_repair
repair_checked node_id defects instructions h = ground arith

escalation_checked :
    (node_id : String) (escalation : Option (Dict Bool)) {t : Unit}
    → check_escalation true node_id escalation ≡ ok t
    → (supplied escalation "question" ≡ true)
      × (supplied escalation "attempts_made" ≡ true)
      × (supplied escalation "impacted_nodes" ≡ true)
unfolding check_escalation unsupplied
escalation_checked node_id escalation h = ground arith

module _ (node_id : String) (defects instructions : List String)
    (escalation : Option (Dict Bool)) where
  -- What the checks before a transition leave open.
  abbrev Checks : String → ExecutionState → Type 0
  Checks v u =
      (check_repair (v == "repair_required") node_id defects instructions ≡ ok tt)
      × (check_escalation (v == "human_required") node_id escalation ≡ ok tt)
      × ((verdict_state v >>= λ target.
            validate_transition "awaiting_review" (state_name target) node_id)
          ≡ ok u)

  pass_result :
      (u : ExecutionState) → Checks "pass" u → Accepted defects instructions escalation "pass" u
  unfolding verdict_state state_name validate_transition coerce_state allowed
  pass_result u (r, e, h) =
      let q : completed ≡ u = cc in subst (Accepted defects instructions escalation "pass") q passed

  repair_result :
      (u : ExecutionState)
      → Checks "repair_required" u
      → Accepted defects instructions escalation "repair_required" u
  unfolding verdict_state state_name validate_transition coerce_state allowed
  repair_result u (r, e, h) =
      let q : repair_required ≡ u = cc in
      let (d, i) = repair_checked node_id defects instructions r in
      subst (Accepted defects instructions escalation "repair_required") q (to_repair d i)

  human_result :
      (u : ExecutionState)
      → Checks "human_required" u
      → Accepted defects instructions escalation "human_required" u
  unfolding verdict_state state_name validate_transition coerce_state allowed
  human_result u (r, e, h) =
      let q : human_required ≡ u = cc in
      let (k, a, n) = escalation_checked node_id escalation e in
      subst (Accepted defects instructions escalation "human_required") q (to_human k a n)

  result_of :
      (v : String) (u : ExecutionState)
      → has v manager_verdicts ≡ true
      → Checks v u
      → Accepted defects instructions escalation v u
  result_of v u k c = elim (verdict_cases v k) [
    | inl p ↦
        subst (λ w. Checks w u → Accepted defects instructions escalation w u) (sym p)
          (pass_result u) c
    | inr (inl p) ↦
        subst (λ w. Checks w u → Accepted defects instructions escalation w u) (sym p)
          (repair_result u) c
    | inr (inr p) ↦
        subst (λ w. Checks w u → Accepted defects instructions escalation w u) (sym p)
          (human_result u) c
  ]

  Accepted-ok :
      {v : String} {u : ExecutionState}
      → Accepted defects instructions escalation v u
      → apply_manager_review "awaiting_review" v node_id defects instructions escalation ≡ ok u
  unfolding apply_manager_review coerce_state verdict_state state_name validate_transition allowed
      check_repair check_escalation unsupplied
  Accepted-ok passed = refl
  Accepted-ok (to_repair d i) = ground arith
  Accepted-ok (to_human q a n) = ground arith

-- A review is accepted exactly if the node awaits review and the verdict comes with what it
-- needs: a repair with a defect and an instruction, an escalation with its question, its attempts
-- and its impacted nodes. The verdict alone determines the state that results.
pub apply_manager_review-Accepted :
    (current verdict node_id : String) (defects instructions : List String)
    (escalation : Option (Dict Bool)) (u : ExecutionState)
    → (apply_manager_review current verdict node_id defects instructions escalation ≡ ok u)
      ↔ ((current ≡ "awaiting_review") × Accepted defects instructions escalation verdict u)
unfolding apply_manager_review
apply_manager_review-Accepted current verdict node_id defects instructions escalation u = (
  accepted,
  λ (e, a).
      subst (λ c. apply_manager_review c verdict node_id defects instructions escalation ≡ ok u)
        (sym e) (Accepted-ok node_id defects instructions escalation a),
)
  where
    accepted :
        apply_manager_review current verdict node_id defects instructions escalation ≡ ok u
        → (current ≡ "awaiting_review") × Accepted defects instructions escalation verdict u
    accepted h =
        let (s, c, h) = >>=-eq-ok (coerce_state current) _ h in
        let (t, k, h) = >>=-eq-ok (raise_if (not (has verdict manager_verdicts)) _) _ h in
        let (t, w, h) = >>=-eq-ok (raise_if (not (is_awaiting s)) _) _ h in
        let e = is_awaiting-eq s (true_of_not (is_awaiting s) (raise_if-eq-ok _ _ w)) in
        let (t, r, h) =
          >>=-eq-ok (check_repair (verdict == "repair_required") node_id defects instructions) _
            h in
        let (t, q, h) =
          >>=-eq-ok (check_escalation (verdict == "human_required") node_id escalation) _ h in
        (
          coerce_awaiting current (c ∙ ap ok e),
          result_of node_id defects instructions escalation verdict u
              (true_of_not (has verdict manager_verdicts) (raise_if-eq-ok _ _ k))
              (
                r,
                q,
                subst
                    (λ (z : ExecutionState).
                      (verdict_state verdict >>= λ target.
                      validate_transition (state_name z) (state_name target) node_id)
                      ≡ ok u)
                    e h,
              ),
        )
