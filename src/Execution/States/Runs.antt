-- ===== src/Execution/States/Runs.antt =====
-- What the state machine lets a node do over time.
use graph_coder.Base.{
  String, Bool, true, false, not, ok, raise_if, ◌>>◌, ◌≡◌, ◌≢◌, ◌⊎◌, ◌↔◌, inl, inr, refl, arith,
  subst,
}
use graph_coder.Execution.States.{
  bad_transition, ExecutionState, pending, ready, running, awaiting_review, repair_required,
  completed, blocked, human_required, failed, cancelled, state_name, coerce_state, allowed,
  validate_transition,
}

-- The sequences of transitions that the table allows.
pub data Run (s : ExecutionState) : ExecutionState → Type 0 where
  here : Run s s
  next : {t : ExecutionState} (u : ExecutionState) → Run s t → allowed t u ≡ true → Run s u

-- A state's text stands for it, and for no other state.
pub coerce_state-state_name : (s : ExecutionState) → coerce_state (state_name s) ≡ ok s
unfolding coerce_state state_name
coerce_state-state_name pending = refl
coerce_state-state_name ready = refl
coerce_state-state_name running = refl
coerce_state-state_name awaiting_review = refl
coerce_state-state_name repair_required = refl
coerce_state-state_name completed = refl
coerce_state-state_name blocked = refl
coerce_state-state_name human_required = refl
coerce_state-state_name failed = refl
coerce_state-state_name cancelled = refl

-- On states, `validate_transition` returns the target exactly where the table allows it.
pub validate_transition-allowed :
    (s t u : ExecutionState) (node_id : String)
    → (validate_transition (state_name s) (state_name t) node_id ≡ ok u)
      ↔ ((allowed s t ≡ true) × (t ≡ u))
unfolding validate_transition
validate_transition-allowed s t u node_id =
    rw (coerce_state-state_name s) (rw (coerce_state-state_name t) (split (allowed s t)))
  where
    split :
        (b : Bool)
        → ((raise_if (not b) (bad_transition node_id (state_name s) (state_name t)) >> ok t) ≡ ok u)
          ↔ ((b ≡ true) × (t ≡ u))
    split true = ground arith
    split false = ground arith

completed_from : (s : ExecutionState) → allowed s completed ≡ true → s ≡ awaiting_review
unfolding allowed
completed_from s h = ground arith

awaiting_from : (s : ExecutionState) → allowed s awaiting_review ≡ true → s ≡ running
unfolding allowed
awaiting_from s h = ground arith

-- The states that a run goes through, its ends among them.
abbrev pub Visits : {s t : ExecutionState} → ExecutionState → Run s t → Type 0
Visits {s} x here = s ≡ x
Visits x (next u r h) = (u ≡ x) ⊎ Visits x r

Visits-end : {s t : ExecutionState} (r : Run s t) → Visits t r
Visits-end here = refl
Visits-end (next u r h) = inl refl

Visits-awaiting :
    {s t : ExecutionState} (r : Run s t) → t ≡ completed → s ≢ completed → Visits awaiting_review r
Visits-awaiting here e n = absurd (n e)
Visits-awaiting (next {t = w} u r h) e n = inr (
    subst (λ z. Visits z r) (completed_from w (subst (λ z. allowed w z ≡ true) e h)) (Visits-end r))

Visits-running :
    {s t : ExecutionState} (r : Run s t)
    → s ≢ awaiting_review
    → Visits awaiting_review r
    → Visits running r
Visits-running here n v = absurd (n v)
Visits-running (next {t = w} u r h) n (inl e) =
    inr (
      subst (λ z. Visits z r) (awaiting_from w (subst (λ z. allowed w z ≡ true) e h))
        (Visits-end r))
Visits-running (next u r h) n (inr v) = inr (Visits-running r n v)

-- Every run that completes a node goes through running and awaiting_review, unless it starts where
-- the node already is completed or awaits review.
pub Run-reviewed :
    (s : ExecutionState) (r : Run s completed)
    → s ≢ completed
    → s ≢ awaiting_review
    → Visits running r × Visits awaiting_review r
Run-reviewed s r n m = let v = Visits-awaiting r refl n in (Visits-running r m v, v)

cancelled_final : (u : ExecutionState) → allowed cancelled u ≡ false
unfolding allowed
cancelled_final u = ground arith

cancelled_stays : {s t : ExecutionState} → Run s t → s ≡ cancelled → t ≡ cancelled
cancelled_stays here e = e
cancelled_stays (next {t = w} u r h) e =
    let q = subst (λ z. allowed z u ≡ true) (cancelled_stays r e) h in
    absurd (ground (arith, cancelled_final u))

from_running : Run running completed
unfolding allowed
from_running = next completed (next awaiting_review here refl) refl

Run-trans : {s t u : ExecutionState} → Run s t → Run t u → Run s u
Run-trans p here = p
Run-trans p (next u q h) = next u (Run-trans p q) h

to_running : (s : ExecutionState) → s ≢ cancelled → Run s running
unfolding allowed
to_running pending n = next running (next ready here refl) refl
to_running ready n = next running here refl
to_running running n = here
to_running awaiting_review n = next running (next repair_required here refl) refl
to_running repair_required n = next running here refl
to_running completed n = next running (next repair_required here refl) refl
to_running blocked n = next running (next ready here refl) refl
to_running human_required n = next running here refl
to_running failed n = next running (next ready here refl) refl
to_running cancelled n = absurd (n refl)

-- A node can still be completed from every state but cancelled, and from cancelled no other
-- state is reached.
pub Run-open :
    (s : ExecutionState)
    → ((s ≢ cancelled) ↔ Run s completed) × ((t : ExecutionState) → Run cancelled t → t ≡ cancelled)
Run-open s = (
  (λ n. Run-trans (to_running s n) from_running, λ r e. cc (cancelled_stays r e)),
  λ t r. cancelled_stays r refl,
)
