-- ===== src/Recovery/Restart/Changed.antt =====
-- What a restart does to the rows of attempts and units, row by row, and which events say so.
use Prim.Native.String.{◌++◌}
use graph_coder.Base.{
  true, false, none, some, List, [], ◌∷◌, map, keep, eq_iff, ◌≡◌, ◌↔◌, ◌⊎◌, inl, inr, refl, sym, ap,
  ◌∙◌, arith, Bool-cases, Option-cases, In, In-keep,
}
use graph_coder.Values.{Library}
use graph_coder.Ledger.Events.{Row}
use graph_coder.Recovery.Restart.{
  AttemptRow, UnitRow, is_in_flight, interrupted, interrupt_request, is_unverified, is_named,
  reopened, reopen_request,
}
use graph_coder.Recovery.Restart.Recorded.{IsRowOf}

-- The relation holds row by row, in lists of one length.
abbrev pub Pairwise : {A : Type 0} → (A → A → Type 0) → List A → List A → Type 0
Pairwise R [] [] = Unit
Pairwise R [] (y ∷ ys) = ⊥
Pairwise R (x ∷ xs) [] = ⊥
Pairwise R (x ∷ xs) (y ∷ ys) = R x y × Pairwise R xs ys

pub Pairwise-map :
    {A : Type 0} (R : A → A → Type 0) (f : A → A) (xs : List A)
    → ((x : A) → R x (f x))
    → Pairwise R xs (map f xs)
Pairwise-map R f [] h = tt
Pairwise-map R f (x ∷ xs) h = (h x, Pairwise-map R f xs h)

abbrev pub IsInFlight : AttemptRow → Type 0
IsInFlight a = (a.status ≡ "running") ⊎ ((a.status ≡ "in_flight") ⊎ (a.status ≡ "started"))

pub is_in_flight-IsInFlight : (a : AttemptRow) → (is_in_flight a ≡ true) ↔ IsInFlight a
is_in_flight-IsInFlight a =
    ground
      (arith, eq_iff "running" a.status, eq_iff "in_flight" a.status, eq_iff "started" a.status)

-- An attempt in flight is interrupted, and nothing else of it changes; another one stays.
pub record IsMarked (a b : AttemptRow) : Type 0 where
  pub flying : IsInFlight a → b ≡ record a { status = "interrupted" }
  pub landed : (IsInFlight a → ⊥) → b ≡ a

pub interrupted-IsMarked : (a : AttemptRow) → IsMarked a (interrupted a)
interrupted-IsMarked a =
    let same = is_in_flight-IsInFlight a in
    elim (Bool-cases (is_in_flight a)) [
      | inl e ↦ record { flying = λ f. rw e refl; landed = λ f. absurd (f (same.0 e)) }
      | inr e ↦ record {
        flying = λ f. let t = same.1 f in let bad : false ≡ true = sym e ∙ t in cc;
        landed = λ f. rw e refl;
      }
    ]

-- Completed, by one of its two names, and without evidence.
pub record IsUnverified (u : UnitRow) : Type 0 where
  pub completed : (u.status ≡ "completed") ⊎ (u.status ≡ "done")
  pub bare : u.evidence_hash ≡ none

pub is_unverified-IsUnverified : (u : UnitRow) → (is_unverified u ≡ true) ↔ IsUnverified u
is_unverified-IsUnverified u = (
  λ h. record {
    completed = ground (arith, eq_iff u.status "completed", eq_iff u.status "done");
    bare = elim (Option-cases u.evidence_hash) [ inl e ↦ e | inr (x, e) ↦ ground arith ];
  },
  λ k. ground (arith, k.completed, k.bare, eq_iff u.status "completed", eq_iff u.status "done"),
)

-- The row's key is that of a completed unit without evidence.
abbrev pub IsKeyOf : List UnitRow → UnitRow → Type 0
IsKeyOf units u =
    (r : UnitRow) × In r units × IsUnverified r × (r.plan_id ≡ u.plan_id) × (r.unit_id ≡ u.unit_id)

-- A row with the key of a completed unit without evidence is reopened, and nothing else of it
-- changes; another one stays.
pub record IsReopened (units : List UnitRow) (u v : UnitRow) : Type 0 where
  pub reopened : IsKeyOf units u → v ≡ record u { status = "reopened" }
  pub kept : (IsKeyOf units u → ⊥) → v ≡ u

is_named-In :
    (rows : List UnitRow) (u : UnitRow)
    → (is_named rows u ≡ true)
      ↔ ((r : UnitRow) × In r rows × (r.plan_id ≡ u.plan_id) × (r.unit_id ≡ u.unit_id))
is_named-In [] u = (λ h. cc, λ (r, i, p, q). elim i [ ])
is_named-In (x ∷ rows) u =
    let rest = is_named-In rows u in
    let plan = eq_iff x.plan_id u.plan_id in
    let unit = eq_iff x.unit_id u.unit_id in
    (
      λ h. elim (Bool-cases (is_named rows u)) [
        | inl e ↦ let (r, i, p, q) = rest.0 e in (r, inr i, p, q)
        | inr e ↦ (x, inl refl, ground arith, ground arith)
      ],
      λ (r, i, p, q). elim i [
        | inl e ↦
            let a = plan.1 (ap (λ (z : UnitRow). z.plan_id) e ∙ p) in
            let b = unit.1 (ap (λ (z : UnitRow). z.unit_id) e ∙ q) in ground arith
        | inr j ↦ let t = rest.1 (r, j, p, q) in ground arith
      ],
    )

pub reopened-IsReopened :
    (units : List UnitRow) (u : UnitRow)
    → IsReopened units u (reopened (keep is_unverified units) u)
reopened-IsReopened units u =
    let rows = keep is_unverified units in
    let named = is_named-In rows u in
    let key : IsKeyOf units u → is_named rows u ≡ true = λ (r, i, w, p, q).
      named.1
        (r, (In-keep is_unverified r units).1 (i, (is_unverified-IsUnverified r).1 w), p, q) in
    elim (Bool-cases (is_named rows u)) [
      | inl e ↦ record {
        reopened = λ k. rw e refl;
        kept = λ f.
            let (r, i, p, q) = named.0 e in
            let (j, t) = (In-keep is_unverified r units).0 i in
            absurd (f (r, j, (is_unverified-IsUnverified r).0 t, p, q));
      }
      | inr e ↦ record {
        reopened = λ k. let t = key k in let bad : false ≡ true = sym e ∙ t in cc;
        kept = λ f. rw e refl;
      }
    ]

-- The row of an event that says that an attempt was interrupted, or a unit reopened.
pub record IsInterruption (a : AttemptRow) (r : Row) : Type 0 where
  pub event_type : r.event_type ≡ "attempt.interrupted"
  pub idempotency_key : r.idempotency_key ≡ some ("restart-interrupt:" ++ a.id)
  pub attempt_id : r.attempt_id ≡ some a.id
  pub node_id : r.node_id ≡ a.node_id
  pub unit_id : r.unit_id ≡ a.unit_id
  pub actor_role : r.actor_role ≡ some a.role

pub record IsReopening (u : UnitRow) (r : Row) : Type 0 where
  pub event_type : r.event_type ≡ "unit.reopened"
  pub idempotency_key :
      r.idempotency_key ≡ some ("recovery-reopen:" ++ (u.plan_id ++ (":" ++ u.unit_id)))
  pub plan_id : r.plan_id ≡ some u.plan_id
  pub unit_id : r.unit_id ≡ some u.unit_id
  pub actor_role : r.actor_role ≡ some "Director"

module _ (lib : Library) where
  pub IsRowOf-IsInterruption :
      (a : AttemptRow) (r : Row) → IsRowOf lib (interrupt_request a) r → IsInterruption a r
  unfolding interrupt_request
  IsRowOf-IsInterruption a r h = record {
    event_type = h.event_type;
    idempotency_key = h.idempotency_key;
    attempt_id = h.attempt_id;
    node_id = h.node_id;
    unit_id = h.unit_id;
    actor_role = h.actor_role;
  }

  pub IsRowOf-IsReopening :
      (u : UnitRow) (r : Row) → IsRowOf lib (reopen_request u) r → IsReopening u r
  unfolding reopen_request
  IsRowOf-IsReopening u r h = record {
    event_type = h.event_type;
    idempotency_key = h.idempotency_key;
    plan_id = h.plan_id;
    unit_id = h.unit_id;
    actor_role = h.actor_role;
  }
