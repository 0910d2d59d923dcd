-- ===== src/Graph/Authority/Boundary.antt =====
-- What the boundary between managers and workers says, and that the check enforces it.
use graph_coder.Base.{
  String, true, List, [], ◌∷◌, some, Dict, lookup, ok, ◌≡◌, ◌≢◌, ◌⊎◌, ◌↔◌, inl, inr, refl, arith,
  In, eq_iff, >>=-eq-ok, Bool-cases, Option-cases, subst,
}
use graph_coder.Graph.Node.{
  GraphNode, NodeKind, manage, composite, advisory_only, is_manage, is_advisory,
}
use graph_coder.Graph.Authority.{check_role, check_review_owner, validate_authority}

-- A manager coordinates and cannot write; nor can any other advisory node.
pub record KeepsRole (n : GraphNode) : Type 0 where
  pub manager_composite : n.kind ≡ manage → n.role ≡ composite
  pub manager_advisory : n.kind ≡ manage → n.authority ≡ advisory_only
  pub advisory_writes_nothing : n.authority ≡ advisory_only → n.write_scopes ≡ []

-- The reviewer is another node, and the root or a manager.
pub record IsReviewer (root_id : String) (nodes : Dict GraphNode) (n : GraphNode) (name : String)
    : Type 0 where
  pub other : name ≢ n.id
  pub owner : GraphNode
  pub found : lookup name nodes ≡ some owner
  pub entitled : (owner.id ≡ root_id) ⊎ (owner.kind ≡ manage)

pub record KeepsBoundary (root_id : String) (nodes : Dict GraphNode) (n : GraphNode) : Type 0 where
  pub role : KeepsRole n
  pub reviewed : (name : String) → n.review_owner ≡ some name → IsReviewer root_id nodes n name

kind_manage : (k : NodeKind) → (is_manage k ≡ true) ↔ (k ≡ manage)
kind_manage k = ground arith

check_role-eq-ok : (n : GraphNode) → (check_role n ≡ ok tt) ↔ KeepsRole n
unfolding check_role
check_role-eq-ok n = (
  λ h. record {
    manager_composite = λ k. ground arith;
    manager_advisory = λ k. ground arith;
    advisory_writes_nothing = λ a. ground arith;
  },
  λ k. elim (Bool-cases (is_manage n.kind)) [
    | inl m ↦ ground (
      arith,
      k.manager_composite ((kind_manage n.kind).0 m),
      k.manager_advisory ((kind_manage n.kind).0 m),
      k.advisory_writes_nothing (k.manager_advisory ((kind_manage n.kind).0 m)),
    )
    | inr m ↦ elim (Bool-cases (is_advisory n.authority)) [
      | inl a ↦ ground (arith, k.advisory_writes_nothing (ground arith))
      | inr a ↦ ground arith
    ]
  ],
)

check_review_owner-eq-ok :
    (root_id : String) (nodes : Dict GraphNode) (n : GraphNode)
    → (check_review_owner root_id nodes n ≡ ok tt)
      ↔ ((name : String) → n.review_owner ≡ some name → IsReviewer root_id nodes n name)
unfolding check_review_owner
check_review_owner-eq-ok root_id nodes n = (
  λ h name e. elim (Option-cases (lookup name nodes)) [
    | inl missing ↦ ground (arith, eq_iff name n.id)
    | inr (owner, found) ↦ record {
      other = ground (arith, eq_iff name n.id);
      owner = owner;
      found = found;
      entitled = ground (arith, eq_iff owner.id root_id, eq_iff name n.id);
    }
  ],
  λ k. elim (Option-cases n.review_owner) [
    | inl e ↦ ground arith
    | inr (name, e) ↦
        let r = k name e in
        ground (arith, r.other, r.found, r.entitled, eq_iff name n.id, eq_iff (r.owner).id root_id)
  ],
)

-- `validate_authority` passes exactly the graphs in which every node keeps the boundary: a manager is
-- composite, advisory and writes nothing, an advisory node writes nothing, and a review owner is
-- another node that is the root or a manager.
pub validate_authority-eq-ok :
    (root_id : String) (nodes : Dict GraphNode) (ns : List GraphNode)
    → (validate_authority root_id nodes ns ≡ ok tt)
      ↔ ((n : GraphNode) → In n ns → KeepsBoundary root_id nodes n)
unfolding validate_authority
validate_authority-eq-ok root_id nodes [] = (λ _ n i. elim i [ ], λ _. refl)
validate_authority-eq-ok root_id nodes (n ∷ ns) =
    let rest = validate_authority-eq-ok root_id nodes ns in
    let one = check_role-eq-ok n in
    let owner = check_review_owner-eq-ok root_id nodes n in
    (
      λ h m i.
          let (u, r, h') = >>=-eq-ok (check_role n) _ h in
          let (w, o, h'') = >>=-eq-ok (check_review_owner root_id nodes n) _ h' in
          elim i [
            | inl e ↦
                subst (KeepsBoundary root_id nodes) e
                  (record { role = one.0 r; reviewed = owner.0 o })
            | inr j ↦ rest.0 h'' m j
          ],
      λ k.
          let b = k n (inl refl) in
          rw (one.1 b.role) (rw (owner.1 b.reviewed) (rest.1 (λ m j. k m (inr j)))),
    )
