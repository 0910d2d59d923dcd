-- ===== src/Graph/Validate/Nodes.antt =====
-- The loop of `validate` over the nodes: what it checks, and what it sets.
use graph_coder.Base.{
  String, Bool, true, false, not, List, [], ◌∷◌, ◌++◌, some, is_nil, length, has, ◌==◌, ok,
  raise_if, raise_if-eq-ok, ◌≡◌, ◌≢◌, inl, inr, refl, arith, In, eq_iff, >>=-eq-ok, Bool-cases,
  subst, has-append, has-cons_cases,
}
use graph_coder.Graph.Node.{
  ArtifactRef, GraphNode, ids, entries, ℤ, exceeds, Limits, check_limits, in_range,
}
use graph_coder.Graph.Entries.{lookup_absent}
use graph_coder.Graph.Validate.{
  other_producer, missing_from, claim_outputs, check_node, check_nodes,
}

pub missing_from-nil :
    (ns : List GraphNode) (xs : List String)
    → is_nil (missing_from (entries ns) xs) ≡ true
    → (x : String) → has x xs ≡ true
    → has x (ids ns) ≡ true
unfolding missing_from
missing_from-nil ns [] h x i = cc
missing_from-nil ns (y ∷ xs) h x i = elim (Bool-cases (has x (ids ns))) [
  | inl k ↦ k
  | inr k ↦ elim (has-cons_cases x y xs i) [
    | inl e ↦ cc (lookup_absent x ns k)
    | inr j ↦ missing_from-nil ns xs (ground arith) x j
  ]
]

claim_outputs_sound :
    (id : String) (outs outs' : List ArtifactRef)
    → claim_outputs id outs ≡ ok outs'
    → (a : ArtifactRef) → In a outs'
    → a.producer ≡ some id
unfolding claim_outputs
claim_outputs_sound id [] outs' h a i = absurd (none_in outs' (cc) i)
  where
    none_in : (xs : List ArtifactRef) → xs ≡ [] → In a xs → ⊥
    none_in [] e j = j
    none_in (x ∷ xs) e j = cc
claim_outputs_sound id (o ∷ outs) outs' h a i =
    let (w, r, h') = >>=-eq-ok (raise_if (other_producer id o.producer) _) _ h in
    let (rest, q, h'') = >>=-eq-ok (claim_outputs id outs) _ h' in
    let e : outs' ≡ record o { producer = some id } ∷ rest = ground arith in
    elim (subst (In a) e i) [
      | inl same ↦ subst (λ (z : ArtifactRef). z.producer ≡ some id) same refl
      | inr j ↦ claim_outputs_sound id outs rest q a j
    ]

-- What the loop over the nodes checks of each.
pub record IsChecked (known : List String) (max_fanout : ℤ) (n : GraphNode) : Type 0 where
  pub named : n.id ≢ ""
  pub attempts : in_range 1 10 n.limits.max_attempts ≡ true
  pub heartbeat : in_range 1 86400 n.limits.heartbeat_seconds ≡ true
  pub expansions : in_range 0 100 n.limits.max_expansions ≡ true
  pub dependencies : (x : String) → has x n.depends_on ≡ true → has x known ≡ true
  pub children : (x : String) → has x n.children ≡ true → has x known ≡ true
  pub fanout : exceeds (length n.children) max_fanout ≡ false
  pub outputs : (a : ArtifactRef) → In a n.artifact_outputs → a.producer ≡ some n.id

check_limits_sound :
    (l : Limits) (id : String)
    → check_limits l id ≡ ok tt
    → (in_range 1 10 l.max_attempts ≡ true)
      × (in_range 1 86400 l.heartbeat_seconds ≡ true)
      × (in_range 0 100 l.max_expansions ≡ true)
unfolding check_limits
check_limits_sound l id h =
    let (u, a, h') = >>=-eq-ok (raise_if (not (in_range 1 10 l.max_attempts)) _) _ h in
    let (v, b, c) = >>=-eq-ok (raise_if (not (in_range 1 86400 l.heartbeat_seconds)) _) _ h' in
    (flip (raise_if-eq-ok _ _ a), flip (raise_if-eq-ok _ _ b), flip (raise_if-eq-ok _ _ c))
  where
    flip : {b : Bool} → not b ≡ false → b ≡ true
    flip {b} e = ground arith

check_node_sound :
    (ns : List GraphNode) (max_fanout : ℤ) (n n' : GraphNode)
    → check_node (entries ns) max_fanout n ≡ ok n'
    → (n'.id ≡ n.id) × IsChecked (ids ns) max_fanout n'
unfolding check_node
check_node_sound ns max_fanout n n' h =
    let (u1, a, h1) = >>=-eq-ok (raise_if (n.id == "") _) _ h in
    let (u2, b, h2) = >>=-eq-ok (check_limits n.limits n.id) _ h1 in
    let (u3, c, h3) =
      >>=-eq-ok (raise_if (not (is_nil (missing_from (entries ns) (n.depends_on ++ n.children)))) _)
        _ h2 in
    let (u4, d, h4) = >>=-eq-ok (raise_if (exceeds (length n.children) max_fanout) _) _ h3 in
    let (outs, o, h5) = >>=-eq-ok (claim_outputs n.id n.artifact_outputs) _ h4 in
    let e : record n { artifact_outputs = outs } ≡ n' = ground arith in
    let (l1, l2, l3) = check_limits_sound n.limits n.id b in
    let refs =
      missing_from-nil ns (n.depends_on ++ n.children) (ground (arith, raise_if-eq-ok _ _ c)) in
    subst (λ (z : GraphNode). (z.id ≡ n.id) × IsChecked (ids ns) max_fanout z) e
      (
        refl,
        record {
          named = λ p. ground (arith, raise_if-eq-ok _ _ a, eq_iff n.id "");
          attempts = l1;
          heartbeat = l2;
          expansions = l3;
          dependencies = λ x p. refs x (ground (arith, has-append x n.depends_on n.children));
          children = λ x p. refs x (ground (arith, has-append x n.depends_on n.children));
          fanout = raise_if-eq-ok _ _ d;
          outputs = claim_outputs_sound n.id n.artifact_outputs outs o;
        },
      )

pub check_nodes_sound :
    (all : List GraphNode) (max_fanout : ℤ) (ns ns' : List GraphNode)
    → check_nodes (entries all) max_fanout ns ≡ ok ns'
    → (ids ns' ≡ ids ns) × ((n : GraphNode) → In n ns' → IsChecked (ids all) max_fanout n)
unfolding check_nodes
check_nodes_sound all max_fanout [] ns' h =
    let e : [] ≡ ns' = ground arith in
    subst (λ z. (ids z ≡ []) × ((n : GraphNode) → In n z → IsChecked (ids all) max_fanout n)) e
      (refl, λ n i. elim i [ ])
check_nodes_sound all max_fanout (m ∷ ns) ns' h =
    let (m', r, h') = >>=-eq-ok (check_node (entries all) max_fanout m) _ h in
    let (rest, q, h'') = >>=-eq-ok (check_nodes (entries all) max_fanout ns) _ h' in
    let e : m' ∷ rest ≡ ns' = ground arith in
    let (same, checked) = check_node_sound all max_fanout m m' r in
    let (same', checked') = check_nodes_sound all max_fanout ns rest q in
    subst
      (λ z. (ids z ≡ m.id ∷ ids ns) × ((n : GraphNode) → In n z → IsChecked (ids all) max_fanout n))
      e
      (
        ground arith,
        λ n i. elim i [
          | inl p ↦ subst (IsChecked (ids all) max_fanout) p checked
          | inr j ↦ checked' n j
        ],
      )
