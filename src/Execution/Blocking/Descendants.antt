-- ===== src/Execution/Blocking/Descendants.antt =====
-- What `block_descendants` returns.
use graph_coder.Base.{
  String, true, false, List, [], ◌∷◌, has, count, get_or, distinct, ok, err, ◌==◌, ◌≡◌, ◌≢◌, ◌↔◌,
  ◌⊎◌, inl, inr, refl, arith, In, subst, sym, Bool-cases, eq_iff, ◌≤◌, count-zero,
}
use graph_coder.Walk.Facts.{Reach, seed, step, walk-Reach, walk_returns}
use graph_coder.Graph.Node.{GraphNode, ExecutionGraph, by_id, ids, duplicate_ids}
use graph_coder.Graph.Edges.{edges_of, count-edges_of, count-edges_of_outside, In_of_has}
use graph_coder.Graph.Ancestors.Reached.{DependsOn, direct, through, DependsOn-trans}
use graph_coder.Execution.States.{unknown_node, graph_error}
use graph_coder.Execution.Blocking.{
  queue, followers, lift_graph, finish, descend, block_descendants,
}

count_of_has : (x : String) (xs : List String) → has x xs ≡ true → 1 ≤ count x xs
count_of_has x [] h = cc
count_of_has x (y ∷ xs) h = ground (arith, count_of_has x xs)

has_of_count : (x : String) (xs : List String) → 1 ≤ count x xs → has x xs ≡ true
has_of_count x xs h = elim (Bool-cases (has x xs)) [
  | inl p ↦ p
  | inr p ↦ absurd (omega (arith, count-zero x xs p))
]

module _ (nodes : List GraphNode) (unique_ids : distinct (ids nodes) ≡ true) where
  -- `edges[x]` holds the nodes that name `x`.
  follower_of :
      (n : GraphNode) (x : String)
      → In n nodes
      → has x n.depends_on ≡ true
      → has n.id (get_or x [] (edges_of nodes)) ≡ true
  follower_of n x i h =
      has_of_count n.id (get_or x [] (edges_of nodes))
        (omega (arith, count-edges_of nodes n x unique_ids i, count_of_has x n.depends_on h))

  known_follower :
      (x y : String) → has y (get_or x [] (edges_of nodes)) ≡ true → has y (ids nodes) ≡ true
  known_follower x y h = elim (Bool-cases (has y (ids nodes))) [
    | inl p ↦ p
    | inr p ↦ absurd (
        omega (
          arith,
          count-edges_of_outside nodes y x p,
          count_of_has y (get_or x [] (edges_of nodes)) h,
        ))
  ]

  depends_of : (x y : String) → has y (get_or x [] (edges_of nodes)) ≡ true → DependsOn nodes x y
  depends_of x y h =
      let (n, i, e) = In_of_has y nodes (known_follower x y h) in
      let p = subst (λ z. has z (get_or x [] (edges_of nodes)) ≡ true) (sym e) h in
      direct n i e (
        has_of_count x n.depends_on (
          omega (
            arith,
            count-edges_of nodes n x unique_ids i,
            count_of_has n.id (get_or x [] (edges_of nodes)) p,
          )))

  module _ (a : String) where
    abbrev Found : String → Type 0
    Found = Reach (followers (edges_of nodes)) (λ x. x == a) (get_or a [] (edges_of nodes))

    Found-DependsOn : {x : String} → Found x → (x ≢ a) × DependsOn nodes a x
    unfolding followers
    Found-DependsOn (seed {x} h k) = (λ e. ground (arith, eq_iff x a), depends_of a x h)
    Found-DependsOn (step {x} {y} {ys} r e h k) =
        let q : get_or x [] (edges_of nodes) ≡ ys = cc in
        (
          λ p. ground (arith, eq_iff y a),
          DependsOn-trans (Found-DependsOn r).1
              (depends_of x y (subst (λ z. has y z ≡ true) (sym q) h)),
        )

    -- Every dependent is the node itself or found.
    Found-of : {x : String} → DependsOn nodes a x → (x ≡ a) ⊎ Found x
    unfolding followers
    Found-of (direct {b = x} n i e h) = elim (Bool-cases (x == a)) [
      | inl p ↦ inl ((eq_iff x a).0 p)
      | inr p ↦ inr (
          seed (subst (λ z. has z (get_or a [] (edges_of nodes)) ≡ true) e (follower_of n a i h)) p)
    ]
    Found-of (through {b} {c = x} n i e h q) = elim (Bool-cases (x == a)) [
      | inl p ↦ inl ((eq_iff x a).0 p)
      | inr p ↦ inr (elim (Found-of q) [
        | inl s ↦
            seed
              (subst (λ z. has z (get_or a [] (edges_of nodes)) ≡ true) e
                (follower_of n a i (subst (λ z. has z n.depends_on ≡ true) s h)))
              p
        | inr r ↦
            step r refl
              (subst (λ z. has z (get_or b [] (edges_of nodes)) ≡ true) e (follower_of n b i h)) p
      ])
    ]

    -- The search returns, with exactly the dependents other than the node.
    pub descend-DependsOn :
        (result : List String) × (descend nodes a ≡ ok result)
        × ((x : String) → (has x result ≡ true) ↔ ((x ≢ a) × DependsOn nodes a x))
    unfolding descend finish followers
    descend-DependsOn =
        let (t, r) =
          walk_returns queue (followers (edges_of nodes)) (λ x. x == a) (ids nodes) (λ x h e. cc)
            (λ x y ys e h. known_follower x y (subst (λ z. has y z ≡ true) (ground arith) h))
            (get_or a [] (edges_of nodes)) (λ y h. known_follower a y h) in
        (
          t,
          rw r refl,
          λ x.
              let both =
                walk-Reach queue (followers (edges_of nodes)) (λ x. x == a)
                  (get_or a [] (edges_of nodes)) _ t r x in
              (
                λ h. Found-DependsOn (both.0 h),
                λ q. elim (Found-of q.1) [ inl e ↦ absurd (q.0 e) | inr f ↦ both.1 f ],
              ),
        )

-- On distinct ids and a known node, `block_descendants` returns exactly the other nodes that
-- depend on it, directly or through others: an independent branch is never blocked. An unknown
-- node and duplicate ids raise.
pub block_descendants-DependsOn :
    (g : ExecutionGraph) (failed_node_id : String)
    → (distinct (ids g.nodes) ≡ false)
        × (block_descendants g failed_node_id ≡ err (graph_error duplicate_ids))
      ⊎ (distinct (ids g.nodes) ≡ true)
        × (has failed_node_id (ids g.nodes) ≡ false)
        × (block_descendants g failed_node_id ≡ err (unknown_node failed_node_id))
      ⊎ ((result : List String) × (block_descendants g failed_node_id ≡ ok result)
          × ((x : String)
              → (has x result ≡ true)
                ↔ ((x ≢ failed_node_id) × DependsOn g.nodes failed_node_id x)))
unfolding block_descendants by_id lift_graph
block_descendants-DependsOn g a = elim (Bool-cases (distinct (ids g.nodes))) [
  | inr d ↦ inl (d, rw d refl)
  | inl d ↦ elim (Bool-cases (has a (ids g.nodes))) [
    | inr h ↦ inr (inl (d, h, rw d (rw h refl)))
    | inl h ↦ let (t, r, both) = descend-DependsOn g.nodes d a in inr (inr (t, rw d (rw h r), both))
  ]
]
