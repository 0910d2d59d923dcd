-- ===== src/Graph/Order/Correct.antt =====
-- What `_validate_acyclic_and_depth` and `topological_nodes` promise.
use graph_coder.Base.{
  is_nil, ◌&&◌, not, length-le_of_distinct, ℕ, String, true, List, [], ◌∷◌, some, length, eqb, has,
  distinct, if◌then◌else◌, ◌≡◌, ◌↔◌, inl, inr, refl, arith, In, has-append, has_self, Bool-cases,
  subst, ok, err,
}
use graph_coder.Graph.Node.{GraphNode, ids, entries, cyclic, too_deep, ℤ, exceeds}
use graph_coder.Graph.Edges.{has_of_In, In_of_has}
use graph_coder.Graph.Entries.{lookup-entries, In_of_ids}
use graph_coder.Graph.Order.{
  pick, topological_order, Levels, level_nodes, validate_acyclic_and_depth, max_value,
}
use graph_coder.Graph.Order.Invariant.{IsOrdered, Inv}
use graph_coder.Graph.Order.Loop.{length-ids}
use graph_coder.Graph.Order.Acyclic.{IsRanked, IsClosed, position, sorted_all, IsRanked-by_position}
use graph_coder.Graph.Order.Depth.{forget, level_nodes_returns, IsComplete, sorts_all, once-seen}

-- The nodes can be ranked above their dependencies: the dependency relation has no cycle.
abbrev pub IsAcyclic : List GraphNode → Type 0
IsAcyclic nodes = (rank : String → ℕ) × IsRanked rank nodes

complete→acyclic :
    (nodes : List GraphNode) (u : Levels)
    → Inv nodes (forget u) []
    → u.queue ≡ []
    → IsComplete nodes u
    → IsAcyclic nodes
complete→acyclic nodes u v e c = (
  λ x. position x u.seen,
  IsRanked-by_position nodes (forget u) v (sorts_all nodes u v e c) (once-seen u v e),
)

acyclic→complete :
    (nodes : List GraphNode) (u : Levels)
    → distinct (ids nodes) ≡ true
    → IsClosed nodes
    → Inv nodes (forget u) []
    → u.queue ≡ []
    → IsAcyclic nodes
    → IsComplete nodes u
acyclic→complete nodes u d closed v e (rank, ranked) = omega (
  arith,
  length-ids nodes,
  length-le_of_distinct u.seen (ids nodes) (once-seen u v e)
      (λ x h. v.inside x (ground (arith, has-append x u.seen u.queue))),
  length-le_of_distinct (ids nodes) u.seen d (sorted_all nodes rank ranked closed (forget u) v e),
)

check_cases :
    (nodes : List GraphNode) (max_depth : ℤ) (u : Levels)
    → level_nodes nodes ≡ some u
    → validate_acyclic_and_depth nodes max_depth ≡ (
        if eqb (length u.seen) (length nodes)
        then (if not (is_nil u.depth) && exceeds (max_value u.depth) max_depth
            then err too_deep
            else ok tt)
        else err cyclic)
unfolding validate_acyclic_and_depth
check_cases nodes max_depth u e = rw (e, validate_acyclic_and_depth) (ground arith)

-- On distinct ids and known dependencies, `validate_acyclic_and_depth` raises "must be acyclic"
-- exactly where no ranking of the nodes above their dependencies exists.
pub validate_acyclic_and_depth-eq-cyclic :
    (nodes : List GraphNode) (max_depth : ℤ)
    → distinct (ids nodes) ≡ true
    → IsClosed nodes
    → (validate_acyclic_and_depth nodes max_depth ≡ err cyclic) ↔ (¬ IsAcyclic nodes)
validate_acyclic_and_depth-eq-cyclic nodes max_depth d closed =
    let (u, l, s, v, e) = level_nodes_returns nodes d in
    let cases = check_cases nodes max_depth u l in
    (
      λ h a. ground (arith, cases, acyclic→complete nodes u d closed v e a),
      λ n. elim (Bool-cases (eqb (length u.seen) (length nodes))) [
        | inl t ↦ absurd (n (complete→acyclic nodes u v e (ground arith)))
        | inr f ↦ ground (arith, cases)
      ],
    )

-- A graph that passes the check is acyclic.
pub validate_acyclic_and_depth_sound :
    (nodes : List GraphNode) (max_depth : ℤ)
    → distinct (ids nodes) ≡ true
    → validate_acyclic_and_depth nodes max_depth ≡ ok tt
    → IsAcyclic nodes
validate_acyclic_and_depth_sound nodes max_depth d h =
    let (u, l, s, v, e) = level_nodes_returns nodes d in
    complete→acyclic nodes u v e (ground (arith, check_cases nodes max_depth u l))

pick_returns :
    (ns : List GraphNode) (xs : List String)
    → ((x : String) → has x xs ≡ true → has x (ids ns) ≡ true)
    → (sorted : List GraphNode) × (pick (entries ns) xs ≡ ok sorted)
      × (ids sorted ≡ xs)
      × ((n : GraphNode) → In n sorted → In n ns)
unfolding pick
pick_returns ns [] k = ([], refl, refl, λ n i. elim i [ ])
pick_returns ns (x ∷ xs) k =
    let (n, l, i, p) = lookup-entries x ns (k x (has_self x xs)) in
    let (sorted, r, q, inside) = pick_returns ns xs (λ y h. k y (ground arith)) in
    (
      n ∷ sorted,
      rw (l, pick) (rw r refl),
      ground arith,
      λ m j. elim j [ inl e ↦ subst (λ z. In z ns) e i | inr j' ↦ inside m j' ],
    )

-- `topological_nodes` succeeds on every graph that passes the check of its dependencies, and
-- returns each node once, behind all of its dependencies.
pub topological_order_sorts :
    (nodes : List GraphNode) (max_depth : ℤ)
    → distinct (ids nodes) ≡ true
    → validate_acyclic_and_depth nodes max_depth ≡ ok tt
    → (sorted : List GraphNode) × (topological_order nodes ≡ ok sorted)
      × IsOrdered nodes [] (ids sorted)
      × (distinct (ids sorted) ≡ true)
      × ((n : GraphNode) → In n sorted ↔ In n nodes)
unfolding topological_order
topological_order_sorts nodes max_depth d h =
    let (u, l, s, v, e) = level_nodes_returns nodes d in
    let every = sorts_all nodes u v e (ground (arith, check_cases nodes max_depth u l)) in
    let (sorted, r, q, inside) =
      pick_returns nodes u.seen (λ x p. v.inside x (ground (arith, has-append x u.seen u.queue))) in
    (
      sorted,
      rw (s, topological_order) r,
      rw q v.behind,
      rw q (once-seen u v e),
      λ n. (
        inside n,
        λ i.
            let (m, j, p) = In_of_has n.id sorted (rw q (every n.id (has_of_In n nodes i))) in
            subst (λ z. In z sorted) (In_of_ids nodes m n d (inside m j) i p) j,
      ),
    )
