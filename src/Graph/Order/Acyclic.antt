-- ===== src/Graph/Order/Acyclic.antt =====
-- What Kahn's search says of the order: a ranking lets it reach every node, and a complete sort
-- is a ranking.
use graph_coder.Base.{
  ℕ, zero, suc, ◌<◌, String, true, List, [], ◌∷◌, ◌++◌, has, distinct, if◌then◌else◌, ◌≡◌, ◌⊎◌, inl,
  inr, arith, In, ◌==◌, eq_iff, has-append, has-append_cases, has-cons_cases, sym, subst,
}
use graph_coder.Graph.Node.{GraphNode, ids}
use graph_coder.Graph.Edges.{has_of_In, In_of_has}
use graph_coder.Graph.Order.{Sort}
use graph_coder.Graph.Order.Invariant.{unmet, unmet_of_has, IsOrdered, Inv}

-- Each node stands above its dependencies: there is no cycle.
abbrev pub IsRanked : (String → ℕ) → List GraphNode → Type 0
IsRanked rank nodes =
    (n : GraphNode)
    → In n nodes
    → (dep : String) → has dep n.depends_on ≡ true
    → rank dep < rank n.id

abbrev pub IsClosed : List GraphNode → Type 0
IsClosed nodes =
    (n : GraphNode)
    → In n nodes
    → (dep : String) → has dep n.depends_on ≡ true
    → has dep (ids nodes) ≡ true

module _ (nodes : List GraphNode) (rank : String → ℕ) (ranked : IsRanked rank nodes)
    (closed : IsClosed nodes) (t : Sort) (v : Inv nodes t []) (empty : t.queue ≡ []) where
  -- Where a ranking exists, no node is left over: induction on the rank.
  sorted_below : (k : ℕ) (n : GraphNode) → In n nodes → rank n.id < k → has n.id t.ordered ≡ true
  sorted_below zero n i h = elim h [ ]
  sorted_below (suc k) n i h =
      let met : unmet t.ordered n.depends_on ≡ 0 = unmet_of_has t.ordered n.depends_on (λ dep d.
        let (m, j, e) = In_of_has dep nodes (closed n i dep d) in
        let lower = ranked n i dep d in
        subst (λ x. has x t.ordered ≡ true) e (sorted_below k m j (rw e (omega arith)))) in
      let listed : has n.id (t.ordered ++ t.queue) ≡ true =
        (v.queued n i).1 (omega (arith, v.degree n i)) in
      ground (arith, has-append n.id t.ordered t.queue)

  pub sorted_all : (x : String) → has x (ids nodes) ≡ true → has x t.ordered ≡ true
  sorted_all x h =
      let (n, i, e) = In_of_has x nodes h in
      subst (λ y. has y t.ordered ≡ true) e (sorted_below (suc (rank n.id)) n i (omega arith))

-- The first place of a text in a list.
abbrev pub position : String → List String → ℕ
position x [] = 0
position x (y ∷ ys) = let rest = position x ys in if y == x then 0 else suc rest

module _ (nodes : List GraphNode) where
  IsOrdered-position :
      (done xs : List String) (n : GraphNode) (dep : String)
      → IsOrdered nodes done xs
      → distinct xs ≡ true
      → In n nodes
      → has n.id xs ≡ true
      → has dep n.depends_on ≡ true
      → (has dep done ≡ true) ⊎ (position dep xs < position n.id xs)
  IsOrdered-position done [] n dep o d i h k = cc
  IsOrdered-position done (x ∷ xs) n dep o d i h k = elim (has-cons_cases n.id x xs h) [
    | inl e ↦ inl (o.0 n i (sym e) dep k)
    | inr q ↦ elim (IsOrdered-position (done ++ x ∷ []) xs n dep o.1 (ground arith) i q k) [
      | inl p ↦ elim (has-append_cases dep done (x ∷ []) p) [
        | inl a ↦ inl a
        | inr b ↦ inr (ground (arith, eq_iff x dep, eq_iff x n.id))
      ]
      | inr p ↦ inr (ground (arith, eq_iff x dep, eq_iff x n.id))
    ]
  ]

  -- A sort that holds every node ranks the nodes by their places.
  pub IsRanked-by_position :
      (t : Sort)
      → Inv nodes t []
      → ((x : String) → has x (ids nodes) ≡ true → has x t.ordered ≡ true)
      → distinct t.ordered ≡ true
      → IsRanked (λ x. position x t.ordered) nodes
  IsRanked-by_position t v every d n i dep k =
      elim (IsOrdered-position [] t.ordered n dep v.behind d i (every n.id (has_of_In n nodes i))
        k) [ inl a ↦ cc | inr p ↦ p ]
