-- ===== src/Graph/Order/Loop.antt =====
-- Kahn's loop keeps its invariant from the start, and ends.
use graph_coder.Base.{
  ℕ, zero, suc, ◌+◌, ◌≤◌, String, true, false, List, [], ◌∷◌, ◌++◌, none, some, length, Dict,
  lookup, get_or, has, count, distinct, ◌≡◌, ◌≢◌, ◌↔◌, inl, inr, refl, arith, In, eq_iff, eq_refl,
  has-append, length-append, length-le_of_distinct, not-has_of_distinct, has_self, Bool-cases,
  List-cases, ◌∙◌, sym, ap,
}
use mathlib.Core.List.{append_assoc}
use graph_coder.Graph.Node.{GraphNode, ids}
use graph_coder.Graph.Edges.{Edges, edges_of, count-edges_of, has_of_In, count-edges_of_outside}
use graph_coder.Graph.Order.{Sort, release_all, pop, sort_loop, degrees, roots, start, sort_nodes}
use graph_coder.Graph.Order.Invariant.{
  unmet-concat, unmet-nil, has_of_unmet, IsOrdered-concat, Inv, Inv-release_all,
  ordered-release_all,
}

pub sort_loop-nil :
    (edges : Edges) (fuel : ℕ) (s : Sort) → s.queue ≡ [] → sort_loop edges fuel s ≡ some s
unfolding sort_loop
sort_loop-nil edges zero s e = simp (e, sort_loop)
sort_loop-nil edges (suc fuel) s e = simp (e, sort_loop)

pub sort_loop-stuck :
    (edges : Edges) (s : Sort) (x : String) (rest : List String)
    → s.queue ≡ x ∷ rest
    → sort_loop edges zero s ≡ none
unfolding sort_loop
sort_loop-stuck edges s x rest e = simp (e, sort_loop)

pub sort_loop-cons :
    (edges : Edges) (fuel : ℕ) (s : Sort) (x : String) (rest : List String)
    → s.queue ≡ x ∷ rest
    → sort_loop edges (suc fuel) s
      ≡ sort_loop edges fuel (release_all (pop s x rest) (get_or x [] edges))
unfolding sort_loop
sort_loop-cons edges fuel s x rest e = simp (e, sort_loop)

has-count : (x : String) (xs : List String) → has x xs ≡ true → count x xs ≢ 0
has-count x [] h = cc
has-count x (y ∷ xs) h = ground (arith, has-count x xs)

pub length-ids : (ns : List GraphNode) → length (ids ns) ≡ length ns
length-ids [] = refl
length-ids (n ∷ ns) = ap suc (length-ids ns)

module _ (nodes : List GraphNode) (unique_ids : distinct (ids nodes) ≡ true) where
  dependent_inside :
      (x c : String) → has c (get_or x [] (edges_of nodes)) ≡ true → has c (ids nodes) ≡ true
  dependent_inside x c h = elim (Bool-cases (has c (ids nodes))) [
    | inl e ↦ e
    | inr e ↦ absurd (has-count c _ h (count-edges_of_outside nodes c x e))
  ]

  Inv-pop :
      (s : Sort) (x : String) (rest : List String)
      → s.queue ≡ x ∷ rest
      → Inv nodes s []
      → Inv nodes (pop s x rest) (get_or x [] (edges_of nodes))
  unfolding pop
  Inv-pop s x rest e v =
      let same : (s.ordered ++ x ∷ []) ++ rest ≡ s.ordered ++ s.queue =
        append_assoc s.ordered (x ∷ []) rest ∙ ap (λ q. s.ordered ++ q) (sym e) in
      let fresh : has x s.ordered ≡ false = not-has_of_distinct x s.ordered rest (rw e at v.once) in
      let waiting : has x (s.ordered ++ s.queue) ≡ true =
        ground (arith, has-append x s.ordered s.queue, has_self x rest) in
      record {
        degree = λ m j. ground (
          arith,
          v.degree m j,
          unmet-concat x s.ordered m.depends_on fresh,
          count-edges_of nodes m x unique_ids j,
        );
        queued = λ m j. rw same (v.queued m j);
        inside = λ y h. v.inside y (rw same at h);
        once = rw same v.once;
        behind = IsOrdered-concat nodes [] s.ordered x v.behind (λ n i p d h.
            has_of_unmet s.ordered n.depends_on d (ground (arith, v.degree n i, v.queued n i)) h);
      }

  Inv-round :
      (s : Sort) (x : String) (rest : List String)
      → s.queue ≡ x ∷ rest
      → Inv nodes s []
      → Inv nodes (release_all (pop s x rest) (get_or x [] (edges_of nodes))) []
  Inv-round s x rest e v =
      Inv-release_all nodes (pop s x rest) (get_or x [] (edges_of nodes)) (dependent_inside x)
        (Inv-pop s x rest e v)

  Inv-size : (s : Sort) → Inv nodes s [] → length (s.ordered ++ s.queue) ≤ length nodes
  Inv-size s v = omega (
    arith,
    length-le_of_distinct (s.ordered ++ s.queue) (ids nodes) v.once v.inside,
    length-ids nodes,
  )

  -- The loop ends with an empty queue, and keeps the invariant.
  pub sort_loop_rule :
      (fuel : ℕ) (s : Sort)
      → Inv nodes s []
      → length nodes ≤ fuel + length s.ordered
      → (t : Sort) × (sort_loop (edges_of nodes) fuel s ≡ some t) × Inv nodes t [] × (t.queue ≡ [])
  unfolding pop
  sort_loop_rule zero s v h = elim (List-cases s.queue) [
    | inl e ↦ (s, sort_loop-nil (edges_of nodes) _ s e, v, e)
    | inr (x, rest, e) ↦
        absurd (omega (arith, Inv-size s v, length-append s.ordered s.queue, ap length e))
  ]
  sort_loop_rule (suc fuel) s v h = elim (List-cases s.queue) [
    | inl e ↦ (s, sort_loop-nil (edges_of nodes) _ s e, v, e)
    | inr (x, rest, e) ↦
        let s' = release_all (pop s x rest) (get_or x [] (edges_of nodes)) in
        let (t, r, w, z) = sort_loop_rule fuel s' (Inv-round s x rest e v) (
          omega (
            arith,
            length-append s.ordered (x ∷ []),
            ap length (ordered-release_all (pop s x rest) (get_or x [] (edges_of nodes))),
          )) in
        (t, sort_loop-cons (edges_of nodes) fuel s x rest e ∙ r, w, z)
  ]

pub degrees-In :
    (ns : List GraphNode) (n : GraphNode)
    → distinct (ids ns) ≡ true
    → In n ns
    → get_or n.id 0 (degrees ns) ≡ length n.depends_on
unfolding degrees lookup
degrees-In [] n d i = elim i [ ]
degrees-In (m ∷ ns) n d (inl e) = ground (arith, eq_refl m.id)
degrees-In (m ∷ ns) n d (inr i) =
    ground (arith, degrees-In ns n, has_of_In n ns i, eq_iff m.id n.id)

-- The roots are the ids of degree zero, in the order of the nodes.
has-roots :
    (indegree : Dict ℕ) (x : String) (ns : List GraphNode)
    → (has x (roots indegree ns) ≡ true) ↔ ((has x (ids ns) ≡ true) × (get_or x 0 indegree ≡ 0))
unfolding roots
has-roots indegree x [] = ground arith
has-roots indegree x (n ∷ ns) = ground (arith, has-roots indegree x ns, eq_iff n.id x)

distinct-roots :
    (indegree : Dict ℕ) (ns : List GraphNode)
    → distinct (ids ns) ≡ true
    → distinct (roots indegree ns) ≡ true
unfolding roots
distinct-roots indegree [] d = refl
distinct-roots indegree (n ∷ ns) d =
    ground (arith, distinct-roots indegree ns, has-roots indegree n.id ns)

pub Inv-start : (nodes : List GraphNode) → distinct (ids nodes) ≡ true → Inv nodes (start nodes) []
unfolding start
Inv-start nodes d = record {
  degree = λ n i. omega (arith, degrees-In nodes n d i, unmet-nil n.depends_on);
  queued = λ n i. ground (arith, has-roots (degrees nodes) n.id nodes, has_of_In n nodes i);
  inside = λ x h. ((has-roots (degrees nodes) x nodes).0 h).0;
  once = distinct-roots (degrees nodes) nodes d;
  behind = tt;
}

-- The whole search: it returns, with an empty queue.
pub sort_nodes_returns :
    (nodes : List GraphNode)
    → distinct (ids nodes) ≡ true
    → (t : Sort) × (sort_nodes nodes ≡ some t) × Inv nodes t [] × (t.queue ≡ [])
unfolding sort_nodes
sort_nodes_returns nodes d =
    sort_loop_rule nodes d (length nodes) (start nodes) (Inv-start nodes d) (omega arith)
