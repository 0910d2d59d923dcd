-- ===== src/Graph/Order/Depth.antt =====
-- The search of `_validate_acyclic_and_depth` is that of `topological_nodes`, with depths beside it.
use graph_coder.Base.{
  ℕ, zero, suc, ◌+◌, String, true, false, List, [], ◌∷◌, some, length, Dict, lookup, get_or, insert,
  has, distinct, if◌then◌else◌, ◌≡◌, inl, inr, refl, arith, In, ◌==◌, eq_iff, eq_refl, has-append,
  List-cases, ◌∙◌, sym, ap, has_of_length,
}
use mathlib.Core.List.{append-nil}
use graph_coder.Graph.Node.{GraphNode, ids}
use graph_coder.Graph.Edges.{Edges, edges_of}
use graph_coder.Graph.Order.{
  Sort, release, release_all, pop, sort_loop, degrees, roots, start, sort_nodes, Levels, relax,
  relax_all, pop_level, level_loop, tally_node, tally, zeros, zero_keys, start_levels, level_nodes,
}
use graph_coder.Graph.Order.Invariant.{Inv}
use graph_coder.Graph.Order.Loop.{
  sort_nodes_returns, length-ids, degrees-In, sort_loop-nil, sort_loop-cons, sort_loop-stuck,
}

-- The degrees that the depth check counts one by one are the lengths.
tally_node-cons :
    (id k : String) (v : ℕ) (deps : List String) (d : Dict ℕ)
    → tally_node id deps ((k, v) ∷ d)
      ≡ (if k == id then (k, v + length deps) ∷ d else (k, v) ∷ tally_node id deps d)
unfolding tally_node lookup insert
tally_node-cons id k v [] d = ground arith
tally_node-cons id k v (dep ∷ deps) d = ground (
  arith,
  tally_node-cons id k (v + 1) deps d,
  tally_node-cons id k v deps (insert id (get_or id 0 d + 1) d),
)

tally-cons :
    (k : String) (v : ℕ) (ns : List GraphNode) (d : Dict ℕ)
    → has k (ids ns) ≡ false
    → tally ns ((k, v) ∷ d) ≡ (k, v) ∷ tally ns d
unfolding tally
tally-cons k v [] d h = refl
tally-cons k v (n ∷ ns) d h =
    let other : (k == n.id) ≡ false = ground (arith, eq_iff k n.id, eq_iff n.id k) in
    rw (tally_node-cons n.id k v n.depends_on d)
      (rw other (tally-cons k v ns (tally_node n.id n.depends_on d) (ground arith)))

tally-zeros : (ns : List GraphNode) → distinct (ids ns) ≡ true → tally ns (zeros ns) ≡ degrees ns
unfolding tally zeros degrees
tally-zeros [] d = refl
tally-zeros (n ∷ ns) d = rw (tally_node-cons n.id n.id 0 n.depends_on (zeros ns)) (
    rw (eq_refl n.id) (
      rw (tally-cons n.id (0 + length n.depends_on) ns (zeros ns) (ground arith))
        (rw (tally-zeros ns (ground arith)) (ground arith))))

zero_keys-degrees :
    (all : Dict ℕ) (ns : List GraphNode)
    → ((n : GraphNode) → In n ns → get_or n.id 0 all ≡ length n.depends_on)
    → zero_keys (degrees ns) ≡ roots all ns
unfolding zero_keys degrees roots
zero_keys-degrees all [] h = refl
zero_keys-degrees all (n ∷ ns) h =
    rw (h n (inl refl)) (rw (zero_keys-degrees all ns (λ m i. h m (inr i))))

-- The state of `topological_nodes` in that of the depth check.
abbrev pub forget : Levels → Sort
forget s = record { ordered = s.seen; queue = s.queue; indegree = s.indegree }

forget-relax_all :
    (x : String) (s : Levels) (todo : List String)
    → forget (relax_all x s todo) ≡ release_all (forget s) todo
unfolding relax_all release_all relax release
forget-relax_all x s [] = refl
forget-relax_all x s (c ∷ todo) = forget-relax_all x (relax x s c) todo

forget-level_loop :
    (edges : Edges) (fuel : ℕ) (s : Levels) (t : Sort)
    → sort_loop edges fuel (forget s) ≡ some t
    → (u : Levels) × (level_loop edges fuel s ≡ some u) × (forget u ≡ t)
unfolding level_loop pop_level pop
forget-level_loop edges zero s t h = elim (List-cases s.queue) [
  | inl e ↦ (s, simp (e, level_loop) refl, cc (sort_loop-nil edges zero (forget s) e))
  | inr (x, rest, e) ↦ cc (sort_loop-stuck edges (forget s) x rest e)
]
forget-level_loop edges (suc fuel) s t h = elim (List-cases s.queue) [
  | inl e ↦ (s, simp (e, level_loop) refl, cc (sort_loop-nil edges (suc fuel) (forget s) e))
  | inr (x, rest, e) ↦
      let next = get_or x [] edges in
      let s' = relax_all x (pop_level s x rest) next in
      let (u, r, q) = forget-level_loop edges fuel s' t (
        ap (sort_loop edges fuel) (forget-relax_all x (pop_level s x rest) next)
        ∙ (sym (sort_loop-cons edges fuel (forget s) x rest e) ∙ h)) in
      (u, simp (e, level_loop) r, q)
]

forget-start :
    (nodes : List GraphNode)
    → distinct (ids nodes) ≡ true
    → forget (start_levels nodes) ≡ start nodes
unfolding start_levels start
forget-start nodes d =
    rw (tally-zeros nodes d)
      (rw (zero_keys-degrees (degrees nodes) nodes (λ n i. degrees-In nodes n d i)))

-- The depth check's search is the sort.
pub level_nodes_returns :
    (nodes : List GraphNode)
    → distinct (ids nodes) ≡ true
    → (u : Levels) × (level_nodes nodes ≡ some u)
      × (sort_nodes nodes ≡ some (forget u))
      × Inv nodes (forget u) []
      × (u.queue ≡ [])
unfolding level_nodes sort_nodes
level_nodes_returns nodes d =
    let (t, r, v, e) = sort_nodes_returns nodes d in
    let (u, l, q) =
      forget-level_loop (edges_of nodes) (length nodes) (start_levels nodes) t
        (rw (forget-start nodes d) r) in
    (u, l, rw q r, rw q v, ap (λ (w : Sort). w.queue) q ∙ e)

pub once-seen :
    {nodes : List GraphNode} (u : Levels)
    → Inv nodes (forget u) []
    → u.queue ≡ []
    → distinct u.seen ≡ true
once-seen u v e = rw (append-nil u.seen) at (rw e at v.once)

-- Every node is sorted, and then the check passes its test of `len(seen)`.
abbrev pub IsComplete : List GraphNode → Levels → Type 0
IsComplete nodes u = length u.seen ≡ length nodes

pub sorts_all :
    (nodes : List GraphNode) (u : Levels)
    → Inv nodes (forget u) []
    → u.queue ≡ []
    → IsComplete nodes u
    → (x : String) → has x (ids nodes) ≡ true
    → has x u.seen ≡ true
sorts_all nodes u v e c =
    has_of_length u.seen (ids nodes) (once-seen u v e)
      (λ x h. v.inside x (ground (arith, has-append x u.seen u.queue)))
      (omega (arith, length-ids nodes))
