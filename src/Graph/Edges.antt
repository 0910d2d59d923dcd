-- ===== src/Graph/Edges.antt =====
-- The `defaultdict(list)` of dependents that graph.py `_validate_acyclic_and_depth`, its
-- `topological_nodes` and execution.py `dependents` build: `edges[dep].append(node.id)`.
use graph_coder.Base.{
  ℕ, ◌+◌, String, true, false, List, [], ◌∷◌, ◌++◌, has, count, Dict, lookup, get_or, insert,
  get_or-insert, ◌==◌, eq_iff, count-append, if◌then◌else◌, ◌≡◌, inl, inr, refl, arith, In,
  distinct, Bool-cases, eq_refl,
}
use graph_coder.Graph.Node.{GraphNode, ids}

abbrev pub Edges : Type 0
Edges = Dict (List String)

pub append_at : String → String → Edges → Edges
append_at dep id edges = insert dep (get_or dep [] edges ++ id ∷ []) edges

-- `for dep in node.depends_on`.
pub add_edges : String → List String → Edges → Edges
unfolding append_at
add_edges id [] edges = edges
add_edges id (dep ∷ deps) edges = add_edges id deps (append_at dep id edges)

-- `for node in nodes`.
pub edges_from : List GraphNode → Edges → Edges
unfolding add_edges
edges_from [] edges = edges
edges_from (n ∷ ns) edges = edges_from ns (add_edges n.id n.depends_on edges)

unfoldable pub edges_of : List GraphNode → Edges
unfolding edges_from
edges_of nodes = edges_from nodes []

count-append_at :
    (c x dep id : String) (edges : Edges)
    → count c (get_or x [] (append_at dep id edges))
      ≡ count c (get_or x [] edges) + (if dep == x then (if id == c then 1 else 0) else 0)
unfolding append_at
count-append_at c x dep id edges = ground (
  arith,
  get_or-insert dep x (get_or dep [] edges ++ id ∷ []) [] edges,
  count-append c (get_or dep [] edges) (id ∷ []),
  eq_iff dep x,
)

count-add_edges :
    (c x id : String) (deps : List String) (edges : Edges)
    → count c (get_or x [] (add_edges id deps edges))
      ≡ count c (get_or x [] edges) + (if id == c then count x deps else 0)
unfolding add_edges
count-add_edges c x id [] edges = ground arith
count-add_edges c x id (dep ∷ deps) edges =
    ground (
      arith,
      count-add_edges c x id deps (append_at dep id edges),
      count-append_at c x dep id edges,
    )

-- How often the nodes of one id name a dependency.
abbrev pub named : String → String → List GraphNode → ℕ
named c x [] = 0
named c x (n ∷ ns) = (if n.id == c then count x n.depends_on else 0) + named c x ns

count-edges_from :
    (c x : String) (ns : List GraphNode) (edges : Edges)
    → count c (get_or x [] (edges_from ns edges)) ≡ count c (get_or x [] edges) + named c x ns
unfolding edges_from
count-edges_from c x [] edges = ground arith
count-edges_from c x (n ∷ ns) edges = ground (
  arith,
  count-edges_from c x ns (add_edges n.id n.depends_on edges),
  count-add_edges c x n.id n.depends_on edges,
)

named-zero : (c x : String) (ns : List GraphNode) → has c (ids ns) ≡ false → named c x ns ≡ 0
named-zero c x [] h = refl
named-zero c x (n ∷ ns) h = ground (arith, named-zero c x ns)

pub has_of_In : (n : GraphNode) (ns : List GraphNode) → In n ns → has n.id (ids ns) ≡ true
has_of_In n [] i = elim i [ ]
has_of_In n (m ∷ ns) (inl e) = ground (arith, eq_refl n.id)
has_of_In n (m ∷ ns) (inr i) = ground (arith, has_of_In n ns i)

pub In_of_has :
    (x : String) (ns : List GraphNode)
    → has x (ids ns) ≡ true
    → (n : GraphNode) × In n ns × (n.id ≡ x)
In_of_has x [] h = cc
In_of_has x (m ∷ ns) h = elim (Bool-cases (m.id == x)) [
  | inl e ↦ (m, inl refl, (eq_iff m.id x).0 e)
  | inr e ↦ let (n, i, p) = In_of_has x ns (ground arith) in (n, inr i, p)
]

pub named-In :
    (n : GraphNode) (x : String) (ns : List GraphNode)
    → distinct (ids ns) ≡ true
    → In n ns
    → named n.id x ns ≡ count x n.depends_on
named-In n x [] d i = elim i [ ]
named-In n x (m ∷ ns) d (inl e) = ground (arith, eq_refl m.id, named-zero m.id x ns)
named-In n x (m ∷ ns) d (inr i) =
    ground (arith, named-In n x ns, eq_iff m.id n.id, has_of_In n ns i)

-- A node stands among the dependents of `x` as often as it names `x`.
pub count-edges_of :
    (ns : List GraphNode) (n : GraphNode) (x : String)
    → distinct (ids ns) ≡ true
    → In n ns
    → count n.id (get_or x [] (edges_of ns)) ≡ count x n.depends_on
unfolding edges_of lookup
count-edges_of ns n x d i = ground (arith, count-edges_from n.id x ns [], named-In n x ns d i)

-- Only ids of nodes stand in the edges.
pub count-edges_of_outside :
    (ns : List GraphNode) (c x : String)
    → has c (ids ns) ≡ false
    → count c (get_or x [] (edges_of ns)) ≡ 0
unfolding edges_of lookup
count-edges_of_outside ns c x h = ground (arith, count-edges_from c x ns [], named-zero c x ns h)
