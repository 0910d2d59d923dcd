-- ===== src/Recovery/Stored/Dispatchable.antt =====
-- What the stored ready frontier holds.
use graph_coder.Base.{
  String, true, false, ◌&&◌, List, [], ◌∷◌, has, keep, ◌==◌, eq_iff, ◌≡◌, ◌↔◌, inl, inr, refl, sym,
  ◌∙◌, subst, arith, In, In-keep, Bool-cases, has-sorted,
}
use graph_coder.Recovery.Stored.{
  NodeRow, EdgeRow, node_ids, is_unfinished, has_unfinished, is_held, open_states, is_dispatchable,
  ready_frontier,
}

-- The row `d` is a dependency of `n` by the edge `e`, all of one graph.
abbrev pub Needs : NodeRow → EdgeRow → NodeRow → Type 0
Needs n e d =
    (e.graph_id ≡ n.graph_id)
    × (e.target_node_id ≡ n.node_id)
    × (d.graph_id ≡ e.graph_id)
    × (d.node_id ≡ e.source_node_id)

-- A node that a worker may be dispatched to, by the rows alone.
pub record IsOpen (nodes : List NodeRow) (edges : List EdgeRow) (x : String) : Type 0 where
  pub node : NodeRow
  pub listed : In node nodes
  pub named : node.node_id ≡ x
  pub atomic : node.role ≡ "atomic"
  pub waiting : has node.status open_states ≡ true
  pub finished :
      (e : EdgeRow) (d : NodeRow)
      → In e edges
      → In d nodes
      → Needs node e d
      → d.status ≡ "completed"

has_unfinished-false :
    (e : EdgeRow) (ds : List NodeRow)
    → (has_unfinished e ds ≡ false) ↔ ((d : NodeRow) → In d ds → is_unfinished e d ≡ false)
unfolding has_unfinished
has_unfinished-false e [] = (λ _ d i. elim i [ ], λ _. refl)
has_unfinished-false e (d ∷ ds) =
    let rest = has_unfinished-false e ds in
    (
      λ h z i. elim i [
        | inl p ↦ subst (λ (y : NodeRow). is_unfinished e y ≡ false) p (ground arith)
        | inr j ↦ rest.0 (ground arith) z j
      ],
      λ f. let a = f d (inl refl) in let b = rest.1 (λ z j. f z (inr j)) in ground arith,
    )

is_unfinished-false :
    (e : EdgeRow) (d : NodeRow)
    → (is_unfinished e d ≡ false)
      ↔ (d.graph_id ≡ e.graph_id → d.node_id ≡ e.source_node_id → d.status ≡ "completed")
unfolding is_unfinished
is_unfinished-false e d = ground (
  arith,
  eq_iff d.graph_id e.graph_id,
  eq_iff d.node_id e.source_node_id,
  eq_iff d.status "completed",
)

-- An edge to the node holds it back unless its dependencies are completed.
abbrev Passes : List NodeRow → NodeRow → EdgeRow → Type 0
Passes nodes n e = (d : NodeRow) → In d nodes → Needs n e d → d.status ≡ "completed"

Passes-iff :
    (nodes : List NodeRow) (n : NodeRow) (e : EdgeRow)
    → ((e.graph_id == n.graph_id && e.target_node_id == n.node_id && has_unfinished e nodes)
        ≡ false)
      ↔ Passes nodes n e
Passes-iff nodes n e = (
  λ h d i (a, b, c, f).
      let u : has_unfinished e nodes ≡ false =
        ground (arith, eq_iff e.graph_id n.graph_id, eq_iff e.target_node_id n.node_id) in
      (is_unfinished-false e d).0 ((has_unfinished-false e nodes).0 u d i) c f,
  λ p. elim (Bool-cases (e.graph_id == n.graph_id && e.target_node_id == n.node_id)) [
    | inr m ↦ ground arith
    | inl m ↦
        let a : e.graph_id ≡ n.graph_id = (eq_iff e.graph_id n.graph_id).0 (ground arith) in
        let b : e.target_node_id ≡ n.node_id =
          (eq_iff e.target_node_id n.node_id).0 (ground arith) in
        let u =
          (has_unfinished-false e nodes).1
            (λ d i. (is_unfinished-false e d).1 (λ c f. p d i (a, b, c, f))) in
        ground arith
  ],
)

is_held-false :
    (nodes : List NodeRow) (n : NodeRow) (es : List EdgeRow)
    → (is_held nodes n es ≡ false) ↔ ((e : EdgeRow) → In e es → Passes nodes n e)
unfolding is_held
is_held-false nodes n [] = (λ _ e i. elim i [ ], λ _. refl)
is_held-false nodes n (e ∷ es) =
    let rest = is_held-false nodes n es in
    let one = Passes-iff nodes n e in
    (
      λ h z i. elim i [
        | inl p ↦ subst (Passes nodes n) p (one.0 (ground arith))
        | inr j ↦ rest.0 (ground arith) z j
      ],
      λ f. let a = one.1 (f e (inl refl)) in let b = rest.1 (λ z j. f z (inr j)) in ground arith,
    )

is_dispatchable_iff :
    (nodes : List NodeRow) (edges : List EdgeRow) (n : NodeRow)
    → (is_dispatchable nodes edges n ≡ true)
      ↔ ((n.role ≡ "atomic") × (has n.status open_states ≡ true) × (is_held nodes n edges ≡ false))
unfolding is_dispatchable
is_dispatchable_iff nodes edges n = ground (arith, eq_iff n.role "atomic")

row_of :
    (x : String) (ns : List NodeRow)
    → has x (node_ids ns) ≡ true
    → (n : NodeRow) × In n ns × (n.node_id ≡ x)
row_of x [] h = cc
row_of x (n ∷ ns) h = elim (Bool-cases (n.node_id == x)) [
  | inl e ↦ (n, inl refl, (eq_iff n.node_id x).0 e)
  | inr e ↦ let (m, i, p) = row_of x ns (ground arith) in (m, inr i, p)
]

id_of :
    (x : String) (n : NodeRow) (ns : List NodeRow)
    → In n ns
    → n.node_id ≡ x
    → has x (node_ids ns) ≡ true
id_of x n [] i e = elim i [ ]
id_of x n (m ∷ ns) (inl p) e =
    ground (arith, eq_iff m.node_id x, subst (λ (z : NodeRow). z.node_id ≡ x) (sym p) e)
id_of x n (m ∷ ns) (inr i) e = ground (arith, id_of x n ns i e)

-- The stored ready frontier names exactly the atomic nodes that are pending, ready or returned for
-- repair and whose direct dependencies, by the stored edges of their graph, are all completed; a
-- blocked node is not among them. Of the dependencies of a completed dependency nothing is asked.
pub ready_frontier-IsOpen :
    (nodes : List NodeRow) (edges : List EdgeRow) (x : String)
    → (has x (ready_frontier nodes edges) ≡ true) ↔ IsOpen nodes edges x
unfolding ready_frontier
ready_frontier-IsOpen nodes edges x =
    let chosen = keep (is_dispatchable nodes edges) nodes in
    (
      λ h.
          let (n, i, e) = row_of x chosen (sym (has-sorted x (node_ids chosen)) ∙ h) in
          let (j, t) = (In-keep (is_dispatchable nodes edges) n nodes).0 i in
          let (a, w, f) = (is_dispatchable_iff nodes edges n).0 t in
          record {
            node = n;
            listed = j;
            named = e;
            atomic = a;
            waiting = w;
            finished = λ g d k l m. (is_held-false nodes n edges).0 f g k d l m;
          },
      λ o.
          let n = o.node in
          let f = (is_held-false nodes n edges).1 (λ g k d l m. o.finished g d k l m) in
          let i =
            (In-keep (is_dispatchable nodes edges) n nodes).1
              (o.listed, (is_dispatchable_iff nodes edges n).1 (o.atomic, o.waiting, f)) in
          has-sorted x (node_ids chosen) ∙ id_of x n chosen i o.named,
    )
