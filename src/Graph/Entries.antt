-- ===== src/Graph/Entries.antt =====
-- What `by_id` gives: one node for each id.
use graph_coder.Base.{
  String, true, false, List, [], ◌∷◌, none, some, has, distinct, lookup, ◌≡◌, refl, arith, In, inl,
  inr, eq_iff, Bool-cases, ◌∙◌, sym, subst, ◌==◌, ap,
}
use graph_coder.Graph.Node.{GraphNode, ids, entries}
use graph_coder.Graph.Edges.{has_of_In}

pub lookup-entries :
    (x : String) (ns : List GraphNode)
    → has x (ids ns) ≡ true
    → (n : GraphNode) × (lookup x (entries ns) ≡ some n) × In n ns × (n.id ≡ x)
unfolding lookup
lookup-entries x [] h = cc
lookup-entries x (m ∷ ns) h = elim (Bool-cases (m.id == x)) [
  | inl e ↦ (m, rw e refl, inl refl, (eq_iff m.id x).0 e)
  | inr e ↦ let (n, l, i, p) = lookup-entries x ns (ground arith) in (n, rw e l, inr i, p)
]

clash :
    (k : GraphNode) (ns : List GraphNode) (n : GraphNode)
    → distinct (ids (k ∷ ns)) ≡ true
    → k.id ≡ n.id
    → In n ns
    → ⊥
clash k ns n d e j =
    ground (arith, has_of_In n ns j, subst (λ x. has x (ids ns) ≡ true) (sym e) (has_of_In n ns j))

pub In_of_ids :
    (ns : List GraphNode) (m n : GraphNode)
    → distinct (ids ns) ≡ true
    → In m ns
    → In n ns
    → m.id ≡ n.id
    → m ≡ n
In_of_ids [] m n d i j e = elim i [ ]
In_of_ids (k ∷ ns) m n d (inl p) (inl q) e = sym p ∙ q
In_of_ids (k ∷ ns) m n d (inl p) (inr j) e =
    absurd (clash k ns n d (subst (λ (z : GraphNode). z.id ≡ n.id) (sym p) e) j)
In_of_ids (k ∷ ns) m n d (inr i) (inl q) e =
    absurd (clash k ns m d (subst (λ (z : GraphNode). z.id ≡ m.id) (sym q) (sym e)) i)
In_of_ids (k ∷ ns) m n d (inr i) (inr j) e = In_of_ids ns m n (ground arith) i j e

pub lookup-entries_In :
    (ns : List GraphNode) (n : GraphNode)
    → distinct (ids ns) ≡ true
    → In n ns
    → lookup n.id (entries ns) ≡ some n
lookup-entries_In ns n d i =
    let (m, l, j, e) = lookup-entries n.id ns (has_of_In n ns i) in
    l ∙ ap some (In_of_ids ns m n d j i e)

pub lookup-entries-none :
    (x : String) (ns : List GraphNode) → lookup x (entries ns) ≡ none → has x (ids ns) ≡ false
unfolding lookup
lookup-entries-none x [] h = refl
lookup-entries-none x (m ∷ ns) h = ground (arith, lookup-entries-none x ns)

pub lookup_absent :
    (x : String) (ns : List GraphNode) → has x (ids ns) ≡ false → lookup x (entries ns) ≡ none
unfolding lookup
lookup_absent x [] h = refl
lookup_absent x (m ∷ ns) h = ground (arith, lookup_absent x ns)
