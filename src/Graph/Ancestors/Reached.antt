-- ===== src/Graph/Ancestors/Reached.antt =====
-- `_ancestors` returns the nodes that a node depends on, directly or through others.
use graph_coder.Base.{
  String, true, false, List, none, some, reverse, has, distinct, ok, ◌≡◌, ◌≢◌, ◌↔◌, refl, arith, In,
  subst, sym, Bool-cases, ap, ◌∙◌, inl, inr,
}
use graph_coder.Walk.Facts.{Reach, seed, step, walk-Reach, walk_returns}
use graph_coder.Graph.Node.{GraphNode, ids}
use graph_coder.Graph.Entries.{lookup-entries, lookup-entries_In, lookup_absent, In_of_ids}
use graph_coder.Graph.Order.Acyclic.{IsClosed}
use graph_coder.Graph.Ancestors.{stack, dependencies, skip_none, found, ancestors, has-reverse}

-- `b` depends on `a`, directly or through other nodes.
pub data DependsOn (nodes : List GraphNode) (a : String) : String → Type 0 where
  direct :
      {b : String} (n : GraphNode)
      → In n nodes
      → n.id ≡ b
      → has a n.depends_on ≡ true
      → DependsOn nodes a b
  through :
      {b c : String} (n : GraphNode)
      → In n nodes
      → n.id ≡ c
      → has b n.depends_on ≡ true
      → DependsOn nodes a b
      → DependsOn nodes a c

pub DependsOn-trans :
    {nodes : List GraphNode} {a b c : String}
    → DependsOn nodes a b
    → DependsOn nodes b c
    → DependsOn nodes a c
DependsOn-trans p (direct n i e h) = through n i e h p
DependsOn-trans p (through n i e h q) = through n i e h (DependsOn-trans p q)

unknown :
    (nodes : List GraphNode) (x : String) (ys : List String)
    → has x (ids nodes) ≡ false
    → dependencies nodes x ≡ some ys
    → ⊥
unknown nodes x ys k h = ground (arith, lookup_absent x nodes k)

module _ (nodes : List GraphNode) (unique_ids : distinct (ids nodes) ≡ true) where
  dependencies_In : (n : GraphNode) → In n nodes → dependencies nodes n.id ≡ some n.depends_on
  dependencies_In n i = rw (lookup-entries_In nodes n unique_ids i, dependencies)

  dependencies_some :
      (x : String) (ys : List String)
      → dependencies nodes x ≡ some ys
      → (n : GraphNode) × In n nodes × (n.id ≡ x) × (n.depends_on ≡ ys)
  dependencies_some x ys h = elim (Bool-cases (has x (ids nodes))) [
    | inl k ↦ let (n, l, i, e) = lookup-entries x nodes k in (n, i, e, ground arith)
    | inr k ↦ absurd (unknown nodes x ys k h)
  ]

  DependsOn-Reach :
      {seeds : List String} {a b : String}
      → Reach (dependencies nodes) skip_none seeds b
      → DependsOn nodes a b
      → Reach (dependencies nodes) skip_none seeds a
  DependsOn-Reach r (direct n i e h) =
      step r (ap (dependencies nodes) (sym e) ∙ dependencies_In n i) h refl
  DependsOn-Reach r (through n i e h q) =
      DependsOn-Reach (step r (ap (dependencies nodes) (sym e) ∙ dependencies_In n i) h refl) q

  module _ (n : GraphNode) (listed : In n nodes) where
    abbrev seeds : List String
    seeds = reverse n.depends_on

    Reach-DependsOn :
        {x : String} → Reach (dependencies nodes) skip_none seeds x → DependsOn nodes x n.id
    Reach-DependsOn (seed {x} h k) = direct n listed refl (sym (has-reverse x n.depends_on) ∙ h)
    Reach-DependsOn (step {x} {y} {ys} r e h k) =
        let (m, i, p, q) = dependencies_some x ys e in
        DependsOn-trans (direct m i p (rw q h)) (Reach-DependsOn r)

    seed_of :
        (x : String) → has x n.depends_on ≡ true → Reach (dependencies nodes) skip_none seeds x
    seed_of x h = seed (has-reverse x n.depends_on ∙ h) refl

    Reach_of_DependsOn :
        {x y : String}
        → y ≡ n.id
        → DependsOn nodes x y
        → Reach (dependencies nodes) skip_none seeds x
    Reach_of_DependsOn {x} e (direct m i p h) = seed_of x (
        subst (λ z. has x (z).depends_on ≡ true) (In_of_ids nodes m n unique_ids i listed (p ∙ e))
          h)
    Reach_of_DependsOn e (through {b} m i p h q) =
        DependsOn-Reach
          (seed_of b (
            subst (λ z. has b (z).depends_on ≡ true)
              (In_of_ids nodes m n unique_ids i listed (p ∙ e)) h))
          q

known_dependency :
    (nodes : List GraphNode) (x : String) → has x (ids nodes) ≡ true → dependencies nodes x ≢ none
known_dependency nodes x h = let (n, l, i, e) = lookup-entries x nodes h in ground arith

closed_dependency :
    (nodes : List GraphNode)
    → distinct (ids nodes) ≡ true
    → IsClosed nodes
    → (x y : String) (ys : List String) → dependencies nodes x ≡ some ys
    → has y ys ≡ true
    → has y (ids nodes) ≡ true
closed_dependency nodes d closed x y ys e h =
    let (n, i, p, q) = dependencies_some nodes d x ys e in closed n i y (rw q h)

-- On distinct ids and known dependencies, `_ancestors` of a node returns, and its result holds
-- exactly the ids that the node depends on, directly or through other nodes.
pub ancestors-DependsOn :
    (nodes : List GraphNode) (n : GraphNode)
    → distinct (ids nodes) ≡ true
    → IsClosed nodes
    → In n nodes
    → (result : List String) × (ancestors n.id nodes ≡ ok result)
      × ((x : String) → (has x result ≡ true) ↔ DependsOn nodes x n.id)
unfolding ancestors found
ancestors-DependsOn nodes n d closed i =
    let inside =
      λ (x y : String) (ys : List String) (e : dependencies nodes x ≡ some ys)
          (h : has y ys ≡ true).
        closed_dependency nodes d closed x y ys e h in
    let (t, r) =
      walk_returns stack (dependencies nodes) skip_none (ids nodes) (known_dependency nodes) inside
        (reverse n.depends_on) (λ y h. closed n i y (sym (has-reverse y n.depends_on) ∙ h)) in
    (
      t,
      rw (dependencies_In nodes d n i, ancestors) (rw r refl),
      λ x.
          let both =
            walk-Reach stack (dependencies nodes) skip_none (reverse n.depends_on) _ t r x in
          (
            λ h. Reach-DependsOn nodes d n i (both.0 h),
            λ q. both.1 (Reach_of_DependsOn nodes d n i refl q),
          ),
    )
