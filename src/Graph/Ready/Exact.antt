-- ===== src/Graph/Ready/Exact.antt =====
-- What `ready_frontier` returns.
use graph_coder.Base.{
  String, true, false, List, has, keep, distinct, sorted, ok, err, ◌≡◌, ◌↔◌, ◌⊎◌, inl, inr, refl,
  arith, In, In-keep, has-sorted, subset, has-subset, subset_of_has, sorted-IsSorted, IsSorted,
  str_leb, subst, sym, ◌∙◌, Bool-cases,
}
use graph_coder.Graph.Node.{GraphNode, ExecutionGraph, by_id, ids, entries, duplicate_ids}
use graph_coder.Graph.Edges.{has_of_In, In_of_has}
use graph_coder.Graph.Entries.{lookup-entries_In}
use graph_coder.Graph.Ready.{is_ready, ready_frontier}

-- A node of the graph that is not completed, with all of its dependencies completed.
pub record IsEligible (nodes : List GraphNode) (completed : List String) (x : String) : Type 0 where
  pub node : GraphNode
  pub listed : In node nodes
  pub named : node.id ≡ x
  pub pending : has x completed ≡ false
  pub satisfied : (d : String) → has d node.depends_on ≡ true → has d completed ≡ true

is_ready_iff :
    (completed : List String) (nodes : List GraphNode) (n : GraphNode)
    → distinct (ids nodes) ≡ true
    → In n nodes
    → (is_ready completed (entries nodes) n ≡ true)
      ↔ ((has n.id completed ≡ false) × (subset n.depends_on completed ≡ true))
unfolding is_ready
is_ready_iff completed nodes n d i = ground (arith, lookup-entries_In nodes n d i)

-- On distinct ids `ready_frontier` returns, sorted, exactly the ids of the nodes that are not
-- completed and whose dependencies all are; otherwise it raises.
pub ready_frontier-IsEligible :
    (g : ExecutionGraph) (completed : List String)
    → (distinct (ids g.nodes) ≡ false) × (ready_frontier g completed ≡ err duplicate_ids)
      ⊎ ((ready : List String) × (ready_frontier g completed ≡ ok ready)
          × IsSorted str_leb ready
          × ((x : String) → (has x ready ≡ true) ↔ IsEligible g.nodes completed x))
unfolding ready_frontier by_id
ready_frontier-IsEligible g completed = elim (Bool-cases (distinct (ids g.nodes))) [
  | inr d ↦ inl (d, rw d refl)
  | inl d ↦
      let chosen = keep (is_ready completed (entries g.nodes)) g.nodes in
      inr (
        sorted (ids chosen),
        rw d refl,
        sorted-IsSorted (ids chosen),
        λ x. (
          λ h. eligible d x (sym (has-sorted x (ids chosen)) ∙ h),
          λ e. has-sorted x (ids chosen) ∙ listed d x e,
        ),
      )
]
  where
    eligible :
        distinct (ids g.nodes) ≡ true
        → (x : String) → has x (ids (keep (is_ready completed (entries g.nodes)) g.nodes)) ≡ true
        → IsEligible g.nodes completed x
    eligible d x h =
        let (n, i, e) = In_of_has x (keep (is_ready completed (entries g.nodes)) g.nodes) h in
        let (j, r) = (In-keep (is_ready completed (entries g.nodes)) n g.nodes).0 i in
        let (p, q) = (is_ready_iff completed g.nodes n d j).0 r in
        record {
          node = n;
          listed = j;
          named = e;
          pending = subst (λ y. has y completed ≡ false) e p;
          satisfied = λ y k. has-subset y n.depends_on completed q k;
        }

    listed :
        distinct (ids g.nodes) ≡ true
        → (x : String) → IsEligible g.nodes completed x
        → has x (ids (keep (is_ready completed (entries g.nodes)) g.nodes)) ≡ true
    listed d x e =
        let n = e.node in
        let q = subset_of_has n.depends_on completed e.satisfied in
        let p = subst (λ y. has y completed ≡ false) (sym e.named) e.pending in
        let chosen =
          (In-keep (is_ready completed (entries g.nodes)) n g.nodes).1
            (e.listed, (is_ready_iff completed g.nodes n d e.listed).1 (p, q)) in
        subst (λ y. has y (ids (keep (is_ready completed (entries g.nodes)) g.nodes)) ≡ true)
          e.named (has_of_In n (keep (is_ready completed (entries g.nodes)) g.nodes) chosen)
