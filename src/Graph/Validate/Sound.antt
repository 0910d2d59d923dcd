-- ===== src/Graph/Validate/Sound.antt =====
-- What a graph that `validate` accepts satisfies.
use graph_coder.Base.{
  some, ℕ, String, Bool, true, false, not, ◌||◌, List, [], is_nil, is_none, length, has, distinct,
  Dict, lookup, ◌==◌, ok, raise_if, raise_if-eq-ok, ◌≡◌, ◌≢◌, ◌↔◌, inl, inr, refl, arith, In,
  >>=-eq-ok, Bool-cases, subst, sym, ap,
}
use graph_coder.Graph.Node.{
  ArtifactRef, GraphNode, ExecutionGraph, schema, ids, entries, by_id, ℤ, exceeds, below_one,
}
use graph_coder.Graph.Entries.{lookup_absent}
use graph_coder.Graph.Order.{validate_acyclic_and_depth}
use graph_coder.Graph.Order.Invariant.{IsOrdered}
use graph_coder.Graph.Order.Loop.{length-ids}
use graph_coder.Graph.Order.Correct.{
  IsAcyclic, validate_acyclic_and_depth_sound, topological_order_sorts,
}
use graph_coder.Graph.Authority.{validate_authority}
use graph_coder.Graph.Authority.Boundary.{KeepsBoundary, validate_authority-eq-ok}
use graph_coder.Graph.Artifacts.{validate_artifacts}
use graph_coder.Graph.Artifacts.Handoff.{
  IsProducedBy, Makes, IsHandedOver, validate_artifacts_sound,
}
use graph_coder.Graph.Writes.{validate_write_safety}
use graph_coder.Graph.Writes.Safe.{Overlap, IsSafe, validate_write_safety_sound}
use graph_coder.Graph.Validate.{missing_from, check_nodes, validate, topological_nodes}
use graph_coder.Graph.Validate.Nodes.{missing_from-nil, IsChecked, check_nodes_sound}

-- The graph is well formed: bounds, names, references, hand-overs, order, writers and reviewers.
pub record IsWellFormed (g : ExecutionGraph) : Type 0 where
  pub size : exceeds (length g.nodes) g.max_nodes ≡ false
  pub unique_ids : distinct (ids g.nodes) ≡ true
  pub root : has g.root_id (ids g.nodes) ≡ true
  pub frontier : (x : String) → has x g.frontier ≡ true → has x (ids g.nodes) ≡ true
  pub checked : (n : GraphNode) → In n g.nodes → IsChecked (ids g.nodes) g.max_fanout n
  pub producers : Dict String
  pub produced : (n : GraphNode) → In n g.nodes → IsProducedBy producers n
  pub only_produced : (name p : String) → lookup name producers ≡ some p → Makes g.nodes name p
  pub handed_over :
      (n : GraphNode)
      → In n g.nodes
      → (a : ArtifactRef) → In a n.artifact_inputs
      → IsHandedOver (entries g.nodes) producers n a
  pub acyclic : IsAcyclic g.nodes
  pub depth : validate_acyclic_and_depth g.nodes g.max_depth ≡ ok tt
  pub safe :
      (a b : GraphNode)
      → In a g.nodes
      → In b g.nodes
      → a.id ≢ b.id
      → Overlap a b
      → IsSafe g.nodes a b
  pub boundary : (n : GraphNode) → In n g.nodes → KeepsBoundary g.root_id (entries g.nodes) n

lookup_known :
    (x : String) (ns : List GraphNode)
    → is_none (lookup x (entries ns)) ≡ false
    → has x (ids ns) ≡ true
lookup_known x ns h = elim (Bool-cases (has x (ids ns))) [
  | inl k ↦ k
  | inr k ↦ cc (lookup_absent x ns k)
]

not-false : (b : Bool) → not b ≡ false → b ≡ true
not-false b h = ground arith

exceeds-length :
    (bound : ℤ) (ns ms : List GraphNode)
    → ids ms ≡ ids ns
    → exceeds (length ns) bound ≡ false
    → exceeds (length ms) bound ≡ false
exceeds-length bound ns ms e h =
    subst (λ (k : ℕ). exceeds k bound ≡ false)
      (omega (arith, length-ids ns, length-ids ms, ap length e)) h

-- Every graph that `validate` accepts is well formed, and what it returns differs from the input
-- in the nodes only, which keep their ids and their order.
pub validate-IsWellFormed :
    (g g' : ExecutionGraph)
    → validate g ≡ ok g'
    → IsWellFormed g' × (ids g'.nodes ≡ ids g.nodes) × (g' ≡ record g { nodes = g'.nodes })
unfolding validate by_id
validate-IsWellFormed g g' h =
    let (u1, a1, h1) = >>=-eq-ok (raise_if (not (g.schema_version == schema)) _) _ h in
    let (u2, a2, h2) = >>=-eq-ok (raise_if (exceeds (length g.nodes) g.max_nodes) _) _ h1 in
    let (u3, a3, h3) =
      >>=-eq-ok
        (raise_if (below_one g.max_nodes || below_one g.max_depth || below_one g.max_fanout) _) _
        h2 in
    let (nodes, a4, h4) = >>=-eq-ok (by_id g) _ h3 in
    let (u4, b4, c4) = >>=-eq-ok (raise_if (not (distinct (ids g.nodes))) _) _ a4 in
    let named : entries g.nodes ≡ nodes = ground arith in
    let (u5, a5, h5) = >>=-eq-ok (raise_if (is_none (lookup g.root_id nodes)) _) _ h4 in
    let (claimed, a6, h6) = >>=-eq-ok (check_nodes nodes g.max_fanout g.nodes) _ h5 in
    let (u7, a7, h7) =
      >>=-eq-ok (raise_if (not (is_nil (missing_from (entries claimed) g.frontier))) _) _ h6 in
    let (u8, a8, h8) = >>=-eq-ok (validate_artifacts (entries claimed) claimed) _ h7 in
    let (u9, a9, h9) = >>=-eq-ok (validate_acyclic_and_depth claimed g.max_depth) _ h8 in
    let (u10, a10, h10) = >>=-eq-ok (validate_write_safety claimed) _ h9 in
    let (u11, a11, h11) =
      >>=-eq-ok (validate_authority g.root_id (entries claimed) claimed) _ h10 in
    let done : record g { nodes = claimed } ≡ g' = ground arith in
    let (same, each) =
      check_nodes_sound g.nodes g.max_fanout g.nodes claimed
        (subst (λ z. check_nodes z g.max_fanout g.nodes ≡ ok claimed) (sym named) a6) in
    let d : distinct (ids claimed) ≡ true =
      subst (λ z. distinct z ≡ true) (sym same) (not-false _ (raise_if-eq-ok _ _ b4)) in
    let each' =
      subst (λ known. (n : GraphNode) → In n claimed → IsChecked known g.max_fanout n) (sym same)
        each in
    let (producers, made, only, handed) = validate_artifacts_sound (entries claimed) claimed a8 in
    subst
      (λ (z : ExecutionGraph).
        IsWellFormed z × (ids z.nodes ≡ ids g.nodes) × (z ≡ record g { nodes = z.nodes }))
      done
      (
        record {
          size = exceeds-length g.max_nodes g.nodes claimed same (raise_if-eq-ok _ _ a2);
          unique_ids = d;
          root =
              subst (λ z. has g.root_id z ≡ true) (sym same)
                (lookup_known g.root_id g.nodes (
                  subst (λ z. is_none (lookup g.root_id z) ≡ false) (sym named)
                    (raise_if-eq-ok _ _ a5)));
          frontier = missing_from-nil claimed g.frontier (not-false _ (raise_if-eq-ok _ _ a7));
          checked = each';
          producers = producers;
          produced = made;
          only_produced = only;
          handed_over = handed;
          acyclic = validate_acyclic_and_depth_sound claimed g.max_depth d a9;
          depth = a9;
          safe = validate_write_safety_sound claimed d (λ n i. (each' n i).dependencies) a10;
          boundary = (validate_authority-eq-ok g.root_id (entries claimed) claimed).0 a11;
        },
        same,
        refl,
      )

-- `topological_nodes` succeeds on every graph that `validate` accepts: each node of the validated
-- graph once, behind all of its dependencies.
pub topological_nodes_sorts :
    (g g' : ExecutionGraph)
    → validate g ≡ ok g'
    → (sorted : List GraphNode) × (topological_nodes g ≡ ok sorted)
      × IsOrdered g'.nodes [] (ids sorted)
      × (distinct (ids sorted) ≡ true)
      × ((n : GraphNode) → In n sorted ↔ In n g'.nodes)
unfolding topological_nodes
topological_nodes_sorts g g' h =
    let (w, same, rest) = validate-IsWellFormed g g' h in
    let (sorted, r, o, d, m) = topological_order_sorts g'.nodes g'.max_depth w.unique_ids w.depth in
    (sorted, rw (h, topological_nodes) r, o, d, m)
