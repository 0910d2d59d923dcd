-- ===== src/Graph/Units/Partition.antt =====
-- The compiled units divide the nodes among them.
use graph_coder.Base.{
  ◌≤◌, String, true, false, not, ◌&&◌, ◌||◌, List, [], ◌∷◌, ◌++◌, is_nil, has, count, distinct, ok,
  if◌then◌else◌, ◌≡◌, ◌≢◌, ◌↔◌, inl, inr, refl, arith, In, eq_iff, eq_refl, Bool-cases, count-zero,
  count-append, subst, ◌∙◌, ap,
}
use graph_coder.Graph.Node.{GraphNode, ExecutionGraph, ids, is_composite}
use graph_coder.Graph.Edges.{has_of_In, In_of_has}
use graph_coder.Graph.Validate.{validate}
use graph_coder.Graph.Validate.Sound.{validate-IsWellFormed, topological_nodes_sorts}
use graph_coder.Graph.Units.{
  PlanUnit, joins, gather, group_of, unit_of, compile_from, compile_plan_units,
}

-- The ids of the nodes of all units.
abbrev pub all_ids : List PlanUnit → List String
all_ids [] = []
all_ids (u ∷ us) = u.node_ids ++ all_ids us

-- What `gather` adds is new, and is what it consumes.
record IsGathered (consumed : List String) (cs more : List GraphNode) (consumed' : List String)
    : Type 0 where
  grown : (x : String) → has x consumed' ≡ (has x consumed || has x (ids more))
  once : (x : String) → count x (ids more) ≡ (if has x (ids more) then count x (ids cs) else 0)
  fresh : (x : String) → has x (ids more) ≡ true → has x consumed ≡ false

joins-fresh :
    (node c : GraphNode) (consumed : List String)
    → joins node consumed c ≡ true
    → has c.id consumed ≡ false
unfolding joins
joins-fresh node c consumed h = ground arith

positive : (y : String) (ys : List String) → has y ys ≡ true → count y ys ≢ 0
positive y [] h = cc
positive y (z ∷ ys) h = ground (arith, positive y ys)

has_of_count :
    (x : String) (ms cs : List String) → has x ms ≡ true → count x ms ≡ count x cs → has x cs ≡ true
has_of_count x ms cs h e = elim (Bool-cases (has x cs)) [
  | inl t ↦ t
  | inr f ↦ absurd (positive x ms h (e ∙ count-zero x cs f))
]

gather-IsGathered :
    (node : GraphNode) (consumed : List String) (cs : List GraphNode)
    → distinct (ids cs) ≡ true
    → IsGathered consumed cs (gather node consumed cs).0 (gather node consumed cs).1
unfolding gather
gather-IsGathered node consumed [] d = record {
  grown = λ x. ground arith;
  once = λ x. refl;
  fresh = λ x h. cc;
}
gather-IsGathered node consumed (c ∷ cs) d = elim (Bool-cases (joins node consumed c)) [
  | inl j ↦
      let g = gather-IsGathered node (c.id ∷ consumed) cs (ground arith) in
      rw (j, gather)
        (record {
          grown = λ x. ground (arith, g.grown x);
          once = λ x. ground (
            arith,
            g.once x,
            g.fresh x,
            count-zero x (ids (gather node (c.id ∷ consumed) cs).0),
            count-zero x (ids cs),
            eq_iff c.id x,
          );
          fresh = λ x h. ground (arith, g.fresh x, joins-fresh node c consumed j, eq_iff c.id x);
        })
  | inr j ↦
      let g = gather-IsGathered node consumed cs (ground arith) in
      rw (j, gather)
        (record {
          grown = λ x. g.grown x;
          once = λ x. ground (
            arith,
            g.once x,
            has_of_count x (ids (gather node consumed cs).0) (ids cs),
            eq_iff c.id x,
          );
          fresh = λ x h. g.fresh x h;
        })
]

group-IsGathered :
    (n : GraphNode) (consumed : List String) (ns : List GraphNode)
    → distinct (ids (n ∷ ns)) ≡ true
    → has n.id consumed ≡ false
    → IsGathered consumed (n ∷ ns) (group_of n consumed ns).0 (group_of n consumed ns).1
unfolding group_of
group-IsGathered n consumed ns d k =
    let more = (gather n consumed ns).0 in
    let g = gather-IsGathered n consumed ns (ground arith) in
    elim (Bool-cases (not (is_composite n.role) && is_nil n.write_scopes)) [
      | inl t ↦
          rw (t, group_of)
            (record {
              grown = λ x. ground (arith, g.grown x);
              once = λ x. ground (
                arith,
                g.once x,
                eq_iff n.id x,
                count-zero x (ids more),
                count-zero x (ids ns),
                has_of_count x (ids more) (ids ns),
              );
              fresh = λ x h. ground (arith, g.fresh x, eq_iff n.id x);
            })
      | inr f ↦
          rw (f, group_of)
            (record {
              grown = λ x. ground arith;
              once = λ x. ground (arith, eq_iff n.id x, count-zero x (ids ns));
              fresh = λ x h. ground (arith, eq_iff n.id x);
            })
    ]

group-holds :
    (n : GraphNode) (consumed : List String) (ns : List GraphNode)
    → has n.id (ids (group_of n consumed ns).0) ≡ true
unfolding group_of
group-holds n consumed ns = ground (arith, eq_refl n.id)

compile_from-skip :
    (consumed : List String) (n : GraphNode) (ns : List GraphNode)
    → has n.id consumed ≡ true
    → compile_from consumed (n ∷ ns) ≡ compile_from consumed ns
unfolding compile_from
compile_from-skip consumed n ns h = rw (h, compile_from)

compile_from-take :
    (consumed : List String) (n : GraphNode) (ns : List GraphNode)
    → has n.id consumed ≡ false
    → compile_from consumed (n ∷ ns)
      ≡ unit_of n (group_of n consumed ns).0 ∷ compile_from (group_of n consumed ns).1 ns
unfolding compile_from
compile_from-take consumed n ns h = rw (h, compile_from)

node_ids-unit_of : (n : GraphNode) (group : List GraphNode) → (unit_of n group).node_ids ≡ ids group
unfolding unit_of
node_ids-unit_of n group = refl

count-compile_from :
    (x : String) (consumed : List String) (ns : List GraphNode)
    → distinct (ids ns) ≡ true
    → count x (all_ids (compile_from consumed ns))
      ≡ (if has x consumed then 0 else count x (ids ns))
count-compile_from x consumed [] d = unfold compile_from in ground arith
count-compile_from x consumed (n ∷ ns) d = elim (Bool-cases (has n.id consumed)) [
  | inl h ↦
      ap (λ us. count x (all_ids us)) (compile_from-skip consumed n ns h)
      ∙ ground (arith, count-compile_from x consumed ns, eq_iff n.id x)
  | inr h ↦
      let (group, consumed') = group_of n consumed ns in
      let g = group-IsGathered n consumed ns d h in
      ap (λ us. count x (all_ids us)) (compile_from-take consumed n ns h)
      ∙ ground (
        arith,
        count-append x (unit_of n group).node_ids (all_ids (compile_from consumed' ns)),
        node_ids-unit_of n group,
        count-compile_from x consumed' ns,
        g.grown x,
        g.once x,
        g.fresh x,
        eq_iff n.id x,
        group-holds n consumed ns,
        count-zero x (ids ns),
      )
]

count_of_distinct :
    (x : String) (xs : List String) → distinct xs ≡ true → count x xs ≡ (if has x xs then 1 else 0)
count_of_distinct x [] d = refl
count_of_distinct x (y ∷ xs) d = ground (arith, count_of_distinct x xs, eq_iff y x)

distinct_of_count :
    (xs ys : List String)
    → distinct ys ≡ true
    → ((x : String) → count x xs ≡ count x ys)
    → distinct xs ≡ true
distinct_of_count xs ys d same = few xs (λ x. omega (arith, same x, at_most x ys d))
  where
    at_most : (x : String) (zs : List String) → distinct zs ≡ true → count x zs ≤ 1
    at_most x zs e = ground (arith, count_of_distinct x zs e)

    few : (zs : List String) → ((x : String) → count x zs ≤ 1) → distinct zs ≡ true
    few [] k = refl
    few (z ∷ zs) k =
        ground (arith, k z, eq_refl z, positive z zs, few zs (λ x. ground (arith, k x)))

count_of_In :
    (ms ns : List GraphNode)
    → distinct (ids ms) ≡ true
    → distinct (ids ns) ≡ true
    → ((n : GraphNode) → In n ms ↔ In n ns)
    → (x : String) → count x (ids ms) ≡ count x (ids ns)
count_of_In ms ns d e m x = ground (
  arith,
  count_of_distinct x (ids ms) d,
  count_of_distinct x (ids ns) e,
  carry ms ns (λ n. (m n).0),
  carry ns ms (λ n. (m n).1),
)
  where
    carry :
        (ps qs : List GraphNode)
        → ((n : GraphNode) → In n ps → In n qs)
        → has x (ids ps) ≡ true
        → has x (ids qs) ≡ true
    carry ps qs f h =
        let (n, i, p) = In_of_has x ps h in
        subst (λ y. has y (ids qs) ≡ true) p (has_of_In n qs (f n i))

-- Each node stands in exactly one unit, once: for a graph that `validate` accepts, the units of
-- `compile_plan_units` hold together exactly the ids of its nodes, and no id twice.
pub compile_plan_units-count :
    (g g' : ExecutionGraph)
    → validate g ≡ ok g'
    → (units : List PlanUnit) × (compile_plan_units g ≡ ok units)
      × (distinct (all_ids units) ≡ true)
      × ((x : String) → count x (all_ids units) ≡ count x (ids g'.nodes))
unfolding compile_plan_units
compile_plan_units-count g g' h =
    let (sorted, r, o, d, m) = topological_nodes_sorts g g' h in
    let (w, same, rest) = validate-IsWellFormed g g' h in
    let once = λ (x : String). count-compile_from x [] sorted d in
    (
      compile_from [] sorted,
      rw (r, compile_plan_units) refl,
      distinct_of_count (all_ids (compile_from [] sorted)) (ids sorted) d once,
      λ x. once x ∙ count_of_In sorted g'.nodes d w.unique_ids m x,
    )
