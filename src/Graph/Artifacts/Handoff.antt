-- ===== src/Graph/Artifacts/Handoff.antt =====
-- What `_validate_artifacts` promises of the hand-over of artifacts between nodes.
use graph_coder.Base.{
  String, true, false, List, [], ◌∷◌, none, some, has, Dict, lookup, insert, lookup-insert, ok, ◌≡◌,
  ◌≢◌, ◌⊎◌, ◌↔◌, inl, inr, refl, arith, In, Bool-cases, ◌==◌, eq_iff, eq_refl, >>=-eq-ok,
  Option-cases, subst,
}
use graph_coder.Graph.Node.{ArtifactRef, GraphNode}
use graph_coder.Graph.Artifacts.{
  collect_outputs, collect_producers, producer_of, check_producer, check_inputs, check_consumers,
  validate_artifacts,
}

-- The node's consumer of an artifact has what it waits for.
pub record IsHandedOver (nodes : Dict GraphNode) (producers : Dict String) (n : GraphNode)
    (a : ArtifactRef) : Type 0 where
  pub produced : a.required ≡ true → a.external ≡ false → producer_of producers a ≢ none
  pub not_external : (p : String) → producer_of producers a ≡ some p → a.external ≡ false
  pub known : (p : String) → producer_of producers a ≡ some p → lookup p nodes ≢ none
  pub awaited :
      (p : String) → producer_of producers a ≡ some p → (has p n.depends_on ≡ true) ⊎ (p ≡ n.id)

check_producer-eq-ok :
    (nodes : Dict GraphNode) (producers : Dict String) (n : GraphNode) (a : ArtifactRef)
    → (check_producer nodes n a (producer_of producers a) ≡ ok tt)
      ↔ IsHandedOver nodes producers n a
unfolding check_producer
check_producer-eq-ok nodes producers n a = (
  λ h. record {
    produced = λ r x e. ground arith;
    not_external = λ p e. ground arith;
    known = λ p e m. ground arith;
    awaited = λ p e. ground (arith, eq_iff p n.id);
  },
  λ k. elim (Option-cases (producer_of producers a)) [
    | inl e ↦ ground (arith, k.produced)
    | inr (p, e) ↦ ground (arith, k.not_external p e, k.known p e, k.awaited p e, eq_iff p n.id)
  ],
)

-- Each output has the node as its one producer.
pub record IsProducedBy (producers : Dict String) (n : GraphNode) : Type 0 where
  pub at : (a : ArtifactRef) → In a n.artifact_outputs → lookup a.name producers ≡ some n.id

-- The collection only grows.
abbrev Grows : Dict String → Dict String → Type 0
Grows d d' = (name p : String) → lookup name d ≡ some p → lookup name d' ≡ some p

-- An insertion that the code makes writes over nothing else.
Grows-insert :
    (name id : String) (d : Dict String)
    → ((p : String) → lookup name d ≡ some p → p ≡ id)
    → Grows d (insert name id d)
Grows-insert name id d same j p e = ground (arith, lookup-insert name j id d, eq_iff name j, same p)

collect_outputs_sound :
    (id : String) (uses : List ArtifactRef) (d d' : Dict String)
    → collect_outputs id uses d ≡ ok d'
    → Grows d d' × ((a : ArtifactRef) → In a uses → lookup a.name d' ≡ some id)
unfolding collect_outputs
collect_outputs_sound id [] d d' h = (λ name p e. ground arith, λ a i. elim i [ ])
collect_outputs_sound id (a ∷ rest) d d' h =
    let written : lookup a.name (insert a.name id d) ≡ some id =
      ground (arith, lookup-insert a.name a.name id d, eq_refl a.name) in
    let (known, next) = continue in
    let (grows, outputs) = collect_outputs_sound id rest (insert a.name id d) d' next in
    (
      λ name p e. grows name p (Grows-insert a.name id d known name p e),
      λ b i. elim i [
        | inl e ↦ subst (λ z. lookup (z).name d' ≡ some id) e (grows a.name id written)
        | inr j ↦ outputs b j
      ],
    )
  where
    continue :
        ((p : String) → lookup a.name d ≡ some p → p ≡ id)
        × (collect_outputs id rest (insert a.name id d) ≡ ok d')
    continue = elim (Option-cases (lookup a.name d)) [
      | inl e ↦ (λ p q. cc, ground arith)
      | inr (first, e) ↦ (λ p q. ground (arith, eq_iff first id), ground arith)
    ]

collect_producers_sound :
    (ns : List GraphNode) (d d' : Dict String)
    → collect_producers ns d ≡ ok d'
    → Grows d d' × ((n : GraphNode) → In n ns → IsProducedBy d' n)
unfolding collect_producers
collect_producers_sound [] d d' h = (λ name p e. ground arith, λ n i. elim i [ ])
collect_producers_sound (n ∷ ns) d d' h =
    let (d1, r, h') = >>=-eq-ok (collect_outputs n.id n.artifact_outputs d) _ h in
    let (g1, outputs) = collect_outputs_sound n.id n.artifact_outputs d d1 r in
    let (g2, rest) = collect_producers_sound ns d1 d' h' in
    (
      λ name p e. g2 name p (g1 name p e),
      λ m i. elim i [
        | inl e ↦ subst (IsProducedBy d') e (record { at = λ a j. g2 a.name n.id (outputs a j) })
        | inr j ↦ rest m j
      ],
    )

-- A node of the list has an output of that name.
abbrev pub Makes : List GraphNode → String → String → Type 0
Makes ns name p =
    (m : GraphNode) × In m ns
    × (m.id ≡ p)
    × (a : ArtifactRef) × In a m.artifact_outputs
    × (a.name ≡ name)

collect_outputs_only :
    (id : String) (uses : List ArtifactRef) (d d' : Dict String)
    → collect_outputs id uses d ≡ ok d'
    → (name p : String) → lookup name d' ≡ some p
    → (lookup name d ≡ some p) ⊎ ((id ≡ p) × (a : ArtifactRef) × In a uses × (a.name ≡ name))
unfolding collect_outputs
collect_outputs_only id [] d d' h name p e = inl (ground arith)
collect_outputs_only id (a ∷ rest) d d' h name p e =
    elim (collect_outputs_only id rest (insert a.name id d) d' next name p e) [
      | inr (same, b, j, k) ↦ inr (same, b, inr j, k)
      | inl f ↦ elim (Bool-cases (a.name == name)) [
        | inl g ↦
            let same : id ≡ p = ground (arith, lookup-insert a.name name id d) in
            inr (same, a, inl refl, (eq_iff a.name name).0 g)
        | inr g ↦ inl (ground (arith, lookup-insert a.name name id d))
      ]
    ]
  where
    next : collect_outputs id rest (insert a.name id d) ≡ ok d'
    next = elim (Option-cases (lookup a.name d)) [
      | inl e ↦ ground arith
      | inr (first, e) ↦ ground (arith, eq_iff first id)
    ]

collect_producers_only :
    (ns : List GraphNode) (d d' : Dict String)
    → collect_producers ns d ≡ ok d'
    → (name p : String) → lookup name d' ≡ some p
    → (lookup name d ≡ some p) ⊎ Makes ns name p
unfolding collect_producers
collect_producers_only [] d d' h name p e = inl (ground arith)
collect_producers_only (n ∷ ns) d d' h name p e =
    let (d1, r, h') = >>=-eq-ok (collect_outputs n.id n.artifact_outputs d) _ h in
    elim (collect_producers_only ns d1 d' h' name p e) [
      | inr (m, i, s, a, j, k) ↦ inr (m, inr i, s, a, j, k)
      | inl f ↦ elim (collect_outputs_only n.id n.artifact_outputs d d1 r name p f) [
        | inl g ↦ inl g
        | inr (same, a, j, k) ↦ inr (n, inl refl, same, a, j, k)
      ]
    ]

check_inputs_sound :
    (nodes : Dict GraphNode) (producers : Dict String) (n : GraphNode) (uses : List ArtifactRef)
    → check_inputs nodes producers n uses ≡ ok tt
    → (a : ArtifactRef) → In a uses
    → IsHandedOver nodes producers n a
unfolding check_inputs
check_inputs_sound nodes producers n [] h a i = elim i [ ]
check_inputs_sound nodes producers n (b ∷ rest) h a i =
    let (u, r, h') = >>=-eq-ok (check_producer nodes n b (producer_of producers b)) _ h in
    elim i [
      | inl e ↦
          subst (IsHandedOver nodes producers n) e ((check_producer-eq-ok nodes producers n b).0 r)
      | inr j ↦ check_inputs_sound nodes producers n rest h' a j
    ]

check_consumers_sound :
    (nodes : Dict GraphNode) (producers : Dict String) (ns : List GraphNode)
    → check_consumers nodes producers ns ≡ ok tt
    → (n : GraphNode) → In n ns
    → (a : ArtifactRef) → In a n.artifact_inputs
    → IsHandedOver nodes producers n a
unfolding check_consumers
check_consumers_sound nodes producers [] h n i a j = elim i [ ]
check_consumers_sound nodes producers (m ∷ ns) h n i a j =
    let (u, r, h') = >>=-eq-ok (check_inputs nodes producers m m.artifact_inputs) _ h in
    elim i [
      | inl e ↦
          check_inputs_sound nodes producers n n.artifact_inputs
            (subst (λ z. check_inputs nodes producers z (z).artifact_inputs ≡ ok tt) e r) a j
      | inr k ↦ check_consumers_sound nodes producers ns h' n k a j
    ]

-- When `validate_artifacts` passes, there is a dictionary that names for every output of every node
-- that node as its producer, and names nothing else: the producer of a name is a node of the graph
-- with an output of that name. By it every input of every node is handed over: a required input
-- has a producer, named by the input itself or else by the dictionary, unless it is external; an
-- external one has none; and a producer is a node of the graph that the consumer depends on, or
-- the consumer itself.
pub validate_artifacts_sound :
    (nodes : Dict GraphNode) (ns : List GraphNode)
    → validate_artifacts nodes ns ≡ ok tt
    → (producers : Dict String) × ((n : GraphNode) → In n ns → IsProducedBy producers n)
      × ((name p : String) → lookup name producers ≡ some p → Makes ns name p)
      × ((n : GraphNode)
          → In n ns
          → (a : ArtifactRef) → In a n.artifact_inputs
          → IsHandedOver nodes producers n a)
unfolding validate_artifacts lookup
validate_artifacts_sound nodes ns h =
    let (producers, r, h') = >>=-eq-ok (collect_producers ns []) _ h in
    let (grows, made) = collect_producers_sound ns [] producers r in
    (
      producers,
      made,
      λ name p e. elim (collect_producers_only ns [] producers r name p e) [
        | inl f ↦ let bad : none ≡ some p = f in cc
        | inr m ↦ m
      ],
      check_consumers_sound nodes producers ns h',
    )
