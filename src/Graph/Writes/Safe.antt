-- ===== src/Graph/Writes/Safe.antt =====
-- What `_validate_write_safety` promises: overlapping writers are ordered or merged.
use graph_coder.Base.{
  String, true, false, List, [], ◌∷◌, Option, none, some, is_nil, any, keep, has, distinct, unique,
  Dict, lookup, get_or, ok, ◌≡◌, ◌≢◌, ◌⊎◌, inl, inr, refl, arith, In, eq_iff, eq_refl, >>=-eq-ok,
  Bool-cases, subst, sym, ◌∙◌, has-unique, any_of_In, In-keep,
}
use graph_coder.Graph.Node.{GraphNode, ids}
use graph_coder.Graph.Edges.{has_of_In}
use graph_coder.Graph.Order.Acyclic.{IsClosed}
use graph_coder.Graph.Scope.{scopes_overlap}
use graph_coder.Graph.Scope.Symmetric.{scopes_overlap_symmetric}
use graph_coder.Graph.Ancestors.{ancestors}
use graph_coder.Graph.Ancestors.Reached.{DependsOn, ancestors-DependsOn}
use graph_coder.Graph.Writes.{
  reachability, overlap, same_strategy, check_pair, check_against, check_pairs,
  validate_write_safety,
}

-- Some write scope of the one overlaps some write scope of the other.
pub record Overlap (a b : GraphNode) : Type 0 where
  pub left : String
  pub right : String
  pub from_left : In left a.write_scopes
  pub from_right : In right b.write_scopes
  pub common : scopes_overlap left right ≡ true

-- The two nodes are ordered by the dependencies, or name one merge strategy.
pub data IsSafe (nodes : List GraphNode) (a b : GraphNode) : Type 0 where
  after : DependsOn nodes a.id b.id → IsSafe nodes a b
  before : DependsOn nodes b.id a.id → IsSafe nodes a b
  merged :
      (strategy : String)
      → a.merge_strategy ≡ some strategy
      → b.merge_strategy ≡ some strategy
      → IsSafe nodes a b

Overlap-symm : {a b : GraphNode} → Overlap a b → Overlap b a
Overlap-symm o = record {
  left = o.right;
  right = o.left;
  from_left = o.from_right;
  from_right = o.from_left;
  common = sym (scopes_overlap_symmetric o.left o.right).0 ∙ o.common;
}

IsSafe-symm : {nodes : List GraphNode} {a b : GraphNode} → IsSafe nodes a b → IsSafe nodes b a
IsSafe-symm (after d) = before d
IsSafe-symm (before d) = after d
IsSafe-symm (merged s p q) = merged s q p

has_In : (x : String) (xs : List String) → In x xs → has x xs ≡ true
has_In x [] i = elim i [ ]
has_In x (y ∷ xs) (inl e) = ground (arith, eq_iff y x)
has_In x (y ∷ xs) (inr i) = ground (arith, has_In x xs i)

overlap_of_Overlap : (a b : GraphNode) → Overlap a b → is_nil (overlap a b) ≡ false
unfolding overlap
overlap_of_Overlap a b o =
    let meets = λ (l : String). any (λ r. scopes_overlap l r) b.write_scopes in
    let kept = (In-keep meets o.left a.write_scopes).1 (
      o.from_left,
      any_of_In (λ r. scopes_overlap o.left r) b.write_scopes o.right o.from_right o.common,
    ) in
    not_nil o.left (unique (keep meets a.write_scopes))
      (has-unique o.left (keep meets a.write_scopes) ∙ has_In o.left _ kept)
  where
    not_nil : (x : String) (xs : List String) → has x xs ≡ true → is_nil xs ≡ false
    not_nil x [] h = cc
    not_nil x (y ∷ xs) h = refl

same_strategy-some :
    (l r : Option String) → same_strategy l r ≡ true → (s : String) × (l ≡ some s) × (r ≡ some s)
unfolding same_strategy
same_strategy-some none r h = cc
same_strategy-some (some l) none h = cc
same_strategy-some (some l) (some r) h = (l, refl, ground (arith, eq_iff l r))

-- The dictionary holds for each node the ids that it depends on.
IsReachability : List GraphNode → Dict (List String) → List GraphNode → Type 0
IsReachability nodes reach ns =
    (n : GraphNode)
    → In n ns
    → (x : String) → has x (get_or n.id [] reach) ≡ true
    → DependsOn nodes x n.id

reachability_sound :
    (nodes ns : List GraphNode) (reach : Dict (List String))
    → distinct (ids nodes) ≡ true
    → IsClosed nodes
    → distinct (ids ns) ≡ true
    → ((n : GraphNode) → In n ns → In n nodes)
    → reachability nodes ns ≡ ok reach
    → IsReachability nodes reach ns
unfolding reachability lookup IsReachability
reachability_sound nodes [] reach d closed u k h = λ n i. elim i [ ]
reachability_sound nodes (m ∷ ns) reach d closed u k h =
    let (above, r, h') = >>=-eq-ok (ancestors m.id nodes) _ h in
    let (rest, q, h'') = >>=-eq-ok (reachability nodes ns) _ h' in
    let e : reach ≡ (m.id, above) ∷ rest = ground arith in
    let below = reachability_sound nodes ns rest d closed (ground arith) (λ n i. k n (inr i)) q in
    λ n i x p. elim i [
      | inl same ↦ head_above rest above n same (above_of m above r (k m (inl refl))) x (rw e at p)
      | inr j ↦ below n j x (ground (arith, has_of_In n ns j, eq_iff m.id n.id))
    ]
  where
    above_of :
        (m : GraphNode) (above : List String)
        → ancestors m.id nodes ≡ ok above
        → In m nodes
        → (x : String) → has x above ≡ true
        → DependsOn nodes x m.id
    above_of m above r i x p =
        let (result, s, both) = ancestors-DependsOn nodes m d closed i in (both x).0 (ground arith)

    head_above :
        (rest : Dict (List String)) (above : List String) (n : GraphNode)
        → m ≡ n
        → ((x : String) → has x above ≡ true → DependsOn nodes x m.id)
        → (x : String) → has x (get_or n.id [] ((m.id, above) ∷ rest)) ≡ true
        → DependsOn nodes x n.id
    head_above rest above n same f x p =
        subst (λ (z : GraphNode). DependsOn nodes x z.id) same (f x (ground (arith, eq_refl m.id)))

check_against_sound :
    (reach : Dict (List String)) (left : GraphNode) (ns : List GraphNode)
    → check_against reach left ns ≡ ok tt
    → (b : GraphNode) → In b ns
    → check_pair reach left b ≡ ok tt
unfolding check_against
check_against_sound reach left [] h b i = elim i [ ]
check_against_sound reach left (n ∷ ns) h b i =
    let (w, r, h') = >>=-eq-ok (check_pair reach left n) _ h in
    elim i [
      | inl e ↦ subst (λ z. check_pair reach left z ≡ ok tt) e r
      | inr j ↦ check_against_sound reach left ns h' b j
    ]

check_pairs_sound :
    (reach : Dict (List String)) (ns : List GraphNode)
    → check_pairs reach ns ≡ ok tt
    → (a b : GraphNode) → In a ns
    → In b ns
    → a.id ≢ b.id
    → (check_pair reach a b ≡ ok tt) ⊎ (check_pair reach b a ≡ ok tt)
unfolding check_pairs
check_pairs_sound reach [] h a b i j ne = elim i [ ]
check_pairs_sound reach (n ∷ ns) h a b i j ne =
    let (w, r, h') = >>=-eq-ok (check_against reach n ns) _ h in
    both r (λ p q. check_pairs_sound reach ns h' a b p q ne) i j
  where
    both :
        check_against reach n ns ≡ ok tt
        → (In a ns → In b ns → (check_pair reach a b ≡ ok tt) ⊎ (check_pair reach b a ≡ ok tt))
        → In a (n ∷ ns)
        → In b (n ∷ ns)
        → (check_pair reach a b ≡ ok tt) ⊎ (check_pair reach b a ≡ ok tt)
    both r later (inl p) (inl q) = absurd (ne (cc))
    both r later (inl p) (inr q) =
        inl (subst (λ z. check_pair reach z b ≡ ok tt) p (check_against_sound reach n ns r b q))
    both r later (inr p) (inl q) =
        inr (subst (λ z. check_pair reach z a ≡ ok tt) q (check_against_sound reach n ns r a p))
    both r later (inr p) (inr q) = later p q

check_pair_sound :
    (nodes : List GraphNode) (reach : Dict (List String)) (a b : GraphNode)
    → IsReachability nodes reach nodes
    → In a nodes
    → In b nodes
    → check_pair reach a b ≡ ok tt
    → Overlap a b
    → IsSafe nodes a b
unfolding check_pair IsReachability
check_pair_sound nodes reach a b k i j h o =
    let shared = overlap_of_Overlap a b o in
    elim (Bool-cases (has a.id (get_or b.id [] reach))) [
      | inl p ↦ after (k b j a.id p)
      | inr p ↦ elim (Bool-cases (has b.id (get_or a.id [] reach))) [
        | inl q ↦ before (k a i b.id q)
        | inr q ↦
            let (s, l, r) = same_strategy-some a.merge_strategy b.merge_strategy (ground arith) in
            merged s l r
      ]
    ]

-- On distinct ids and known dependencies, when `validate_write_safety` passes, any two different nodes with
-- overlapping write scopes are safe: one depends on the other, directly or through other nodes, or
-- both name one merge strategy.
pub validate_write_safety_sound :
    (nodes : List GraphNode)
    → distinct (ids nodes) ≡ true
    → IsClosed nodes
    → validate_write_safety nodes ≡ ok tt
    → (a b : GraphNode) → In a nodes
    → In b nodes
    → a.id ≢ b.id
    → Overlap a b
    → IsSafe nodes a b
unfolding validate_write_safety
validate_write_safety_sound nodes d closed h a b i j ne o =
    let (reach, r, h') = >>=-eq-ok (reachability nodes nodes) _ h in
    let k = reachability_sound nodes nodes reach d closed d (λ n p. p) r in
    elim (check_pairs_sound reach nodes h' a b i j ne) [
      | inl p ↦ check_pair_sound nodes reach a b k i j p o
      | inr p ↦ IsSafe-symm (check_pair_sound nodes reach b a k j i p (Overlap-symm o))
    ]
