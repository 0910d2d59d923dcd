-- ===== src/Graph/Order/Invariant.antt =====
-- The invariant of Kahn's loop, and that a round keeps it.
use graph_coder.Base.{
  ℕ, ◌+◌, ◌-◌, String, true, false, ◌&&◌, ◌||◌, List, [], ◌∷◌, ◌++◌, length, get_or, get_or-insert,
  eqb, has, count, distinct, if◌then◌else◌, ◌≡◌, ◌≢◌, ◌↔◌, inl, inr, refl, arith, In, ◌==◌, eq_iff,
  eq_refl, has-append, distinct-concat, has_self, Bool-cases, ◌∙◌,
}
use mathlib.Core.List.{append-nil, append_assoc}
use graph_coder.Graph.Node.{GraphNode, ids}
use graph_coder.Graph.Edges.{In_of_has}
use graph_coder.Graph.Order.{Sort, release, release_all}

-- How many of the dependencies are not among `done`.
abbrev pub unmet : List String → List String → ℕ
unmet done [] = 0
unmet done (dep ∷ deps) = (if has dep done then 0 else 1) + unmet done deps

pub unmet-concat :
    (x : String) (done deps : List String)
    → has x done ≡ false
    → unmet done deps ≡ unmet (done ++ x ∷ []) deps + count x deps
unmet-concat x done [] h = omega arith
unmet-concat x done (dep ∷ deps) h =
    ground
      (arith, unmet-concat x done deps h, has-append dep done (x ∷ []), eq_iff dep x, eq_iff x dep)

pub has_of_unmet :
    (done deps : List String) (dep : String)
    → unmet done deps ≡ 0
    → has dep deps ≡ true
    → has dep done ≡ true
has_of_unmet done [] dep z h = cc
has_of_unmet done (d ∷ deps) dep z h = ground (arith, has_of_unmet done deps dep, eq_iff d dep)

pub unmet_of_has :
    (done deps : List String)
    → ((dep : String) → has dep deps ≡ true → has dep done ≡ true)
    → unmet done deps ≡ 0
unmet_of_has done [] h = refl
unmet_of_has done (d ∷ deps) h =
    ground (arith, h d (has_self d deps), unmet_of_has done deps (λ e p. h e (ground arith)))

pub unmet-nil : (deps : List String) → unmet [] deps ≡ length deps
unmet-nil [] = refl
unmet-nil (d ∷ deps) = omega (arith, unmet-nil deps)

-- What `release` does to the degrees and to the list of queued ids.
degree-release :
    (s : Sort) (c j : String)
    → get_or j 0 (release s c).indegree
      ≡ (if c == j then get_or c 0 s.indegree - 1 else get_or j 0 s.indegree)
unfolding release
degree-release s c j = get_or-insert c j (get_or c 0 s.indegree - 1) 0 s.indegree

has-release :
    (s : Sort) (c j : String)
    → has j (s.ordered ++ (release s c).queue)
      ≡ (has j (s.ordered ++ s.queue) || (eqb (get_or c 0 s.indegree) 1 && c == j))
unfolding release
has-release s c j = elim (Bool-cases (eqb (get_or c 0 s.indegree) 1)) [
  | inl e ↦ ground (
    arith,
    has-append j s.ordered s.queue,
    has-append j s.ordered (s.queue ++ c ∷ []),
    has-append j s.queue (c ∷ []),
  )
  | inr e ↦ ground arith
]

once-release :
    (s : Sort) (c : String)
    → distinct (s.ordered ++ s.queue) ≡ true
    → (eqb (get_or c 0 s.indegree) 1 ≡ true → has c (s.ordered ++ s.queue) ≡ false)
    → distinct (s.ordered ++ (release s c).queue) ≡ true
unfolding release
once-release s c d h = elim (Bool-cases (eqb (get_or c 0 s.indegree) 1)) [
  | inl e ↦ rw e (
      rw (← append_assoc s.ordered s.queue (c ∷ []))
        (distinct-concat c (s.ordered ++ s.queue) d (h e)))
  | inr e ↦ rw e d
]

ordered-release : (s : Sort) (c : String) → (release s c).ordered ≡ s.ordered
unfolding release
ordered-release s c = refl

pub ordered-release_all : (s : Sort) (todo : List String) → (release_all s todo).ordered ≡ s.ordered
unfolding release_all
ordered-release_all s [] = refl
ordered-release_all s (c ∷ todo) = ordered-release_all (release s c) todo ∙ ordered-release s c

module _ (nodes : List GraphNode) where
  -- Every dependency of the nodes called `x` is among `done`.
  abbrev pub IsMet : List String → String → Type 0
  IsMet done x =
      (n : GraphNode)
      → In n nodes
      → n.id ≡ x
      → (dep : String) → has dep n.depends_on ≡ true
      → has dep done ≡ true

  -- Each id of the list stands behind the dependencies of its node.
  abbrev pub IsOrdered : List String → List String → Type 0
  IsOrdered done [] = Unit
  IsOrdered done (x ∷ xs) = IsMet done x × IsOrdered (done ++ x ∷ []) xs

  pub IsOrdered-concat :
      (done xs : List String) (x : String)
      → IsOrdered done xs
      → IsMet (done ++ xs) x
      → IsOrdered done (xs ++ x ∷ [])
  IsOrdered-concat done [] x o m = (rw (append-nil done) at m, tt)
  IsOrdered-concat done (y ∷ xs) x o m =
      (o.0, IsOrdered-concat (done ++ y ∷ []) xs x o.1 (rw (append_assoc done (y ∷ []) xs) m))

  -- `todo` holds the dependents that the current round still has to release.
  pub record Inv (s : Sort) (todo : List String) : Type 0 where
    pub degree :
        (n : GraphNode)
        → In n nodes
        → get_or n.id 0 s.indegree ≡ unmet s.ordered n.depends_on + count n.id todo
    pub queued :
        (n : GraphNode)
        → In n nodes
        → (has n.id (s.ordered ++ s.queue) ≡ true) ↔ (get_or n.id 0 s.indegree ≡ 0)
    pub inside : (x : String) → has x (s.ordered ++ s.queue) ≡ true → has x (ids nodes) ≡ true
    pub once : distinct (s.ordered ++ s.queue) ≡ true
    pub behind : IsOrdered [] s.ordered

  Inv-release :
      (s : Sort) (c : String) (todo : List String)
      → has c (ids nodes) ≡ true
      → Inv s (c ∷ todo)
      → Inv (release s c) todo
  unfolding release
  Inv-release s c todo k v =
      let (n, i, e) = In_of_has c nodes k in
      let positive : get_or c 0 s.indegree ≢ 0 = λ z. ground (arith, v.degree n i, eq_refl c) in
      let absent : has c (s.ordered ++ s.queue) ≡ false = ground (arith, v.queued n i) in
      record {
        degree = λ m j.
            ground (arith, v.degree m j, v.degree n i, degree-release s c m.id, eq_iff c m.id);
        queued = λ m j.
            ground
              (arith, v.queued m j, has-release s c m.id, degree-release s c m.id, eq_iff c m.id);
        inside = λ x h. ground (arith, has-release s c x, v.inside x, eq_iff c x);
        once = once-release s c v.once (λ _. absent);
        behind = v.behind;
      }

  pub Inv-release_all :
      (s : Sort) (todo : List String)
      → ((c : String) → has c todo ≡ true → has c (ids nodes) ≡ true)
      → Inv s todo
      → Inv (release_all s todo) []
  unfolding release_all
  Inv-release_all s [] k v = v
  Inv-release_all s (c ∷ todo) k v =
      Inv-release_all (release s c) todo (λ d h. k d (ground arith))
        (Inv-release s c todo (k c (has_self c todo)) v)
