-- ===== src/Execution/Frontier/Resolved.antt =====
-- The states that `compute_frontier` resolves, and the branches that it isolates.
use graph_coder.Base.{
  String, Bool, true, false, List, [], ◌∷◌, ◌++◌, some, has, lookup, get_or, Dict, distinct, ok,
  ◌==◌, if◌then◌else◌, ◌≡◌, ◌≢◌, ◌↔◌, ◌⊎◌, inl, inr, refl, sym, ap, ◌∙◌, subst, arith, In,
  Bool-cases, eq_iff, eq_refl, has-append,
}
use graph_coder.Graph.Node.{GraphNode, ExecutionGraph, by_id, ids}
use graph_coder.Graph.Ancestors.Reached.{DependsOn}
use graph_coder.Execution.States.{ExecutionState, completed, coerce_state}
use graph_coder.Execution.Blocking.{lift_graph, block_descendants}
use graph_coder.Execution.Blocking.Descendants.{descend-DependsOn}
use graph_coder.Execution.Frontier.{
  is_completed, is_isolating, resolve, isolate, key, satisfied, in_state,
}

-- The durable state of a node, pending where none is recorded.
abbrev pub StateOf : Dict String → String → ExecutionState → Type 0
StateOf states x s = coerce_state (get_or x "pending" states) ≡ ok s

pub StateOf-unique :
    (states : Dict String) (x : String) {s t : ExecutionState}
    → StateOf states x s
    → StateOf states x t
    → s ≡ t
StateOf-unique states x p q = cc

-- Every node has a known state.
abbrev pub HasStates : List GraphNode → Dict String → Type 0
HasStates nodes states =
    (x : String) → has x (ids nodes) ≡ true → (s : ExecutionState) × StateOf states x s

pub record Resolved (nodes : List GraphNode) (states : Dict String) (resolved : Dict ExecutionState)
    : Type 0 where
  pub keys :
      (x : String) (s : ExecutionState)
      → In (x, s) resolved
      → (has x (ids nodes) ≡ true) × StateOf states x s
  pub find :
      (x : String)
      → has x (ids nodes) ≡ true
      → (s : ExecutionState) × (lookup x resolved ≡ some s)
        × In (x, s) resolved
        × StateOf states x s

module _ (states : Dict String) where
  pub resolve-ok :
      (ns : List GraphNode)
      → HasStates ns states
      → (r : Dict ExecutionState) × (resolve ns states ≡ ok r) × Resolved ns states r
  unfolding resolve lookup
  resolve-ok [] v = ([], refl, record { keys = λ x s i. elim i [ ]; find = λ x h. cc })
  resolve-ok (n ∷ ns) v =
      let (s, e) = v n.id (ground (arith, eq_refl n.id)) in
      let (r, q, rest) = resolve-ok ns (λ x h. v x (ground arith)) in
      (
        (n.id, s) ∷ r,
        rw (e, resolve) (rw q refl),
        record {
          keys = λ x t i. elim i [
            | inl p ↦
                let k : n.id ≡ x = ap (λ z. z.0) p in
                let w : s ≡ t = ap (λ z. z.1) p in
                (
                  ground (arith, eq_iff n.id x),
                  subst (λ z. StateOf states z t) k (subst (StateOf states n.id) w e),
                )
            | inr j ↦ let (h, w) = rest.keys x t j in (ground arith, w)
          ];
          find = λ x h. elim (Bool-cases (n.id == x)) [
            | inl p ↦
                let k : n.id ≡ x = (eq_iff n.id x).0 p in
                (s, rw p refl, inl (ap (λ z. (z, s)) k), subst (λ z. StateOf states z s) k e)
            | inr p ↦ let (t, l, i, w) = rest.find x (ground arith) in (t, rw p l, inr i, w)
          ];
        },
      )

-- `x` depends on another item whose state isolates its dependents.
abbrev pub IsCutOff : List GraphNode → Dict ExecutionState → String → Type 0
IsCutOff nodes items x =
    (a : String) × (s : ExecutionState) × In (a, s) items
    × (is_isolating s ≡ true)
    × (x ≢ a)
    × DependsOn nodes a x

block_known :
    (g : ExecutionGraph) (a : String)
    → distinct (ids g.nodes) ≡ true
    → has a (ids g.nodes) ≡ true
    → (result : List String) × (block_descendants g a ≡ ok result)
      × ((x : String) → (has x result ≡ true) ↔ ((x ≢ a) × DependsOn g.nodes a x))
unfolding block_descendants by_id lift_graph
block_known g a d h = let (t, r, both) = descend-DependsOn g.nodes d a in (t, rw d (rw h r), both)

pub isolate-ok :
    (g : ExecutionGraph) (items : Dict ExecutionState) (acc : List String)
    → distinct (ids g.nodes) ≡ true
    → ((x : String) (s : ExecutionState) → In (x, s) items → has x (ids g.nodes) ≡ true)
    → (out : List String) × (isolate g items acc ≡ ok out)
      × ((x : String) → (has x out ≡ true) ↔ ((has x acc ≡ true) ⊎ IsCutOff g.nodes items x))
unfolding isolate
isolate-ok g [] acc d k =
    (acc, refl, λ x. (λ h. inl h, λ q. elim q [ inl h ↦ h | inr (a, s, i, p, u, v) ↦ elim i [ ] ]))
isolate-ok g ((id, state) ∷ items) acc d k = elim (Bool-cases (is_isolating state)) [
  | inl p ↦
      let (more, e, both) = block_known g id d (k id state (inl refl)) in
      let (out, q, rest) = isolate-ok g items (acc ++ more) d (λ x s i. k x s (inr i)) in
      (
        out,
        rw (p, isolate) (rw (e, isolate) q),
        λ x. (
          λ h. elim ((rest x).0 h) [
            | inl m ↦ elim (Bool-cases (has x acc)) [
              | inl a ↦ inl a
              | inr n ↦
                  let (u, v) = (both x).0 (ground (arith, has-append x acc more)) in
                  inr (id, state, inl refl, p, u, v)
            ]
            | inr (a, s, i, f, u, v) ↦ inr (a, s, inr i, f, u, v)
          ],
          λ h. (rest x).1 (elim h [
            | inl m ↦ inl (ground (arith, has-append x acc more))
            | inr (a, s, inl i, f, u, v) ↦
                let e : a ≡ id = ap (λ z. z.0) (sym i) in
                inl (
                  ground (
                    arith,
                    has-append x acc more,
                    (both x).1 (subst (λ z. x ≢ z) e u, subst (λ z. DependsOn g.nodes z x) e v),
                  ))
            | inr (a, s, inr i, f, u, v) ↦ inr (a, s, i, f, u, v)
          ]),
        ),
      )
  | inr p ↦
      let (out, q, rest) = isolate-ok g items acc d (λ x s i. k x s (inr i)) in
      (
        out,
        rw (p, isolate) q,
        λ x. (
          λ h. elim ((rest x).0 h) [
            | inl m ↦ inl m
            | inr (a, s, i, f, u, v) ↦ inr (a, s, inr i, f, u, v)
          ],
          λ h. (rest x).1 (elim h [
            | inl m ↦ inl m
            | inr (a, s, inl i, f, u, v) ↦
                let e : state ≡ s = ap (λ z. z.1) i in absurd (cc (ap is_isolating e))
            | inr (a, s, inr i, f, u, v) ↦ inr (a, s, i, f, u, v)
          ]),
        ),
      )
]

satisfied-next :
    (r : Dict ExecutionState) (x : String) (ds : List String) {s : ExecutionState}
    → key x r ≡ ok s
    → is_completed s ≡ true
    → satisfied r (x ∷ ds) ≡ satisfied r ds
unfolding satisfied
satisfied-next r x ds {s} e p = ground arith

satisfied-stop :
    (r : Dict ExecutionState) (x : String) (ds : List String) {s : ExecutionState}
    → key x r ≡ ok s
    → is_completed s ≡ false
    → satisfied r (x ∷ ds) ≡ ok false
unfolding satisfied
satisfied-stop r x ds {s} e p = ground arith

module _ (nodes : List GraphNode) (states : Dict String) (r : Dict ExecutionState)
    (resolved : Resolved nodes states r) where
  pub key-ok :
      (x : String)
      → has x (ids nodes) ≡ true
      → (s : ExecutionState) × (key x r ≡ ok s) × StateOf states x s
  unfolding key
  key-ok x h = let (s, l, i, w) = resolved.find x h in (s, rw (l, key) refl, w)

  completed_of : (s : ExecutionState) → is_completed s ≡ true → s ≡ completed
  completed_of s h = ground arith

  pub satisfied-ok :
      (ds : List String)
      → ((d : String) → has d ds ≡ true → has d (ids nodes) ≡ true)
      → (b : Bool) × (satisfied r ds ≡ ok b)
        × ((b ≡ true) ↔ ((d : String) → has d ds ≡ true → StateOf states d completed))
  unfolding satisfied
  satisfied-ok [] k = (true, refl, (λ t d h. cc, λ h. refl))
  satisfied-ok (x ∷ ds) k =
      let (s, e, w) = key-ok x (k x (ground (arith, eq_refl x))) in
      elim (Bool-cases (is_completed s)) [
        | inl p ↦
            let (b, q, both) = satisfied-ok ds (λ d h. k d (ground arith)) in
            let at_x : StateOf states x completed = subst (StateOf states x) (completed_of s p) w in
            (
              b,
              satisfied-next r x ds e p ∙ q,
              (
                λ t d h. elim (Bool-cases (x == d)) [
                  | inl m ↦ subst (λ z. StateOf states z completed) ((eq_iff x d).0 m) at_x
                  | inr m ↦ both.0 t d (ground arith)
                ],
                λ f. both.1 (λ d h. f d (ground arith)),
              ),
            )
        | inr p ↦ (
          false,
          satisfied-stop r x ds e p,
          (
            λ t. cc,
            λ f.
                let m : s ≡ completed =
                  StateOf-unique states x w (f x (ground (arith, eq_refl x))) in
                cc (ap is_completed m),
          ),
        )
      ]

  -- The filter on one state.
  pub in_state-ok :
      (test : ExecutionState → Bool) (xs : List String)
      → ((x : String) → has x xs ≡ true → has x (ids nodes) ≡ true)
      → (out : List String) × (in_state test r xs ≡ ok out)
        × ((x : String)
            → (has x out ≡ true)
              ↔ ((has x xs ≡ true) × (s : ExecutionState) × StateOf states x s × (test s ≡ true)))
  unfolding in_state
  in_state-ok test [] k = ([], refl, λ x. (λ h. cc, λ q. cc (q.0)))
  in_state-ok test (y ∷ xs) k =
      let (s, e, w) = key-ok y (k y (ground (arith, eq_refl y))) in
      let (out, q, rest) = in_state-ok test xs (λ d h. k d (ground arith)) in
      (
        if test s then y ∷ out else out,
        rw (e, in_state) (rw (q, in_state) refl),
        λ x. elim (Bool-cases (y == x)) [
          | inl m ↦
              let v : StateOf states x s = subst (λ z. StateOf states z s) ((eq_iff y x).0 m) w in
              (
                λ h. elim (Bool-cases (test s)) [
                  | inl p ↦ (ground arith, s, v, p)
                  | inr p ↦ let (i, t, u, f) = (rest x).0 (ground arith) in (ground arith, t, u, f)
                ],
                λ (i, t, u, f).
                    let n : test s ≡ true = ap test (StateOf-unique states x v u) ∙ f in
                    ground arith,
              )
          | inr m ↦ (
            λ h. let (i, t, u, f) = (rest x).0 (ground arith) in (ground arith, t, u, f),
            λ (i, t, u, f). ground (arith, (rest x).1 (ground arith, t, u, f)),
          )
        ],
      )
