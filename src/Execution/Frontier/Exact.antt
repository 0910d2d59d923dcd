-- ===== src/Execution/Frontier/Exact.antt =====
-- What `compute_frontier` reports.
use graph_coder.Base.{
  String, Bool, true, false, not, ◌||◌, List, [], ◌∷◌, Option, none, some, has, Dict, distinct,
  sorted, sort_by, ok, ◌==◌, ◌≡◌, ◌≢◌, ◌↔◌, ◌⊎◌, inl, inr, refl, sym, ap, ◌∙◌, subst, arith, In,
  Bool-cases, eq_iff, eq_refl, has-sorted, In-sort_by,
}
use graph_coder.Graph.Node.{GraphNode, ExecutionGraph, by_id, ids, entries}
use graph_coder.Graph.Edges.{has_of_In}
use graph_coder.Graph.Entries.{lookup-entries, In_of_ids}
use graph_coder.Graph.Order.Acyclic.{IsClosed}
use graph_coder.Graph.Ancestors.Reached.{DependsOn}
use graph_coder.Execution.States.{ExecutionState, completed, awaiting_review, human_required}
use graph_coder.Execution.Blocking.{lift_graph}
use graph_coder.Execution.Frontier.{
  Frontier, is_isolating, is_passed_over, is_review, is_human, item_leb, key, satisfied, dispatch,
  place, classify, compute_frontier,
}
use graph_coder.Execution.Frontier.Resolved.{
  StateOf, StateOf-unique, HasStates, Resolved, resolve-ok, IsCutOff, isolate-ok, key-ok,
  satisfied-ok, in_state-ok,
}

-- `x` may be dispatched: its own state does not rule it out, its dependencies are all completed,
-- and it depends on no other node that waits for a person, is blocked or has failed.
pub record IsReady (nodes : List GraphNode) (states : Dict String) (x : String) : Type 0 where
  pub node : GraphNode
  pub listed : In node nodes
  pub named : node.id ≡ x
  pub state : ExecutionState
  pub holds : StateOf states x state
  pub considered : is_passed_over state ≡ false
  pub dependencies : (d : String) → has d node.depends_on ≡ true → StateOf states d completed
  pub free :
      (a : String) (s : ExecutionState)
      → has a (ids nodes) ≡ true
      → StateOf states a s
      → is_isolating s ≡ true
      → x ≢ a
      → DependsOn nodes a x
      → ⊥

-- `x` is not passed over, and is not ready.
pub record IsHeld (nodes : List GraphNode) (states : Dict String) (x : String) : Type 0 where
  pub state : ExecutionState
  pub holds : StateOf states x state
  pub considered : is_passed_over state ≡ false
  pub not_ready : IsReady nodes states x → ⊥

module _ (nodes : List GraphNode) (states : Dict String) (r : Dict ExecutionState)
    (resolved : Resolved nodes states r) (isolated : List String)
    (unique_ids : distinct (ids nodes) ≡ true) (closed : IsClosed nodes)
    (cut : (x : String) → (has x isolated ≡ true) ↔ IsCutOff nodes (sort_by item_leb r) x) where
  dispatch-passed :
      (x : String) {s : ExecutionState}
      → key x r ≡ ok s
      → is_passed_over s ≡ true
      → dispatch r (entries nodes) isolated x ≡ ok none
  unfolding dispatch
  dispatch-passed x e p = ground arith

  dispatch-considered :
      (x : String) (n : GraphNode) (b : Bool) {s : ExecutionState}
      → key x r ≡ ok s
      → is_passed_over s ≡ false
      → key x (entries nodes) ≡ ok n
      → satisfied r n.depends_on ≡ ok b
      → dispatch r (entries nodes) isolated x ≡ ok (some (not (has x isolated || not b)))
  unfolding dispatch
  dispatch-considered x n b e p q u = ground arith

  -- The body of the loop tells the nodes apart.
  dispatch-ok :
      (x : String)
      → has x (ids nodes) ≡ true
      → (d : Option Bool) × (dispatch r (entries nodes) isolated x ≡ ok d)
        × ((d ≡ some true) ↔ IsReady nodes states x)
        × ((d ≡ some false) ↔ IsHeld nodes states x)
  unfolding key
  dispatch-ok x h =
      let (s, e, w) = key-ok nodes states r resolved x h in
      let (n, l, i, m) = lookup-entries x nodes h in
      elim (Bool-cases (is_passed_over s)) [
        | inl p ↦ (
          none,
          dispatch-passed x e p,
          (λ z. cc, λ q. absurd (cc (ap is_passed_over (StateOf-unique states x w q.holds)))),
          (λ z. cc, λ q. absurd (cc (ap is_passed_over (StateOf-unique states x w q.holds)))),
        )
        | inr p ↦
            let (b, u, both) = satisfied-ok nodes states r resolved n.depends_on (closed n i) in
            let yes = ready_of x s n b w i m p both in
            let no = of_ready x s n b w i m p both in
            (
              some (not (has x isolated || not b)),
              dispatch-considered x n b e p (rw (l, key) refl) u,
              (λ z. yes (ground arith), λ q. ap some (no q)),
              (
                λ z. record { state = s; holds = w; considered = p; not_ready = λ q. cc (no q) },
                λ q. elim (Bool-cases (not (has x isolated || not b))) [
                  | inl t ↦ absurd (q.not_ready (yes t))
                  | inr t ↦ ap some t
                ],
              ),
            )
      ]
    where
      ready_of :
          (x : String) (s : ExecutionState) (n : GraphNode) (b : Bool)
          → StateOf states x s
          → In n nodes
          → n.id ≡ x
          → is_passed_over s ≡ false
          → ((b ≡ true) ↔ ((d : String) → has d n.depends_on ≡ true → StateOf states d completed))
          → not (has x isolated || not b) ≡ true
          → IsReady nodes states x
      ready_of x s n b w i m p both t = record {
        node = n;
        listed = i;
        named = m;
        state = s;
        holds = w;
        considered = p;
        dependencies = both.0 (ground arith);
        free = λ a c k v f u q.
            let (c', l, j, v') = resolved.find a k in
            cc (
              (cut x).1 (
                a,
                c,
                (In-sort_by item_leb (a, c) r).1
                    (subst (λ z. In (a, z) r) (StateOf-unique states a v' v) j),
                f,
                u,
                q,
              ));
      }

      of_ready :
          (x : String) (s : ExecutionState) (n : GraphNode) (b : Bool)
          → StateOf states x s
          → In n nodes
          → n.id ≡ x
          → is_passed_over s ≡ false
          → ((b ≡ true) ↔ ((d : String) → has d n.depends_on ≡ true → StateOf states d completed))
          → IsReady nodes states x
          → not (has x isolated || not b) ≡ true
      of_ready x s n b w i m p both q =
          let t : b ≡ true = both.1 (
            subst
              (λ (z : GraphNode).
                (d : String) → has d z.depends_on ≡ true → StateOf states d completed)
              (In_of_ids nodes q.node n unique_ids q.listed i (q.named ∙ sym m)) q.dependencies) in
          elim (Bool-cases (has x isolated)) [
            | inr f ↦ ground arith
            | inl f ↦
                let (a, c, j, g, u, v) = (cut x).0 f in
                let (k, y) = resolved.keys a c ((In-sort_by item_leb (a, c) r).0 j) in
                absurd (q.free a c k y g u v)
          ]

  -- The loop sorts the nodes into ready ones and held ones.
  classify-ok :
      (xs : List String)
      → ((x : String) → has x xs ≡ true → has x (ids nodes) ≡ true)
      → (go stop : List String) × (classify r (entries nodes) isolated xs ≡ ok (go, stop))
        × ((x : String) → (has x go ≡ true) ↔ ((has x xs ≡ true) × IsReady nodes states x))
        × ((x : String) → (has x stop ≡ true) ↔ ((has x xs ≡ true) × IsHeld nodes states x))
  unfolding classify
  classify-ok [] k = ([], [], refl, λ x. (λ h. cc, λ q. cc (q.0)), λ x. (λ h. cc, λ q. cc (q.0)))
  classify-ok (y ∷ xs) k =
      let (d, e, as_ready, as_held) = dispatch-ok y (k y (ground (arith, eq_refl y))) in
      let (go, stop, q, ready, held) = classify-ok xs (λ x h. k x (ground arith)) in
      let p = placed y d go stop in
      (
        (place y d (go, stop)).0,
        (place y d (go, stop)).1,
        rw (e, classify) (rw (q, classify) refl),
        λ x. (
          λ h. elim ((p x).0.0 h) [
            | inl (u, v) ↦
                (ground (arith, eq_iff y x), subst (IsReady nodes states) u (as_ready.0 v))
            | inr m ↦ let (u, v) = (ready x).0 m in (ground arith, v)
          ],
          λ (h, v). (p x).0.1 (elim (Bool-cases (y == x)) [
            | inl m ↦
                let u : y ≡ x = (eq_iff y x).0 m in
                inl (u, as_ready.1 (subst (IsReady nodes states) (sym u) v))
            | inr m ↦ inr ((ready x).1 (ground arith, v))
          ]),
        ),
        λ x. (
          λ h. elim ((p x).1.0 h) [
            | inl (u, v) ↦ (ground (arith, eq_iff y x), subst (IsHeld nodes states) u (as_held.0 v))
            | inr m ↦ let (u, v) = (held x).0 m in (ground arith, v)
          ],
          λ (h, v). (p x).1.1 (elim (Bool-cases (y == x)) [
            | inl m ↦
                let u : y ≡ x = (eq_iff y x).0 m in
                inl (u, as_held.1 (subst (IsHeld nodes states) (sym u) v))
            | inr m ↦ inr ((held x).1 (ground arith, v))
          ]),
        ),
      )
    where
      placed :
          (y : String) (d : Option Bool) (go stop : List String) (x : String)
          → ((has x (place y d (go, stop)).0 ≡ true)
              ↔ (((y ≡ x) × (d ≡ some true)) ⊎ (has x go ≡ true)))
            × ((has x (place y d (go, stop)).1 ≡ true)
                ↔ (((y ≡ x) × (d ≡ some false)) ⊎ (has x stop ≡ true)))
      placed y none go stop x = ground arith
      placed y (some true) go stop x = ground (arith, eq_iff y x)
      placed y (some false) go stop x = ground (arith, eq_iff y x)

-- What the four lists of a frontier hold.
pub record IsFrontier (nodes : List GraphNode) (states : Dict String) (f : Frontier) : Type 0 where
  pub ready : (x : String) → (has x f.ready ≡ true) ↔ IsReady nodes states x
  pub held :
      (x : String) → (has x f.blocked ≡ true) ↔ ((has x (ids nodes) ≡ true) × IsHeld nodes states x)
  pub review :
      (x : String)
      → (has x f.awaiting_review ≡ true)
        ↔ ((has x (ids nodes) ≡ true) × StateOf states x awaiting_review)
  pub human :
      (x : String)
      → (has x f.human_required ≡ true)
        ↔ ((has x (ids nodes) ≡ true) × StateOf states x human_required)

-- On distinct ids, known dependencies and known states, `compute_frontier` returns. Its ready
-- nodes are exactly those whose own state does not rule them out, whose dependencies are all
-- completed, and which depend on no other node that needs a person, is blocked or has failed; its
-- blocked nodes are the others that are not passed over; the last two lists hold the nodes in
-- those states.
pub compute_frontier-IsFrontier :
    (g : ExecutionGraph) (states : Dict String)
    → distinct (ids g.nodes) ≡ true
    → IsClosed g.nodes
    → HasStates g.nodes states
    → (f : Frontier) × (compute_frontier g states ≡ ok f) × IsFrontier g.nodes states f
unfolding compute_frontier lift_graph by_id
compute_frontier-IsFrontier g states d closed v =
    let (r, e, resolved) = resolve-ok states g.nodes v in
    let (isolated, i, cut) =
      isolate-ok g (sort_by item_leb r) [] d
        (λ x s j. (resolved.keys x s ((In-sort_by item_leb (x, s) r).0 j)).0) in
    let known = λ (x : String) (h : has x (sorted (ids g.nodes)) ≡ true).
      sym (has-sorted x (ids g.nodes)) ∙ h in
    let (go, stop, c, ready, held) =
      classify-ok g.nodes states r resolved isolated d closed
        (λ x. (λ h. elim ((cut x).0 h) [ inl n ↦ cc | inr q ↦ q ], λ q. (cut x).1 (inr q)))
        (sorted (ids g.nodes)) known in
    let (review, p, in_review) =
      in_state-ok g.nodes states r resolved is_review (sorted (ids g.nodes)) known in
    let (human, q, in_human) =
      in_state-ok g.nodes states r resolved is_human (sorted (ids g.nodes)) known in
    (
      record { ready = go; blocked = stop; awaiting_review = review; human_required = human },
      rw d (rw e (rw i (rw c (rw p (rw q refl))))),
      record {
        ready = λ x. (
          λ h. ((ready x).0 h).1,
          λ q. (ready x).1 (
            has-sorted x (ids g.nodes)
                ∙ subst (λ z. has z (ids g.nodes) ≡ true) q.named
                    (has_of_In q.node g.nodes q.listed),
            q,
          ),
        );
        held = λ x.
            subst (λ z. (has x stop ≡ true) ↔ ((z ≡ true) × IsHeld g.nodes states x))
              (has-sorted x (ids g.nodes)) (held x);
        review = λ x.
            exactly x is_review awaiting_review review (λ t w. ground arith) refl (in_review x);
        human =
            λ x. exactly x is_human human_required human (λ t w. ground arith) refl (in_human x);
      },
    )
  where
    exactly :
        (x : String) (test : ExecutionState → Bool) (s : ExecutionState) (out : List String)
        → ((t : ExecutionState) → test t ≡ true → t ≡ s)
        → test s ≡ true
        → ((has x out ≡ true) ↔ (
            (has x (sorted (ids g.nodes)) ≡ true)
            × (t : ExecutionState) × StateOf states x t
            × (test t ≡ true)))
        → (has x out ≡ true) ↔ ((has x (ids g.nodes) ≡ true) × StateOf states x s)
    exactly x test s out only holds both = (
      λ h.
          let (k, t, v, w) = both.0 h in
          (sym (has-sorted x (ids g.nodes)) ∙ k, subst (StateOf states x) (only t w) v),
      λ (k, v). both.1 (has-sorted x (ids g.nodes) ∙ k, s, v, holds),
    )
