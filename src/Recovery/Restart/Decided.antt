-- ===== src/Recovery/Restart/Decided.antt =====
-- What a person's decision on a node leaves behind.
use graph_coder.Base.{
  ℕ, String, true, not, ◌&&◌, arith, [], ◌∷◌, ◌++◌, some, has, find, find-some, ok, err, Result,
  >>=-eq-ok, ◌==◌, eq_iff, ◌≡◌, refl, ap, subst, inl, inr, Bool-cases, Option-cases, In,
  returned-injective, true_of_not,
}
use graph_coder.Values.{Library, Members, Items, no_items, item, array, object, set, Json}
use graph_coder.Ledger.Events.{LedgerError}
use graph_coder.Ledger.Events.Chain.{IsSound}
use graph_coder.Recovery.Stored.{NodeRow, ready_frontier}
use graph_coder.Recovery.Restart.{
  Store, ResumeError, lift_ledger, entries_list, append_item, node_data, decisions_of,
  decision_entry, set_node, Resumed, record_event, resume_request, resume_row,
  resume_human_required, item_count,
}
use graph_coder.Recovery.Restart.Changed.{Pairwise, Pairwise-map}
use graph_coder.Recovery.Restart.Sound.{Extends, record_event-IsSound}

entries_list-append_item :
    (items : Items) (v : Json) → entries_list (append_item items v) ≡ entries_list items ++ v ∷ []
entries_list-append_item no_items v = refl
entries_list-append_item (item w rest) v = ap (λ z. w ∷ z) (entries_list-append_item rest v)

lift_ledger-eq-ok :
    {A : Type 0} (r : Result LedgerError A) (a : A) → lift_ledger r ≡ ok a → r ≡ ok a
lift_ledger-eq-ok (err e) a h = cc
lift_ledger-eq-ok (ok b) a h = cc

-- The row of that graph and node gets the status and the data, and nothing else of it changes;
-- another row stays.
pub record IsMoved (graph_id node_id status data_json : String) (a b : NodeRow) : Type 0 where
  pub moved :
      a.graph_id ≡ graph_id
      → a.node_id ≡ node_id
      → b ≡ record a { status = status; data_json = data_json }
  pub kept : (a.graph_id ≡ graph_id → a.node_id ≡ node_id → ⊥) → b ≡ a

set_node-IsMoved :
    (graph_id node_id status data_json : String) (a : NodeRow)
    → IsMoved graph_id node_id status data_json a (set_node graph_id node_id status data_json a)
set_node-IsMoved graph_id node_id status data_json a =
    let graph = eq_iff a.graph_id graph_id in
    let node = eq_iff a.node_id node_id in
    elim (Bool-cases (a.graph_id == graph_id && a.node_id == node_id)) [
      | inl e ↦ record {
        moved = λ g n. rw e refl;
        kept = λ f. absurd (f (ground arith) (ground arith));
      }
      | inr e ↦ record {
        moved = λ g n. absurd (ground (arith, graph.1 g, node.1 n));
        kept = λ f. rw e refl;
      }
    ]

module _ (lib : Library) (supply : ℕ → String × String) (s : Store)
    (node_id decision decided_by target : String) where
  -- What the tables, the ledger and the answer are afterwards.
  pub record IsResumed (row : NodeRow) (kept : Members) (history : Items) (after : Store)
      (out : Resumed) : Type 0 where
    pub listed : In row s.nodes
    pub of_node : row.node_id ≡ node_id
    pub waiting : row.status ≡ "human_required"
    pub allowed : has target ("ready" ∷ "cancelled" ∷ "failed" ∷ []) ≡ true
    pub read : node_data lib row ≡ some kept
    pub earlier : decisions_of kept ≡ some history
    pub longer : Items
    -- The decisions before are kept, and the new one stands last.
    pub preserved :
        entries_list longer
        ≡ entries_list history ++ decision_entry decision decided_by target row.status ∷ []
    pub nodes :
        Pairwise
          (IsMoved row.graph_id row.node_id target
            (lib.dumps (object (set "human_decisions" (array longer) kept))))
          s.nodes
          after.nodes
    pub sound : IsSound lib after.ledger
    pub extended : Extends s.ledger after.ledger
    pub frontier : out.ready_frontier ≡ ready_frontier after.nodes after.edges
    pub attempts : after.attempts ≡ s.attempts
    pub units : after.units ≡ s.units
    pub edges : after.edges ≡ s.edges

  resume_row-IsResumed :
      (row : NodeRow) (kept : Members) (history : Items) (after : Store) (out : Resumed)
      → IsSound lib s.ledger
      → In row s.nodes
      → row.node_id ≡ node_id
      → row.status ≡ "human_required"
      → has target ("ready" ∷ "cancelled" ∷ "failed" ∷ []) ≡ true
      → node_data lib row ≡ some kept
      → decisions_of kept ≡ some history
      → resume_row lib supply s row kept history decision decided_by target ≡ ok (after, out)
      → IsResumed row kept history after out
  unfolding resume_row
  resume_row-IsResumed row kept history after out sound i n w a r d h =
      let longer = append_item history (decision_entry decision decided_by target row.status) in
      let q =
        resume_request lib supply row.node_id decision decided_by target (item_count longer) in
      let (pair, e, f) = >>=-eq-ok (lift_ledger (record_event lib supply s.ledger q)) _ h in
      let same = returned-injective ResumeError f in
      let (t, x) =
        record_event-IsSound lib supply s.ledger pair.0 q pair.1 sound
          (lift_ledger-eq-ok (record_event lib supply s.ledger q) pair e) in
      subst (λ (z : Store × Resumed). IsResumed row kept history z.0 z.1) same
        record {
          listed = i;
          of_node = n;
          waiting = w;
          allowed = a;
          read = r;
          earlier = d;
          longer = longer;
          preserved =
              entries_list-append_item history
                (decision_entry decision decided_by target row.status);
          nodes =
              let written = lib.dumps (object (set "human_decisions" (array longer) kept)) in
              Pairwise-map (IsMoved row.graph_id row.node_id target written)
                (set_node row.graph_id row.node_id target written) s.nodes
                (set_node-IsMoved row.graph_id row.node_id target written);
          sound = t;
          extended = x;
          frontier = refl;
          attempts = refl;
          units = refl;
          edges = refl;
        }

  -- Where `resume_human_required` returns, on a ledger that verifies and whose counter is one more
  -- than the number of its rows: the node waited for a person and the target is one of the three.
  -- Of the nodes, only the row of that graph and node changes, to the target status, with the
  -- decisions before it, as `list` gives them, and the new one last; attempts, units and edges are
  -- as before. The ledger verifies, its counter is one more than its rows, and the rows before
  -- stand; and the frontier in the answer is that of the changed tables.
  pub resume_human_required-IsResumed :
      (after : Store) (out : Resumed)
      → IsSound lib s.ledger
      → resume_human_required lib supply s node_id decision decided_by target ≡ ok (after, out)
      → (row : NodeRow) × (kept : Members) × (history : Items) × IsResumed row kept history after
          out
  unfolding resume_human_required
  resume_human_required-IsResumed after out sound h =
      elim (Option-cases (find (λ r. r.node_id == node_id) s.nodes)) [
        | inl e ↦ let bad = rw (e, resume_human_required) at h in cc
        | inr (row, e) ↦
            let (i, n) = find-some (λ r. r.node_id == node_id) s.nodes row e in
            elim (Bool-cases (not (row.status == "human_required"))) [
              | inl f ↦ let bad = rw (e, f, resume_human_required) at h in cc
              | inr f ↦
                  elim (Bool-cases (not (has target ("ready" ∷ "cancelled" ∷ "failed" ∷ [])))) [
                    | inl g ↦ let bad = rw (e, f, g, resume_human_required) at h in cc
                    | inr g ↦ elim (Option-cases (node_data lib row)) [
                      | inl k ↦ let bad = rw (e, f, g, k, resume_human_required) at h in cc
                      | inr (kept, k) ↦ elim (Option-cases (decisions_of kept)) [
                        | inl d ↦ let bad = rw (e, f, g, k, d, resume_human_required) at h in cc
                        | inr (history, d) ↦ (
                          row,
                          kept,
                          history,
                          resume_row-IsResumed row kept history after out sound i
                              ((eq_iff row.node_id node_id).0 n)
                              ((eq_iff row.status "human_required").0 (true_of_not _ f))
                              (true_of_not _ g) k d
                              (rw (e, f, g, k, d, resume_human_required) at h),
                        )
                      ]
                    ]
                  ]
            ]
      ]
