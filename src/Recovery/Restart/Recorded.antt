-- ===== src/Recovery/Restart/Recorded.antt =====
-- The rows that the events of a restart leave in the ledger.
use graph_coder.Base.{
  ℕ, String, true, List, [], ◌∷◌, Option, none, some, ok, >>=-eq-ok, returned-injective, eq_iff,
  ◌≡◌, ◌⊎◌, inl, inr, refl, sym, ap, ◌∙◌, subst, Option-cases, In, In-append, Bool-cases,
}
use graph_coder.Values.{Library}
use graph_coder.Ledger.Redaction.{redact}
use graph_coder.Ledger.Events.{
  Row, Request, EventRecord, Ledger, LedgerError, given, same_key, by_key, existing, pending_row,
  sealed, row_to_event, append_event,
}
use graph_coder.Ledger.Events.Chain.{append_event-inserted, grown_cases}
use graph_coder.Recovery.Restart.{record_event, record_events}

same_key-true : (j k : Option String) → same_key j k ≡ true → j ≡ k
same_key-true none k h = cc
same_key-true (some j) none h = cc
same_key-true (some j) (some k) h = ap some ((eq_iff j k).0 h)

by_key-In :
    (key : Option String) (rows : List Row) (r : Row)
    → by_key key rows ≡ some r
    → In r rows × (r.idempotency_key ≡ key)
unfolding by_key
by_key-In key [] r h = cc
by_key-In key (x ∷ rows) r h = elim (Bool-cases (same_key x.idempotency_key key)) [
  | inl e ↦
      let same : some x ≡ some r = rw (e, by_key) at h in
      let eq : x ≡ r = cc in
      let k = subst (λ (z : Row). z.idempotency_key ≡ key) eq (same_key-true _ _ e) in (inl eq, k)
  | inr e ↦ let (i, k) = by_key-In key rows r (rw (e, by_key) at h) in (inr i, k)
]

module _ (lib : Library) where
  -- The columns of a row that a request sets.
  pub record IsRowOf (q : Request) (r : Row) : Type 0 where
    pub event_type : r.event_type ≡ q.event_type
    pub idempotency_key : r.idempotency_key ≡ q.idempotency_key
    pub plan_id : r.plan_id ≡ q.plan_id
    pub node_id : r.node_id ≡ q.node_id
    pub unit_id : r.unit_id ≡ q.unit_id
    pub attempt_id : r.attempt_id ≡ q.attempt_id
    pub actor_role : r.actor_role ≡ q.role
    pub payload_json : r.payload_json ≡ lib.dumps (redact lib q.payload)

  sealed-IsRowOf :
      (l : Ledger) (event_id timestamp : String) (q : Request)
      → IsRowOf q (sealed lib (pending_row lib l event_id timestamp q))
  unfolding sealed pending_row
  sealed-IsRowOf l event_id timestamp q = record {
    event_type = refl;
    idempotency_key = refl;
    plan_id = refl;
    node_id = refl;
    unit_id = refl;
    attempt_id = refl;
    actor_role = refl;
    payload_json = refl;
  }

  -- Some row carries the key.
  abbrev pub IsKeyed : Option String → Ledger → Type 0
  IsKeyed key l = (r : Row) × In r l.rows × (r.idempotency_key ≡ key)

  module _ (supply : ℕ → String × String) where
    record_event-IsKeyed :
        (l after : Ledger) (q : Request) (event : EventRecord)
        → record_event lib supply l q ≡ ok (after, event)
        → IsKeyed q.idempotency_key after
    unfolding append_event existing
    record_event-IsKeyed l after q event h =
        elim (Option-cases (existing q.idempotency_key l.rows)) [
          | inr (r, e) ↦
              let k : ok (l, row_to_event lib r) ≡ ok (after, event) =
                sym (rw (e, append_event) refl) ∙ h in
              let same : l ≡ after = ap (λ z. z.0) (returned-injective LedgerError k) in
              let found : by_key q.idempotency_key l.rows ≡ some r =
                elim (Bool-cases (given q.idempotency_key)) [
                  | inl g ↦ rw (g, existing) at e
                  | inr g ↦ let bad : none ≡ some r = rw (g, existing) at e in cc
                ] in
              subst (IsKeyed q.idempotency_key) same
                (let (i, m) = by_key-In q.idempotency_key l.rows r found in (r, i, m))
          | inl e ↦ keyed_new e
        ]
      where
        keyed_new : existing q.idempotency_key l.rows ≡ none → IsKeyed q.idempotency_key after
        keyed_new e =
            let row =
              sealed lib
                (pending_row lib l (supply l.next_sequence).0 (supply l.next_sequence).1 q) in
            let same =
              append_event-inserted lib l (supply l.next_sequence).0 (supply l.next_sequence).1 q
                (after, event) e h in
            subst (IsKeyed q.idempotency_key) (sym same) (
              row,
              (In-append row l.rows (row ∷ [])).1 (inr (inl refl)),
              (sealed-IsRowOf l (supply l.next_sequence).0 (supply l.next_sequence).1
                  q).idempotency_key,
            )

    record_event-rows :
        (l after : Ledger) (q : Request) (event : EventRecord)
        → record_event lib supply l q ≡ ok (after, event)
        → (r : Row) → In r after.rows
        → In r l.rows ⊎ IsRowOf q r
    record_event-rows l after q event h r i =
        elim (grown_cases lib l (supply l.next_sequence).0 (supply l.next_sequence).1 q
          (after, event) h) [
            | inl e ↦ inl (subst (λ (z : Ledger). In r z.rows) e i)
            | inr e ↦
                let row =
                  sealed lib
                    (pending_row lib l (supply l.next_sequence).0 (supply l.next_sequence).1 q) in
                elim ((In-append r l.rows (row ∷ [])).0 (subst (λ (z : Ledger). In r z.rows) e i)) [
                  | inl j ↦ inl j
                  | inr (inl same) ↦ inr (
                      subst (IsRowOf q) same
                        (sealed-IsRowOf l (supply l.next_sequence).0 (supply l.next_sequence).1 q))
                  | inr (inr j) ↦ elim j [ ]
                ]
          ]

    record_event-In :
        (l after : Ledger) (q : Request) (event : EventRecord)
        → record_event lib supply l q ≡ ok (after, event)
        → (r : Row) → In r l.rows
        → In r after.rows
    record_event-In l after q event h r i =
        elim (grown_cases lib l (supply l.next_sequence).0 (supply l.next_sequence).1 q
          (after, event) h) [
            | inl e ↦ subst (λ (z : Ledger). In r z.rows) (sym e) i
            | inr e ↦ subst (λ (z : Ledger). In r z.rows) (sym e) ((In-append r l.rows _).1 (inl i))
          ]

    -- What recording some events does to the rows.
    pub record IsRecorded (qs : List Request) (l after : Ledger) : Type 0 where
      pub kept : (r : Row) → In r l.rows → In r after.rows
      pub keyed : (q : Request) → In q qs → IsKeyed q.idempotency_key after
      pub only : (r : Row) → In r after.rows → In r l.rows ⊎ ((q : Request) × In q qs × IsRowOf q r)

    pub record_events-IsRecorded :
        (qs : List Request) (l after : Ledger)
        → record_events lib supply qs l ≡ ok after
        → IsRecorded qs l after
    unfolding record_events
    record_events-IsRecorded [] l after h =
        let same : l ≡ after = returned-injective LedgerError h in
        subst (IsRecorded [] l) same
          record { kept = λ r i. i; keyed = λ q i. elim i [ ]; only = λ r i. inl i }
    record_events-IsRecorded (q ∷ qs) l after h =
        let (out, e, f) = >>=-eq-ok (record_event lib supply l q) _ h in
        let rest = record_events-IsRecorded qs out.0 after f in
        record {
          kept = λ r i. rest.kept r (record_event-In l out.0 q out.1 e r i);
          keyed = λ p i. elim i [
            | inl same ↦
                let (r, j, k) = record_event-IsKeyed l out.0 q out.1 e in
                (r, rest.kept r j, k ∙ ap (λ (z : Request). z.idempotency_key) same)
            | inr j ↦ rest.keyed p j
          ];
          only = λ r i. elim (rest.only r i) [
            | inr (p, j, k) ↦ inr (p, inr j, k)
            | inl j ↦ elim (record_event-rows l out.0 q out.1 e r j) [
              | inl k ↦ inl k
              | inr k ↦ inr (q, inl refl, k)
            ]
          ];
        }
