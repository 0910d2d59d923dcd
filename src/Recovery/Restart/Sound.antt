-- ===== src/Recovery/Restart/Sound.antt =====
-- What a restart and a person's decision leave behind.
use Prim.Native.String.{◌++◌ as str_append}
use graph_coder.Base.{
  append_assoc, append_nil, ℕ, String, List, [], ◌∷◌, ◌++◌, some, map, keep, ok, >>=-eq-ok,
  returned-injective, ◌≡◌, ◌⊎◌, refl, sym, ap, ◌∙◌, subst, inl, inr, In, In-keep, In-map,
  In-map_inv,
}
use graph_coder.Values.{Library}
use graph_coder.Ledger.Events.{Row, Request, EventRecord, Ledger, LedgerError}
use graph_coder.Ledger.Events.Chain.{IsSound, append_event-IsSound}
use graph_coder.Recovery.Restart.{
  AttemptRow, UnitRow, Store, is_in_flight, interrupted, interrupt_request, is_unverified, reopened,
  reopen_request, record_event, record_events, mark_interrupted_on_startup,
  reopen_unverified_completed_units, restart,
}
use graph_coder.Recovery.Restart.Recorded.{IsRowOf, IsKeyed, IsRecorded, record_events-IsRecorded}
use graph_coder.Recovery.Restart.Changed.{
  Pairwise, Pairwise-map, IsInFlight, is_in_flight-IsInFlight, IsMarked, interrupted-IsMarked,
  IsUnverified, is_unverified-IsUnverified, IsReopened, reopened-IsReopened, IsInterruption,
  IsReopening, IsRowOf-IsInterruption, IsRowOf-IsReopening,
}

-- The rows of the earlier ledger stand as they were.
abbrev pub Extends : Ledger → Ledger → Type 0
Extends l after = (rs : List Row) × (after.rows ≡ l.rows ++ rs)

Extends-trans : (a b c : Ledger) → Extends a b → Extends b c → Extends a c
Extends-trans a b c (rs, e) (ts, f) =
    (rs ++ ts, f ∙ ap (λ z. z ++ ts) e ∙ append_assoc a.rows rs ts)

module _ (lib : Library) (supply : ℕ → String × String) where
  pub record_event-IsSound :
      (l after : Ledger) (q : Request) (event : EventRecord)
      → IsSound lib l
      → record_event lib supply l q ≡ ok (after, event)
      → IsSound lib after × Extends l after
  record_event-IsSound l after q event s h =
      let (t, grown) =
        append_event-IsSound lib l (supply l.next_sequence).0 (supply l.next_sequence).1 q after
          event s h in
      (t, elim grown [ inl e ↦ ([], e ∙ sym (append_nil l.rows)) | inr (r, e) ↦ (r ∷ [], e) ])

  record_events-IsSound :
      (qs : List Request) (l after : Ledger)
      → IsSound lib l
      → record_events lib supply qs l ≡ ok after
      → IsSound lib after × Extends l after
  unfolding record_events
  record_events-IsSound [] l after s h =
      let same : l ≡ after = returned-injective LedgerError h in
      subst (λ z. IsSound lib z × Extends l z) same (s, ([], sym (append_nil l.rows)))
  record_events-IsSound (q ∷ qs) l after s h =
      let (out, e, f) = >>=-eq-ok (record_event lib supply l q) _ h in
      let (t, x) = record_event-IsSound l out.0 q out.1 s e in
      let (u, y) = record_events-IsSound qs out.0 after t f in (u, Extends-trans l out.0 after x y)

  -- What a restart leaves behind: the ledger, the rows of attempts and units, and the events.
  pub record IsRestarted (s after : Store) : Type 0 where
    pub sound : IsSound lib after.ledger
    pub extended : Extends s.ledger after.ledger
    pub attempts : Pairwise IsMarked s.attempts after.attempts
    pub units : Pairwise (IsReopened s.units) s.units after.units
    pub same_nodes : after.nodes ≡ s.nodes
    pub same_edges : after.edges ≡ s.edges
    pub interruptions :
        (a : AttemptRow)
        → In a s.attempts
        → IsInFlight a
        → IsKeyed lib (some (str_append "restart-interrupt:" a.id)) after.ledger
    pub reopenings :
        (u : UnitRow)
        → In u s.units
        → IsUnverified u
        → IsKeyed lib
            (some (str_append "recovery-reopen:" (str_append u.plan_id (str_append ":" u.unit_id))))
            after.ledger
    pub no_others :
        (r : Row)
        → In r after.ledger.rows
        → In r s.ledger.rows
          ⊎ (((a : AttemptRow) × In a s.attempts × IsInFlight a × IsInterruption a r)
              ⊎ ((u : UnitRow) × In u s.units × IsUnverified u × IsReopening u r))

  module _ (s : Store) (l k : Ledger)
      (marked : IsRecorded lib supply
        (map interrupt_request (keep is_in_flight s.attempts))
        s.ledger
        l)
      (opened : IsRecorded lib supply (map reopen_request (keep is_unverified s.units)) l k) where
    recorded_interruptions :
        (a : AttemptRow)
        → In a s.attempts
        → IsInFlight a
        → IsKeyed lib (some (str_append "restart-interrupt:" a.id)) k
    unfolding interrupt_request
    recorded_interruptions a i f =
        let kept = (In-keep is_in_flight a s.attempts).1 (i, (is_in_flight-IsInFlight a).1 f) in
        let (r, j, e) =
          marked.keyed (interrupt_request a)
            (In-map interrupt_request a (keep is_in_flight s.attempts) kept) in
        (r, opened.kept r j, e)

    recorded_reopenings :
        (u : UnitRow)
        → In u s.units
        → IsUnverified u
        → IsKeyed lib
            (some (str_append "recovery-reopen:" (str_append u.plan_id (str_append ":" u.unit_id))))
            k
    unfolding reopen_request
    recorded_reopenings u i f =
        let kept = (In-keep is_unverified u s.units).1 (i, (is_unverified-IsUnverified u).1 f) in
        opened.keyed (reopen_request u) (In-map reopen_request u (keep is_unverified s.units) kept)

    recorded_no_others :
        (r : Row)
        → In r k.rows
        → In r s.ledger.rows
          ⊎ (((a : AttemptRow) × In a s.attempts × IsInFlight a × IsInterruption a r)
              ⊎ ((u : UnitRow) × In u s.units × IsUnverified u × IsReopening u r))
    recorded_no_others r i = elim (opened.only r i) [
      | inl j ↦ elim (marked.only r j) [
        | inl m ↦ inl m
        | inr (q, m, t) ↦
            let (a, n, e) = In-map_inv interrupt_request q (keep is_in_flight s.attempts) m in
            let (o, f) = (In-keep is_in_flight a s.attempts).0 n in
            let row = subst (λ z. IsRowOf lib z r) (sym e) t in
            inr (inl (a, o, (is_in_flight-IsInFlight a).0 f, IsRowOf-IsInterruption lib a r row))
      ]
      | inr (q, m, t) ↦
          let (u, n, e) = In-map_inv reopen_request q (keep is_unverified s.units) m in
          let (o, f) = (In-keep is_unverified u s.units).0 n in
          let row = subst (λ z. IsRowOf lib z r) (sym e) t in
          inr (inr (u, o, (is_unverified-IsUnverified u).0 f, IsRowOf-IsReopening lib u r row))
    ]

  -- Where the two steps of `recover` that mark attempts and reopen units return, on a ledger that
  -- verifies and whose counter is one more than the number of its rows: the ledger verifies, with
  -- its counter one more than its rows, and the rows before stand. Exactly the attempts in flight
  -- become interrupted, and exactly the rows with the key of a completed unit without evidence are
  -- reopened; nothing else changes in attempts, units, nodes and edges. For each of these attempts
  -- and units some row has the idempotency key of its event, and each new row is such an event of
  -- one of them.
  pub restart-IsRestarted :
      (s after : Store) (units : List String)
      → IsSound lib s.ledger
      → restart lib supply s ≡ ok (after, units)
      → IsRestarted s after
  unfolding restart mark_interrupted_on_startup reopen_unverified_completed_units
  restart-IsRestarted s after units sound h =
      let (marked, e, f) = >>=-eq-ok (mark_interrupted_on_startup lib supply s) _ h in
      let (l, x, y) =
        >>=-eq-ok
          (record_events lib supply (map interrupt_request (keep is_in_flight s.attempts)) s.ledger)
          _ e in
      let marked_is = returned-injective LedgerError y in
      let middle : Store = record s { attempts = map interrupted s.attempts; ledger = l } in
      let same : middle ≡ marked.0 = ap (λ z. z.0) marked_is in
      let f' : reopen_unverified_completed_units lib supply middle ≡ ok (after, units) =
        subst (λ z. reopen_unverified_completed_units lib supply z ≡ ok (after, units)) (sym same)
          f in
      let rows = keep is_unverified s.units in
      let (k, v, w) = >>=-eq-ok (record_events lib supply (map reopen_request rows) l) _ f' in
      let last : record middle { units = map (reopened rows) s.units; ledger = k } ≡ after =
        ap (λ z. z.0) (returned-injective LedgerError w) in
      let (t, a) =
        record_events-IsSound (map interrupt_request (keep is_in_flight s.attempts)) s.ledger l
          sound x in
      let (u, b) = record_events-IsSound (map reopen_request rows) l k t v in
      let first =
        record_events-IsRecorded lib supply (map interrupt_request (keep is_in_flight s.attempts))
          s.ledger l x in
      let second = record_events-IsRecorded lib supply (map reopen_request rows) l k v in
      subst (IsRestarted s) last record {
        sound = u;
        extended = Extends-trans s.ledger l k a b;
        attempts = Pairwise-map IsMarked interrupted s.attempts interrupted-IsMarked;
        units =
            Pairwise-map (IsReopened s.units) (reopened rows) s.units (reopened-IsReopened s.units);
        same_nodes = refl;
        same_edges = refl;
        interruptions = recorded_interruptions s l k first second;
        reopenings = recorded_reopenings s l k first second;
        no_others = recorded_no_others s l k first second;
      }
