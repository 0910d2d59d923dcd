-- ===== src/Ledger/Events/Chain.antt =====
-- The hash chain, and that an append continues it.
use graph_coder.Base.{
  ℕ, suc, ◌+◌, String, not, none, List, [], ◌∷◌, ◌++◌, is_none, eq_iff, length, length-append, ok,
  raise_if, ◌≡◌, ◌↔◌, ◌⊎◌, inl, inr, refl, sym, ap, ◌∙◌, subst, arith, Option-cases, >>=-eq-ok,
}
use graph_coder.Values.{Library}
use graph_coder.Ledger.Events.{
  Row, EventRecord, Request, Ledger, verified, genesis_hash, last_hash, compute_hash, pending_row,
  sealed, row_to_event, append_event, insert_event, existing, by_key, id_taken, hash_taken,
  verify_from, verify_chain,
}

module _ (lib : Library) where
  -- Consecutive numbers, each row naming the hash before it and carrying its own.
  abbrev pub IsLinked : String → ℕ → List Row → Type 0
  IsLinked previous n [] = Unit
  IsLinked previous n (r ∷ rs) =
      (r.sequence ≡ n)
      × (r.prev_hash ≡ previous)
      × (r.event_hash ≡ compute_hash lib r)
      × IsLinked r.event_hash (suc n) rs

  verify_from-IsLinked :
      (previous : String) (n : ℕ) (rows : List Row)
      → (verify_from lib previous n rows ≡ verified) ↔ IsLinked previous n rows
  unfolding verify_from
  verify_from-IsLinked previous n [] = ground arith
  verify_from-IsLinked previous n (r ∷ rs) = ground (
    arith,
    verify_from-IsLinked r.event_hash (suc n) rs,
    eq_iff r.prev_hash previous,
    eq_iff r.event_hash (compute_hash lib r),
  )

  -- `verify_chain` accepts exactly the ledgers whose rows are numbered from 1 and form a hash
  -- chain from the genesis hash.
  pub verify_chain-IsLinked :
      (l : Ledger) → (verify_chain lib l ≡ verified) ↔ IsLinked genesis_hash 1 l.rows
  unfolding verify_chain
  verify_chain-IsLinked l = verify_from-IsLinked genesis_hash 1 l.rows

  IsLinked-append :
      (previous : String) (n : ℕ) (rows : List Row) (r : Row)
      → IsLinked previous n rows
      → r.sequence ≡ n + length rows
      → r.prev_hash ≡ last_hash previous rows
      → r.event_hash ≡ compute_hash lib r
      → IsLinked previous n (rows ++ r ∷ [])
  unfolding last_hash
  IsLinked-append previous n [] r i s p h = (omega arith, p, h, tt)
  IsLinked-append previous n (q ∷ rows) r (a, b, c, i) s p h =
      (a, b, c, IsLinked-append q.event_hash (suc n) rows r i (omega arith) p h)

  -- A ledger whose chain verifies, with its counter after its last row.
  pub record IsSound (l : Ledger) : Type 0 where
    pub chain : verify_chain lib l ≡ verified
    pub counter : l.next_sequence ≡ suc (length l.rows)

  -- What an append adds: nothing, or the sealed row at the end.
  abbrev pub Grown : Ledger → String → String → Request → Ledger
  Grown l event_id timestamp q = record {
    rows = l.rows ++ sealed lib (pending_row lib l event_id timestamp q) ∷ [];
    next_sequence = suc l.next_sequence;
  }

  inserted :
      (l : Ledger) (event_id timestamp : String) (q : Request) (out : Ledger × EventRecord)
      → insert_event lib l event_id timestamp q ≡ ok out
      → out.0 ≡ Grown l event_id timestamp q
  unfolding insert_event
  inserted l event_id timestamp q out h =
      let (t, a, h) = >>=-eq-ok (raise_if (id_taken event_id l.rows) _) _ h in
      let (t, b, h) =
        >>=-eq-ok (raise_if (not (is_none (by_key q.idempotency_key l.rows))) _) _ h in
      let (t, c, h) = >>=-eq-ok (raise_if (hash_taken "pending" l.rows) _) _ h in
      let (t, d, h) =
        >>=-eq-ok
          (raise_if
            (hash_taken (sealed lib (pending_row lib l event_id timestamp q)).event_hash l.rows) _)
          _ h in
      cc

  -- An append with a new key inserts.
  pub append_event-inserted :
      (l : Ledger) (event_id timestamp : String) (q : Request) (out : Ledger × EventRecord)
      → existing q.idempotency_key l.rows ≡ none
      → append_event lib l event_id timestamp q ≡ ok out
      → out.0 ≡ Grown l event_id timestamp q
  unfolding append_event
  append_event-inserted l event_id timestamp q out e h =
      let k : insert_event lib l event_id timestamp q ≡ ok out =
        sym (rw (e, append_event) refl) ∙ h in
      inserted l event_id timestamp q out k

  pub grown_cases :
      (l : Ledger) (event_id timestamp : String) (q : Request) (out : Ledger × EventRecord)
      → append_event lib l event_id timestamp q ≡ ok out
      → (out.0 ≡ l) ⊎ (out.0 ≡ Grown l event_id timestamp q)
  unfolding append_event
  grown_cases l event_id timestamp q out h =
      elim (Option-cases (existing q.idempotency_key l.rows)) [
        | inr (r, e) ↦ inl (
            let k : ok (l, row_to_event lib r) ≡ ok out = sym (rw (e, append_event) refl) ∙ h in cc)
        | inl e ↦ inr (append_event-inserted l event_id timestamp q out e h)
      ]

  -- The hash does not read the hash column.
  compute_hash-sealed : (r : Row) → compute_hash lib (sealed lib r) ≡ compute_hash lib r
  unfolding compute_hash sealed
  compute_hash-sealed r = refl

  Grown-IsSound :
      (l : Ledger) (event_id timestamp : String) (q : Request)
      → IsSound l
      → IsSound (Grown l event_id timestamp q)
  unfolding sealed pending_row
  Grown-IsSound l event_id timestamp q s =
      let row = sealed lib (pending_row lib l event_id timestamp q) in
      record {
        chain = (verify_chain-IsLinked (Grown l event_id timestamp q)).1 (
            IsLinked-append genesis_hash 1 l.rows row ((verify_chain-IsLinked l).0 s.chain)
              (omega (arith, s.counter)) refl
              (sym (compute_hash-sealed (pending_row lib l event_id timestamp q))));
        counter = omega (arith, s.counter, length-append l.rows (row ∷ []));
      }

  -- For a ledger that verifies and whose counter is one more than the number of its rows (so that
  -- no last row was removed): an append that returns leaves a ledger that verifies and whose
  -- counter is again one more than its rows, and it adds at most one row, at the end; the rows
  -- that stood before are left as they were.
  pub append_event-IsSound :
      (l : Ledger) (event_id timestamp : String) (q : Request) (after : Ledger)
      (event : EventRecord)
      → IsSound l
      → append_event lib l event_id timestamp q ≡ ok (after, event)
      → IsSound after × ((after.rows ≡ l.rows) ⊎ ((r : Row) × (after.rows ≡ l.rows ++ r ∷ [])))
  append_event-IsSound l event_id timestamp q after event s h =
      elim (grown_cases l event_id timestamp q (after, event) h) [
        | inl e ↦ (subst IsSound (sym e) s, inl (ap (λ (z : Ledger). z.rows) e))
        | inr e ↦ (
          subst IsSound (sym e) (Grown-IsSound l event_id timestamp q s),
          inr (_, ap (λ (z : Ledger). z.rows) e),
        )
      ]
