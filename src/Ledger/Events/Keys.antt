-- ===== src/Ledger/Events/Keys.antt =====
-- Idempotency keys, and what the last hash of a chain pins down.
use graph_coder.Base.{
  ℕ, suc, String, true, not, Option, none, some, List, [], ◌∷◌, ◌++◌, is_none, eq_refl, length, ok,
  raise_if, ◌≡◌, inl, inr, refl, sym, ap, ◌∙◌, subst, arith, Option-cases, >>=-eq-ok, returned,
  returned-injective,
}
use graph_coder.Base.Integers.{pos}
use graph_coder.Values.{Library, Json, integer}
use graph_coder.Values.Parts.{place, text_of, optional_text_injective}
use graph_coder.Ledger.Events.{
  Row, EventRecord, Request, Ledger, LedgerError, given, same_key, last_hash, content, compute_hash,
  pending_row, sealed, new_event, row_to_event, append_event, insert_event, existing, by_key,
  id_taken, hash_taken,
}
use graph_coder.Ledger.Events.Chain.{IsLinked}

same_key_refl : (key : Option String) → given key ≡ true → same_key key key ≡ true
same_key_refl none h = cc
same_key_refl (some k) h = eq_refl k

by_key-append :
    (key : Option String) (rows : List Row) (r : Row)
    → by_key key rows ≡ none
    → same_key r.idempotency_key key ≡ true
    → by_key key (rows ++ r ∷ []) ≡ some r
unfolding by_key
by_key-append key [] r h s = ground arith
by_key-append key (q ∷ rows) r h s = ground (arith, by_key-append key rows r)

abbrev natural_of : Json → ℕ
natural_of (integer (pos n)) = n
natural_of _ = 0

module _ (lib : Library) where
  -- What a second append of the same key gives, on the ledger that the first one left.
  abbrev pub Repeated : Ledger → EventRecord → String → String → Request → Type 0
  Repeated after event event_id timestamp again =
      (second : EventRecord) × (append_event lib after event_id timestamp again
        ≡ ok (after, second))
      × (second.sequence ≡ event.sequence)
      × (second.event_hash ≡ event.event_hash)
      × (second.event_id ≡ event.event_id)

  inserted_key :
      (l : Ledger) (event_id timestamp : String) (q : Request) (after : Ledger)
      (event : EventRecord)
      → given q.idempotency_key ≡ true
      → insert_event lib l event_id timestamp q ≡ ok (after, event)
      → (r : Row) × (existing q.idempotency_key after.rows ≡ some r)
        × (r.sequence ≡ event.sequence)
        × (r.event_hash ≡ event.event_hash)
        × (r.event_id ≡ event.event_id)
  unfolding insert_event existing sealed pending_row new_event row_to_event
  inserted_key l event_id timestamp q after event g h =
      let (t, a, h) = >>=-eq-ok (raise_if (id_taken event_id l.rows) _) _ h in
      let (t, b, h) =
        >>=-eq-ok (raise_if (not (is_none (by_key q.idempotency_key l.rows))) _) _ h in
      let (t, c, h) = >>=-eq-ok (raise_if (hash_taken "pending" l.rows) _) _ h in
      let (t, d, h) =
        >>=-eq-ok
          (raise_if
            (hash_taken (sealed lib (pending_row lib l event_id timestamp q)).event_hash l.rows) _)
          _ h in
      let row = sealed lib (pending_row lib l event_id timestamp q) in
      let e : new_event lib row q ≡ event = cc in
      let w : l.rows ++ row ∷ [] ≡ after.rows = cc in
      let n : by_key q.idempotency_key l.rows ≡ none = ground arith in
      let f = by_key-append q.idempotency_key l.rows row n (same_key_refl q.idempotency_key g) in
      (
        row,
        rw (g, existing) (subst (λ z. by_key q.idempotency_key z ≡ some row) w f),
        ap (λ (z : EventRecord). z.sequence) e,
        ap (λ (z : EventRecord). z.event_hash) e,
        ap (λ (z : EventRecord). z.event_id) e,
      )

  -- After an append with a key that is not empty, a second append with that key, whatever else it
  -- says, leaves the ledger alone and returns the event that the first one recorded.
  pub append_event_idempotent :
      (l : Ledger) (event_id timestamp : String) (q : Request) (after : Ledger)
      (event : EventRecord)
      → given q.idempotency_key ≡ true
      → append_event lib l event_id timestamp q ≡ ok (after, event)
      → (event_id' timestamp' : String) (again : Request)
      → again.idempotency_key ≡ q.idempotency_key
      → Repeated after event event_id' timestamp' again
  unfolding append_event row_to_event
  append_event_idempotent l event_id timestamp q after event g h event_id' timestamp' again k =
      elim (Option-cases (existing q.idempotency_key l.rows)) [
        | inr (r, e) ↦
            let w : returned LedgerError (l, row_to_event lib r)
                ≡ returned LedgerError (after, event) =
              sym (rw (e, append_event) refl) ∙ h in
            let a : l ≡ after = ap (λ z. z.0) (returned-injective LedgerError w) in
            let v : row_to_event lib r ≡ event = ap (λ z. z.1) (returned-injective LedgerError w) in
            repeated r (subst (λ (z : Ledger). existing q.idempotency_key z.rows ≡ some r) a e)
              (ap (λ (z : EventRecord). z.sequence) v) (ap (λ (z : EventRecord). z.event_hash) v)
              (ap (λ (z : EventRecord). z.event_id) v)
        | inl e ↦
            let w : insert_event lib l event_id timestamp q ≡ ok (after, event) =
              sym (rw (e, append_event) refl) ∙ h in
            let (r, f, s, c, d) = inserted_key l event_id timestamp q after event g w in
            repeated r f s c d
      ]
    where
      repeated :
          (r : Row)
          → existing q.idempotency_key after.rows ≡ some r
          → r.sequence ≡ event.sequence
          → r.event_hash ≡ event.event_hash
          → r.event_id ≡ event.event_id
          → Repeated after event event_id' timestamp' again
      repeated r f s c d = (
        row_to_event lib r,
        rw (subst (λ z. existing z after.rows ≡ some r) (sym k) f, append_event) refl,
        s,
        c,
        d,
      )

  -- No two rows at one position have the same hash and different contents.
  abbrev pub NoCollision : List Row → List Row → Type 0
  NoCollision [] ys = Unit
  NoCollision (x ∷ xs) [] = Unit
  NoCollision (x ∷ xs) (y ∷ ys) =
      (compute_hash lib x ≡ compute_hash lib y → content lib x ≡ content lib y) × NoCollision xs ys

  -- Two rows agree in every column; the payload and the artifact hashes as JSON values.
  pub record IsSameRow (x y : Row) : Type 0 where
    pub sequence : x.sequence ≡ y.sequence
    pub schema_version : x.schema_version ≡ y.schema_version
    pub event_id : x.event_id ≡ y.event_id
    pub idempotency_key : x.idempotency_key ≡ y.idempotency_key
    pub run_id : x.run_id ≡ y.run_id
    pub plan_id : x.plan_id ≡ y.plan_id
    pub node_id : x.node_id ≡ y.node_id
    pub unit_id : x.unit_id ≡ y.unit_id
    pub attempt_id : x.attempt_id ≡ y.attempt_id
    pub actor_role : x.actor_role ≡ y.actor_role
    pub model_receipt : x.model_receipt ≡ y.model_receipt
    pub event_type : x.event_type ≡ y.event_type
    pub timestamp_utc : x.timestamp_utc ≡ y.timestamp_utc
    pub repository_commit : x.repository_commit ≡ y.repository_commit
    pub worktree : x.worktree ≡ y.worktree
    pub payload : lib.loads x.payload_json ≡ lib.loads y.payload_json
    pub artifact_hashes : lib.loads x.artifact_hashes_json ≡ lib.loads y.artifact_hashes_json
    pub prev_hash : x.prev_hash ≡ y.prev_hash
    pub event_hash : x.event_hash ≡ y.event_hash

  -- Row by row, in lists of one length.
  abbrev pub AreSameRows : List Row → List Row → Type 0
  AreSameRows [] [] = Unit
  AreSameRows [] (y ∷ ys) = ⊥
  AreSameRows (x ∷ xs) [] = ⊥
  AreSameRows (x ∷ xs) (y ∷ ys) = IsSameRow x y × AreSameRows xs ys

  content-IsSameRow :
      (x y : Row) → content lib x ≡ content lib y → x.event_hash ≡ y.event_hash → IsSameRow x y
  unfolding content
  content-IsSameRow x y h e = record {
    sequence = ap (λ v. natural_of (place 0 v)) h;
    schema_version = ap (λ v. text_of (place 1 v)) h;
    event_id = ap (λ v. text_of (place 2 v)) h;
    idempotency_key = optional_text_injective x.idempotency_key y.idempotency_key (ap (place 3) h);
    run_id = optional_text_injective x.run_id y.run_id (ap (place 4) h);
    plan_id = optional_text_injective x.plan_id y.plan_id (ap (place 5) h);
    node_id = optional_text_injective x.node_id y.node_id (ap (place 6) h);
    unit_id = optional_text_injective x.unit_id y.unit_id (ap (place 7) h);
    attempt_id = optional_text_injective x.attempt_id y.attempt_id (ap (place 8) h);
    actor_role = optional_text_injective x.actor_role y.actor_role (ap (place 9) h);
    model_receipt = optional_text_injective x.model_receipt y.model_receipt (ap (place 10) h);
    event_type = ap (λ v. text_of (place 11 v)) h;
    timestamp_utc = ap (λ v. text_of (place 12 v)) h;
    repository_commit =
        optional_text_injective x.repository_commit y.repository_commit (ap (place 13) h);
    worktree = optional_text_injective x.worktree y.worktree (ap (place 14) h);
    payload = ap (place 15) h;
    artifact_hashes = ap (place 16) h;
    prev_hash = ap (λ v. text_of (place 17 v)) h;
    event_hash = e;
  }

  rows_pinned :
      (xs ys : List Row) (n : ℕ) (previous previous' : String)
      → IsLinked lib previous n xs
      → IsLinked lib previous' n ys
      → length xs ≡ length ys
      → last_hash previous xs ≡ last_hash previous' ys
      → NoCollision xs ys
      → (previous ≡ previous') × AreSameRows xs ys
  unfolding last_hash
  rows_pinned [] [] n previous previous' i j e h c = (h, tt)
  rows_pinned [] (y ∷ ys) n previous previous' i j e h c = absurd (omega arith)
  rows_pinned (x ∷ xs) [] n previous previous' i j e h c = absurd (omega arith)
  rows_pinned (x ∷ xs) (y ∷ ys) n previous previous' (a, b, d, i) (a', b', d', j) e h (c, cs) =
      let (p, q) = rows_pinned xs ys (suc n) x.event_hash y.event_hash i j (omega arith) h cs in
      let same = content-IsSameRow x y (c (sym d ∙ p ∙ d')) p in
      (sym b ∙ same.prev_hash ∙ b', (same, q))

  -- Two chains of one length that end in one hash start from the same hash and agree row by row in
  -- every column, the payload and the artifact hashes as the JSON values of their texts, unless two
  -- rows at one position have the same hash and different hashed contents.
  pub IsLinked-AreSameRows :
      (xs ys : List Row) (previous previous' : String)
      → IsLinked lib previous 1 xs
      → IsLinked lib previous' 1 ys
      → length xs ≡ length ys
      → last_hash previous xs ≡ last_hash previous' ys
      → NoCollision xs ys
      → (previous ≡ previous') × AreSameRows xs ys
  IsLinked-AreSameRows xs ys previous previous' i j e h c =
      rows_pinned xs ys 1 previous previous' i j e h c
