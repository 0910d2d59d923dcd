-- ===== src/Ledger/Events.antt =====
-- events.py: `compute_hash`, `append_event` and `verify_chain` over the table of events. The rows
-- stand in the order of `sequence`, which AUTOINCREMENT only lets grow; `next_sequence` is its
-- counter. The fresh `uuid4` and the clock's text are arguments. The texts of the two JSON columns are
-- taken to be JSON, as `append_event` writes them: of another text, which only a change from outside
-- can leave there, `json.loads` raises, and so do `verify_chain` and a look-up that meets it.
pub mod Chain
pub mod Keys
use graph_coder.Base.{
  ℕ, zero, suc, String, Bool, true, false, not, ◌&&◌, ◌||◌, Option, none, some, List, [], ◌∷◌, ◌++◌,
  is_none, eqb, ◌==◌, Result, ok, err, raise_if, ◌>>=◌, ◌>>◌, if◌then◌else◌,
}
use graph_coder.Base.Integers.{pos}
use graph_coder.Values.{
  Json, null, integer, text, array, object, Items, Members, no_members, member, Library,
  optional_text, items_of,
}
use graph_coder.Ledger.Redaction.{redact}

abbrev pub contract_version : String
contract_version = "graph-coder/v1"

abbrev pub genesis_hash : String
genesis_hash = "0000000000000000000000000000000000000000000000000000000000000000"

-- A row of the table `events`.
pub record Row : Type 0 where
  pub sequence : ℕ
  pub schema_version : String
  pub event_id : String
  pub idempotency_key : Option String
  pub run_id : Option String
  pub plan_id : Option String
  pub node_id : Option String
  pub unit_id : Option String
  pub attempt_id : Option String
  pub actor_role : Option String
  pub model_receipt : Option String
  pub event_type : String
  pub timestamp_utc : String
  pub repository_commit : Option String
  pub worktree : Option String
  pub payload_json : String
  pub artifact_hashes_json : String
  pub prev_hash : String
  pub event_hash : String

pub record EventRecord : Type 0 where
  pub sequence : ℕ
  pub event_id : String
  pub event_type : String
  pub payload : Json
  pub prev_hash : String
  pub event_hash : String
  pub idempotency_key : Option String
  pub role : Option String
  pub timestamp_utc : String
  pub run_id : Option String
  pub plan_id : Option String
  pub node_id : Option String
  pub unit_id : Option String
  pub attempt_id : Option String
  pub model_receipt : Option String
  pub repository_commit : Option String
  pub worktree : Option String
  pub artifact_hashes : Json

-- The arguments of `append_event` after the connection.
pub record Request : Type 0 where
  pub event_type : String
  pub payload : Json
  pub idempotency_key : Option String
  pub role : Option String
  pub run_id : Option String
  pub plan_id : Option String
  pub node_id : Option String
  pub unit_id : Option String
  pub attempt_id : Option String
  pub model_receipt : Option String
  pub repository_commit : Option String
  pub worktree : Option String
  pub artifact_hashes : List String

pub record Ledger : Type 0 where
  pub rows : List Row
  pub next_sequence : ℕ

-- sqlite3.IntegrityError, on one of the UNIQUE columns of db.py.
pub data LedgerError : Type 0 where
  event_id_not_unique idempotency_key_not_unique event_hash_not_unique : LedgerError

-- What `verify_chain` returns: (True, None), or the error's text for a sequence.
pub data Verdict : Type 0 where
  verified : Verdict
  non_monotonic broken_previous hash_mismatch : ℕ → Verdict

-- `if key:`.
abbrev pub given : Option String → Bool
given none = false
given (some k) = not (k == "")

abbrev pub same_key : Option String → Option String → Bool
same_key (some j) (some k) = j == k
same_key _ _ = false

-- `WHERE idempotency_key=?`: a NULL equals nothing.
unfoldable pub by_key : Option String → List Row → Option Row
by_key key [] = none
by_key key (r ∷ rs) =
    let rest = by_key key rs in if same_key r.idempotency_key key then some r else rest

-- The look-up of an earlier event, for a key that is given.
unfoldable pub existing : Option String → List Row → Option Row
unfolding by_key
existing key rows = if given key then by_key key rows else none

unfoldable pub id_taken : String → List Row → Bool
id_taken event_id [] = false
id_taken event_id (r ∷ rs) = r.event_id == event_id || id_taken event_id rs

unfoldable pub hash_taken : String → List Row → Bool
hash_taken event_hash [] = false
hash_taken event_hash (r ∷ rs) = r.event_hash == event_hash || hash_taken event_hash rs

-- `last["event_hash"] if last else GENESIS_HASH`.
unfoldable pub last_hash : String → List Row → String
last_hash genesis [] = genesis
last_hash genesis (r ∷ rs) = last_hash r.event_hash rs

module _ (lib : Library) where
  open lib use {dumps, loads, sha256}

  -- The dict that is hashed: every column but the hash itself.
  unfoldable pub content : Row → Json
  content r = object (
      member "sequence" (integer (pos r.sequence)) (
        member "schema_version" (text r.schema_version) (
          member "event_id" (text r.event_id) (
            member "idempotency_key" (optional_text r.idempotency_key) (
              member "run_id" (optional_text r.run_id) (
                member "plan_id" (optional_text r.plan_id) (
                  member "node_id" (optional_text r.node_id) (
                    member "unit_id" (optional_text r.unit_id) (
                      member "attempt_id" (optional_text r.attempt_id) (
                        member "actor_role" (optional_text r.actor_role) (
                          member "model_receipt" (optional_text r.model_receipt) (
                            member "event_type" (text r.event_type) (
                              member "timestamp_utc" (text r.timestamp_utc) (
                                member "repository_commit" (optional_text r.repository_commit) (
                                  member "worktree" (optional_text r.worktree) (
                                    member "payload" (loads r.payload_json) (
                                      member "artifact_hashes" (loads r.artifact_hashes_json) (
                                        member "prev_hash" (text r.prev_hash)
                                          no_members))))))))))))))))))

  unfoldable pub compute_hash : Row → String
  unfolding content
  compute_hash r = sha256 (dumps (content r))

  -- `_row_to_event`.
  unfoldable pub row_to_event : Row → EventRecord
  row_to_event r = record {
    sequence = r.sequence;
    event_id = r.event_id;
    event_type = r.event_type;
    payload = loads r.payload_json;
    prev_hash = r.prev_hash;
    event_hash = r.event_hash;
    idempotency_key = r.idempotency_key;
    role = r.actor_role;
    timestamp_utc = r.timestamp_utc;
    run_id = r.run_id;
    plan_id = r.plan_id;
    node_id = r.node_id;
    unit_id = r.unit_id;
    attempt_id = r.attempt_id;
    model_receipt = r.model_receipt;
    repository_commit = r.repository_commit;
    worktree = r.worktree;
    artifact_hashes = loads r.artifact_hashes_json;
  }

  -- The row that the INSERT writes, with the hash "pending".
  unfoldable pub pending_row : Ledger → String → String → Request → Row
  unfolding last_hash redact
  pending_row l event_id timestamp q = record {
    sequence = l.next_sequence;
    schema_version = contract_version;
    event_id = event_id;
    idempotency_key = q.idempotency_key;
    run_id = q.run_id;
    plan_id = q.plan_id;
    node_id = q.node_id;
    unit_id = q.unit_id;
    attempt_id = q.attempt_id;
    actor_role = q.role;
    model_receipt = q.model_receipt;
    event_type = q.event_type;
    timestamp_utc = timestamp;
    repository_commit = q.repository_commit;
    worktree = q.worktree;
    payload_json = dumps (redact lib q.payload);
    artifact_hashes_json = dumps (redact lib (array (items_of q.artifact_hashes)));
    prev_hash = last_hash genesis_hash l.rows;
    event_hash = "pending";
  }

  -- The UPDATE of the row's hash.
  unfoldable pub sealed : Row → Row
  unfolding compute_hash
  sealed r = record r { event_hash = compute_hash r }

  -- The record that `append_event` returns for a new row.
  unfoldable pub new_event : Row → Request → EventRecord
  unfolding row_to_event redact
  new_event r q = record (row_to_event r) {
    payload = redact lib q.payload;
    artifact_hashes = redact lib (array (items_of q.artifact_hashes));
  }

  -- The INSERT and the UPDATE.
  unfoldable pub insert_event :
      Ledger → String → String → Request → Result LedgerError (Ledger × EventRecord)
  unfolding pending_row sealed new_event id_taken hash_taken by_key
  insert_event l event_id timestamp q = do
    raise_if (id_taken event_id l.rows) event_id_not_unique
    raise_if (not (is_none (by_key q.idempotency_key l.rows))) idempotency_key_not_unique
    raise_if (hash_taken "pending" l.rows) event_hash_not_unique
    let row = sealed (pending_row l event_id timestamp q)
    raise_if (hash_taken row.event_hash l.rows) event_hash_not_unique
    ok (record { rows = l.rows ++ row ∷ []; next_sequence = suc l.next_sequence }, new_event row q)

  unfoldable pub append_event :
      Ledger → String → String → Request → Result LedgerError (Ledger × EventRecord)
  unfolding row_to_event insert_event existing
  append_event l event_id timestamp q = elim (existing q.idempotency_key l.rows) [
    | some r ↦ ok (l, row_to_event r)
    | none ↦ insert_event l event_id timestamp q
  ]

  -- The loop of `verify_chain`.
  unfoldable pub verify_from : String → ℕ → List Row → Verdict
  unfolding compute_hash
  verify_from previous expected [] = verified
  verify_from previous expected (r ∷ rs) =
      let rest = verify_from r.event_hash (suc expected) rs in
      if not (eqb r.sequence expected)
      then non_monotonic r.sequence
      else if not (r.prev_hash == previous)
      then broken_previous r.sequence
      else if not (r.event_hash == compute_hash r)
      then hash_mismatch r.sequence
      else rest

  unfoldable pub verify_chain : Ledger → Verdict
  unfolding verify_from
  verify_chain l = verify_from genesis_hash 1 l.rows
