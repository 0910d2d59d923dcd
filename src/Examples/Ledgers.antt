-- ===== src/Examples/Ledgers.antt =====
-- The theorems on the ledger with a small stand-in for Python's libraries.
use graph_coder.Base.{none, some, [], ◌∷◌, ◌++◌, ok, ◌≡◌, ◌↔◌, ◌⊎◌, refl}
use graph_coder.Values.{
  null, boolean, integer, number, text, array, object, no_members, member, Library,
}
use graph_coder.Ledger.Redaction.{redact}
use graph_coder.Ledger.Events.{
  Row, Request, Ledger, verified, genesis_hash, last_hash, compute_hash, pending_row, sealed,
  new_event, append_event, verify_chain,
}
use graph_coder.Ledger.Events.Chain.{IsLinked, IsSound, verify_chain-IsLinked, append_event-IsSound}
use graph_coder.Ledger.Events.Keys.{
  Repeated, append_event_idempotent, AreSameRows, IsLinked-AreSameRows,
}

abbrev pub library : Library
library = record {
  lower = λ s. s;
  substitute = λ pattern s. s;
  dumps = elim [
    | null ↦ "null"
    | boolean b ↦ "bool"
    | integer n ↦ "int"
    | number n ↦ n
    | text s ↦ s
    | array _ ↦ "[]"
    | object _ ↦ "{}"
  ];
  loads = text;
  sha256 = λ s. s;
  decimal = λ n. "1";
  repr = λ s. s;
  str = λ v. "";
  int = λ v. none;
  dict = λ v. none;
}

abbrev request : Request
request = record {
  event_type = "worker.dispatched";
  payload = object (member "api_token" (text "s3cret") (member "node" (text "api") no_members));
  idempotency_key = some "k1";
  role = none;
  run_id = none;
  plan_id = none;
  node_id = some "api";
  unit_id = none;
  attempt_id = none;
  model_receipt = none;
  repository_commit = none;
  worktree = none;
  artifact_hashes = [];
}

abbrev pub empty : Ledger
empty = record { rows = []; next_sequence = 1 }

abbrev first_row : Row
first_row = sealed library (pending_row library empty "e1" "t1" request)

abbrev after_first : Ledger
after_first = record { rows = first_row ∷ []; next_sequence = 2 }

pub empty-IsSound : IsSound library empty
unfolding verify_chain
empty-IsSound = record { chain = refl; counter = refl }

appended :
    append_event library empty "e1" "t1" request
    ≡ ok (after_first, new_event library first_row request)
unfolding append_event
appended = refl

append_event-IsSound_example :
    IsSound library after_first
    × ((after_first.rows ≡ empty.rows) ⊎ ((r : Row) × (after_first.rows ≡ empty.rows ++ r ∷ [])))
append_event-IsSound_example =
    append_event-IsSound library empty "e1" "t1" request after_first
      (new_event library first_row request) empty-IsSound appended

append_event_idempotent_example :
    Repeated library after_first (new_event library first_row request) "e2" "t2" request
append_event_idempotent_example =
    append_event_idempotent library empty "e1" "t1" request after_first
      (new_event library first_row request) refl appended "e2" "t2" request refl

verify_chain-IsLinked_example :
    (verify_chain library after_first ≡ verified) ↔ IsLinked library genesis_hash 1 after_first.rows
verify_chain-IsLinked_example = verify_chain-IsLinked library after_first

linked : IsLinked library genesis_hash 1 after_first.rows
unfolding sealed compute_hash pending_row last_hash
linked = (refl, refl, refl, tt)

IsLinked-AreSameRows_example :
    (genesis_hash ≡ genesis_hash) × AreSameRows library after_first.rows after_first.rows
IsLinked-AreSameRows_example =
    IsLinked-AreSameRows library after_first.rows after_first.rows genesis_hash genesis_hash linked
      linked refl refl (λ e. refl, tt)

-- A run: the value of the key `api_token` is taken out.
run :
    redact library request.payload
    ≡ object (member "api_token" (text "[REDACTED]") (member "node" (text "api") no_members))
unfolding redact
run = refl
