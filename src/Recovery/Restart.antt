-- ===== src/Recovery/Restart.antt =====
-- recovery.py: what a restart does to the tables, `mark_interrupted_on_startup` and
-- `reopen_unverified_completed_units`, and `resume_human_required`. The columns with the time of a
-- change are left out; an UPDATE by a table's key is one of the row that was read. `supply` stands
-- for the fresh `uuid4` and the clock's text of each new event, by the counter of the ledger.
pub mod Recorded
pub mod Changed
pub mod Sound
pub mod Decided
use Prim.Native.String.{◌++◌}
use graph_coder.Base.{
  ℕ, zero, suc, String, Bool, true, false, not, ◌&&◌, ◌||◌, List, [], ◌∷◌, Option, none, some,
  is_none, map, keep, has, find, ok, err, Result, ◌>>=◌, ◌==◌, if◌then◌else◌, length,
}
use graph_coder.Base.Lists.{length}
use graph_coder.Base.Integers.{pos}
use graph_coder.Values.{
  Json, null, integer, text, array, object, Items, no_items, item, Members, no_members, member,
  Library, optional_text, get, set,
}
use graph_coder.Ledger.Events.{Request, EventRecord, Ledger, LedgerError, append_event}
use graph_coder.Recovery.Stored.{NodeRow, EdgeRow, ready_frontier, human_required_nodes, node_ids}

pub record AttemptRow : Type 0 where
  pub id : String
  pub task_id : Option String
  pub node_id : Option String
  pub unit_id : Option String
  pub role : String
  pub status : String

pub record UnitRow : Type 0 where
  pub plan_id : String
  pub unit_id : String
  pub status : String
  pub evidence_hash : Option String

pub record Store : Type 0 where
  pub attempts : List AttemptRow
  pub units : List UnitRow
  pub nodes : List NodeRow
  pub edges : List EdgeRow
  pub ledger : Ledger

abbrev pub in_flight : List String
in_flight = "running" ∷ "in_flight" ∷ "started" ∷ []

abbrev pub is_in_flight : AttemptRow → Bool
is_in_flight row = has row.status in_flight

abbrev pub interrupted : AttemptRow → AttemptRow
interrupted row = if is_in_flight row then record row { status = "interrupted" } else row

-- The arguments that an event of recovery leaves out.
abbrev pub plain_request : String → Json → String → Option String → Request
plain_request event_type payload key role = record {
  event_type = event_type;
  payload = payload;
  idempotency_key = some key;
  role = role;
  run_id = none;
  plan_id = none;
  node_id = none;
  unit_id = none;
  attempt_id = none;
  model_receipt = none;
  repository_commit = none;
  worktree = none;
  artifact_hashes = [];
}

unfoldable pub interrupt_request : AttemptRow → Request
interrupt_request row =
    record (plain_request "attempt.interrupted"
      (object (
        member "attempt_id" (text row.id) (
          member "task_id" (optional_text row.task_id) (
            member "node_id" (optional_text row.node_id) (
              member "unit_id" (optional_text row.unit_id)
                (member "role" (text row.role) (member "reason" (text "restart") no_members)))))))
      ("restart-interrupt:" ++ row.id) (some row.role)) {
        node_id = row.node_id;
        unit_id = row.unit_id;
        attempt_id = some row.id;
      }

-- `WHERE status IN ('completed','done') AND evidence_hash IS NULL`.
abbrev pub is_unverified : UnitRow → Bool
is_unverified row = (row.status == "completed" || row.status == "done") && is_none row.evidence_hash

-- The UPDATE by the table's key.
abbrev pub names_unit : UnitRow → UnitRow → Bool
names_unit a b = a.plan_id == b.plan_id && a.unit_id == b.unit_id

abbrev pub is_named : List UnitRow → UnitRow → Bool
is_named [] row = false
is_named (r ∷ rs) row = names_unit r row || is_named rs row

abbrev pub reopened : List UnitRow → UnitRow → UnitRow
reopened rows row = if is_named rows row then record row { status = "reopened" } else row

unfoldable pub reopen_request : UnitRow → Request
reopen_request row =
    record (plain_request "unit.reopened"
      (object (member "reason" (text "completion evidence missing after recovery") no_members))
      ("recovery-reopen:" ++ (row.plan_id ++ (":" ++ row.unit_id))) (some "Director")) {
        plan_id = some row.plan_id;
        unit_id = some row.unit_id;
      }

-- A ValueError of `resume_human_required`, or the ledger's exception.
pub data ResumeError : Type 0 where
  unknown_node : String → ResumeError
  not_human_required : (node status : String) → ResumeError
  unsupported_target : String → ResumeError
  unreadable_history : ResumeError
  ledger_failed : LedgerError → ResumeError

-- The ledger's exception passes through.
abbrev pub lift_ledger : {A : Type 0} → Result LedgerError A → Result ResumeError A
lift_ledger (err e) = err (ledger_failed e)
lift_ledger (ok a) = ok a

abbrev pub entries_list : Items → List Json
entries_list no_items = []
entries_list (item v rest) = v ∷ entries_list rest

abbrev pub append_item : Items → Json → Items
append_item no_items v = item v no_items
append_item (item w rest) v = item w (append_item rest v)

abbrev pub item_count : Items → ℕ
item_count no_items = 0
item_count (item v rest) = suc (item_count rest)

-- `json.loads(row["data_json"] or "{}")`, which must be a mapping.
abbrev pub node_data : Library → NodeRow → Option Members
node_data lib row =
    if row.data_json == ""
    then some no_members
    else elim (lib.loads row.data_json) [ object m ↦ some m | _ ↦ none ]

-- `list(...)` of a mapping, its keys, and of a text, its characters.
abbrev pub key_items : Members → Items
key_items no_members = no_items
key_items (member k v rest) = item (text k) (key_items rest)

abbrev pub character_items : String → Items
character_items String.[] = no_items
character_items (String.◌∷◌ c s) = item (text (String.◌∷◌ c String.[])) (character_items s)

-- `list(data.get("human_decisions", []))`: a number, a truth value and null are no iterables.
abbrev pub decisions_of : Members → Option Items
decisions_of kept = elim (get "human_decisions" kept) [
  | none ↦ some no_items
  | some (array items) ↦ some items
  | some (object members) ↦ some (key_items members)
  | some (text s) ↦ some (character_items s)
  | some _ ↦ none
]

abbrev pub decision_entry : String → String → String → String → Json
decision_entry decision decided_by target status = object (
    member "decision" (text decision) (
      member "decided_by" (text decided_by)
        (member "resumed_to" (text target) (member "previous_status" (text status) no_members))))

-- `WHERE graph_id=? AND node_id=?`.
abbrev pub set_node : String → String → String → String → NodeRow → NodeRow
set_node graph_id node_id status data_json row =
    if row.graph_id == graph_id && row.node_id == node_id
    then record row { status = status; data_json = data_json }
    else row

pub record Resumed : Type 0 where
  pub node_id : String
  pub resumed_to : String
  pub decision : String
  pub event_sequence : ℕ
  pub ready_frontier : List String
  pub human_required : List String

module _ (lib : Library) (supply : ℕ → String × String) where
  -- One event, with a fresh id and the time.
  abbrev pub record_event : Ledger → Request → Result LedgerError (Ledger × EventRecord)
  record_event l q = append_event lib l (supply l.next_sequence).0 (supply l.next_sequence).1 q

  -- `for row in rows: append_event(...)`.
  unfoldable pub record_events : List Request → Ledger → Result LedgerError Ledger
  unfolding append_event
  record_events [] l = ok l
  record_events (q ∷ qs) l = record_event l q >>= λ out. record_events qs out.0

  unfoldable pub mark_interrupted_on_startup : Store → Result LedgerError (Store × ℕ)
  unfolding record_events interrupt_request
  mark_interrupted_on_startup s =
      let rows = keep is_in_flight s.attempts in
      record_events (map interrupt_request rows) s.ledger >>= λ l.
      ok (record s { attempts = map interrupted s.attempts; ledger = l }, length rows)

  unfoldable pub reopen_unverified_completed_units :
      Store → Result LedgerError (Store × List String)
  unfolding record_events reopen_request
  reopen_unverified_completed_units s =
      let rows = keep is_unverified s.units in
      record_events (map reopen_request rows) s.ledger >>= λ l.
      ok (record s { units = map (reopened rows) s.units; ledger = l }, map (λ r. r.unit_id) rows)

  -- `recover` of a ledger that verifies, as far as it writes attempts, units and events: the
  -- interrupted attempts, then the reopened units. The projections, which `rebuild_projections`
  -- then writes over from the events, are no part of the store here.
  unfoldable pub restart : Store → Result LedgerError (Store × List String)
  unfolding mark_interrupted_on_startup reopen_unverified_completed_units
  restart s = mark_interrupted_on_startup s >>= λ marked. reopen_unverified_completed_units marked.0

  unfoldable pub resume_request : String → String → String → String → ℕ → Request
  resume_request node_id decision decided_by target count =
      record (plain_request "branch.resumed"
        (object (
          member "node_id" (text node_id) (
            member "decision" (text decision) (
              member "decided_by" (text decided_by) (
                member "resumed_to" (text target)
                  (member "attempts_preserved" (integer (pos count)) no_members))))))
        ("branch-resume:" ++ (node_id ++ (":" ++ lib.decimal (pos count)))) (some "Director")) {
          node_id = some node_id;
        }

  -- The update, the event and what is returned, once the history is read.
  unfoldable pub resume_row :
      Store
      → NodeRow
      → Members
      → Items
      → String
      → String
      → String
      → Result ResumeError (Store × Resumed)
  unfolding append_event resume_request ready_frontier human_required_nodes set
  resume_row s row kept history decision decided_by target =
      let longer = append_item history (decision_entry decision decided_by target row.status) in
      let data_json = lib.dumps (object (set "human_decisions" (array longer) kept)) in
      let nodes = map (set_node row.graph_id row.node_id target data_json) s.nodes in
      let q = resume_request row.node_id decision decided_by target (item_count longer) in
      lift_ledger (record_event s.ledger q) >>= λ out. ok (
        record s { nodes = nodes; ledger = out.0 },
        record {
          node_id = row.node_id;
          resumed_to = target;
          decision = decision;
          event_sequence = out.1.sequence;
          ready_frontier = ready_frontier nodes s.edges;
          human_required = node_ids (human_required_nodes nodes);
        },
      )

  unfoldable pub resume_human_required :
      Store → String → String → String → String → Result ResumeError (Store × Resumed)
  unfolding resume_row get
  resume_human_required s node_id decision decided_by target =
      elim (find (λ r. r.node_id == node_id) s.nodes) [
        | none ↦ err (unknown_node node_id)
        | some row ↦
            if not (row.status == "human_required")
            then err (not_human_required node_id row.status)
            else if not (has target ("ready" ∷ "cancelled" ∷ "failed" ∷ []))
            then err (unsupported_target target)
            else elim (node_data lib row) [
              | none ↦ err unreadable_history
              | some kept ↦ elim (decisions_of kept) [
                | none ↦ err unreadable_history
                | some history ↦ resume_row s row kept history decision decided_by target
              ]
            ]
      ]
