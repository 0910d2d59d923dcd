-- ===== src/Plans/Entries.antt =====
-- plans.py: the entries of the frontmatter, as units, requirements, examples and invariants.
use graph_coder.Base.{String, List, [], ◌∷◌, none, some, Result, ok, err, ◌>>=◌}
use graph_coder.Graph.Node.{ℤ, pos}
use graph_coder.Values.{
  Json, integer, text, array, object, Items, no_items, item, Members, no_members, member, Library,
  get, str_of, get_or_null,
}
use graph_coder.Plans.Documents.{
  ImplementationUnit, Requirement, AcceptanceExample, PlanInvariant, PlanError, missing_key,
  wrong_type,
}
use graph_coder.Plans.Hashes.{semantic_unit_hash}

abbrev pub Parsed : Type 0 → Type 0
Parsed = Result PlanError

abbrev pub characters : String → List Json
characters String.[] = []
characters (String.◌∷◌ c s) = text (String.◌∷◌ c String.[]) ∷ characters s

abbrev pub items_list : Items → List Json
items_list no_items = []
items_list (item v rest) = v ∷ items_list rest

abbrev pub keys_list : Members → List Json
keys_list no_members = []
keys_list (member k v rest) = text k ∷ keys_list rest

-- `for value in container`.
unfoldable pub iterate : Json → Parsed (List Json)
iterate (array xs) = ok (items_list xs)
iterate (object m) = ok (keys_list m)
iterate (text s) = ok (characters s)
iterate other = err (wrong_type other)

module _ (library : Library) where
  abbrev pub texts : List Json → List String
  texts [] = []
  texts (v ∷ vs) = str_of library v ∷ texts vs

  -- `_strings(item, name)`.
  unfoldable pub strings : Members → String → Parsed (List String)
  unfolding iterate get
  strings m name = elim (get name m) [ none ↦ ok [] | some v ↦ iterate v >>= λ vs. ok (texts vs) ]

  -- `str(item[name])` and `str(item.get(name, default))`.
  unfoldable pub required_text : Members → String → Parsed String
  unfolding get
  required_text m name = elim (get name m) [
    | none ↦ err (missing_key name)
    | some v ↦ ok (str_of library v)
  ]

  abbrev pub text_or : String → Members → String → String
  text_or default m name = elim (get name m) [ none ↦ default | some v ↦ str_of library v ]

  -- `dict(item.get(name, {}))`.
  unfoldable pub mapping_of : Members → String → Parsed Members
  unfolding get
  mapping_of m name = elim (get name m) [
    | none ↦ ok no_members
    | some (object d) ↦ ok d
    | some other ↦ elim (library.dict other) [ none ↦ err (wrong_type other) | some d ↦ ok d ]
  ]

  -- `int(item.get("attempt_limit", 2))`.
  unfoldable pub attempt_limit_of : Members → Parsed ℤ
  unfolding get
  attempt_limit_of m = elim (get "attempt_limit" m) [
    | none ↦ ok (pos 2)
    | some (integer n) ↦ ok n
    | some other ↦ elim (library.int other) [ none ↦ err (wrong_type other) | some n ↦ ok n ]
  ]

  -- Subscripts of an item that is not a mapping raise.
  abbrev pub item_members : Json → Parsed Members
  item_members (object m) = ok m
  item_members other = err (wrong_type other)

  unfoldable pub unit_from_mapping : Members → Parsed ImplementationUnit
  unfolding required_text strings mapping_of attempt_limit_of get
  unit_from_mapping m = do
    unit_id ← required_text m "unit_id"
    objective ← required_text m "objective"
    acceptance ← strings m "acceptance"
    requirement_ids ← strings m "requirement_ids"
    acceptance_example_ids ← strings m "acceptance_example_ids"
    dependencies ← strings m "dependencies"
    input_artifacts ← strings m "input_artifacts"
    inspect_targets ← strings m "inspect_targets"
    read_scope ← strings m "read_scope"
    write_scope ← strings m "write_scope"
    forbidden_scope ← strings m "forbidden_scope"
    interfaces ← strings m "interfaces"
    procedure ← strings m "procedure"
    forward_proof ← strings m "forward_proof"
    regression_proof ← strings m "regression_proof"
    commands ← strings m "commands"
    output_artifacts ← strings m "output_artifacts"
    output_contract ← strings m "output_contract"
    progress_contract ← mapping_of m "progress_contract"
    capability_profile ← mapping_of m "capability_profile"
    attempt_limit ← attempt_limit_of m
    escalation_conditions ← strings m "escalation_conditions"
    review_contract ← mapping_of m "review_contract"
    context_manifest ← mapping_of m "context_manifest"
    retry_policy ← mapping_of m "retry_policy"
    stop_conditions ← strings m "stop_conditions"
    completion_evidence ← strings m "completion_evidence"
    ok record {
      unit_id = unit_id;
      title = text_or "" m "title";
      objective = objective;
      acceptance = acceptance;
      requirement_ids = requirement_ids;
      acceptance_example_ids = acceptance_example_ids;
      rationale = text_or "" m "rationale";
      dependencies = dependencies;
      input_artifacts = input_artifacts;
      inspect_targets = inspect_targets;
      read_scope = read_scope;
      write_scope = write_scope;
      forbidden_scope = forbidden_scope;
      interfaces = interfaces;
      procedure = procedure;
      forward_proof = forward_proof;
      regression_proof = regression_proof;
      commands = commands;
      output_artifacts = output_artifacts;
      output_contract = output_contract;
      progress_contract = progress_contract;
      risk = text_or "medium" m "risk";
      complexity = text_or "medium" m "complexity";
      capability_profile = capability_profile;
      primary_route = get_or_null "primary_route" m;
      fallback_route = get_or_null "fallback_route" m;
      attempt_limit = attempt_limit;
      escalation_conditions = escalation_conditions;
      manager_id = text_or "" m "manager_id";
      review_contract = review_contract;
      context_manifest = context_manifest;
      retry_policy = retry_policy;
      failure_domain = text_or "node" m "failure_domain";
      stop_conditions = stop_conditions;
      completion_evidence = completion_evidence;
      status = text_or "pending" m "status";
      semantic_hash = text_or "" m "semantic_hash";
    }

  -- `with_hash`: a hash that is given does not count.
  unfoldable pub with_hash : ImplementationUnit → ImplementationUnit
  unfolding semantic_unit_hash
  with_hash unit = record unit { semantic_hash = semantic_unit_hash library unit }

  unfoldable pub parse_units : List Json → Parsed (List ImplementationUnit)
  unfolding unit_from_mapping with_hash
  parse_units [] = ok []
  parse_units (v ∷ vs) =
      let later = parse_units vs in
      item_members v >>= λ m. unit_from_mapping m >>= λ u. later >>= λ us. ok (with_hash u ∷ us)

  unfoldable pub parse_requirements : List Json → Parsed (List Requirement)
  unfolding required_text strings get
  parse_requirements [] = ok []
  parse_requirements (v ∷ vs) =
      let later = parse_requirements vs in
      item_members v >>= λ m. required_text m "requirement_id" >>= λ name.
      strings m "unit_ids" >>= λ unit_ids. later >>= λ rest. ok (
        record {
          requirement_id = name;
          description = text_or "" m "description";
          unit_ids = unit_ids;
        }
        ∷ rest)

  unfoldable pub parse_examples : List Json → Parsed (List AcceptanceExample)
  unfolding required_text strings get
  parse_examples [] = ok []
  parse_examples (v ∷ vs) =
      let later = parse_examples vs in
      item_members v >>= λ m. required_text m "example_id" >>= λ name.
      strings m "unit_ids" >>= λ unit_ids. later >>= λ rest. ok (
        record { example_id = name; description = text_or "" m "description"; unit_ids = unit_ids }
        ∷ rest)

  unfoldable pub parse_invariants : List Json → Parsed (List PlanInvariant)
  unfolding required_text strings get
  parse_invariants [] = ok []
  parse_invariants (v ∷ vs) =
      let later = parse_invariants vs in
      item_members v >>= λ m. required_text m "invariant_id" >>= λ name.
      strings m "unit_ids" >>= λ unit_ids. later >>= λ rest. ok (
        record {
          invariant_id = name;
          description = text_or "" m "description";
          unit_ids = unit_ids;
        }
        ∷ rest)
