-- ===== src/Plans/Parsing.antt =====
-- plans.py `parse_markdown_plan`: from Markdown with YAML frontmatter to a checked plan. The two
-- regular expressions and PyYAML are parameters.
pub mod Linked
pub mod Sound
unfoldable pub use graph_coder.Plans.Entries.{
  Parsed, characters, items_list, keys_list, iterate, texts, strings, required_text, text_or,
  mapping_of, attempt_limit_of, item_members, unit_from_mapping, with_hash, parse_units,
  parse_requirements, parse_examples, parse_invariants,
}
use Prim.Native.String.{◌++◌ as str_append}
use graph_coder.Base.{
  ℕ, zero, suc, ◌-◌, insert, String, Bool, true, false, not, ◌&&◌, List, [], ◌∷◌, ◌++◌, Option,
  none, some, is_nil, is_none, keep, has, Dict, lookup, Result, ok, err, ◌>>=◌, ◌>>◌, raise_if,
  ◌==◌, if◌then◌else◌,
}
use graph_coder.Graph.Node.{ℤ, pos}
use graph_coder.Values.{
  Json, null, boolean, integer, text, array, object, Items, no_items, item, Members, no_members,
  member, Library, get, is_truthy, str_of, get_or_null,
}
use graph_coder.Plans.Documents.{
  ImplementationUnit, Requirement, AcceptanceExample, PlanInvariant, PlanDocument, PlanError,
  no_frontmatter, frontmatter_not_mapping, missing_headings, missing_key, wrong_type,
}
use graph_coder.Plans.Trace.{Tried, check_traceability}
use graph_coder.Plans.Hashes.{semantic_unit_hash, first_characters}
use graph_coder.Plans.Readiness.{check_maximum_reliability_gates}
use graph_coder.Plans.Checks.{require_metadata, validate_ids}

-- A match of a heading's pattern: its group, and where it starts and ends in the body.
pub record HeadingMatch : Type 0 where
  pub heading : String
  pub start : ℕ
  pub end : ℕ

-- What splits and reads the Markdown.
pub record Markdown : Type 0 where
  -- The frontmatter and the body, by the pattern of `re.match`.
  pub split : String → Option (String × String)
  -- `yaml.safe_load`.
  pub safe_load : String → Json
  -- `re.finditer` of a heading's pattern in the body, and `str.strip`.
  pub finditer : String → List HeadingMatch
  pub strip : String → String

-- `s[n:]`.
unfoldable pub drop_characters : ℕ → String → String
drop_characters zero s = s
drop_characters (suc n) String.[] = ""
drop_characters (suc n) (String.◌∷◌ c s) = drop_characters n s

-- `body[start:end]`, to the start of the next match or to the end of the body.
unfoldable pub section_of : String → HeadingMatch → List HeadingMatch → String
unfolding first_characters drop_characters
section_of body m [] = drop_characters m.end body
section_of body m (n ∷ rest) = first_characters (n.start - m.end) (drop_characters m.end body)

-- The loop of `_extract_headings`.
unfoldable pub headings_from : Markdown → String → List HeadingMatch → Dict String → Dict String
unfolding section_of insert
headings_from markdown body [] headings = headings
headings_from markdown body (m ∷ rest) headings =
    headings_from markdown body rest
      (insert (markdown.strip m.heading) (markdown.strip (section_of body m rest)) headings)

unfoldable pub extract_headings : Markdown → String → Dict String
unfolding headings_from
extract_headings markdown body = headings_from markdown body (markdown.finditer body) []

abbrev pub canonical_sections : List String
canonical_sections =
    "Goal Capsule" ∷ "Concept and Requirements" ∷ "Scope and Non-Goals"
    ∷ "Acceptance and Invariants" ∷ "Repository Grounding" ∷ "Technical Research"
    ∷ "Technical Decisions" ∷ "System Impact" ∷ "Canonical Implementation Units"
    ∷ "Delegation Graph" ∷ "Routing Assignments" ∷ "Context Contract" ∷ "Verification Contract"
    ∷ "Failure and Recovery Contract" ∷ "Definition of Done" ∷ "Sources and Evidence" ∷ []

abbrev pub requirements_ready_headings : List String
requirements_ready_headings =
    "Goal Capsule" ∷ "Concept and Requirements" ∷ "Scope and Non-Goals"
    ∷ "Acceptance and Invariants" ∷ "Sources and Evidence" ∷ []

module _ (library : Library) where
  -- `metadata.get(name, [])`, walked over.
  unfoldable pub entries_of : Members → String → Parsed (List Json)
  unfolding iterate get
  entries_of metadata name = elim (get name metadata) [ none ↦ ok [] | some v ↦ iterate v ]

  -- `yaml.safe_load(...) or {}`, which must be a mapping.
  unfoldable pub frontmatter : Json → Parsed Members
  frontmatter (object m) = ok m
  frontmatter v = if is_truthy v then err frontmatter_not_mapping else ok no_members

  abbrev pub required_headings : String → List String
  required_headings readiness =
      if readiness == "implementation-ready"
      then canonical_sections
      else requirements_ready_headings

  abbrev pub lacking_headings : List String → Dict String → List String
  lacking_headings required headings = keep (λ h. is_none (lookup h headings)) required

  -- The plan, before its checks.
  unfoldable pub read_plan : Members → Dict String → String → Parsed PlanDocument
  unfolding parse_units parse_requirements parse_examples parse_invariants entries_of get
  read_plan metadata headings source = do
    unit_items ← entries_of metadata "units"
    units ← parse_units library unit_items
    requirement_items ← entries_of metadata "requirements"
    requirements ← parse_requirements library requirement_items
    example_items ← entries_of metadata "acceptance_examples"
    examples ← parse_examples library example_items
    invariant_items ← entries_of metadata "invariants"
    invariants ← parse_invariants library invariant_items
    ok record {
      metadata = metadata;
      headings = headings;
      units = units;
      requirements = requirements;
      acceptance_examples = examples;
      invariants = invariants;
      content_hash = library.sha256 source;
      plan_id = str_of library (get_or_null "plan_id" metadata);
      source = source;
    }

  -- The checks on the plan that is read.
  unfoldable pub check_plan : String → PlanDocument → Tried
  unfolding validate_ids check_traceability check_maximum_reliability_gates
  check_plan readiness plan =
      validate_ids plan
      >> (if readiness == "implementation-ready"
          then (check_traceability plan >> check_maximum_reliability_gates library plan)
          else ok tt)

  unfoldable pub parse_markdown_plan : Markdown → String → Parsed PlanDocument
  unfolding frontmatter require_metadata read_plan check_plan extract_headings lookup get
  parse_markdown_plan markdown source = elim (markdown.split source) [
    | none ↦ err no_frontmatter
    | some (front, body) ↦ frontmatter (markdown.safe_load front) >>= λ metadata.
        require_metadata library metadata
        >> (let headings = extract_headings markdown body in
            let readiness = str_of library (get_or_null "artifact_readiness" metadata) in
            let missing = lacking_headings (required_headings readiness) headings in
            raise_if (not (is_nil missing)) (missing_headings missing)
            >> (read_plan metadata headings source >>= λ plan.
                check_plan readiness plan >> ok plan))
  ]
