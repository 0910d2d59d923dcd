-- ===== src/Plans/Checks.antt =====
-- plans.py `_require_metadata` and `_validate_ids`. The patterns of identifiers are written out on
-- code points; `$` also matches before a newline at the end.
use graph_coder.Base.{
  ℕ, String, Bool, true, false, not, ◌&&◌, ◌||◌, List, [], ◌∷◌, Option, none, some, is_nil, keep,
  has, distinct, codes, leb, eqb, ok, err, ◌>>◌, raise_if, if◌then◌else◌,
}
use graph_coder.Values.{
  Json, boolean, text, array, object, Members, Library, get, has_key, is_true, is_text, str_of,
  get_or_null, get_truthy,
}
use graph_coder.Plans.Documents.{
  Requirement, AcceptanceExample, PlanInvariant, PlanDocument, PlanError, wrong_contract,
  wrong_readiness, wrong_plan_id, wrong_version, wrong_receipt, wrong_approved, approved_too_early,
  unbound_approval, summary_approval, missing_frontmatter, missing_hashes, duplicate_ids,
  invalid_ids, wrong_type,
}
use graph_coder.Plans.Trace.{Tried}
use graph_coder.Plans.Hashes.{approval_hashes}
use graph_coder.Plans.Readiness.{is_positive, unit_ids_of}

-- `[A-Za-z0-9]` and `[A-Za-z0-9._-]`.
abbrev pub is_alphanumeric : ℕ → Bool
is_alphanumeric c = (leb 65 c && leb c 90) || ((leb 97 c && leb c 122) || (leb 48 c && leb c 57))

abbrev pub is_id_character : ℕ → Bool
is_id_character c = is_alphanumeric c || (eqb c 46 || (eqb c 95 || eqb c 45))

-- `[A-Za-z0-9._-]*$`.
unfoldable pub is_tail : List ℕ → Bool
is_tail [] = true
is_tail (c ∷ []) = is_id_character c || eqb c 10
is_tail (c ∷ d ∷ rest) = is_id_character c && is_tail (d ∷ rest)

unfoldable pub is_body : List ℕ → Bool
unfolding is_tail
is_body [] = false
is_body (c ∷ rest) = is_alphanumeric c && is_tail rest

-- The characters after a prefix, where it is one.
unfoldable pub after : List ℕ → List ℕ → Option (List ℕ)
after [] cs = some cs
after (p ∷ ps) [] = none
after (p ∷ ps) (c ∷ cs) = let rest = after ps cs in if eqb p c then rest else none

unfoldable pub matches_prefix : String → String → Bool
unfolding after is_body
matches_prefix prefix s = elim (after (codes prefix) (codes s)) [
  | none ↦ false
  | some rest ↦ is_body rest
]

-- `ID_PATTERNS[kind].match(value)`, by the prefixes of the kind.
unfoldable pub matches_id : List String → String → Bool
unfolding matches_prefix
matches_id [] s = false
matches_id (prefix ∷ more) s = let rest = matches_id more s in matches_prefix prefix s || rest

abbrev pub required_keys : List String
required_keys =
    "artifact_contract" ∷ "artifact_readiness" ∷ "plan_id" ∷ "plan_version" ∷ "planned_at_commit"
    ∷ "primary_planning_model" ∷ "planning_model_receipt" ∷ "approved" ∷ []

-- `value in {...}`, for a set of texts: a list or a mapping has no hash.
unfoldable pub check_among : List String → PlanError → Json → Tried
check_among allowed problem (array xs) = err (wrong_type (array xs))
check_among allowed problem (object m) = err (wrong_type (object m))
check_among allowed problem (text s) = raise_if (not (has s allowed)) problem
check_among allowed problem _ = err problem

-- The approval that an approved plan records.
unfoldable pub check_approval : Members → Tried
unfolding get
check_approval metadata = elim (get_or_null "approval" metadata) [
  | object approval ↦
      let missing = keep (λ name. not (get_truthy name approval)) approval_hashes in
      raise_if (not (is_nil missing)) (missing_hashes missing)
      >> raise_if (not (is_true (get_or_null "rendered_full_plan" approval))) summary_approval
  | _ ↦ err unbound_approval
]

abbrev pub is_boolean : Json → Bool
is_boolean (boolean b) = true
is_boolean _ = false

unfoldable pub require_metadata : Library → Members → Tried
unfolding get check_among matches_id check_approval
require_metadata library metadata = do
  raise_if (not (is_nil (keep (λ key. not (has_key key metadata)) required_keys)))
      (missing_frontmatter (keep (λ key. not (has_key key metadata)) required_keys))
  raise_if (not (is_text "graph-coder/v1" (get_or_null "artifact_contract" metadata)))
      wrong_contract
  check_among ("requirements-ready" ∷ "implementation-ready" ∷ []) wrong_readiness
      (get_or_null "artifact_readiness" metadata)
  raise_if (not (matches_id ("P-" ∷ []) (str_of library (get_or_null "plan_id" metadata))))
      wrong_plan_id
  raise_if (not (is_positive (get_or_null "plan_version" metadata))) wrong_version
  check_among ("verified" ∷ "unverified" ∷ []) wrong_receipt
      (get_or_null "planning_model_receipt" metadata)
  raise_if (not (is_boolean (get_or_null "approved" metadata))) wrong_approved
  raise_if
      (is_true (get_or_null "approved" metadata)
        && not (is_text "implementation-ready" (get_or_null "artifact_readiness" metadata)))
      approved_too_early
  if is_true (get_or_null "approved" metadata) then check_approval metadata else ok tt

-- One group of identifiers.
unfoldable pub check_ids : String → List String → List String → Tried
unfolding matches_id
check_ids kind prefixes values = do
  raise_if (not (distinct values)) (duplicate_ids kind)
  raise_if (not (is_nil (keep (λ v. not (matches_id prefixes v)) values)))
      (invalid_ids kind (keep (λ v. not (matches_id prefixes v)) values))

abbrev pub requirement_ids_of : List Requirement → List String
requirement_ids_of [] = []
requirement_ids_of (r ∷ rs) = r.requirement_id ∷ requirement_ids_of rs

abbrev pub example_ids_of : List AcceptanceExample → List String
example_ids_of [] = []
example_ids_of (e ∷ es) = e.example_id ∷ example_ids_of es

abbrev pub invariant_ids_of : List PlanInvariant → List String
invariant_ids_of [] = []
invariant_ids_of (i ∷ is) = i.invariant_id ∷ invariant_ids_of is

unfoldable pub validate_ids : PlanDocument → Tried
unfolding check_ids
validate_ids plan = do
  check_ids "requirement" ("R-" ∷ []) (requirement_ids_of plan.requirements)
  check_ids "acceptance" ("AE-" ∷ []) (example_ids_of plan.acceptance_examples)
  check_ids "invariant" ("I-" ∷ []) (invariant_ids_of plan.invariants)
  check_ids "unit" ("IU-" ∷ "U-" ∷ []) (unit_ids_of plan.units)
