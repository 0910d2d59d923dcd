-- ===== src/Plans/Hashes.antt =====
-- plans.py: what the hash of a unit covers, and approvals bound to hashes.
pub mod Covers
use Prim.Native.String.{◌++◌ as str_append}
use graph_coder.Base.{
  ℕ, zero, suc, String, Bool, true, false, not, ◌&&◌, List, [], ◌∷◌, Option, none, some, is_nil,
  keep, sorted, Dict, lookup, Result, ok, err, ◌>>=◌, ◌==◌, if◌then◌else◌,
}
use graph_coder.Values.{
  Json, null, integer, text, array, object, no_members, member, Members, Library, items_of, get,
  get_truthy, str_of,
}
use graph_coder.Plans.Documents.{ImplementationUnit, PlanDocument, PlanError, approval_not_mapping}

-- `s[:n]`.
unfoldable pub first_characters : ℕ → String → String
first_characters zero s = ""
first_characters (suc n) String.[] = ""
first_characters (suc n) (String.◌∷◌ c s) = String.◌∷◌ c (first_characters n s)

-- `sorted(str(value) for value in ...)`, of texts.
abbrev pub sorted_strings : List String → Json
sorted_strings xs = array (items_of (sorted xs))

unfoldable pub hash_payload : ImplementationUnit → Json
unfolding sorted items_of
hash_payload unit = object (
    member "objective" (text unit.objective) (
      member "acceptance" (sorted_strings unit.acceptance) (
        member "dependencies" (sorted_strings unit.dependencies) (
          member "interfaces" (sorted_strings unit.interfaces) (
            member "read_scope" (sorted_strings unit.read_scope) (
              member "write_scope" (sorted_strings unit.write_scope) (
                member "forbidden_scope" (sorted_strings unit.forbidden_scope) (
                  member "commands" (sorted_strings unit.commands) (
                    member "output_artifacts" (sorted_strings unit.output_artifacts) (
                      member "manager_id" (text unit.manager_id) (
                        member "review_contract" (object unit.review_contract) (
                          member "context_manifest" (object unit.context_manifest) (
                            member "retry_policy" (object unit.retry_policy) (
                              member "routing"
                                (object (
                                  member "primary_route" unit.primary_route (
                                    member "fallback_route" unit.fallback_route (
                                      member "attempt_limit" (integer unit.attempt_limit)
                                        no_members))))
                                no_members))))))))))))))

-- Of an ImplementationUnit; `canonical_json` is the library's `dumps`.
unfoldable pub semantic_unit_hash : Library → ImplementationUnit → String
unfolding first_characters hash_payload
semantic_unit_hash library unit =
    str_append "U-" (first_characters 24 (library.sha256 (library.dumps (hash_payload unit))))

abbrev pub approval_hashes : List String
approval_hashes = "plan_hash" ∷ "graph_hash" ∷ "route_hash" ∷ "render_hash" ∷ []

-- `str(approval.get(name, ""))`.
abbrev pub recorded_hash : Library → Members → String → String
recorded_hash library approval name = elim (get name approval) [
  | none ↦ ""
  | some v ↦ str_of library v
]

abbrev pub recorded_hashes : Library → Members → List String → Dict String
recorded_hashes library approval [] = []
recorded_hashes library approval (name ∷ names) =
    (name, recorded_hash library approval name) ∷ recorded_hashes library approval names

-- `plan.metadata.get("approval", {})`, where it is a mapping.
unfoldable pub approval_of : PlanDocument → Result PlanError Members
unfolding get
approval_of plan = elim (get "approval" plan.metadata) [
  | none ↦ ok no_members
  | some (object m) ↦ ok m
  | some _ ↦ err approval_not_mapping
]

unfoldable pub approval_binding : Library → PlanDocument → Result PlanError (Dict String)
unfolding approval_of get
approval_binding library plan =
    approval_of plan >>= λ approval. ok (recorded_hashes library approval approval_hashes)

-- `name in current and current[name] and recorded[name] != current[name]`.
abbrev pub differs : Option String → Option String → Bool
differs none recorded = false
differs (some h) none = not (h == "")
differs (some h) (some r) = not (h == "") && not (r == h)

abbrev pub drifts : Dict String → Dict String → String → Bool
drifts recorded current name = differs (lookup name current) (lookup name recorded)

unfoldable pub approval_is_valid :
    Library → PlanDocument → Dict String → Result PlanError (Bool × List String)
unfolding approval_binding lookup get
approval_is_valid library plan current = approval_binding library plan >>= λ recorded.
    let drifted = keep (drifts recorded current) approval_hashes in
    ok (is_nil drifted && get_truthy "approved" plan.metadata, drifted)
