-- ===== src/Examples/Plans.antt =====
-- The theorems on plans.py at a plan that is ready, and at one that is parsed.
use graph_coder.Base.{
  String, Bool, true, false, List, [], ◌∷◌, some, ok, map, Dict, lookup, insert, sorted, refl, inl,
  ◌≡◌, ◌↔◌,
}
use graph_coder.Graph.Node.{pos}
use graph_coder.Values.{
  Json, boolean, integer, text, array, object, no_items, item, Members, no_members, member, get,
  items_of, get_truthy,
}
use graph_coder.Plans.Documents.{ImplementationUnit, PlanDocument}
use graph_coder.Plans.Hashes.{hash_payload, semantic_unit_hash, approval_of, approval_is_valid}
use graph_coder.Plans.Hashes.Covers.{
  SameWork, semantic_unit_hash-SameWork, IsBound, approval_is_valid-IsBound,
}
use graph_coder.Plans.Readiness.{required_truths, zero_fields, bound_fields}
use graph_coder.Plans.Reconcile.{reconcile_completed_units}
use graph_coder.Plans.Reconcile.Earned.{
  IsEarned, reconcile_completed_units-IsEarned, reconcile_completed_units-independent,
}
use graph_coder.Plans.Parsing.{Markdown, parse_markdown_plan, requirements_ready_headings}
use graph_coder.Plans.Parsing.Sound.{IsParsed, parse_markdown_plan-IsParsed}
use graph_coder.Examples.Documents.{unit, plan}
use graph_coder.Examples.Ledgers.{library}

abbrev one_text : List String
one_text = "x" ∷ []

abbrev some_members : Members
some_members = member "then" (text "human_required") no_members

-- A unit that lacks nothing.
abbrev full : ImplementationUnit
full = record unit {
  status = "completed";
  acceptance = one_text;
  inspect_targets = one_text;
  procedure = one_text;
  forward_proof = one_text;
  regression_proof = one_text;
  commands = one_text;
  output_artifacts = one_text;
  output_contract = one_text;
  progress_contract =
      member "checkpoint_every" (text "page")
        (member "command_timeout_seconds" (integer (pos 60)) no_members);
  manager_id = "manager";
  review_contract = some_members;
  context_manifest = some_members;
  retry_policy = some_members;
  stop_conditions = one_text;
  completion_evidence = one_text;
  dependencies = "IU-1" ∷ [];
}

abbrev reworded : ImplementationUnit
reworded = record full { title = "another"; write_scope = "src" ∷ []; rationale = "prose" }

semantic_unit_hash-SameWork_example :
    (semantic_unit_hash library full ≡ semantic_unit_hash library reworded) ↔ SameWork full reworded
unfolding hash_payload sorted items_of
semantic_unit_hash-SameWork_example = semantic_unit_hash-SameWork library full reworded λ e. refl

abbrev all_keys : List String → Json → Members → Members
all_keys [] v rest = rest
all_keys (k ∷ ks) v rest = member k v (all_keys ks v rest)

abbrev gate : Members
gate = all_keys required_truths (boolean true) (
    all_keys zero_fields (integer (pos 0)) (
      all_keys bound_fields (integer (pos 4))
        (member "execution_cost_ceiling" (integer (pos 10)) no_members)))

abbrev ready : PlanDocument
ready = record plan {
  metadata = member "artifact_readiness" (text "implementation-ready") (
      member "release_gate" (object gate) (
        member "approved" (boolean true)
          (member "approval" (object (member "plan_hash" (text "h1") no_members)) no_members)));
  units = full ∷ [];
  invariants = record { invariant_id = "I-1"; description = ""; unit_ids = [] } ∷ [];
}

abbrev current : Dict String
current = ("plan_hash", "h2") ∷ []

approval_is_valid-IsBound_example :
    (valid : Bool) × (drifted : List String) × (approval_is_valid library ready current
      ≡ ok (valid, drifted))
    × IsBound library (member "plan_hash" (text "h1") no_members) current drifted
    × ((valid ≡ true) ↔ ((drifted ≡ []) × (get_truthy "approved" ready.metadata ≡ true)))
unfolding approval_of get
approval_is_valid-IsBound_example =
    approval_is_valid-IsBound library ready (member "plan_hash" (text "h1") no_members) current refl

made : (out : List ImplementationUnit) × (reconcile_completed_units library ready ready ≡ ok out)
unfolding reconcile_completed_units lookup insert get sorted items_of semantic_unit_hash
made = (_, refl)

abbrev kept : ImplementationUnit
kept = record full { semantic_hash = semantic_unit_hash library full }

reconciled : reconcile_completed_units library ready ready ≡ ok (kept ∷ [])
unfolding reconcile_completed_units
reconciled = refl

reconcile_completed_units-IsEarned_example :
    (u : ImplementationUnit) × (old : ImplementationUnit) × IsEarned library ready ready kept u old
reconcile_completed_units-IsEarned_example =
    reconcile_completed_units-IsEarned library ready ready (kept ∷ []) kept reconciled (inl refl)
      refl

reconcile_completed_units-independent_example : "IU-1" ≡ kept.unit_id
reconcile_completed_units-independent_example =
    reconcile_completed_units-independent library ready ready (kept ∷ []) kept "IU-1" reconciled
      (inl refl) refl refl

-- A unit that depends on another is reopened, completed as it was.
abbrev dependent : PlanDocument
dependent = record ready {
  units = full ∷ record full { unit_id = "IU-2"; dependencies = "IU-1" ∷ [] } ∷ [];
  requirements =
      record { requirement_id = "R-1"; description = ""; unit_ids = "IU-1" ∷ "IU-2" ∷ [] } ∷ [];
}

statuses :
    (out : List ImplementationUnit) × (reconcile_completed_units library dependent dependent
      ≡ ok out)
    × (map (λ u. u.status) out ≡ "completed" ∷ "reopened" ∷ [])
unfolding reconcile_completed_units
statuses = (_, refl, refl)

abbrev front : Members
front = member "artifact_contract" (text "graph-coder/v1") (
    member "artifact_readiness" (text "requirements-ready") (
      member "plan_id" (text "P-1") (
        member "plan_version" (integer (pos 1)) (
          member "planned_at_commit" (text "c0") (
            member "primary_planning_model" (text "m1") (
              member "planning_model_receipt" (text "verified") (
                member "approved" (boolean false) (
                  member "units"
                    (array (
                      item
                        (object (
                          member "unit_id" (text "IU-1")
                            (member "objective" (text "parse") no_members)))
                        no_items))
                    no_members))))))))

abbrev markdown : Markdown
markdown = record {
  split = λ s. some (s, s);
  safe_load = λ s. object front;
  finditer = λ s. map (λ h. record { heading = h; start = 0; end = 0 }) requirements_ready_headings;
  strip = λ s. s;
}

parsed : (p : PlanDocument) × (parse_markdown_plan library markdown "source" ≡ ok p)
unfolding parse_markdown_plan
parsed = (_, refl)

parse_markdown_plan-IsParsed_example : IsParsed library "source" parsed.0
parse_markdown_plan-IsParsed_example =
    parse_markdown_plan-IsParsed library markdown "source" parsed.0 parsed.1
