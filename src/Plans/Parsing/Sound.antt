-- ===== src/Plans/Parsing/Sound.antt =====
-- What a plan that is parsed holds.
use graph_coder.Base.{
  nil_of_is_nil, String, true, not, List, [], ◌∷◌, is_nil, distinct, Dict, ok, >>=-eq-ok, raise_if,
  raise_if-eq-ok, true_of_not, returned-injective, ◌==◌, ◌≡◌, inl, inr, refl, sym, ap, ◌∙◌, subst,
  In, Option-cases,
}
use graph_coder.Values.{Json, Members, Library, get_or_null, str_of}
use graph_coder.Plans.Documents.{
  ImplementationUnit, PlanDocument, PlanError, duplicate_ids, gates_failed, missing_headings,
}
use graph_coder.Plans.Trace.{check_traceability}
use graph_coder.Plans.Trace.Named.{NamesEachOther}
use graph_coder.Plans.Parsing.Linked.{traceability_names}
use graph_coder.Plans.Trace.Linked.{IsTraceable, check_traceability-IsTraceable}
use graph_coder.Plans.Hashes.{semantic_unit_hash, hash_payload}
use graph_coder.Plans.Readiness.{
  collect_readiness_defects, check_maximum_reliability_gates, unit_ids_of,
}
use graph_coder.Plans.Checks.{
  check_ids, validate_ids, requirement_ids_of, example_ids_of, invariant_ids_of, require_metadata,
}
use graph_coder.Plans.Parsing.{
  extract_headings, Markdown, entries_of, item_members, unit_from_mapping, with_hash, parse_units,
  parse_requirements, parse_examples, parse_invariants, frontmatter, read_plan, check_plan,
  parse_markdown_plan, lacking_headings, required_headings,
}

check_ids-distinct :
    (kind : String) (prefixes values : List String)
    → check_ids kind prefixes values ≡ ok tt
    → distinct values ≡ true
unfolding check_ids
check_ids-distinct kind prefixes values h =
    let (u, e, f) = >>=-eq-ok (raise_if (not (distinct values)) (duplicate_ids kind)) _ h in
    true_of_not (distinct values) (raise_if-eq-ok (not (distinct values)) (duplicate_ids kind) e)

-- No identifier occurs twice.
pub record IsDistinct (plan : PlanDocument) : Type 0 where
  pub requirements : distinct (requirement_ids_of plan.requirements) ≡ true
  pub examples : distinct (example_ids_of plan.acceptance_examples) ≡ true
  pub invariants : distinct (invariant_ids_of plan.invariants) ≡ true
  pub units : distinct (unit_ids_of plan.units) ≡ true

validate_ids-IsDistinct : (plan : PlanDocument) → validate_ids plan ≡ ok tt → IsDistinct plan
unfolding validate_ids
validate_ids-IsDistinct plan h =
    let (a, e, h1) =
      >>=-eq-ok (check_ids "requirement" ("R-" ∷ []) (requirement_ids_of plan.requirements)) _ h in
    let (b, f, h2) =
      >>=-eq-ok (check_ids "acceptance" ("AE-" ∷ []) (example_ids_of plan.acceptance_examples)) _
        h1 in
    let (c, g, h3) =
      >>=-eq-ok (check_ids "invariant" ("I-" ∷ []) (invariant_ids_of plan.invariants)) _ h2 in
    record {
      requirements =
          check_ids-distinct "requirement" ("R-" ∷ []) (requirement_ids_of plan.requirements) e;
      examples =
          check_ids-distinct "acceptance" ("AE-" ∷ []) (example_ids_of plan.acceptance_examples) f;
      invariants = check_ids-distinct "invariant" ("I-" ∷ []) (invariant_ids_of plan.invariants) g;
      units = check_ids-distinct "unit" ("IU-" ∷ "U-" ∷ []) (unit_ids_of plan.units) h3;
    }

gates-clear :
    (library : Library) (plan : PlanDocument)
    → check_maximum_reliability_gates library plan ≡ ok tt
    → collect_readiness_defects library plan ≡ ok []
unfolding check_maximum_reliability_gates
gates-clear library plan h =
    let (defects, e, f) = >>=-eq-ok (collect_readiness_defects library plan) _ h in
    e
    ∙ ap ok (nil_of_is_nil defects (raise_if-eq-ok (not (is_nil defects)) (gates_failed defects) f))

-- A plan that is ready to be carried out: its traces close, and it has no defect.
pub record IsReady (library : Library) (plan : PlanDocument) : Type 0 where
  pub traceable : IsTraceable plan
  pub linked : NamesEachOther plan
  pub clear : collect_readiness_defects library plan ≡ ok []

check_plan-IsReady :
    (library : Library) (readiness : String) (plan : PlanDocument)
    → check_plan library readiness plan ≡ ok tt
    → IsDistinct plan × ((readiness == "implementation-ready") ≡ true → IsReady library plan)
unfolding check_plan
check_plan-IsReady library readiness plan h =
    let (u, e, f) = >>=-eq-ok (validate_ids plan) _ h in
    let d = validate_ids-IsDistinct plan e in
    (
      d,
      λ r.
          let (v, g, k) = >>=-eq-ok (check_traceability plan) _ (rw r at f) in
          record {
            traceable = (check_traceability-IsTraceable plan).0 g;
            linked = traceability_names plan d.requirements d.units d.examples g;
            clear = gates-clear library plan k;
          },
    )

-- A unit carries its own hash.
abbrev pub IsHashed : Library → List ImplementationUnit → Type 0
IsHashed library units =
    (u : ImplementationUnit) → In u units → u.semantic_hash ≡ semantic_unit_hash library u

parse_units-IsHashed :
    (library : Library) (values : List Json) (units : List ImplementationUnit)
    → parse_units library values ≡ ok units
    → IsHashed library units
unfolding parse_units with_hash semantic_unit_hash hash_payload
parse_units-IsHashed library [] units h u i =
    elim (subst (In u) (sym (returned-injective PlanError h)) i) [ ]
parse_units-IsHashed library (v ∷ vs) units h u i =
    let (m, _, h1) = >>=-eq-ok (item_members library v) _ h in
    let (w, _, h2) = >>=-eq-ok (unit_from_mapping library m) _ h1 in
    let (more, e, h3) = >>=-eq-ok (parse_units library vs) _ h2 in
    elim (subst (In u) (sym (returned-injective PlanError h3)) i) [
      | inl same ↦ subst (λ z. z.semantic_hash ≡ semantic_unit_hash library z) same refl
      | inr j ↦ parse_units-IsHashed library vs more e u j
    ]

-- What is read from the frontmatter.
pub record IsRead (library : Library) (source : String) (plan : PlanDocument) : Type 0 where
  pub hashed : IsHashed library plan.units
  pub content : plan.content_hash ≡ library.sha256 source
  pub kept : plan.source ≡ source

read_plan-IsRead :
    (library : Library) (metadata : Members) (headings : Dict String) (source : String)
    (plan : PlanDocument)
    → read_plan library metadata headings source ≡ ok plan
    → IsRead library source plan × (plan.metadata ≡ metadata)
unfolding read_plan
read_plan-IsRead library metadata headings source plan h =
    let (a, _, h1) = >>=-eq-ok (entries_of library metadata "units") _ h in
    let (units, e, h2) = >>=-eq-ok (parse_units library a) _ h1 in
    let (b, _, h3) = >>=-eq-ok (entries_of library metadata "requirements") _ h2 in
    let (rs, _, h4) = >>=-eq-ok (parse_requirements library b) _ h3 in
    let (c, _, h5) = >>=-eq-ok (entries_of library metadata "acceptance_examples") _ h4 in
    let (es, _, h6) = >>=-eq-ok (parse_examples library c) _ h5 in
    let (d, _, h7) = >>=-eq-ok (entries_of library metadata "invariants") _ h6 in
    let (is, _, h8) = >>=-eq-ok (parse_invariants library d) _ h7 in
    let same = returned-injective PlanError h8 in
    (
      record {
        hashed =
            subst (λ z. IsHashed library z.units) same (parse_units-IsHashed library a units e);
        content = ap (λ z. z.content_hash) (sym same);
        kept = ap (λ z. z.source) (sym same);
      },
      ap (λ z. z.metadata) (sym same),
    )

-- `str` of the recorded readiness.
abbrev pub readiness_of : Library → PlanDocument → String
readiness_of library plan = str_of library (get_or_null "artifact_readiness" plan.metadata)

-- What `parse_markdown_plan` returns.
pub record IsParsed (library : Library) (source : String) (plan : PlanDocument) : Type 0 where
  pub read : IsRead library source plan
  pub distinct_ids : IsDistinct plan
  pub checked : require_metadata library plan.metadata ≡ ok tt
  pub ready : (readiness_of library plan == "implementation-ready") ≡ true → IsReady library plan

-- Where `parse_markdown_plan` returns a plan: each unit carries its own semantic hash, the plan
-- keeps its source and the hash of it, its frontmatter passes the checks, no identifier occurs
-- twice, and in a plan that calls itself implementation-ready requirements, examples and units name
-- each other and there is no defect.
pub parse_markdown_plan-IsParsed :
    (library : Library) (markdown : Markdown) (source : String) (plan : PlanDocument)
    → parse_markdown_plan library markdown source ≡ ok plan
    → IsParsed library source plan
unfolding parse_markdown_plan
parse_markdown_plan-IsParsed library markdown source plan h =
    elim (Option-cases (markdown.split source)) [
      | inl e ↦ let bad = rw (e, parse_markdown_plan) at h in cc
      | inr (pair, e) ↦
          let (front, body) = pair in
          let h0 = rw (e, parse_markdown_plan) at h in
          let (metadata, _, h1) = >>=-eq-ok (frontmatter library (markdown.safe_load front)) _ h0 in
          let (u, checked, h2) = >>=-eq-ok (require_metadata library metadata) _ h1 in
          let headings = extract_headings markdown body in
          let missing =
            lacking_headings library
              (required_headings library
                (str_of library (get_or_null "artifact_readiness" metadata)))
              headings in
          let (w, _, h3) =
            >>=-eq-ok (raise_if (not (is_nil missing)) (missing_headings missing)) _ h2 in
          let (p, r, h4) = >>=-eq-ok (read_plan library metadata headings source) _ h3 in
          let readiness = str_of library (get_or_null "artifact_readiness" metadata) in
          let (x, f, h5) = >>=-eq-ok (check_plan library readiness p) _ h4 in
          let same = returned-injective PlanError h5 in
          let (read, meta) = read_plan-IsRead library metadata headings source p r in
          let (ids, ready) = check_plan-IsReady library readiness p f in
          subst (IsParsed library source) same record {
            read = read;
            distinct_ids = ids;
            checked = subst (λ z. require_metadata library z ≡ ok tt) (sym meta) checked;
            ready = λ t. ready (
                subst
                  (λ z.
                    (str_of library (get_or_null "artifact_readiness" z) == "implementation-ready")
                    ≡ true)
                  meta t);
          }
    ]
