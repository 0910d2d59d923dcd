-- ===== src/Plans/Hashes/Covers.antt =====
-- What moves the hash of a unit, and when an approval holds.
use package.text.Mathlib.TextLemmas.{append_cancel_left}
use graph_coder.Base.{
  sorted, SameTexts_of_sorted, String, Bool, true, false, not, ◌&&◌, List, [], ◌∷◌, Option, none,
  some, is_nil, keep, has, Dict, lookup, ok, SameTexts, sorted_of_SameTexts, ◌==◌, eq_iff, ◌≡◌, ◌↔◌,
  inl, inr, refl, sym, ap, ◌∙◌, arith, In, In-keep, Bool-cases,
}
use graph_coder.Values.{Library, text, Items, no_items, item, Members, items_of, get_truthy}
use graph_coder.Values.Parts.{members_of, place, text_of, integer_of, elements}
use graph_coder.Plans.Documents.{ImplementationUnit, PlanDocument}
use graph_coder.Plans.Hashes.{
  first_characters, hash_payload, semantic_unit_hash, approval_of, approval_binding,
  approval_is_valid, approval_hashes, recorded_hash, recorded_hashes, differs, drifts,
}

-- The same work: equal in what the hash covers, lists in any order.
pub record SameWork (u v : ImplementationUnit) : Type 0 where
  pub objective : u.objective ≡ v.objective
  pub acceptance : SameTexts u.acceptance v.acceptance
  pub dependencies : SameTexts u.dependencies v.dependencies
  pub interfaces : SameTexts u.interfaces v.interfaces
  pub read_scope : SameTexts u.read_scope v.read_scope
  pub write_scope : SameTexts u.write_scope v.write_scope
  pub forbidden_scope : SameTexts u.forbidden_scope v.forbidden_scope
  pub commands : SameTexts u.commands v.commands
  pub output_artifacts : SameTexts u.output_artifacts v.output_artifacts
  pub manager_id : u.manager_id ≡ v.manager_id
  pub review_contract : u.review_contract ≡ v.review_contract
  pub context_manifest : u.context_manifest ≡ v.context_manifest
  pub retry_policy : u.retry_policy ≡ v.retry_policy
  pub primary_route : u.primary_route ≡ v.primary_route
  pub fallback_route : u.fallback_route ≡ v.fallback_route
  pub attempt_limit : u.attempt_limit ≡ v.attempt_limit

payload-SameWork : (u v : ImplementationUnit) → SameWork u v → hash_payload u ≡ hash_payload v
unfolding hash_payload
payload-SameWork u v h =
    rw
      (
        h.objective,
        sorted_of_SameTexts u.acceptance v.acceptance h.acceptance,
        sorted_of_SameTexts u.dependencies v.dependencies h.dependencies,
        sorted_of_SameTexts u.interfaces v.interfaces h.interfaces,
        sorted_of_SameTexts u.read_scope v.read_scope h.read_scope,
        sorted_of_SameTexts u.write_scope v.write_scope h.write_scope,
        sorted_of_SameTexts u.forbidden_scope v.forbidden_scope h.forbidden_scope,
        sorted_of_SameTexts u.commands v.commands h.commands,
        sorted_of_SameTexts u.output_artifacts v.output_artifacts h.output_artifacts,
        h.manager_id,
        h.review_contract,
        h.context_manifest,
        h.retry_policy,
        h.primary_route,
        h.fallback_route,
        h.attempt_limit,
      )
      refl

abbrev first_text : Items → String
first_text no_items = ""
first_text (item v rest) = text_of v

abbrev later_items : Items → Items
later_items no_items = no_items
later_items (item v rest) = rest

abbrev is_empty : Items → Bool
is_empty no_items = true
is_empty (item v rest) = false

items_of_injective : (xs ys : List String) → items_of xs ≡ items_of ys → xs ≡ ys
unfolding items_of
items_of_injective [] [] h = refl
items_of_injective [] (y ∷ ys) h = let bad : true ≡ false = ap is_empty h in cc
items_of_injective (x ∷ xs) [] h = let bad : false ≡ true = ap is_empty h in cc
items_of_injective (x ∷ xs) (y ∷ ys) h =
    let head : x ≡ y = ap first_text h in
    let rest = items_of_injective xs ys (ap later_items h) in cc

hash_payload_injective : (u v : ImplementationUnit) → hash_payload u ≡ hash_payload v → SameWork u v
unfolding hash_payload
hash_payload_injective u v h = record {
  objective = ap (λ v. text_of (place 0 v)) h;
  acceptance = SameTexts_of_sorted u.acceptance v.acceptance (
      items_of_injective (sorted u.acceptance) (sorted v.acceptance)
        (ap (λ v. elements (place 1 v)) h));
  dependencies = SameTexts_of_sorted u.dependencies v.dependencies (
      items_of_injective (sorted u.dependencies) (sorted v.dependencies)
        (ap (λ v. elements (place 2 v)) h));
  interfaces = SameTexts_of_sorted u.interfaces v.interfaces (
      items_of_injective (sorted u.interfaces) (sorted v.interfaces)
        (ap (λ v. elements (place 3 v)) h));
  read_scope = SameTexts_of_sorted u.read_scope v.read_scope (
      items_of_injective (sorted u.read_scope) (sorted v.read_scope)
        (ap (λ v. elements (place 4 v)) h));
  write_scope = SameTexts_of_sorted u.write_scope v.write_scope (
      items_of_injective (sorted u.write_scope) (sorted v.write_scope)
        (ap (λ v. elements (place 5 v)) h));
  forbidden_scope = SameTexts_of_sorted u.forbidden_scope v.forbidden_scope (
      items_of_injective (sorted u.forbidden_scope) (sorted v.forbidden_scope)
        (ap (λ v. elements (place 6 v)) h));
  commands = SameTexts_of_sorted u.commands v.commands (
      items_of_injective (sorted u.commands) (sorted v.commands)
        (ap (λ v. elements (place 7 v)) h));
  output_artifacts = SameTexts_of_sorted u.output_artifacts v.output_artifacts (
      items_of_injective (sorted u.output_artifacts) (sorted v.output_artifacts)
        (ap (λ v. elements (place 8 v)) h));
  manager_id = ap (λ v. text_of (place 9 v)) h;
  review_contract = ap (λ v. members_of (place 10 v)) h;
  context_manifest = ap (λ v. members_of (place 11 v)) h;
  retry_policy = ap (λ v. members_of (place 12 v)) h;
  primary_route = ap (λ v. place 0 (place 13 v)) h;
  fallback_route = ap (λ v. place 1 (place 13 v)) h;
  attempt_limit = ap (λ v. integer_of (place 2 (place 13 v))) h;
}

abbrev pub digest : Library → ImplementationUnit → String
digest library u = first_characters 24 (library.sha256 (library.dumps (hash_payload u)))

-- Unless the 24 digits of two units collide on different JSON values: the units have one semantic
-- hash exactly where they agree in objective, manager, review contract, context manifest, retry
-- policy, the two routes and the attempt limit, and, up to order, in acceptance, dependencies,
-- interfaces, scopes, commands and output artifacts. So titles, rationale, status and proofs do not
-- move the hash, and neither do the procedure, the output contract, the progress contract and the
-- stop conditions, which it leaves out.
pub semantic_unit_hash-SameWork :
    (library : Library) (u v : ImplementationUnit)
    → (digest library u ≡ digest library v → hash_payload u ≡ hash_payload v)
    → (semantic_unit_hash library u ≡ semantic_unit_hash library v) ↔ SameWork u v
unfolding semantic_unit_hash
semantic_unit_hash-SameWork library u v apart = (
  λ h.
      hash_payload_injective u v
        (apart (append_cancel_left "U-" (digest library u) (digest library v) h)),
  λ s. rw (payload-SameWork u v s) refl,
)

-- The hash that is recorded for a name.
lookup-recorded_hashes :
    (library : Library) (approval : Members) (name : String) (names : List String)
    → has name names ≡ true
    → lookup name (recorded_hashes library approval names)
      ≡ some (recorded_hash library approval name)
unfolding lookup
lookup-recorded_hashes library approval name [] h = cc
lookup-recorded_hashes library approval name (n ∷ names) h = elim (Bool-cases (n == name)) [
  | inl e ↦
      let same = (eq_iff n name).0 e in
      rw e (ap (λ z. some (recorded_hash library approval z)) same)
  | inr e ↦ rw e (lookup-recorded_hashes library approval name names (ground arith))
]

-- A current hash that is not empty is the recorded one.
pub record IsBound (library : Library) (approval : Members) (current : Dict String)
    (drifted : List String) : Type 0 where
  pub named : (name : String) → In name drifted → has name approval_hashes ≡ true
  pub moved :
      (name h : String)
      → has name approval_hashes ≡ true
      → lookup name current ≡ some h
      → (h == "") ≡ false
      → In name drifted ↔ ((recorded_hash library approval name == h) ≡ false)
  pub absent : (name : String) → lookup name current ≡ none → In name drifted → ⊥
  pub empty : (name : String) → lookup name current ≡ some "" → In name drifted → ⊥

differs-empty : (o : Option String) → differs (some "") o ≡ false
differs-empty none = refl
differs-empty (some r) = refl

In-has : (x : String) (xs : List String) → In x xs → has x xs ≡ true
In-has x [] i = elim i [ ]
In-has x (y ∷ ys) (inl e) = ground (arith, eq_iff y x)
In-has x (y ∷ ys) (inr i) = ground (arith, In-has x ys i)

has-In : (x : String) (xs : List String) → has x xs ≡ true → In x xs
has-In x [] h = cc
has-In x (y ∷ ys) h = elim (Bool-cases (y == x)) [
  | inl e ↦ inl ((eq_iff y x).0 e)
  | inr e ↦ inr (has-In x ys (ground arith))
]

drifted-IsBound :
    (library : Library) (approval : Members) (current : Dict String)
    → IsBound library approval current
        (keep (drifts (recorded_hashes library approval approval_hashes) current) approval_hashes)
drifted-IsBound library approval current =
    let recorded = recorded_hashes library approval approval_hashes in
    let test = drifts recorded current in
    record {
      named = λ name i. In-has name approval_hashes ((In-keep test name approval_hashes).0 i).0;
      moved = λ name h known found full.
          let r = lookup-recorded_hashes library approval name approval_hashes known in
          let e : test name ≡ not (recorded_hash library approval name == h) =
            ap (λ o. differs o (lookup name recorded)) found
            ∙ ap (differs (some h)) r
            ∙ ground arith in
          (
            λ i.
                let (_, t) = (In-keep test name approval_hashes).0 i in
                let f = sym e ∙ t in ground arith,
            λ f.
                (In-keep test name approval_hashes).1
                  (has-In name approval_hashes known, e ∙ ap not f),
          );
      absent = λ name found i.
          let (_, t) = (In-keep test name approval_hashes).0 i in
          let bad : false ≡ true = sym (ap (λ o. differs o (lookup name recorded)) found) ∙ t in cc;
      empty = λ name found i.
          let (_, t) = (In-keep test name approval_hashes).0 i in
          let bad : false ≡ true =
            sym (
              ap (λ o. differs o (lookup name recorded)) found
              ∙ differs-empty (lookup name recorded))
            ∙ t in
          cc;
    }

-- Where the approval of a plan is a mapping, or absent: the hashes that `approval_is_valid` reports
-- as moved are exactly those of the four that are given as not empty and differ from the recorded
-- ones, none that is not given or is given as empty, and the approval holds exactly where none moved and the plan is marked as approved.
pub approval_is_valid-IsBound :
    (library : Library) (plan : PlanDocument) (approval : Members) (current : Dict String)
    → approval_of plan ≡ ok approval
    → (valid : Bool) × (drifted : List String) × (approval_is_valid library plan current
        ≡ ok (valid, drifted))
      × IsBound library approval current drifted
      × ((valid ≡ true) ↔ ((drifted ≡ []) × (get_truthy "approved" plan.metadata ≡ true)))
unfolding approval_is_valid approval_binding
approval_is_valid-IsBound library plan approval current h =
    let drifted =
      keep (drifts (recorded_hashes library approval approval_hashes) current) approval_hashes in
    (
      is_nil drifted && get_truthy "approved" plan.metadata,
      drifted,
      rw (h, approval_is_valid) refl,
      drifted-IsBound library approval current,
      ground arith,
    )
