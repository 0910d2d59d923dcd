-- ===== src/Routing/Selection/Fallback.antt =====
-- The fallback of a route is another model, and another provider's where there is one.
use graph_coder.Base.{
  true, false, List, [], ◌∷◌, none, some, is_nil, keep, In, In-keep, ◌≡◌, ◌⊎◌, inl, inr, refl,
  arith, Bool-cases, Option-cases,
}
use graph_coder.Graph.Node.{ℤ}
use graph_coder.Routing.Floats.{Floats}
use graph_coder.Routing.Models.{CandidateScore}
use graph_coder.Routing.Selection.{
  first_least, other_model, other_provider, fallback_of, attach_fallback,
}
use graph_coder.Routing.Selection.Least.{first_least-In}

empty-In : {A : Type 0} (xs : List A) (a : A) → is_nil xs ≡ true → In a xs → ⊥
empty-In [] a h i = elim i [ ]
empty-In (x ∷ xs) a h i = cc

first_least-none :
    {F : Type 0} (floats : Floats F) (xs : List (CandidateScore F))
    → first_least floats xs ≡ none
    → is_nil xs ≡ true
first_least-none floats [] h = refl
first_least-none floats (x ∷ xs) h = cc

module _ {F : Type 0} (floats : Floats F) (score : CandidateScore F)
    (candidates : List (CandidateScore F)) where
  -- A candidate that may stand in: another model, and of another provider where one is.
  pub record IsStandIn (f : CandidateScore F) : Type 0 where
    pub candidate : In f candidates
    pub differs : other_model score f ≡ true
    pub elsewhere :
        (c : CandidateScore F)
        → In c candidates
        → other_model score c ≡ true
        → other_provider score c ≡ true
        → other_provider score f ≡ true

  fallback_of-some :
      (f : CandidateScore F) → fallback_of floats score candidates ≡ some f → IsStandIn f
  unfolding fallback_of
  fallback_of-some f h =
      let pool = keep (other_model score) candidates in
      let different = keep (other_provider score) pool in
      elim (Bool-cases (is_nil different)) [
        | inl e ↦
            let h' : first_least floats pool ≡ some f = ground arith in
            let (i, d) =
              (In-keep (other_model score) f candidates).0 (first_least-In floats pool f h') in
            record {
              candidate = i;
              differs = d;
              elsewhere = λ c j x y.
                  elim (empty-In different c e (
                    (In-keep (other_provider score) c pool).1
                      ((In-keep (other_model score) c candidates).1 (j, x), y))) [ ];
            }
        | inr e ↦
            let h' : first_least floats different ≡ some f = ground arith in
            let (i, d) =
              (In-keep (other_provider score) f pool).0 (first_least-In floats different f h') in
            let (k, g) = (In-keep (other_model score) f candidates).0 i in
            record { candidate = k; differs = g; elsewhere = λ c j x y. d }
      ]

  fallback_of-none :
      fallback_of floats score candidates ≡ none
      → (c : CandidateScore F) → In c candidates
      → other_model score c ≡ false
  unfolding fallback_of
  fallback_of-none h c i =
      let pool = keep (other_model score) candidates in
      let different = keep (other_provider score) pool in
      let e : is_nil pool ≡ true = elim (Bool-cases (is_nil different)) [
        | inl e ↦ first_least-none floats pool (ground arith)
        | inr e ↦
            let n : is_nil different ≡ true = first_least-none floats different (ground arith) in cc
      ] in
      elim (Bool-cases (other_model score c)) [
        | inl d ↦ elim (empty-In pool c e ((In-keep (other_model score) c candidates).1 (i, d))) [ ]
        | inr d ↦ d
      ]

  -- What a route with its fallback holds.
  pub record IsAttached (out : CandidateScore F) : Type 0 where
    pub model : out.model ≡ score.model
    pub provider : out.provider ≡ score.provider
    pub quality : out.quality ≡ score.quality
    pub fallback :
        ((out.fallback_model_id ≡ none)
          × ((c : CandidateScore F) → In c candidates → other_model score c ≡ false))
        ⊎ ((f : CandidateScore F) × (out.fallback_model_id ≡ some f.model.model_id) × IsStandIn f)

  -- A route with its fallback is the same route at the same quality. Its fallback is a candidate of
  -- another model, by another provider where some candidate of another model has one; it has none
  -- only where every candidate is of its own model.
  pub attach_fallback-IsAttached :
      (failure_weight : F) (max_attempts : ℤ)
      → IsAttached (attach_fallback floats score candidates failure_weight max_attempts)
  unfolding attach_fallback
  attach_fallback-IsAttached failure_weight max_attempts = record {
    model = refl;
    provider = refl;
    quality = refl;
    fallback = elim (Option-cases (fallback_of floats score candidates)) [
      | inl e ↦ rw e (inl (refl, fallback_of-none e))
      | inr (f, e) ↦ rw e (inr (f, refl, fallback_of-some f e))
    ];
  }
