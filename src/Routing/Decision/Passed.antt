-- ===== src/Routing/Decision/Passed.antt =====
-- The hard filter's loop and the scores: what passes is eligible, and nothing is lost.
use graph_coder.Base.{
  nil_of_is_nil, true, false, not, List, [], ◌∷◌, none, some, is_nil, In, ok, lookup, >>=-eq-ok,
  returned-injective, ◌≡◌, ◌⊎◌, inl, inr, refl, sym, ap, ◌∙◌, subst, Bool-cases, Option-cases,
}
use graph_coder.Routing.Models.{
  ProviderCapabilities, ModelCapabilities, CandidateScore, Elimination, RoutingProblem,
}
use graph_coder.Routing.Filter.{hard_filter_reasons}
use graph_coder.Routing.Models.{overflow}
use graph_coder.Routing.Scores.{
  score_candidate, score_of, local_score, external_score, score_overflows,
}
use graph_coder.Base.{raise_if}
use graph_coder.Routing.Decision.{
  RouteRequest, provider_for, reasons_for, score_for, filtered, score_all, history_by,
}

module _ {F : Type 0} (q : RouteRequest F) where
  -- A model of the list that passes the hard filter with its provider.
  pub record Passes (models : List (ModelCapabilities F)) (m : ModelCapabilities F)
      (p : ProviderCapabilities F) : Type 0 where
    pub listed : In m models
    pub clear : reasons_for q m ≡ []
    pub provided : provider_for q m ≡ some p

  Passes-cons :
      (x : ModelCapabilities F) (models : List (ModelCapabilities F)) {m : ModelCapabilities F}
      {p : ProviderCapabilities F}
      → Passes models m p
      → Passes (x ∷ models) m p
  Passes-cons x models h = record { listed = inr h.listed; clear = h.clear; provided = h.provided }

  pub filtered-Passes :
      (models : List (ModelCapabilities F)) (m : ModelCapabilities F) (p : ProviderCapabilities F)
      → In (m, p) (filtered q models).1
      → Passes models m p
  unfolding filtered
  filtered-Passes [] m p i = elim i [ ]
  filtered-Passes (x ∷ rest) m p i = elim (Bool-cases (not (is_nil (reasons_for q x)))) [
    | inl e ↦ Passes-cons x rest (filtered-Passes rest m p (rw e at i))
    | inr e ↦ elim (Option-cases (provider_for q x)) [
      | inl f ↦ Passes-cons x rest (filtered-Passes rest m p (rw (e, f) at i))
      | inr (r, f) ↦
          let i' : In (m, p) ((x, r) ∷ (filtered q rest).1) = rw (e, f) at i in
          elim i' [
            | inl same ↦
                let a = ap (λ z. z.0) same in
                let b = ap (λ z. z.1) same in
                record {
                  listed = inl a;
                  clear = subst (λ z. reasons_for q z ≡ []) a (nil_of_is_nil (reasons_for q x) e);
                  provided = subst (λ z. provider_for q z ≡ some p) a (f ∙ ap some b);
                }
            | inr j ↦ Passes-cons x rest (filtered-Passes rest m p j)
          ]
    ]
  ]

  -- The elimination that the filter writes for a model.
  pub record IsEliminated (m : ModelCapabilities F) (e : Elimination) : Type 0 where
    pub model : e.model_id ≡ m.model_id
    pub provider : e.provider_id ≡ some m.provider_id
    pub reasons : e.reasons ≡ reasons_for q m

  pub filtered-covers :
      (models : List (ModelCapabilities F)) (m : ModelCapabilities F)
      → In m models
      → ((p : ProviderCapabilities F) × In (m, p) (filtered q models).1)
        ⊎ ((e : Elimination) × In e (filtered q models).0 × IsEliminated m e)
  unfolding filtered hard_filter_reasons
  filtered-covers [] m i = elim i [ ]
  filtered-covers (x ∷ rest) m i = elim (Bool-cases (not (is_nil (reasons_for q x)))) [
    | inl e ↦ rw e (elim i [
      | inl same ↦ inr (
        _,
        inl refl,
        record {
          model = ap (λ z. z.model_id) same;
          provider = ap (λ z. some z.provider_id) same;
          reasons = ap (reasons_for q) same;
        },
      )
      | inr j ↦ elim (filtered-covers rest m j) [
        | inl found ↦ inl found
        | inr (w, k, h) ↦ inr (w, inr k, h)
      ]
    ])
    | inr e ↦ elim (Option-cases (provider_for q x)) [
      | inl f ↦ let absurd : true ≡ false = rw f at e in cc
      | inr (r, f) ↦
          rw (e, f)
            (elim i [
              | inl same ↦ inl (r, inl (ap (λ z. (z, r)) same))
              | inr j ↦ elim (filtered-covers rest m j) [
                | inl (p, k) ↦ inl (p, inr k)
                | inr found ↦ inr found
              ]
            ])
    ]
  ]

  -- A score is of its model and its provider.
  pub record IsOf (m : ModelCapabilities F) (p : ProviderCapabilities F) (s : CandidateScore F)
      : Type 0 where
    pub model : s.model ≡ m
    pub provider : s.provider ≡ p
    pub alone : s.fallback_model_id ≡ none

  pub score_for-IsOf :
      (m : ModelCapabilities F) (p : ProviderCapabilities F) (s : CandidateScore F)
      → score_for q m p ≡ ok s
      → IsOf m p s
  unfolding score_candidate score_of
  score_for-IsOf m p s h =
      let (own, _, e) =
        >>=-eq-ok (local_score q.floats (lookup m.model_id (history_by [] q.history)) q.weighing) _
          h in
      let (u, _, f) =
        >>=-eq-ok
          (raise_if
            (score_overflows q.floats q.task p q.weighing (external_score q.floats q.task m) own)
            overflow)
          _ e in
      let same = returned-injective RoutingProblem f in
      subst (IsOf m p) same record { model = refl; provider = refl; alone = refl }

  pub score_all-IsOf :
      (pairs : List (ModelCapabilities F × ProviderCapabilities F)) (raw : List (CandidateScore F))
      (s : CandidateScore F)
      → score_all q pairs ≡ ok raw
      → In s raw
      → (m : ModelCapabilities F) × (p : ProviderCapabilities F) × In (m, p) pairs × IsOf m p s
  unfolding score_all
  score_all-IsOf [] raw s h i =
      let e = returned-injective RoutingProblem h in elim (subst (In s) (sym e) i) [ ]
  score_all-IsOf ((m, p) ∷ rest) raw s h i =
      let (one, e, h1) = >>=-eq-ok (score_for q m p) _ h in
      let (more, f, h2) = >>=-eq-ok (score_all q rest) _ h1 in
      let same = returned-injective RoutingProblem h2 in
      elim (subst (In s) (sym same) i) [
        | inl g ↦ (m, p, inl refl, subst (IsOf m p) g (score_for-IsOf m p one e))
        | inr j ↦ let (m', p', k, o) = score_all-IsOf rest more s f j in (m', p', inr k, o)
      ]

  pub score_all-covers :
      (pairs : List (ModelCapabilities F × ProviderCapabilities F)) (raw : List (CandidateScore F))
      (m : ModelCapabilities F) (p : ProviderCapabilities F)
      → score_all q pairs ≡ ok raw
      → In (m, p) pairs
      → (s : CandidateScore F) × In s raw × IsOf m p s
  unfolding score_all
  score_all-covers [] raw m p h i = elim i [ ]
  score_all-covers ((m', p') ∷ rest) raw m p h i =
      let (one, e, h1) = >>=-eq-ok (score_for q m' p') _ h in
      let (more, f, h2) = >>=-eq-ok (score_all q rest) _ h1 in
      let same = returned-injective RoutingProblem h2 in
      elim i [
        | inl g ↦
            let a = ap (λ z. z.0) g in
            let b = ap (λ z. z.1) g in
            let o = score_for-IsOf m' p' one e in
            (
              one,
              subst (In one) same (inl refl),
              record { model = o.model ∙ a; provider = o.provider ∙ b; alone = o.alone },
            )
        | inr j ↦
            let (s, k, o) = score_all-covers rest more m p f j in (s, subst (In s) same (inr k), o)
      ]
