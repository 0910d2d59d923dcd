-- ===== src/Routing/Subscription/Precedence.antt =====
-- Which routes are left: those of the least rank.
use graph_coder.Base.{
  ℕ, ◌≤◌, String, Bool, true, false, List, [], ◌∷◌, ◌++◌, is_nil, keep, ◌==◌, eq_iff, if◌then◌else◌,
  ◌≡◌, ◌↔◌, ◌≢◌, refl, sym, subst, arith, In, In-keep, Bool-cases, inl, inr,
}
use graph_coder.Routing.Models.{TaskRequirements, CandidateScore, Elimination}
use graph_coder.Routing.Subscription.{
  SubscriptionOutcome, is_direct_subscription, is_reseller, is_zero_cost, is_other_direct, is_left,
  owned_duplicates, choose, first_group, apply_subscription_first,
}

direct_or_reseller : (c : String) → (c == "direct_oauth") ≡ true → (c == "reseller") ≡ false
direct_or_reseller c h =
    subst (λ z. (z == "reseller") ≡ false) (sym ((eq_iff c "direct_oauth").0 h)) refl

module _ {F : Type 0} where
  -- Direct subscriptions first, then what costs nothing more, then other routes, then resellers.
  abbrev pub rank : CandidateScore F → ℕ
  rank s =
      if is_direct_subscription s
      then 0
      else if is_reseller s
      then 3
      else if s.model.zero_marginal_cost
      then 1
      else 2

  direct_rank : (s : CandidateScore F) → (is_direct_subscription s ≡ true) ↔ (rank s ≡ 0)
  direct_rank s = ground arith

  zero_rank : (s : CandidateScore F) → (is_zero_cost s ≡ true) ↔ (rank s ≡ 1)
  zero_rank s = ground arith

  other_rank : (s : CandidateScore F) → (is_other_direct s ≡ true) ↔ (rank s ≡ 2)
  other_rank s = ground arith

  reseller_rank : (s : CandidateScore F) → (is_reseller s ≡ true) ↔ (rank s ≡ 3)
  reseller_rank s = ground (arith, direct_or_reseller s.provider.provider_class)

  rank-le : (s : CandidateScore F) → rank s ≤ 3
  rank-le s = ground arith

  keep-nil :
      (p : CandidateScore F → Bool) (xs : List (CandidateScore F))
      → is_nil (keep p xs) ≡ true
      → (t : CandidateScore F) → In t xs
      → p t ≡ false
  keep-nil p [] h t i = elim i [ ]
  keep-nil p (x ∷ xs) h t (inl e) = subst (λ z. p z ≡ false) e (ground arith)
  keep-nil p (x ∷ xs) h t (inr i) = keep-nil p xs (ground arith) t i

  keep-member :
      (p : CandidateScore F → Bool) (xs : List (CandidateScore F))
      → is_nil (keep p xs) ≡ false
      → (t : CandidateScore F) × In t xs × (p t ≡ true)
  keep-member p [] h = cc
  keep-member p (x ∷ xs) h = elim (Bool-cases (p x)) [
    | inl e ↦ (x, inl refl, e)
    | inr e ↦ let (t, i, q) = keep-member p xs (ground arith) in (t, inr i, q)
  ]

  -- The scores of least rank.
  abbrev pub IsLeast : List (CandidateScore F) → CandidateScore F → Type 0
  IsLeast scores s = In s scores × ((t : CandidateScore F) → In t scores → rank s ≤ rank t)

  IsLeast-group :
      (p : CandidateScore F → Bool) (k : ℕ) (scores : List (CandidateScore F))
      → ((s : CandidateScore F) → (p s ≡ true) ↔ (rank s ≡ k))
      → ((t : CandidateScore F) → In t scores → k ≤ rank t)
      → is_nil (keep p scores) ≡ false
      → (s : CandidateScore F) → In s (keep p scores) ↔ IsLeast scores s
  IsLeast-group p k scores test low h s =
      let (w, j, q) = keep-member p scores h in
      let e = (test w).0 q in
      (
        λ i.
            let (m, r) = (In-keep p s scores).0 i in
            (m, λ t n. omega (arith, low t n, (test s).0 r)),
        λ (m, f). (In-keep p s scores).1 (m, (test s).1 (omega (arith, f w j, low s m, e))),
      )

  -- What the outcome of the rule holds.
  pub record IsPreferred (scores : List (CandidateScore F)) (out : SubscriptionOutcome F)
      : Type 0 where
    pub least : (s : CandidateScore F) → In s out.pool ↔ IsLeast scores s
    pub exception :
        (out.reseller_exception_required ≡ true)
        ↔ ((s : CandidateScore F) → In s scores → is_reseller s ≡ true)
    pub marked : out.applied ≡ true

  chosen :
      (name : String) (p : CandidateScore F → Bool) (k : ℕ) (scores : List (CandidateScore F))
      (done : List Elimination)
      → ((s : CandidateScore F) → (p s ≡ true) ↔ (rank s ≡ k))
      → ((t : CandidateScore F) → In t scores → k ≤ rank t)
      → is_nil (keep p scores) ≡ false
      → (((name == "reseller") ≡ true) ↔ (k ≡ 3))
      → k ≤ 3
      → IsPreferred scores (choose name p scores done)
  unfolding choose
  chosen name p k scores done test low h n top = record {
    least = IsLeast-group p k scores test low h;
    exception = (
      λ e s i. (reseller_rank s).1 (omega (arith, low s i, rank-le s, n.0 e)),
      λ all.
          let (w, j, q) = keep-member p scores h in
          n.1 (omega (arith, (test w).0 q, (reseller_rank w).0 (all w j))),
    );
    marked = refl;
  }

  left_rank : (s : CandidateScore F) → (is_left [] s ≡ true) ↔ (rank s ≡ 3)
  left_rank s = ground (arith, reseller_rank s)

  append_both :
      (xs ys : List (CandidateScore F))
      → is_nil xs ≡ true
      → is_nil ys ≡ true
      → is_nil (xs ++ ys) ≡ true
  append_both [] ys h k = k
  append_both (x ∷ xs) ys h k = cc

  unowned :
      (task : TaskRequirements F) (scores : List (CandidateScore F))
      → is_nil (keep is_direct_subscription scores) ≡ true
      → is_nil (keep is_zero_cost scores) ≡ true
      → owned_duplicates task scores ≡ []
  unfolding owned_duplicates
  unowned task scores h k =
      rw (append_both (keep is_direct_subscription scores) (keep is_zero_cost scores) h k) refl

  -- No score has a rank that none of its group has.
  not_rank :
      (p : CandidateScore F → Bool) (k : ℕ) (scores : List (CandidateScore F))
      → ((s : CandidateScore F) → (p s ≡ true) ↔ (rank s ≡ k))
      → is_nil (keep p scores) ≡ true
      → (t : CandidateScore F) → In t scores
      → rank t ≢ k
  not_rank p k scores test h t i e = let f = keep-nil p scores h t i in let g = (test t).1 e in cc

  some_member :
      (scores : List (CandidateScore F))
      → is_nil scores ≡ false
      → (t : CandidateScore F) × In t scores
  some_member [] h = cc
  some_member (t ∷ scores) h = (t, inl refl)

  first_group-IsPreferred :
      (task : TaskRequirements F) (scores : List (CandidateScore F))
      → is_nil scores ≡ false
      → IsPreferred scores (first_group scores (owned_duplicates task scores))
  unfolding first_group
  first_group-IsPreferred task scores h =
      elim (Bool-cases (is_nil (keep is_direct_subscription scores))) [
        | inr d ↦ rw d (
            chosen "direct_subscription" is_direct_subscription 0 scores
              (owned_duplicates task scores) direct_rank (λ t i. omega arith) d (ground arith)
              (omega arith))
        | inl d ↦
            let no0 = not_rank is_direct_subscription 0 scores direct_rank d in
            elim (Bool-cases (is_nil (keep is_zero_cost scores))) [
              | inr z ↦ rw d (
                  rw z (
                    chosen "zero_marginal_cost" is_zero_cost 1 scores (owned_duplicates task scores)
                      zero_rank (λ t i. omega (arith, no0 t i)) z (ground arith) (omega arith)))
              | inl z ↦
                  let no1 = not_rank is_zero_cost 1 scores zero_rank z in
                  elim (Bool-cases (is_nil (keep is_other_direct scores))) [
                    | inr o ↦ rw d (
                        rw z (
                          rw o (
                            chosen "other_direct" is_other_direct 2 scores
                              (owned_duplicates task scores) other_rank
                              (λ t i. omega (arith, no0 t i, no1 t i)) o (ground arith)
                              (omega arith))))
                    | inl o ↦
                        let no2 = not_rank is_other_direct 2 scores other_rank o in
                        let (t, i) = some_member scores h in
                        let low : (u : CandidateScore F) → In u scores → 3 ≤ rank u =
                          λ u j. omega (arith, no0 u j, no1 u j, no2 u j) in
                        let l : is_nil (keep (is_left []) scores) ≡ false =
                          left_over scores t i (omega (arith, low t i, rank-le t)) in
                        rw d (
                          rw z (
                            rw o (
                              rw (unowned task scores d z) (
                                rw l (
                                  chosen "reseller" (is_left []) 3 scores [] left_rank low l
                                    (ground arith) (omega arith))))))
                  ]
            ]
      ]
    where
      left_over :
          (scores : List (CandidateScore F)) (t : CandidateScore F)
          → In t scores
          → rank t ≡ 3
          → is_nil (keep (is_left []) scores) ≡ false
      left_over scores t i e = elim (Bool-cases (is_nil (keep (is_left []) scores))) [
        | inl n ↦ absurd (not_rank (is_left []) 3 scores left_rank n t i e)
        | inr n ↦ n
      ]

  -- Where the rule applies, the routes that it leaves are exactly those of the least rank: direct
  -- subscriptions, else routes of no marginal cost, else other routes, else resellers. It reports
  -- the exception exactly if every route is a reseller's.
  pub apply_subscription_first-IsPreferred :
      (task : TaskRequirements F) (scores : List (CandidateScore F))
      → task.subscription_first ≡ true
      → is_nil scores ≡ false
      → IsPreferred scores (apply_subscription_first task scores)
  unfolding apply_subscription_first
  apply_subscription_first-IsPreferred task scores f h =
      rw f (rw h (first_group-IsPreferred task scores h))
