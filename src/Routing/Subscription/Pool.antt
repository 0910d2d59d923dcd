-- ===== src/Routing/Subscription/Pool.antt =====
-- Subscription-first only drops scores.
use graph_coder.Base.{not, List, is_nil, keep, In, In-keep, ◌||◌, inl, inr, Bool-cases}
use graph_coder.Routing.Models.{TaskRequirements, CandidateScore, Elimination}
use graph_coder.Routing.Subscription.{
  is_direct_subscription, is_zero_cost, is_other_direct, is_left, choose, owned_duplicates,
  first_group, apply_subscription_first,
}

module _ {F : Type 0} (s : CandidateScore F) (scores : List (CandidateScore F)) where
  pool_of_group : (done : List Elimination) → In s (first_group scores done).pool → In s scores
  unfolding first_group choose
  pool_of_group done i = elim (Bool-cases (not (is_nil (keep is_direct_subscription scores)))) [
    | inl e ↦ ((In-keep is_direct_subscription s scores).0 (rw e at i)).0
    | inr e ↦ elim (Bool-cases (not (is_nil (keep is_zero_cost scores)))) [
      | inl f ↦ ((In-keep is_zero_cost s scores).0 (rw (e, f) at i)).0
      | inr f ↦ elim (Bool-cases (not (is_nil (keep is_other_direct scores)))) [
        | inl g ↦ ((In-keep is_other_direct s scores).0 (rw (e, f, g) at i)).0
        | inr g ↦ elim (Bool-cases (not (is_nil (keep (is_left done) scores)))) [
          | inl h ↦ ((In-keep (is_left done) s scores).0 (rw (e, f, g, h) at i)).0
          | inr h ↦ elim (rw (e, f, g, h) at i) [ ]
        ]
      ]
    ]
  ]

  pub In-apply_subscription_first :
      (task : TaskRequirements F) → In s (apply_subscription_first task scores).pool → In s scores
  unfolding apply_subscription_first
  In-apply_subscription_first task i =
      elim (Bool-cases (not task.subscription_first || is_nil scores)) [
        | inl e ↦ rw e at i
        | inr e ↦ pool_of_group (owned_duplicates task scores) (rw e at i)
      ]
