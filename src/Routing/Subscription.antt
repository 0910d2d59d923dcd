-- ===== src/Routing/Subscription.antt =====
-- routing.py `_apply_subscription_first` and `_duplicate_of`: a route that is already paid for goes
-- before a reseller's. `score in group` is the test that made the group: the scores of a group are
-- the very scores that pass it.
pub mod Precedence
pub mod Pool
use graph_coder.Base.{
  String, Bool, true, false, not, ◌&&◌, ◌||◌, List, [], ◌∷◌, ◌++◌, Option, none, some, is_nil, has,
  any, keep, find, sort_by, str_leb, ◌==◌, if◌then◌else◌,
}
use graph_coder.Routing.Models.{
  TaskRequirements, CandidateScore, Elimination, duplicates_route, group_available,
}

pub record SubscriptionOutcome (F : Type 0) : Type 0 where
  pub pool : List (CandidateScore F)
  pub eliminations : List Elimination
  pub applied : Bool
  pub reseller_exception_required : Bool
  pub group : Option String

-- The ids of the eliminated models.
abbrev pub eliminated_ids : List Elimination → List String
eliminated_ids [] = []
eliminated_ids (e ∷ es) = e.model_id ∷ eliminated_ids es

-- `{key for key in (...) if key}`.
abbrev pub present : Option String → List String → List String
present none rest = rest
present (some k) rest = if k == "" then rest else k ∷ rest

abbrev pub meets : List String → List String → Bool
meets [] ys = false
meets (x ∷ xs) ys = has x ys || meets xs ys

module _ {F : Type 0} where
  abbrev pub is_direct_subscription : CandidateScore F → Bool
  is_direct_subscription score = score.provider.provider_class == "direct_oauth"

  abbrev pub is_reseller : CandidateScore F → Bool
  is_reseller score = score.provider.provider_class == "reseller"

  abbrev pub is_zero_cost : CandidateScore F → Bool
  is_zero_cost score =
      not (is_direct_subscription score)
      && not (is_reseller score)
      && score.model.zero_marginal_cost

  abbrev pub is_other_direct : CandidateScore F → Bool
  is_other_direct score =
      not (is_direct_subscription score)
      && not (is_reseller score)
      && not score.model.zero_marginal_cost

  unfoldable pub keys : CandidateScore F → List String
  keys score = present (some score.model.model_id) (present score.model.equivalence_class [])

  abbrev pub id_leb : CandidateScore F → CandidateScore F → Bool
  id_leb a b = str_leb a.model.model_id b.model.model_id

  -- The task's class is added to the keys where it is among them.
  unfoldable pub reseller_keys : TaskRequirements F → CandidateScore F → List String
  unfolding keys
  reseller_keys task reseller =
      let own = keys reseller in
      elim task.equivalence_class [
        | none ↦ own
        | some c ↦ if not (c == "") && has c own then c ∷ own else own
      ]

  unfoldable pub first_match : List String → List (CandidateScore F) → Option String
  unfolding keys
  first_match wanted [] = none
  first_match wanted (candidate ∷ rest) =
      let later = first_match wanted rest in
      if meets wanted (keys candidate) then some candidate.model.model_id else later

  unfoldable pub duplicate_of :
      TaskRequirements F → CandidateScore F → List (CandidateScore F) → Option String
  unfolding reseller_keys first_match
  duplicate_of task reseller owned =
      first_match (reseller_keys task reseller) (sort_by id_leb owned)

  -- The resellers that duplicate a route that is owned.
  unfoldable pub duplicates :
      TaskRequirements F → List (CandidateScore F) → List (CandidateScore F) → List Elimination
  unfolding duplicate_of
  duplicates task owned [] = []
  duplicates task owned (score ∷ rest) =
      let later = duplicates task owned rest in
      elim (duplicate_of task score owned) [
        | none ↦ later
        | some route ↦
            record {
              model_id = score.model.model_id;
              provider_id = some score.provider.provider_id;
              reasons = duplicates_route route ∷ [];
            }
            ∷ later
      ]

  -- The loop over the scores outside the group; a model is eliminated once.
  unfoldable pub passed_over :
      (CandidateScore F → Bool)
      → String
      → List (CandidateScore F)
      → List Elimination
      → List Elimination
  passed_over inside name [] done = done
  passed_over inside name (score ∷ rest) done = passed_over inside name rest (
      if inside score || has score.model.model_id (eliminated_ids done)
      then done
      else done
        ++ record {
          model_id = score.model.model_id;
          provider_id = some score.provider.provider_id;
          reasons = group_available name ∷ [];
        }
          ∷ [])

  unfoldable pub choose :
      String
      → (CandidateScore F → Bool)
      → List (CandidateScore F)
      → List Elimination
      → SubscriptionOutcome F
  unfolding passed_over
  choose name inside scores done = record {
    pool = keep inside scores;
    eliminations = passed_over inside name scores done;
    applied = true;
    reseller_exception_required = name == "reseller";
    group = some name;
  }

  -- The resellers that are left.
  abbrev pub is_left : List Elimination → CandidateScore F → Bool
  is_left done score = is_reseller score && not (has score.model.model_id (eliminated_ids done))

  -- The first loop: the duplicates, where a route is owned.
  unfoldable pub owned_duplicates : TaskRequirements F → List (CandidateScore F) → List Elimination
  unfolding duplicates
  owned_duplicates task scores =
      let owned = keep is_direct_subscription scores ++ keep is_zero_cost scores in
      if is_nil owned then [] else duplicates task owned (keep is_reseller scores)

  unfoldable pub first_group : List (CandidateScore F) → List Elimination → SubscriptionOutcome F
  unfolding choose
  first_group scores done =
      if not (is_nil (keep is_direct_subscription scores))
      then choose "direct_subscription" is_direct_subscription scores done
      else if not (is_nil (keep is_zero_cost scores))
      then choose "zero_marginal_cost" is_zero_cost scores done
      else if not (is_nil (keep is_other_direct scores))
      then choose "other_direct" is_other_direct scores done
      else if not (is_nil (keep (is_left done) scores))
      then choose "reseller" (is_left done) scores done
      else record {
        pool = [];
        eliminations = done;
        applied = true;
        reseller_exception_required = false;
        group = none;
      }

  unfoldable pub apply_subscription_first :
      TaskRequirements F → List (CandidateScore F) → SubscriptionOutcome F
  unfolding owned_duplicates first_group
  apply_subscription_first task scores =
      if not task.subscription_first || is_nil scores
      then record {
        pool = scores;
        eliminations = [];
        applied = false;
        reseller_exception_required = false;
        group = none;
      }
      else first_group scores (owned_duplicates task scores)
