-- ===== src/Examples/Routes.antt =====
-- The theorems on routes and receipts: requests with natural numbers for the floating-point ones.
use graph_coder.Base.{
  In, ◌↔◌, Bool, ℕ, ◌+◌, ◌-◌, ◌*◌, ◌/◌, ◌^◌, String, false, List, [], ◌∷◌, none, some, err, ok, ltb,
  leb, eqb, foldl, keep, ◌≡◌, inl, inr, refl, arith,
}
use graph_coder.Routing.Floats.{Floats, IsOrder}
use graph_coder.Routing.Models.{CandidateScore, RoutingDecision}
use graph_coder.Routing.Scores.{Weighing}
use graph_coder.Routing.Selection.{pareto_frontier}
use graph_coder.Routing.Selection.Frontier.{Dominates, pareto_frontier-IsUndominated}
use graph_coder.Routing.Decision.{RouteRequest, route_model, pinned_refused}
use graph_coder.Routing.Decision.Chosen.{IsOrdinary}
use graph_coder.Routing.Decision.Permitted.{
  IsPermitted, Accounted, route_model-IsPermitted, route_model-Accounted,
}
use graph_coder.Routing.Decision.Director.{IsDirected, route_model-IsDirected}
use graph_coder.Routing.Decision.Returns.{Returns}
use graph_coder.Routing.Receipts.{RouteReceipt, build_route_receipt}
use graph_coder.Routing.Receipts.Fallback.{IsReceipt, build_route_receipt-IsReceipt}
use graph_coder.Examples.Ledgers.{library}
use graph_coder.Examples.Routings.{task, provider, model, score}

abbrev pub whole : Floats ℕ
whole = record {
  zero = 0;
  one = 1;
  less = ltb;
  at_most = leb;
  same = eqb;
  is_nan = λ x. false;
  plus = λ a b. a + b;
  minus = λ a b. a - b;
  times = λ a b. a * b;
  over = λ a b. a / b;
  negate = λ a. 1000 - a;
  power = λ a n. a ^ n;
  overflows = λ a n. false;
  sum = foldl (λ a b. a + b) 0;
  round12 = λ a. a;
  fixed6 = λ a. "0.000000";
}

whole-IsOrder : IsOrder whole
whole-IsOrder = record {
  less_irrefl = λ x. ground arith;
  less_trans = λ x y z h k. ground arith;
  less-at_most = λ x y z h k. ground arith;
  at_most-less = λ x y z h k. ground arith;
  at_most_trans = λ x y z h k. ground arith;
  at_most_of_not_less = λ x y n m h. ground arith;
  at_most_of_less = λ x y h. ground arith;
  not_same_of_less = λ x y h. ground arith;
  same_trans = λ x y z h k. ground arith;
  same-less = λ x y z h k. ground arith;
  less-same = λ x y z h k. ground arith;
  zero_number = refl;
  one_number = refl;
  zero_one = refl;
}

abbrev weak : CandidateScore ℕ
weak = record (score "m2" "api" "direct_api") { quality = 0 }

abbrev pool : List (CandidateScore ℕ)
pool = score "m1" "own" "direct_oauth" ∷ weak ∷ []

pareto_frontier-IsUndominated_example :
    ((s : CandidateScore ℕ)
      → In s (pareto_frontier whole pool) ↔ (
          In s pool
          × ((other : CandidateScore ℕ)
              → In other pool
              → Dominates whole whole-IsOrder other s
              → ⊥)))
    × ((p : CandidateScore ℕ → Bool) × (pareto_frontier whole pool ≡ keep p pool))
pareto_frontier-IsUndominated_example = pareto_frontier-IsUndominated whole whole-IsOrder pool

abbrev weighing : Weighing ℕ
weighing = record {
  local_prior_successes = 1;
  local_prior_attempts = 2;
  external_weight = 6;
  local_weight = 3;
  retain_within_best = 1;
  fallback_failure_weight = 1;
}

-- Two subscriptions of which one costs more, and a model that is denied.
abbrev request : RouteRequest ℕ
request = record {
  floats = whole;
  library = library;
  task = task;
  models =
      model "m1" "own"
      ∷ record (model "m2" "more") { per_attempt_cost = 5; latency_ms = 1 }
      ∷ model "m9" "own"
      ∷ [];
  providers = provider "own" "direct_oauth" ∷ provider "more" "direct_oauth" ∷ [];
  history = [];
  weighing = weighing;
}

unfoldable decision : RoutingDecision ℕ
unfolding route_model pinned_refused
decision = elim (route_model request) [ err _ ↦ pinned_refused request "" none [] | ok d ↦ d ]

selected : CandidateScore ℕ
unfolding decision route_model
selected = elim decision.selected [ none ↦ weak | some s ↦ s ]

plain : IsOrdinary request
plain = record { undirected = refl; free = refl }

decided : route_model request ≡ ok decision
unfolding route_model decision
decided = refl

chosen : decision.selected ≡ some selected
unfolding decision route_model selected
chosen = refl

route_model-IsPermitted_example : IsPermitted request selected
route_model-IsPermitted_example =
    route_model-IsPermitted request decision selected plain decided chosen

route_model-Accounted_example : Accounted request decision (model "m9" "own")
route_model-Accounted_example =
    route_model-Accounted request decision (model "m9" "own") plain decided (inr (inr (inl refl)))

abbrev directing : RouteRequest ℕ
directing = record request { task = record task { role = "director"; pinned_model_id = some "m1" } }

unfoldable directed : RoutingDecision ℕ
unfolding route_model pinned_refused
directed = elim (route_model directing) [ err _ ↦ pinned_refused request "" none [] | ok d ↦ d ]

directs : route_model directing ≡ ok directed
unfolding route_model directed
directs = refl

route_model-IsDirected_example :
    (wanted : String) × (some "m1" ≡ some wanted) × IsDirected directing wanted directed
route_model-IsDirected_example = route_model-IsDirected directing directed refl directs

receipt_made : (r : RouteReceipt ℕ) × (build_route_receipt task decision "now" "cache" ≡ ok r)
unfolding build_route_receipt decision route_model
receipt_made = (_, refl)

build_route_receipt-IsReceipt_example : IsReceipt request selected "m1" decision receipt_made.0
unfolding selected decision route_model
build_route_receipt-IsReceipt_example =
    build_route_receipt-IsReceipt request decision selected "m1" "now" "cache" receipt_made.0 plain
      decided chosen refl receipt_made.1

-- A run of the code.
names :
    (decision.explanation.pareto_frontier_model_ids ≡ "m1" ∷ "m2" ∷ [])
    × (decision.explanation.selected_model_id ≡ some "m2")
    × (decision.explanation.subscription_precedence_group ≡ some "direct_subscription")
    × (selected.fallback_model_id ≡ some "m1")
unfolding decision route_model selected
names = (refl, refl, refl, refl)
