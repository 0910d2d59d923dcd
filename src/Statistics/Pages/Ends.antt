-- ===== src/Statistics/Pages/Ends.antt =====
-- Following the cursors ends.
use graph_coder.Base.{
  ℕ, zero, suc, ◌≤◌, ◌<◌, String, true, false, not, List, [], ◌∷◌, ◌++◌, Option, none, some, has,
  keep, length, ok, err, Result, ◌==◌, eq_iff, ◌≡◌, refl, sym, ap, subst, arith, inl, inr,
  Bool-cases,
}
use graph_coder.Values.{Members}
use graph_coder.Statistics.Data.{Network, Client, StatsError, Effect}
use graph_coder.Statistics.Requests.{request_json}
use graph_coder.Statistics.Pages.{
  validate_page, given_token, Step, failed, finished, onward, onward_unless_seen, step_of_page,
  step_of, follow, page_loop, fetch_paginated, url_of,
}

-- How many of the cursors are not seen.
abbrev pub unseen : List String → List String → ℕ
unseen cursors seen = length (keep (λ c. not (has c seen)) cursors)

unseen-le :
    (cursors seen : List String) (t : String) → unseen cursors (t ∷ seen) ≤ unseen cursors seen
unseen-le [] seen t = omega arith
unseen-le (c ∷ cursors) seen t = ground (arith, unseen-le cursors seen t)

unseen-lt :
    (cursors seen : List String) (t : String)
    → has t cursors ≡ true
    → has t seen ≡ false
    → unseen cursors (t ∷ seen) < unseen cursors seen
unseen-lt [] seen t h k = cc
unseen-lt (c ∷ cursors) seen t h k = elim (Bool-cases (c == t)) [
  | inl e ↦
      let same = (eq_iff c t).0 e in
      let k' : has c seen ≡ false = subst (λ z. has z seen ≡ false) (sym same) k in
      ground (arith, unseen-le cursors seen t, eq_iff t c, k', sym same)
  | inr e ↦ ground (arith, unseen-lt cursors seen t, unseen-le cursors seen t)
]

onward_unless_seen-eq :
    (page page' : List Members) (token : Option String) (t : String) (seen : List String)
    → onward_unless_seen page token seen ≡ onward page' t
    → (token ≡ some t) × (has t seen ≡ false)
onward_unless_seen-eq page page' none t seen h = cc
onward_unless_seen-eq page page' (some u) t seen h = elim (Bool-cases (has u seen)) [
  | inl e ↦ let bad : failed _ ≡ onward page' t = rw e at h in cc
  | inr e ↦
      let same : onward page u ≡ onward page' t = rw e at h in
      let v : u ≡ t = cc in (ap some v, subst (λ z. has z seen ≡ false) v e)
]

-- A step onward comes from a page with a cursor that is new.
record IsOnward (out : Result StatsError Members) (seen : List String) (t : String) : Type 0 where
  payload : Members
  page : List Members
  token : Option String
  received : out ≡ ok payload
  valid : validate_page payload ≡ ok (page, token)
  named : given_token token ≡ some t
  fresh : has t seen ≡ false

step_of_page-IsOnward :
    (payload : Members) (v : Result StatsError (List Members × Option String)) (seen : List String)
    (page' : List Members) (t : String)
    → validate_page payload ≡ v
    → step_of_page v seen ≡ onward page' t
    → IsOnward (ok payload) seen t
step_of_page-IsOnward payload (err e) seen page' t f h = cc
step_of_page-IsOnward payload (ok (page, token)) seen page' t f h =
    let (n, k) = onward_unless_seen-eq page page' (given_token token) t seen h in
    record {
      payload = payload;
      page = page;
      token = token;
      received = refl;
      valid = f;
      named = n;
      fresh = k;
    }

step_of-IsOnward :
    (out : Result StatsError Members) (seen : List String) (page' : List Members) (t : String)
    → step_of out seen ≡ onward page' t
    → IsOnward out seen t
unfolding step_of
step_of-IsOnward (err e) seen page' t h = cc
step_of-IsOnward (ok payload) seen page' t h =
    step_of_page-IsOnward payload (validate_page payload) seen page' t refl h

-- There is an outcome.
abbrev pub Ends : {A : Type 0} → Option A → Type 0
Ends {A} o = (a : A) × (o ≡ some a)

follow-Ends :
    {W : Type 0} (step : Step) (records : List Members) (after : W)
    (next : List Members → String → Option (Effect W (List Members)))
    → ((page : List Members) (t : String) → step ≡ onward page t → Ends (next (records ++ page) t))
    → Ends (follow step records after next)
follow-Ends (failed e) records after next h = (_, refl)
follow-Ends (finished page) records after next h = (_, refl)
follow-Ends (onward page t) records after next h = h page t refl

module _ {W F : Type 0} (network : Network W F) (client : Client F) where
  -- Every cursor that the service gives is one of the list.
  abbrev pub AreCursors : List String → Type 0
  AreCursors cursors =
      (url : String) (w : W) (payload : Members) (page : List Members) (token : Option String)
      (t : String)
      → (request_json network client url w).0 ≡ ok payload
      → validate_page payload ≡ ok (page, token)
      → given_token token ≡ some t
      → has t cursors ≡ true

  module _ (endpoint : String) (params : Members) (cursors : List String)
      (finite : AreCursors cursors) where
    page_loop-Ends :
        (fuel : ℕ) (url : Option String) (seen : List String) (records : List Members) (w : W)
        → suc (unseen cursors seen) < fuel
        → Ends (page_loop network client endpoint params fuel url seen records w)
    unfolding page_loop
    page_loop-Ends zero url seen records w h = let bad : ⊥ = omega (arith, h) in elim bad [ ]
    page_loop-Ends (suc fuel) none seen records w h = (_, refl)
    page_loop-Ends (suc fuel) (some url) seen records w h = elim (Bool-cases (url == "")) [
      | inl e ↦ rw e (_, refl)
      | inr e ↦
          let sent = request_json network client url w in
          rw e (
            follow-Ends (step_of sent.0 seen) records sent.1 _ (λ page t same.
              let go = step_of-IsOnward sent.0 seen page t same in
              let known =
                finite url w go.payload go.page go.token t go.received go.valid go.named in
              page_loop-Ends fuel _ (t ∷ seen) _ sent.1
                (omega (arith, h, unseen-lt cursors seen t known go.fresh))))
    ]

  -- Where the service gives only cursors of some list, whatever it answers, following the pages
  -- ends: as many rounds as the list is long, and two more, are enough for an outcome, since a
  -- cursor that comes again is an error.
  pub fetch_paginated-Ends :
      (endpoint : String) (params : Members) (cursors : List String) (fuel : ℕ) (w : W)
      → AreCursors cursors
      → suc (length cursors) < fuel
      → Ends (fetch_paginated network client fuel endpoint params w)
  unfolding fetch_paginated
  fetch_paginated-Ends endpoint params cursors fuel w finite h =
      page_loop-Ends endpoint params cursors finite fuel
        (some (url_of network client endpoint params)) [] [] w
        (omega (arith, h, unseen_le_length cursors))
    where
      unseen_le_length : (cs : List String) → unseen cs [] ≤ length cs
      unseen_le_length [] = omega arith
      unseen_le_length (c ∷ cs) = ground (arith, unseen_le_length cs)
