-- ===== src/Statistics/Pages.antt =====
-- llm_stats.py: pages and their cursors, and the collections and models of the service.
pub mod Ends
use Prim.Native.String.{String, ◌++◌}
use graph_coder.Base.{
  ℕ, zero, suc, Bool, true, false, not, ◌&&◌, ◌||◌, List, [], ◌∷◌, ◌++◌ as append, Option, none,
  some, has, ok, err, Result, ◌>>=◌, ◌==◌, if◌then◌else◌,
}
use graph_coder.Values.{
  Json, null, object, text, array, Items, no_items, item, Members, no_members, get, get_or_null,
  set,
}
use graph_coder.Base.{codes}
use graph_coder.Graph.Scope.{starts_with}
use graph_coder.Statistics.Data.{
  Network, Client, StatsError, page_without_list, collection_without_list, bad_cursor,
  repeated_cursor, model_not_object, model_without_id, item_not_object, item_without_id,
  item_without_key, Effect,
}
use graph_coder.Plans.Readiness.{is_empty}
use graph_coder.Statistics.Requests.{request_json}

-- `payload.get(first, payload.get(second))`.
abbrev pub either : String → String → Members → Json
either first second payload = elim (get first payload) [
  | none ↦ get_or_null second payload
  | some v ↦ v
]

-- A text that is not empty, where the value is one.
abbrev pub is_identifier : Json → Bool
is_identifier (text s) = not (s == "")
is_identifier _ = false

-- `enumerate(raw_items)`, with what each item must be.
unfoldable pub check_items :
    (Members → ℕ → Option StatsError) → ℕ → Items → Result StatsError (List Members)
check_items problem index no_items = ok []
check_items problem index (item v rest) =
    let later = check_items problem (suc index) rest in
    elim v [
      | object m ↦ elim (problem m index) [
        | none ↦ later >>= λ more. ok (m ∷ more)
        | some e ↦ err e
      ]
      | _ ↦ err (item_not_object index)
    ]

abbrev pub page_item : Members → ℕ → Option StatsError
page_item m index =
    if is_identifier (either "id" "model_id" m) then none else some (item_without_id index)

-- `_validate_page`.
abbrev pub raw_items : Members → Json
raw_items payload = elim (get_or_null "models" payload) [
  | null ↦ either "data" "results" payload
  | other ↦ other
]

abbrev pub next_token : Members → Result StatsError (Option String)
next_token payload = elim (either "next_cursor" "next" payload) [
  | null ↦ ok none
  | text s ↦ ok (some s)
  | _ ↦ err bad_cursor
]

unfoldable pub validate_page : Members → Result StatsError (List Members × Option String)
unfolding check_items get
validate_page payload = elim (raw_items payload) [
  | array items ↦ check_items page_item 0 items >>= λ records.
      next_token payload >>= λ token. ok (records, token)
  | _ ↦ err page_without_list
]

-- `endpoint.lstrip("/")`.
unfoldable pub lstrip : String → String
lstrip String.[] = ""
lstrip (String.◌∷◌ c s) =
    let rest = lstrip s in if String.◌∷◌ c String.[] == "/" then rest else String.◌∷◌ c s

-- The token, where it is not empty.
abbrev pub given_token : Option String → Option String
given_token none = none
given_token (some t) = if t == "" then none else some t

-- What a page leads to: an error, the end, or the next page.
pub data Step : Type 0 where
  failed : StatsError → Step
  finished : List Members → Step
  onward : List Members → String → Step

abbrev pub onward_unless_seen : List Members → Option String → List String → Step
onward_unless_seen page none seen = finished page
onward_unless_seen page (some t) seen = if has t seen then failed repeated_cursor else onward page t

abbrev pub step_of_page : Result StatsError (List Members × Option String) → List String → Step
step_of_page (err e) seen = failed e
step_of_page (ok (page, token)) seen = onward_unless_seen page (given_token token) seen

unfoldable pub step_of : Result StatsError Members → List String → Step
unfolding validate_page
step_of (err e) seen = failed e
step_of (ok payload) seen = step_of_page (validate_page payload) seen

abbrev pub follow :
    {W : Type 0}
    → Step
    → List Members
    → W
    → (List Members → String → Option (Effect W (List Members)))
    → Option (Effect W (List Members))
follow (failed e) records after next = some (err e, after)
follow (finished page) records after next = some (ok (append records page), after)
follow (onward page token) records after next = next (append records page) token

-- `payload.get("data", payload)`.
abbrev pub data_of : Members → Json
data_of payload = elim (get "data" payload) [ none ↦ object payload | some v ↦ v ]

module _ {W F : Type 0} (network : Network W F) (client : Client F) where
  unfoldable pub url_of : String → Members → String
  unfolding lstrip
  url_of endpoint params =
      network.urljoin client.base_url (lstrip endpoint)
      ++ (if is_empty params then "" else "?" ++ network.urlencode params)

  abbrev pub is_absolute : String → Bool
  is_absolute token =
      starts_with (codes token) (codes "http://")
      || (starts_with (codes token) (codes "https://") || starts_with (codes token) (codes "/"))

  -- `_absolute_next`.
  unfoldable pub absolute_next : String → Members → Option String → Option String
  unfolding url_of set starts_with
  absolute_next endpoint params none = none
  absolute_next endpoint params (some token) =
      if token == ""
      then none
      else if is_absolute token
      then some (network.urljoin client.base_url token)
      else some (url_of endpoint (set "cursor" (text token) params))

  -- The loop over pages, on fuel: what is asked next, the cursors that are seen, and the records.
  -- Without enough fuel there is no outcome.
  unfoldable pub page_loop :
      String
      → Members
      → ℕ
      → Option String
      → List String
      → List Members
      → W
      → Option (Effect W (List Members))
  unfolding request_json step_of absolute_next
  page_loop endpoint params zero url seen records w = none
  page_loop endpoint params (suc fuel) none seen records w = some (ok records, w)
  page_loop endpoint params (suc fuel) (some url) seen records w =
      let sent = request_json network client url w in
      if url == ""
      then some (ok records, w)
      else follow (step_of sent.0 seen) records sent.1 λ more token.
        page_loop endpoint params fuel (absolute_next endpoint params (some token)) (token ∷ seen)
          more sent.1

  unfoldable pub fetch_paginated : ℕ → String → Members → W → Option (Effect W (List Members))
  unfolding page_loop url_of
  fetch_paginated fuel endpoint params w =
      page_loop endpoint params fuel (some (url_of endpoint params)) [] [] w

  abbrev pub then_with : {A B : Type 0} → Effect W A → (A → W → Effect W B) → Effect W B
  then_with (err e, w) next = (err e, w)
  then_with (ok a, w) next = next a w

  abbrev pub collection_item : Option String → Members → ℕ → Option StatsError
  collection_item none m index = none
  collection_item (some key) m index =
      if is_identifier (get_or_null key m) then none else some (item_without_key index key)

  unfoldable pub fetch_collection : String → Option String → W → Effect W (List Members)
  unfolding request_json check_items url_of get
  fetch_collection endpoint required_key w =
      then_with (request_json network client (url_of endpoint no_members) w) λ payload after.
        elim (either "data" "results" payload) [
          | array items ↦ (check_items (collection_item required_key) 0 items, after)
          | _ ↦ (err collection_without_list, after)
        ]

  unfoldable pub fetch_rankings : String → W → Effect W (List Members)
  unfolding fetch_collection
  fetch_rankings category =
      fetch_collection ("rankings/" ++ network.quote category) (some "model_id")

  unfoldable pub fetch_recent : W → Effect W (List Members)
  unfolding fetch_collection
  fetch_recent = fetch_collection "models/recent" (some "model_id")

  unfoldable pub fetch_benchmarks : String → W → Effect W (List Members)
  unfolding fetch_collection
  fetch_benchmarks model_id =
      fetch_collection ("models/" ++ (network.quote model_id ++ "/benchmarks")) none

  unfoldable pub fetch_model : String → W → Effect W Members
  unfolding request_json url_of get
  fetch_model model_id w =
      then_with
        (request_json network client (url_of ("models/" ++ network.quote model_id) no_members) w)
        λ payload after. elim (data_of payload) [
          | object value ↦
              if is_identifier (either "model_id" "id" value)
              then (ok value, after)
              else (err model_without_id, after)
          | _ ↦ (err model_not_object, after)
        ]
