-- ===== src/Examples/Statistics.antt =====
-- The theorems on llm_stats.py at a service that gives one page with one cursor, for ever. The world
-- is the number of requests that were sent.
use graph_coder.Base.{
  ℕ, zero, suc, ◌+◌, ◌≤◌, String, true, false, [], ◌∷◌, none, some, ok, err, returned-injective,
  refl, sym, subst, arith, ◌≡◌, ◌==◌, eq_iff, if◌then◌else◌, ap,
}
use graph_coder.Graph.Node.{pos, negsuc}
use graph_coder.Values.{text, array, object, no_items, item, no_members, member, Members, get}
use graph_coder.Statistics.Data.{Effect, received, Network, Client, StatsError, repeated_cursor}
use graph_coder.Statistics.Requests.{request_json}
use graph_coder.Statistics.Requests.Bounded.{IsCount, request_json-bound}
use graph_coder.Statistics.Pages.{fetch_paginated, validate_page, given_token}
use graph_coder.Statistics.Pages.Ends.{AreCursors, Ends, fetch_paginated-Ends}
use graph_coder.Statistics.Cache.{
  CacheResult, cache_payload, cache_of, read_cache, fetch_models_with_cache,
}
use graph_coder.Statistics.Cache.Kept.{
  cache_of-cache_payload, IsServed, fetch_models_with_cache-IsServed,
}
use graph_coder.Examples.Routes.{whole}

-- A number as that many characters.
abbrev unary : ℕ → String
unary zero = ""
unary (suc n) = String.◌∷◌ "i" (unary n)

abbrev size : String → ℕ
size String.[] = 0
size (String.◌∷◌ c s) = suc (size s)

size-unary : (n : ℕ) → size (unary n) ≡ n
size-unary zero = refl
size-unary (suc n) = ap suc (size-unary n)

abbrev page : Members
page =
    member "models" (array (item (object (member "id" (text "m1") no_members)) no_items))
      (member "next_cursor" (text "c1") no_members)

abbrev cached : CacheResult ℕ
cached = record {
  records = member "id" (text "m0") no_members ∷ [];
  source = "network";
  stale = false;
  fetched_at = some 1;
  expires_at = some 2;
}

-- The file holds the result of an earlier run.
abbrev network : Network ℕ ℕ
network = record {
  floats = whole;
  api_key = λ w. some "key";
  urlopen = λ url key w. (received "page", suc w);
  sleep = λ delay w. w;
  now = λ w. 5;
  loads = λ s.
      if s == "page"
      then some (object page)
      else some (
          object (
            member "records" (array (item (object (member "id" (text "m0") no_members)) no_items))
              no_members));
  float = λ s. some (size s);
  timestamp = λ s. none;
  of_natural = λ n. n;
  of_integer = elim [ pos n ↦ n | negsuc n ↦ 0 ];
  render = unary;
  dumps = λ v. "";
  read_file = λ w. some "file";
  write_file = λ s w. (true, w);
  urljoin = λ a b. b;
  urlencode = λ m. "";
  quote = λ s. s;
  decimal = λ n. "401";
  str = λ v. "";
}

abbrev client : Client ℕ
client = record {
  base_url = "https://api.zeroeval.com/stats/v1/";
  max_retries = 2;
  retry_backoff = 1;
  cache_ttl_seconds = 3600;
}

sent-IsCount : IsCount network (λ w. w)
sent-IsCount = record { opened = λ url key w. omega arith; slept = λ delay w. omega arith }

request_json-bound_example : (request_json network client "models" 0).1 ≤ 0 + 3
request_json-bound_example = request_json-bound network client (λ w. w) sent-IsCount "models" 0

finite : AreCursors network client ("c1" ∷ [])
unfolding request_json validate_page get
finite url w payload p token t h v g =
    let same = returned-injective StatsError h in
    let read : validate_page page ≡ ok (p, token) =
      subst (λ z. validate_page z ≡ ok (p, token)) (sym same) v in
    let cursor : some "c1" ≡ token = ap (λ z. z.1) (returned-injective StatsError read) in
    let named : some "c1" ≡ some t = subst (λ z. given_token z ≡ some t) (sym cursor) g in
    let this : "c1" ≡ t = cc in ground (arith, eq_iff "c1" t)

fetch_paginated-Ends_example : Ends (fetch_paginated network client 4 "models" no_members 0)
fetch_paginated-Ends_example =
    fetch_paginated-Ends network client "models" no_members ("c1" ∷ []) 4 0 finite (omega arith)

cache_of-cache_payload_example : cache_of network (cache_payload network cached) ≡ some cached
cache_of-cache_payload_example = cache_of-cache_payload network cached (λ x. ap some (size-unary x))

-- The file has no time, so the service is asked; it repeats its cursor, and the cache stands in.
abbrev outdated : CacheResult ℕ
outdated = record {
  records = member "id" (text "m0") no_members ∷ [];
  source = "cache";
  stale = false;
  fetched_at = none;
  expires_at = none;
}

served :
    fetch_models_with_cache network client 4 "models" no_members 0
    ≡ some (ok (record outdated { source = "stale_cache"; stale = true }), 2)
unfolding fetch_models_with_cache
served = refl

fetch_models_with_cache-IsServed_example :
    (out : Effect ℕ (CacheResult ℕ)) × (fetch_models_with_cache network client 4 "models" no_members
        0
      ≡ some out)
    × IsServed network client 4 "models" no_members 0 outdated out
unfolding read_cache
fetch_models_with_cache-IsServed_example =
    fetch_models_with_cache-IsServed network client 4 "models" no_members 0 outdated ("c1" ∷ [])
      refl finite (omega arith)

-- A run of the code: the second page has the cursor of the first.
repeated : fetch_paginated network client 4 "models" no_members 0 ≡ some (err repeated_cursor, 2)
unfolding fetch_paginated
repeated = refl
