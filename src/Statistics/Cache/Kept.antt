-- ===== src/Statistics/Cache/Kept.antt =====
-- The cache gives back what is written to it, and stands in for a service that fails.
use graph_coder.Base.{
  ℕ, suc, ◌<◌, String, true, false, List, [], ◌∷◌, Option, none, some, ok, err, Result, ◌≡◌, ◌↔◌,
  refl, sym, ap, ◌∙◌, inl, inr, Bool-cases, Option-cases, length,
}
use graph_coder.Values.{Members}
use graph_coder.Statistics.Data.{Network, Client, StatsError, Effect}
use graph_coder.Statistics.Pages.{fetch_paginated}
use graph_coder.Statistics.Pages.Ends.{AreCursors, fetch_paginated-Ends}
use graph_coder.Statistics.Cache.{
  CacheResult, record_items, items_records, number_of, float_of, cache_payload, cache_of,
  read_cache, is_fresh, fetched, stored, fetch_with, fetch_models_with_cache,
}

items_records-record_items : (ms : List Members) → items_records (record_items ms) ≡ some ms
unfolding items_records record_items
items_records-record_items [] = refl
items_records-record_items (m ∷ ms) = rw (items_records-record_items ms) refl

module _ {W F : Type 0} (network : Network W F) where
  -- `float(repr(x)) == x`.
  abbrev pub RoundTrips : Type 0
  RoundTrips = (x : F) → network.float (network.render x) ≡ some x

  float_of-number_of : RoundTrips → (o : Option F) → float_of network (number_of network o) ≡ o
  float_of-number_of trips none = refl
  float_of-number_of trips (some x) = trips x

  -- Where numbers survive being written as text and read again: reading the JSON value that
  -- `_write_cache` writes gives the whole result back.
  pub cache_of-cache_payload :
      (result : CacheResult F)
      → RoundTrips
      → cache_of network (cache_payload network result) ≡ some result
  unfolding cache_of cache_payload
  cache_of-cache_payload result trips =
      rw
        (
          items_records-record_items result.records,
          float_of-number_of trips result.fetched_at,
          float_of-number_of trips result.expires_at,
          cache_of,
        )
        refl

module _ {W F : Type 0} (network : Network W F) (client : Client F) (fuel : ℕ) (endpoint : String)
    (params : Members) (w : W) (c : CacheResult F) where
  -- The cache has a time of expiry, and that is after the present.
  pub record IsCurrent : Type 0 where
    pub at : F
    pub expires : c.expires_at ≡ some at
    pub later : network.floats.less (network.now w) at ≡ true

  -- What a caller gets where there is a cache. Current: its records, and the world as it was. Else
  -- what `fetch_paginated` did decides: its records, written to the cache, or the cached ones.
  pub data IsServed : Result StatsError (CacheResult F) × W → Type 0 where
    from_cache : IsCurrent → IsServed (ok (record c { source = "cache"; stale = false }), w)
    from_network :
        (records : List Members) (between after : W)
        → (IsCurrent → ⊥)
        → fetch_paginated network client fuel endpoint params w ≡ some (ok records, between)
        → network.write_file
            (network.dumps (cache_payload network (fetched network client (network.now w) records)))
            between
          ≡ (true, after)
        → IsServed (ok (fetched network client (network.now w) records), after)
    failed_request :
        (problem : StatsError) (after : W)
        → (IsCurrent → ⊥)
        → fetch_paginated network client fuel endpoint params w ≡ some (err problem, after)
        → IsServed (ok (record c { source = "stale_cache"; stale = true }), after)
    failed_write :
        (records : List Members) (between after : W)
        → (IsCurrent → ⊥)
        → fetch_paginated network client fuel endpoint params w ≡ some (ok records, between)
        → network.write_file
            (network.dumps (cache_payload network (fetched network client (network.now w) records)))
            between
          ≡ (false, after)
        → IsServed (ok (record c { source = "stale_cache"; stale = true }), after)

  is_fresh-IsCurrent : (is_fresh network (network.now w) (some c) ≡ true) ↔ IsCurrent
  is_fresh-IsCurrent = elim (Option-cases c.expires_at) [
    | inl e ↦ (
      λ h. let bad : false ≡ true = rw e at h in cc,
      λ k. let bad : none ≡ some k.at = sym e ∙ k.expires in cc,
    )
    | inr (at, e) ↦
        (λ h. record { at = at; expires = e; later = rw e at h }, λ k. rw k.expires k.later)
  ]

  stored-IsServed :
      (out : Effect W (List Members))
      → (IsCurrent → ⊥)
      → fetch_paginated network client fuel endpoint params w ≡ some out
      → IsServed (stored network client (some c) (network.now w) out)
  stored-IsServed (err problem, after) old h = failed_request problem after old h
  stored-IsServed (ok records, between) old h =
      let body =
        network.dumps (cache_payload network (fetched network client (network.now w) records)) in
      let written = network.write_file body between in
      elim (Bool-cases written.0) [
        | inl e ↦ rw e (from_network records between written.1 old h (ap (λ b. (b, written.1)) e))
        | inr e ↦ rw e (failed_write records between written.1 old h (ap (λ b. (b, written.1)) e))
      ]

  -- Where the cache file holds a result, the service gives only cursors of some list and the fuel
  -- is at least two more than its length: `fetch_models_with_cache` returns, and never raises. Where
  -- the cached result expires after the present it is the outcome, with nothing sent. Elsewhere
  -- the pages are fetched: the outcome is their records where fetching and the write of the cache
  -- succeed, and the cached result marked as stale where one of the two fails.
  pub fetch_models_with_cache-IsServed :
      (cursors : List String)
      → read_cache network w ≡ ok (some c)
      → AreCursors network client cursors
      → suc (length cursors) < fuel
      → (out : Effect W (CacheResult F)) × (fetch_models_with_cache network client fuel endpoint
            params w
          ≡ some out)
        × IsServed out
  unfolding fetch_models_with_cache fetch_with
  fetch_models_with_cache-IsServed cursors found finite enough =
      let (pages, f) =
        fetch_paginated-Ends network client endpoint params cursors fuel w finite enough in
      elim (Bool-cases (is_fresh network (network.now w) (some c))) [
        | inl e ↦ (
          (ok (record c { source = "cache"; stale = false }), w),
          rw (found, e, fetch_models_with_cache) refl,
          from_cache (is_fresh-IsCurrent.0 e),
        )
        | inr e ↦ (
          stored network client (some c) (network.now w) pages,
          rw (found, e, f, fetch_models_with_cache) refl,
          stored-IsServed pages
              (λ k. let t = is_fresh-IsCurrent.1 k in let bad : false ≡ true = sym e ∙ t in cc) f,
        )
      ]
