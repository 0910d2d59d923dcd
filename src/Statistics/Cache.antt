-- ===== src/Statistics/Cache.antt =====
-- llm_stats.py `fetch_models_with_cache`, `_read_cache` and `_write_cache`.
pub mod Kept
use graph_coder.Base.{
  ℕ, String, Bool, true, false, not, ◌&&◌, List, [], ◌∷◌, Option, none, some, ok, err, Result,
  ◌>>=◌, map, ◌==◌, if◌then◌else◌,
}
use graph_coder.Values.{
  Json, null, boolean, integer, number, text, array, object, Items, no_items, item, Members,
  no_members, member, get, get_or_null, is_truthy,
}
use graph_coder.Graph.Node.{ℤ, pos}
use graph_coder.Statistics.Data.{
  Network, Client, StatsError, unreadable_cache, unwritable_cache, Effect,
}
use graph_coder.Statistics.Pages.{fetch_paginated}

pub record CacheResult (F : Type 0) : Type 0 where
  pub records : List Members
  pub source : String
  pub stale : Bool
  pub fetched_at : Option F
  pub expires_at : Option F

-- The records as items, and items that are all mappings.
unfoldable pub record_items : List Members → Items
record_items [] = no_items
record_items (m ∷ ms) = item (object m) (record_items ms)

unfoldable pub items_records : Items → Option (List Members)
items_records no_items = some []
items_records (item v rest) =
    let later = items_records rest in
    elim v [ object m ↦ elim later [ none ↦ none | some ms ↦ some (m ∷ ms) ] | _ ↦ none ]

module _ {W F : Type 0} (network : Network W F) where
  abbrev pub number_of : Option F → Json
  number_of none = null
  number_of (some x) = number (network.render x)

  -- `float(v) if isinstance(v, int | float) else None`.
  abbrev pub float_of : Json → Option F
  float_of (number s) = network.float s
  float_of (integer n) = some (network.of_integer n)
  float_of (boolean true) = some (network.of_natural 1)
  float_of (boolean false) = some (network.of_natural 0)
  float_of _ = none

  -- The object that `_write_cache` writes.
  unfoldable pub cache_payload : CacheResult F → Json
  unfolding record_items
  cache_payload result = object (
      member "records" (array (record_items result.records)) (
        member "source" (text result.source) (
          member "stale" (boolean result.stale) (
            member "fetched_at" (number_of result.fetched_at)
              (member "expires_at" (number_of result.expires_at) no_members)))))

  -- `str(payload.get("source", "cache"))` and `bool(payload.get("stale", False))`.
  abbrev pub source_of : Members → String
  source_of payload = elim (get "source" payload) [
    | none ↦ "cache"
    | some (text s) ↦ s
    | some v ↦ network.str v
  ]

  abbrev pub is_stale : Members → Bool
  is_stale payload = is_truthy (get_or_null "stale" payload)

  -- What the payload of the file is, where it has the shape of one.
  unfoldable pub cache_of : Json → Option (CacheResult F)
  unfolding items_records get
  cache_of (object payload) = elim (get_or_null "records" payload) [
    | array items ↦ elim (items_records items) [
      | none ↦ none
      | some records ↦ some record {
        records = records;
        source = source_of payload;
        stale = is_stale payload;
        fetched_at = float_of (get_or_null "fetched_at" payload);
        expires_at = float_of (get_or_null "expires_at" payload);
      }
    ]
    | _ ↦ none
  ]
  cache_of _ = none

  unfoldable pub read_cache : W → Result StatsError (Option (CacheResult F))
  unfolding cache_of
  read_cache w = elim (network.read_file w) [
    | none ↦ ok none
    | some body ↦ elim (network.loads body) [
      | none ↦ err unreadable_cache
      | some payload ↦ ok (cache_of payload)
    ]
  ]

  -- `cached and cached.expires_at is not None and cached.expires_at > now`.
  abbrev pub is_fresh : F → Option (CacheResult F) → Bool
  is_fresh now none = false
  is_fresh now (some c) = elim c.expires_at [ none ↦ false | some at ↦ network.floats.less now at ]

  -- An exception after the cache was read: the cached records, stale, or the exception.
  abbrev pub fall_back : Option (CacheResult F) → StatsError → Result StatsError (CacheResult F)
  fall_back none problem = err problem
  fall_back (some c) problem = ok (record c { source = "stale_cache"; stale = true })

module _ {W F : Type 0} (network : Network W F) (client : Client F) where
  abbrev pub fetched : F → List Members → CacheResult F
  fetched now records = record {
    records = records;
    source = "network";
    stale = false;
    fetched_at = some now;
    expires_at = some (network.floats.plus now client.cache_ttl_seconds);
  }

  -- What follows the pages: the write of the cache, or an exception.
  abbrev pub stored :
      Option (CacheResult F) → F → Effect W (List Members) → Effect W (CacheResult F)
  stored cached now (err problem, after) = (fall_back network cached problem, after)
  stored cached now (ok records, after) =
      let written =
        network.write_file (network.dumps (cache_payload network (fetched now records))) after in
      if written.0
      then (ok (fetched now records), written.1)
      else (fall_back network cached unwritable_cache, written.1)

  abbrev pub reuse : Option (CacheResult F) → W → Option (Effect W (CacheResult F))
  reuse none w = none
  reuse (some c) w = some (ok (record c { source = "cache"; stale = false }), w)

  -- After the cache is read; the fuel is that of the pages.
  unfoldable pub fetch_with :
      ℕ → String → Members → W → Option (CacheResult F) → Option (Effect W (CacheResult F))
  unfolding fetch_paginated cache_payload
  fetch_with fuel endpoint params w cached =
      if is_fresh network (network.now w) cached
      then reuse cached w
      else elim (fetch_paginated network client fuel endpoint params w) [
        | none ↦ none
        | some out ↦ some (stored cached (network.now w) out)
      ]

  unfoldable pub fetch_models_with_cache :
      ℕ → String → Members → W → Option (Effect W (CacheResult F))
  unfolding read_cache fetch_with
  fetch_models_with_cache fuel endpoint params w = elim (read_cache network w) [
    | err problem ↦ some (err problem, w)
    | ok cached ↦ fetch_with fuel endpoint params w cached
  ]

  -- `fetch_models(...)`: the records alone.
  unfoldable pub fetch_models : ℕ → String → Members → W → Option (Effect W (List Members))
  unfolding fetch_models_with_cache
  fetch_models fuel endpoint params w = elim (fetch_models_with_cache fuel endpoint params w) [
    | none ↦ none
    | some (out, after) ↦ some (out >>= λ result. ok result.records, after)
  ]
