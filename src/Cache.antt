-- ===== src/Cache.antt =====
-- packages/synology-apm-repo-sdk/src/synology_apm_repo/sdk/asynccache.py: `AsyncKeyedCache`, as the
-- steps that run between two awaits. The keys of `_inflight` stand for its futures.
pub mod Bounded
pub mod Absent
pub mod Invalidation
pub mod Fetches
use apm_repo_sdk_python.Base.{
  ℕ, ◌+◌, Bool, true, false, not, ◌||◌, List, [], ◌∷◌, ◌++◌, map, Option, none, some, ltb, length,
  DecEq, if◌then◌else◌,
}
use apm_repo_sdk_python.Base.Dict.{Dict, Frozenset, lookup, without, contains, add, remove}
use apm_repo_sdk_python.Errors.{Result, ok, raise, Error}

-- The oldest entry of the store comes first.
pub record AsyncKeyedCache (K V : Type 0) : Type 0 where
  pub maxsize : Option ℕ
  pub store : Dict K V
  pub inflight : Frozenset K
  pub stale : Frozenset K
  pub hits : ℕ
  pub misses : ℕ
  pub evictions : ℕ

pub record CacheStats : Type 0 where
  pub size : ℕ
  pub maxsize : Option ℕ
  pub hits : ℕ
  pub misses : ℕ
  pub evictions : ℕ

-- How `resolve` goes on: with a settled value, with another caller's fetch, or with its own.
pub data Resolved (V : Type 0) : Type 0 where
  settled : V → Resolved V
  joined : Resolved V
  fetching : Resolved V

-- What happens to a cache between two awaits; `maxsize` stays.
pub data Op (K V : Type 0) : Type 0 where
  looked_up : K → Op K V
  put_one : K → V → Op K V
  put_several : Dict K V → Op K V
  resolved : K → Bool → Op K V
  returned : K → V → Op K V
  raised : K → Op K V
  invalidated : Option K → Op K V

-- `self._stale.update(self._inflight)`.
abbrev pub add_all : {K : Type 0} ⦃e : DecEq K⦄ → Frozenset K → Frozenset K → Frozenset K
add_all [] s = s
add_all (key ∷ keys) s = add_all keys (add key s)

module _ {K V : Type 0} where
  abbrev pub empty_cache : Option ℕ → AsyncKeyedCache K V
  empty_cache maxsize = record {
    maxsize = maxsize;
    store = [];
    inflight = [];
    stale = [];
    hits = 0;
    misses = 0;
    evictions = 0;
  }

  abbrev pub stats : AsyncKeyedCache K V → CacheStats
  stats c = record {
    size = length c.store;
    maxsize = c.maxsize;
    hits = c.hits;
    misses = c.misses;
    evictions = c.evictions;
  }

  -- `while len(self._store) > maxsize: self._store.popitem(last=False)`, with the number of entries
  -- that go.
  unfoldable pub evict_loop : ℕ → Dict K V → Dict K V × ℕ
  evict_loop maxsize [] = ([], 0)
  evict_loop maxsize (entry ∷ store) =
      let rest = evict_loop maxsize store in
      if ltb maxsize (length (entry ∷ store)) then (rest.0, rest.1 + 1) else (entry ∷ store, 0)

  abbrev pub evict_to : Option ℕ → Dict K V → Dict K V × ℕ
  evict_to none store = (store, 0)
  evict_to (some maxsize) store = evict_loop maxsize store

  unfoldable pub evict : AsyncKeyedCache K V → AsyncKeyedCache K V
  unfolding evict_loop
  evict c = record c {
    store = (evict_to c.maxsize c.store).0;
    evictions = c.evictions + (evict_to c.maxsize c.store).1;
  }

  abbrev pub set_maxsize : AsyncKeyedCache K V → Option ℕ → AsyncKeyedCache K V
  set_maxsize c maxsize = record c { maxsize = maxsize }

  module _ ⦃e : DecEq K⦄ where
    -- `store[key] = value; store.move_to_end(key)`.
    abbrev pub put_last : K → V → Dict K V → Dict K V
    put_last key value store = without (key ∷ []) store ++ ((key, value) ∷ [])

    -- The method `lookup`, with `none` for the default.
    unfoldable pub lookup_cached : AsyncKeyedCache K V → K → AsyncKeyedCache K V × Option V
    lookup_cached c key = elim (lookup key c.store) [
      | some value ↦
          (record c { hits = c.hits + 1; store = put_last key value c.store }, some value)
      | none ↦ (record c { misses = c.misses + 1 }, none)
    ]

    unfoldable pub store_and_evict : AsyncKeyedCache K V → K → V → AsyncKeyedCache K V
    unfolding evict
    store_and_evict c key value = evict (record c { store = put_last key value c.store })

    unfoldable pub put : AsyncKeyedCache K V → K → V → AsyncKeyedCache K V
    unfolding store_and_evict
    put c key value = store_and_evict c key value

    unfoldable pub put_all : Dict K V → Dict K V → Dict K V
    put_all store [] = store
    put_all store ((key, value) ∷ items) = put_all (put_last key value store) items

    unfoldable pub put_many : AsyncKeyedCache K V → Dict K V → AsyncKeyedCache K V
    unfolding evict put_all
    put_many c items = evict (record c { store = put_all c.store items })

    -- `resolve` up to its first await; `has_fetch` tells whether a fetch was bound or passed.
    unfoldable pub resolve :
        AsyncKeyedCache K V → K → Bool → AsyncKeyedCache K V × Result (Resolved V)
    resolve c key has_fetch = elim (lookup key c.store) [
      | some value ↦
          (record c { hits = c.hits + 1; store = put_last key value c.store }, ok (settled value))
      | none ↦
          if contains key c.inflight
          then (c, ok joined)
          else if has_fetch
          then (record c { misses = c.misses + 1; inflight = add key c.inflight }, ok fetching)
          else (record c { misses = c.misses + 1 }, raise Error.type_error)
    ]

    -- `_fetch_and_store` once its fetch has returned a value.
    unfoldable pub fetch_returned : AsyncKeyedCache K V → K → V → AsyncKeyedCache K V
    unfolding store_and_evict
    fetch_returned c key value =
        let stored =
          if contains key c.stale
          then record c { stale = remove key c.stale }
          else store_and_evict c key value in
        record stored { inflight = remove key stored.inflight }

    -- Once its fetch has raised, or was cancelled.
    unfoldable pub fetch_raised : AsyncKeyedCache K V → K → AsyncKeyedCache K V
    fetch_raised c key = record c { inflight = remove key c.inflight; stale = remove key c.stale }

    unfoldable pub invalidate : AsyncKeyedCache K V → Option K → AsyncKeyedCache K V
    invalidate c none = record c { store = []; stale = add_all c.inflight c.stale }
    invalidate c (some key) = record c {
      store = without (key ∷ []) c.store;
      stale = if contains key c.inflight then add key c.stale else c.stale;
    }

    unfoldable pub apply : AsyncKeyedCache K V → Op K V → AsyncKeyedCache K V
    unfolding lookup_cached put put_many resolve fetch_returned fetch_raised invalidate
    apply c (looked_up key) = (lookup_cached c key).0
    apply c (put_one key value) = put c key value
    apply c (put_several items) = put_many c items
    apply c (resolved key has_fetch) = (resolve c key has_fetch).0
    apply c (returned key value) = fetch_returned c key value
    apply c (raised key) = fetch_raised c key
    apply c (invalidated key) = invalidate c key
