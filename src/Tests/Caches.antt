-- ===== src/Tests/Caches.antt =====
-- Runs of the cache: packages/synology-apm-repo-sdk/src/synology_apm_repo/sdk/asynccache.py.
use apm_repo_sdk_python.Base.{
  ℕ, ◌≡◌, ◌≢◌, refl, arith, true, false, [], ◌∷◌, none, some, inr, nat_deceq, ℕ_discrete,
}
use apm_repo_sdk_python.Base.Dict.{lookup, contains, add}
use apm_repo_sdk_python.Cache.{
  AsyncKeyedCache, Op, settled, fetching, apply, resolve, fetch_returned,
}
use apm_repo_sdk_python.Cache.Bounded.{IsValid, apply-IsValid}
use apm_repo_sdk_python.Cache.Fetches.{resolve-once, resolve-returned}
use apm_repo_sdk_python.Cache.Invalidation.{apply_all, returned-invalidated}
use apm_repo_sdk_python.Errors.{ok}

-- Two entries at most; key 1 is settled and key 2 is being fetched.
abbrev a_cache : AsyncKeyedCache ℕ ℕ
a_cache = record {
  maxsize = some 2;
  store = (1, 10) ∷ [];
  inflight = 2 ∷ [];
  stale = [];
  hits = 0;
  misses = 2;
  evictions = 0;
}

abbrev a_later_cache : AsyncKeyedCache ℕ ℕ
a_later_cache = record a_cache { misses = 3; inflight = 3 ∷ 2 ∷ [] }

a_cache-IsValid : IsValid a_cache
unfolding contains
a_cache-IsValid = record { bounded = omega arith; marked = λ k c. cc }

apply-IsValid_example : IsValid (apply a_cache (Op.returned 2 20))
apply-IsValid_example = apply-IsValid a_cache a_cache-IsValid (Op.returned 2 20)

runs_2 : contains 2 a_cache.inflight ≡ true
unfolding contains ℕ_discrete
runs_2 = refl

fresh_2 : contains 2 a_cache.stale ≡ false
unfolding contains
fresh_2 = refl

starts_3 : resolve a_cache 3 true ≡ (a_later_cache, ok fetching)
unfolding resolve lookup contains add ℕ_discrete
starts_3 = refl

apart_3 : ◌≢◌ {A = ℕ} 2 3
apart_3 = λ p. omega (arith, p)

returned-invalidated_example :
    lookup 2
      (apply
        (apply_all
          (apply a_cache (Op.invalidated (some 2)))
          (Op.put_one 3 30 ∷ Op.resolved 2 true ∷ []))
        (Op.returned 2 20)).store
    ≡ none
returned-invalidated_example =
    returned-invalidated a_cache 2 (some 2) (Op.put_one 3 30 ∷ Op.resolved 2 true ∷ []) 20 runs_2
      (inr refl) (λ p. omega (arith, p), (tt, tt))

resolve-once_example :
    (resolve (apply_all a_later_cache (Op.invalidated none ∷ Op.returned 2 20 ∷ [])) 3 true).1
    ≢ ok fetching
resolve-once_example =
    resolve-once a_cache a_later_cache 3 true true (Op.invalidated none ∷ Op.returned 2 20 ∷ [])
      starts_3 (tt, (apart_3, tt))

resolve-returned_example : (resolve (fetch_returned a_cache 2 20) 2 false).1 ≡ ok (settled 20)
resolve-returned_example = resolve-returned a_cache 2 20 false (omega arith) fresh_2
