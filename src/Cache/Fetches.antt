-- ===== src/Cache/Fetches.antt =====
-- The fetches: one at a time for a key, and its value is what callers get afterwards.
use mathlib.Core.Path.{subst}
use apm_repo_sdk_python.Base.{
  ℕ, ◌+◌, ◌<◌, ◌≡◌, ◌≢◌, sym, ap, ◌∙◌, refl, arith, Bool, true, false, List, [], ◌∷◌, ◌++◌, Option,
  none, some, All, ltb, le→ltb, length, DecEq, if◌then◌else◌, Option-cases, Bool-cases, inl, inr,
}
use apm_repo_sdk_python.Base.Dict.{
  Dict, lookup, without, contains, add, lookup-without, contains-add,
}
use apm_repo_sdk_python.Cache.{
  AsyncKeyedCache, Op, Resolved, settled, joined, fetching, apply, resolve, evict_loop, evict_to,
  evict, put_last, store_and_evict, fetch_returned,
}
use apm_repo_sdk_python.Cache.Absent.{itself, kept-add, kept-remove}
use apm_repo_sdk_python.Cache.Invalidation.{apply_all}
use apm_repo_sdk_python.Errors.{Result, ok, raise, Error}

-- Room for one entry at least.
abbrev pub HasRoom : Option ℕ → Type 0
HasRoom none = Unit
HasRoom (some m) = 0 < m

joined-fetching : {V : Type 0} → ◌≡◌ {A = Result (Resolved V)} (ok joined) (ok fetching) → ⊥
joined-fetching p = cc

settled-fetching :
    {V : Type 0} {v : V} → ◌≡◌ {A = Result (Resolved V)} (ok (settled v)) (ok fetching) → ⊥
settled-fetching p = cc

raise-fetching :
    {V : Type 0} {e : Error} → ◌≡◌ {A = Result (Resolved V)} (raise e) (ok fetching) → ⊥
raise-fetching p = cc

module _ {K V : Type 0} ⦃e : DecEq K⦄ where
  -- An operation other than the end of the key's fetch.
  abbrev pub KeepsRunning : K → Op K V → Type 0
  KeepsRunning k (Op.returned j value) = j ≢ k
  KeepsRunning k (Op.raised j) = j ≢ k
  KeepsRunning k _ = Unit

  module _ (k : K) (c : AsyncKeyedCache K V) (runs : contains k c.inflight ≡ true) where
    apply-runs : (op : Op K V) → KeepsRunning k op → contains k (apply c op).inflight ≡ true
    unfolding apply fetch_returned store_and_evict evict
    apply-runs (Op.looked_up j) h = elim (Option-cases (lookup j c.store)) [
      | inl gone ↦ rw (gone, apply) runs
      | inr (value, there) ↦ rw (there, apply) runs
    ]
    apply-runs (Op.put_one j value) h = runs
    apply-runs (Op.put_several items) h = runs
    apply-runs (Op.resolved j has_fetch) h = elim (Option-cases (lookup j c.store)) [
      | inl gone ↦ rw (gone, apply) (started j has_fetch (contains j c.inflight))
      | inr (value, there) ↦ rw (there, apply) runs
    ]
      where
        started :
            (j : K) (has_fetch busy : Bool)
            → contains k
                (if◌then◌else◌ {A = AsyncKeyedCache K V × Result (Resolved V)} busy
                  (c, ok joined)
                  (if has_fetch
                    then (
                      record c { misses = c.misses + 1; inflight = add j c.inflight },
                      ok fetching,
                    )
                    else (record c { misses = c.misses + 1 }, raise Error.type_error))).0.inflight
              ≡ true
        started j has_fetch true = runs
        started j false false = runs
        started j true false = kept-add k j c.inflight runs
    apply-runs (Op.returned j value) h = elim (Bool-cases (contains j c.stale)) [
      | inl late ↦ rw (late, apply) (kept-remove k j c.inflight h runs)
      | inr fresh ↦ rw (fresh, apply) (kept-remove k j c.inflight h runs)
    ]
    apply-runs (Op.raised j) h = kept-remove k j c.inflight h runs
    apply-runs (Op.invalidated none) h = runs
    apply-runs (Op.invalidated (some j)) h = runs

  module _ (c : AsyncKeyedCache K V) (k : K) where
    resolve-hit :
        (value : V) (has_fetch : Bool)
        → lookup k c.store ≡ some value
        → resolve c k has_fetch
          ≡ (record c { hits = c.hits + 1; store = put_last k value c.store }, ok (settled value))
    unfolding resolve
    resolve-hit value has_fetch there = rw (there, resolve)

    resolve-joined :
        (has_fetch : Bool)
        → lookup k c.store ≡ none
        → contains k c.inflight ≡ true
        → resolve c k has_fetch ≡ (c, ok joined)
    unfolding resolve
    resolve-joined has_fetch gone runs = rw (gone, resolve, runs)

    resolve-started :
        lookup k c.store ≡ none
        → contains k c.inflight ≡ false
        → resolve c k true
          ≡ (record c { misses = c.misses + 1; inflight = add k c.inflight }, ok fetching)
    unfolding resolve
    resolve-started gone idle = rw (gone, resolve, idle)

    resolve-unbound :
        lookup k c.store ≡ none
        → contains k c.inflight ≡ false
        → resolve c k false ≡ (record c { misses = c.misses + 1 }, raise Error.type_error)
    unfolding resolve
    resolve-unbound gone idle = rw (gone, resolve, idle)

    resolve-joins :
        (has_fetch : Bool) → contains k c.inflight ≡ true → (resolve c k has_fetch).1 ≢ ok fetching
    resolve-joins has_fetch runs = elim (Option-cases (lookup k c.store)) [
      | inl gone ↦
          λ p. joined-fetching (sym (ap (λ r. r.1) (resolve-joined has_fetch gone runs)) ∙ p)
      | inr (value, there) ↦
          λ p. settled-fetching (sym (ap (λ r. r.1) (resolve-hit value has_fetch there)) ∙ p)
    ]

    fetch_starts :
        (d : AsyncKeyedCache K V) (has_fetch : Bool)
        → resolve c k has_fetch ≡ (d, ok fetching)
        → contains k d.inflight ≡ true
    fetch_starts d has_fetch started = elim (Option-cases (lookup k c.store)) [
      | inr (value, there) ↦
          absurd
            (settled-fetching (ap (λ r. r.1) (sym (resolve-hit value has_fetch there) ∙ started)))
      | inl gone ↦ elim (Bool-cases (contains k c.inflight)) [
        | inl runs ↦
            absurd
              (joined-fetching (ap (λ r. r.1) (sym (resolve-joined has_fetch gone runs) ∙ started)))
        | inr idle ↦ idle_case has_fetch gone idle started
      ]
    ]
      where
        idle_case :
            (has_fetch : Bool)
            → lookup k c.store ≡ none
            → contains k c.inflight ≡ false
            → resolve c k has_fetch ≡ (d, ok fetching)
            → contains k d.inflight ≡ true
        idle_case true gone idle started =
            subst (λ r. contains k r.0.inflight ≡ true) (sym (resolve-started gone idle) ∙ started)
              (ground (arith, contains-add k k c.inflight))
        idle_case false gone idle started =
            absurd (raise-fetching (ap (λ r. r.1) (sym (resolve-unbound gone idle) ∙ started)))

  apply_all-runs :
      (k : K) (c : AsyncKeyedCache K V) (ops : List (Op K V))
      → contains k c.inflight ≡ true
      → All (KeepsRunning k) ops
      → contains k (apply_all c ops).inflight ≡ true
  apply_all-runs k c [] runs h = runs
  apply_all-runs k c (op ∷ ops) runs h =
      apply_all-runs k (apply c op) ops (apply-runs k c runs op h.0) h.1

  -- Once a call has started the fetch of a key, no call starts another until that fetch has ended,
  -- whatever else happens to the cache: the key may be stored, evicted or invalidated meanwhile.
  pub resolve-once :
      (c d : AsyncKeyedCache K V) (k : K) (bound has_fetch : Bool) (ops : List (Op K V))
      → resolve c k bound ≡ (d, ok fetching)
      → All (KeepsRunning k) ops
      → (resolve (apply_all d ops) k has_fetch).1 ≢ ok fetching
  resolve-once c d k bound has_fetch ops started h =
      resolve-joins (apply_all d ops) k has_fetch
        (apply_all-runs k d ops (fetch_starts c k d bound started) h)

  lookup-append_some :
      (k : K) (v : V) (a : Dict K V) → lookup k a ≡ none → lookup k (a ++ ((k, v) ∷ [])) ≡ some v
  unfolding lookup
  lookup-append_some k v [] h = ground arith
  lookup-append_some k v ((j, w) ∷ a) h = ground (arith, lookup-append_some k v a)

  evict_loop-keeps_last :
      (m : ℕ) (k : K) (v : V) (a : Dict K V)
      → 0 < m
      → lookup k a ≡ none
      → lookup k (evict_loop m (a ++ ((k, v) ∷ []))).0 ≡ some v
  unfolding evict_loop lookup
  evict_loop-keeps_last m k v [] pos h =
      rw (le→ltb m 1 (omega (arith, pos)), evict_loop) (lookup-append_some k v [] refl)
  evict_loop-keeps_last m k v ((j, w) ∷ a) pos h =
      elim (Bool-cases (ltb m (length (((j, w) ∷ a) ++ ((k, v) ∷ []))))) [
        | inl over ↦ rw (over, evict_loop) (evict_loop-keeps_last m k v a pos (ground arith))
        | inr fits ↦ rw (fits, evict_loop) (lookup-append_some k v ((j, w) ∷ a) h)
      ]

  gone : (k : K) (s : Dict K V) → lookup k (without (k ∷ []) s) ≡ none
  gone k s = ground (arith, lookup-without k (k ∷ []) s, itself k)

  put_last-stored :
      (maxsize : Option ℕ) (k : K) (v : V) (s : Dict K V)
      → HasRoom maxsize
      → lookup k (evict_to maxsize (put_last k v s)).0 ≡ some v
  put_last-stored none k v s room = lookup-append_some k v _ (gone k s)
  put_last-stored (some m) k v s room = evict_loop-keeps_last m k v _ room (gone k s)

  returned-stored :
      (c : AsyncKeyedCache K V) (k : K) (value : V)
      → HasRoom c.maxsize
      → contains k c.stale ≡ false
      → lookup k (fetch_returned c k value).store ≡ some value
  unfolding fetch_returned store_and_evict evict
  returned-stored c k value room fresh =
      rw (fresh, fetch_returned) (put_last-stored c.maxsize k value c.store room)

  -- In a cache with room for one entry at least, a fetch that is not marked as stale leaves its
  -- value: the next call for the key is a hit on it, also where older entries had to make room.
  pub resolve-returned :
      (c : AsyncKeyedCache K V) (k : K) (value : V) (has_fetch : Bool)
      → HasRoom c.maxsize
      → contains k c.stale ≡ false
      → (resolve (fetch_returned c k value) k has_fetch).1 ≡ ok (settled value)
  resolve-returned c k value has_fetch room fresh =
      ap (λ r. r.1)
        (resolve-hit (fetch_returned c k value) k value has_fetch
          (returned-stored c k value room fresh))
