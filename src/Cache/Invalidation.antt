-- ===== src/Cache/Invalidation.antt =====
-- A fetch that an invalidation meets: its value is not stored, whatever else happens meanwhile.
use mathlib.Core.Path.{subst}
use apm_repo_sdk_python.Base.{
  ◌+◌, ◌≡◌, ◌≢◌, ◌⊎◌, sym, ap, ◌∙◌, arith, Bool, true, false, List, [], ◌∷◌, Option, none, some,
  All, DecEq, if◌then◌else◌, Option-cases, Bool-cases, inl, inr,
}
use apm_repo_sdk_python.Base.Dict.{lookup, contains, add, lookup-without, contains-add}
use apm_repo_sdk_python.Cache.{
  AsyncKeyedCache, Op, Resolved, joined, fetching, apply, evict, store_and_evict, fetch_returned,
}
use apm_repo_sdk_python.Cache.Bounded.{contains-add_all}
use apm_repo_sdk_python.Errors.{Result, ok, raise, Error}
use apm_repo_sdk_python.Cache.Absent.{
  itself, kept-add, kept-remove, kept-mark, some-none, put_last-none, nothing, evict_to-none,
  put_all-none, without-none,
}

module _ {K V : Type 0} ⦃e : DecEq K⦄ where
  -- The key is being fetched, the fetch is marked as stale, and no value is settled.
  pub record Dropped (k : K) (c : AsyncKeyedCache K V) : Type 0 where
    pub running : contains k c.inflight ≡ true
    pub marked : contains k c.stale ≡ true
    pub absent : lookup k c.store ≡ none

  -- An operation that does not store a value for the key, and does not end its fetch.
  abbrev pub Spares : K → Op K V → Type 0
  Spares k (Op.put_one j value) = j ≢ k
  Spares k (Op.put_several items) = lookup k items ≡ none
  Spares k (Op.returned j value) = j ≢ k
  Spares k (Op.raised j) = j ≢ k
  Spares k _ = Unit

  abbrev pub apply_all : AsyncKeyedCache K V → List (Op K V) → AsyncKeyedCache K V
  apply_all c [] = c
  apply_all c (op ∷ ops) = apply_all (apply c op) ops

  module _ (k : K) (c : AsyncKeyedCache K V) (d : Dropped k c) where
    there_apart : (j : K) (value : V) → lookup j c.store ≡ some value → j ≢ k
    there_apart j value there p = some-none (sym there ∙ (ap (λ x. lookup x c.store) p ∙ d.absent))

    apply-Dropped : (op : Op K V) → Spares k op → Dropped k (apply c op)
    unfolding apply fetch_returned store_and_evict evict
    apply-Dropped (Op.looked_up j) h = elim (Option-cases (lookup j c.store)) [
      | inl gone ↦
          rw (gone, apply) (record { running = d.running; marked = d.marked; absent = d.absent })
      | inr (value, there) ↦
          rw (there, apply)
            (record {
              running = d.running;
              marked = d.marked;
              absent = put_last-none k j value c.store (there_apart j value there) d.absent;
            })
    ]
    apply-Dropped (Op.put_one j value) h = record {
      running = d.running;
      marked = d.marked;
      absent = evict_to-none k c.maxsize _ (put_last-none k j value c.store h d.absent);
    }
    apply-Dropped (Op.put_several items) h = record {
      running = d.running;
      marked = d.marked;
      absent = evict_to-none k c.maxsize _ (put_all-none k c.store items d.absent h);
    }
    apply-Dropped (Op.resolved j has_fetch) h = elim (Option-cases (lookup j c.store)) [
      | inl gone ↦ rw (gone, apply) (started j has_fetch (contains j c.inflight))
      | inr (value, there) ↦
          rw (there, apply)
            (record {
              running = d.running;
              marked = d.marked;
              absent = put_last-none k j value c.store (there_apart j value there) d.absent;
            })
    ]
      where
        started :
            (j : K) (has_fetch runs : Bool)
            → Dropped k
                (if◌then◌else◌ {A = AsyncKeyedCache K V × Result (Resolved V)} runs
                  (c, ok joined)
                  (if has_fetch
                    then (
                      record c { misses = c.misses + 1; inflight = add j c.inflight },
                      ok fetching,
                    )
                    else (record c { misses = c.misses + 1 }, raise Error.type_error))).0
        started j has_fetch true = d
        started j false false = record { running = d.running; marked = d.marked; absent = d.absent }
        started j true false = record {
          running = kept-add k j c.inflight d.running;
          marked = d.marked;
          absent = d.absent;
        }
    apply-Dropped (Op.returned j value) h = elim (Bool-cases (contains j c.stale)) [
      | inl late ↦
          rw (late, apply)
            (record {
              running = kept-remove k j c.inflight h d.running;
              marked = kept-remove k j c.stale h d.marked;
              absent = d.absent;
            })
      | inr fresh ↦
          rw (fresh, apply)
            (record {
              running = kept-remove k j c.inflight h d.running;
              marked = d.marked;
              absent = evict_to-none k c.maxsize _ (put_last-none k j value c.store h d.absent);
            })
    ]
    apply-Dropped (Op.raised j) h = record {
      running = kept-remove k j c.inflight h d.running;
      marked = kept-remove k j c.stale h d.marked;
      absent = d.absent;
    }
    apply-Dropped (Op.invalidated none) h = record {
      running = d.running;
      marked = ground (arith, contains-add_all k c.inflight c.stale, d.marked);
      absent = nothing k;
    }
    apply-Dropped (Op.invalidated (some j)) h = record {
      running = d.running;
      marked = kept-mark k j c.stale (contains j c.inflight) d.marked;
      absent = without-none k (j ∷ []) c.store d.absent;
    }

  apply_all-Dropped :
      (k : K) (c : AsyncKeyedCache K V) (ops : List (Op K V))
      → Dropped k c
      → All (Spares k) ops
      → Dropped k (apply_all c ops)
  apply_all-Dropped k c [] d h = d
  apply_all-Dropped k c (op ∷ ops) d h =
      apply_all-Dropped k (apply c op) ops (apply-Dropped k c d op h.0) h.1

  returned-Dropped :
      (k : K) (c : AsyncKeyedCache K V) (value : V)
      → Dropped k c
      → lookup k (apply c (Op.returned k value)).store ≡ none
  unfolding apply fetch_returned
  returned-Dropped k c value d = rw (d.marked, apply) d.absent

  invalidated-Dropped :
      (c : AsyncKeyedCache K V) (k : K) (target : Option K)
      → contains k c.inflight ≡ true
      → (target ≡ none) ⊎ (target ≡ some k)
      → Dropped k (apply c (Op.invalidated target))
  unfolding apply
  invalidated-Dropped c k target runs (inl p) =
      subst (λ t. Dropped k (apply c (Op.invalidated t))) (sym p)
        (record {
          running = runs;
          marked = ground (arith, contains-add_all k c.inflight c.stale, runs);
          absent = nothing k;
        })
  invalidated-Dropped c k target runs (inr p) =
      subst (λ t. Dropped k (apply c (Op.invalidated t))) (sym p)
        (record {
          running = runs;
          marked = rw runs (ground (arith, contains-add k k c.stale));
          absent = ground (arith, lookup-without k (k ∷ []) c.store, itself k);
        })

  -- A fetch that runs while its key is invalidated, alone or with the whole cache. However many
  -- operations follow, its value is not stored when it returns, unless one of them stored a value
  -- for the key or ended the fetch.
  pub returned-invalidated :
      (c : AsyncKeyedCache K V) (k : K) (target : Option K) (ops : List (Op K V)) (value : V)
      → contains k c.inflight ≡ true
      → (target ≡ none) ⊎ (target ≡ some k)
      → All (Spares k) ops
      → lookup k
          (apply (apply_all (apply c (Op.invalidated target)) ops) (Op.returned k value)).store
        ≡ none
  returned-invalidated c k target ops value runs hit spared = returned-Dropped k _ value (
      apply_all-Dropped k (apply c (Op.invalidated target)) ops
        (invalidated-Dropped c k target runs hit) spared)
