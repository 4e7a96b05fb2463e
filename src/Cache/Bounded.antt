-- ===== src/Cache/Bounded.antt =====
-- The size of the store, and which fetches are marked stale, over every operation.
use apm_repo_sdk_python.Base.{
  sym, ap, ◌∙◌, ℕ, ◌+◌, ◌≤◌, ◌<◌, ◌≡◌, ◌≢◌, refl, arith, Bool, true, false, [], ◌∷◌, ◌||◌, Option,
  none, some, length, length-append, DecEq, if◌then◌else◌, Option-cases, Bool-cases, inl, inr,
}
use apm_repo_sdk_python.Base.Dict.{
  Dict, Frozenset, lookup, without, contains, add, remove, contains-add, contains-remove,
}
use apm_repo_sdk_python.Errors.{Result, ok, raise, Error}
use apm_repo_sdk_python.Cache.{
  Resolved, joined, fetching, AsyncKeyedCache, Op, apply, evict_loop, evict_to, evict, put_last,
  store_and_evict, fetch_returned, add_all,
}

-- The store is within the bound.
abbrev pub Fits : {K V : Type 0} → Option ℕ → Dict K V → Type 0
Fits none store = Unit
Fits (some maxsize) store = length store ≤ maxsize

true-false : true ≡ false → ⊥
true-false p = cc

some-none : {A : Type 0} {a : A} → some a ≡ none → ⊥
some-none p = cc

module _ {K : Type 0} ⦃e : DecEq K⦄ where
  abbrev pub IsMarked : Frozenset K → Frozenset K → Type 0
  IsMarked stale inflight = (k : K) → contains k stale ≡ true → contains k inflight ≡ true

  pub contains-add_all :
      (j : K) (ks s : Frozenset K) → contains j (add_all ks s) ≡ contains j ks || contains j s
  unfolding contains
  contains-add_all j [] s = refl
  contains-add_all j (k ∷ ks) s =
      ground (arith, contains-add_all j ks (add k s), contains-add k j s)

  module _ (stale inflight : Frozenset K) (h : IsMarked stale inflight) (key : K) where
    IsMarked-start : IsMarked stale (add key inflight)
    IsMarked-start = λ k c. ground (arith, contains-add key k inflight, h k)

    IsMarked-remove : IsMarked (remove key stale) (remove key inflight)
    IsMarked-remove =
        λ k c. ground (arith, contains-remove key k inflight, contains-remove key k stale, h k)

    IsMarked-end : contains key stale ≡ false → IsMarked stale (remove key inflight)
    IsMarked-end fresh = λ k c. elim (e.eq? key k) [
      | yes p ↦ absurd (true-false (sym c ∙ (ap (λ x. contains x stale) (sym p) ∙ fresh)))
      | no p ↦ ground (arith, contains-remove key k inflight, h k)
    ]

    marked_case :
        (k : K) (b : Bool)
        → contains key inflight ≡ b
        → contains k (if b then add key stale else stale) ≡ true
        → contains k inflight ≡ true
    marked_case k false runs c = h k c
    marked_case k true runs c = elim (e.eq? key k) [
      | yes p ↦ ap (λ x. contains x inflight) (sym p) ∙ runs
      | no p ↦ ground (arith, contains-add key k stale, h k)
    ]

    IsMarked-mark : IsMarked (if contains key inflight then add key stale else stale) inflight
    IsMarked-mark = λ k c. marked_case k (contains key inflight) refl c

  IsMarked-all :
      (stale inflight : Frozenset K)
      → IsMarked stale inflight
      → IsMarked (add_all inflight stale) inflight
  IsMarked-all stale inflight h = λ k c. ground (arith, contains-add_all k inflight stale, h k)

module _ {K V : Type 0} where
  evict_loop-length : (m : ℕ) (store : Dict K V) → length (evict_loop m store).0 ≤ m
  unfolding evict_loop
  evict_loop-length m [] = omega arith
  evict_loop-length m (entry ∷ store) = ground (arith, evict_loop-length m store)

  evict_to-Fits : (maxsize : Option ℕ) (store : Dict K V) → Fits maxsize (evict_to maxsize store).0
  evict_to-Fits none store = tt
  evict_to-Fits (some m) store = evict_loop-length m store

  Fits-smaller :
      (maxsize : Option ℕ) (a b : Dict K V) → length b ≤ length a → Fits maxsize a → Fits maxsize b
  Fits-smaller none a b le h = tt
  Fits-smaller (some m) a b le h = omega (arith, le, h)

  module _ ⦃e : DecEq K⦄ where
    length-without : (ks : Frozenset K) (s : Dict K V) → length (without ks s) ≤ length s
    unfolding without
    length-without ks [] = omega arith
    length-without ks ((j, v) ∷ s) = ground (arith, length-without ks s)

    -- An entry that moves to the end leaves its place.
    length-without_hit :
        (k : K) (s : Dict K V) → lookup k s ≢ none → length (without (k ∷ []) s) < length s
    unfolding without lookup contains
    length-without_hit k [] h = absurd (h refl)
    length-without_hit k ((j, v) ∷ s) h =
        ground (arith, length-without (k ∷ []) s, length-without_hit k s)

    -- The store is within its bound, and only fetches that run are marked as stale.
    pub record IsValid (c : AsyncKeyedCache K V) : Type 0 where
      pub bounded : Fits c.maxsize c.store
      pub marked : IsMarked c.stale c.inflight

    moved :
        (maxsize : Option ℕ) (key : K) (value : V) (store : Dict K V)
        → lookup key store ≡ some value
        → Fits maxsize store
        → Fits maxsize (put_last key value store)
    moved maxsize key value store there h =
        Fits-smaller maxsize store (put_last key value store)
          (omega (
            arith,
            length-append (without (key ∷ []) store) ((key, value) ∷ []),
            length-without_hit key store (λ gone. some-none (sym there ∙ gone)),
          ))
          h

    module _ (c : AsyncKeyedCache K V) (v : IsValid c) where
      evict-IsValid : (store : Dict K V) → IsValid (evict (record c { store = store }))
      unfolding evict
      evict-IsValid store = record { bounded = evict_to-Fits c.maxsize store; marked = v.marked }

      started :
          (key : K) (has_fetch runs : Bool)
          → IsValid
              (if◌then◌else◌ {A = AsyncKeyedCache K V × Result (Resolved V)} runs
                (c, ok joined)
                (if has_fetch
                  then (
                    record c { misses = c.misses + 1; inflight = add key c.inflight },
                    ok fetching,
                  )
                  else (record c { misses = c.misses + 1 }, raise Error.type_error))).0
      started key has_fetch true = v
      started key false false = record { bounded = v.bounded; marked = v.marked }
      started key true false = record {
        bounded = v.bounded;
        marked = IsMarked-start c.stale c.inflight v.marked key;
      }

      -- Every operation on a valid cache keeps the store within its bound, and leaves only keys that
      -- are being fetched marked as stale.
      pub apply-IsValid : (op : Op K V) → IsValid (apply c op)
      unfolding apply fetch_returned store_and_evict evict
      apply-IsValid (Op.looked_up key) = elim (Option-cases (lookup key c.store)) [
        | inl gone ↦ rw (gone, apply) (record { bounded = v.bounded; marked = v.marked })
        | inr (value, there) ↦
            rw (there, apply)
              (record {
                bounded = moved c.maxsize key value c.store there v.bounded;
                marked = v.marked;
              })
      ]
      apply-IsValid (Op.put_one key value) = evict-IsValid _
      apply-IsValid (Op.put_several items) = evict-IsValid _
      apply-IsValid (Op.resolved key has_fetch) = elim (Option-cases (lookup key c.store)) [
        | inl gone ↦ rw (gone, apply) (started key has_fetch (contains key c.inflight))
        | inr (value, there) ↦
            rw (there, apply)
              (record {
                bounded = moved c.maxsize key value c.store there v.bounded;
                marked = v.marked;
              })
      ]
      apply-IsValid (Op.returned key value) = elim (Bool-cases (contains key c.stale)) [
        | inl late ↦
            rw (late, apply)
              (record {
                bounded = v.bounded;
                marked = IsMarked-remove c.stale c.inflight v.marked key;
              })
        | inr fresh ↦
            rw (fresh, apply)
              (record {
                bounded = evict_to-Fits c.maxsize _;
                marked = IsMarked-end c.stale c.inflight v.marked key fresh;
              })
      ]
      apply-IsValid (Op.raised key) = record {
        bounded = v.bounded;
        marked = IsMarked-remove c.stale c.inflight v.marked key;
      }
      apply-IsValid (Op.invalidated none) = record {
        bounded = Fits-smaller c.maxsize c.store [] (omega arith) v.bounded;
        marked = IsMarked-all c.stale c.inflight v.marked;
      }
      apply-IsValid (Op.invalidated (some key)) = record {
        bounded = Fits-smaller c.maxsize c.store _ (length-without (key ∷ []) c.store) v.bounded;
        marked = IsMarked-mark c.stale c.inflight v.marked key;
      }
