-- ===== src/Cache/Absent.antt =====
-- What stays in a set and what stays out of a store, over the steps of the cache.
use apm_repo_sdk_python.Base.{
  ℕ, ◌≡◌, ◌≢◌, refl, arith, Bool, true, false, [], ◌∷◌, ◌++◌, Option, none, some, ltb, length,
  DecEq, if◌then◌else◌, Bool-cases, inl, inr,
}
use apm_repo_sdk_python.Base.Dict.{
  Dict, Frozenset, lookup, without, contains, add, remove, lookup-without, contains-add,
  contains-remove,
}
use apm_repo_sdk_python.Cache.{evict_loop, evict_to, put_last, put_all}

pub some-none : {V : Type 0} {v : V} → some v ≡ none → ⊥
some-none p = cc

module _ {K : Type 0} ⦃e : DecEq K⦄ where
  pub itself : (k : K) → contains k (k ∷ []) ≡ true
  unfolding contains
  itself k = ground arith

  pub kept-add : (k j : K) (s : Frozenset K) → contains k s ≡ true → contains k (add j s) ≡ true
  kept-add k j s h = ground (arith, contains-add j k s)

  pub kept-remove :
      (k j : K) (s : Frozenset K) → j ≢ k → contains k s ≡ true → contains k (remove j s) ≡ true
  kept-remove k j s apart h = ground (arith, contains-remove j k s)

  pub kept-mark :
      (k j : K) (s : Frozenset K) (runs : Bool)
      → contains k s ≡ true
      → contains k (if runs then add j s else s) ≡ true
  kept-mark k j s true h = kept-add k j s h
  kept-mark k j s false h = h

module _ {K V : Type 0} ⦃e : DecEq K⦄ where
  lookup-append_none :
      (k : K) (a b : Dict K V) → lookup k a ≡ none → lookup k b ≡ none → lookup k (a ++ b) ≡ none
  unfolding lookup
  lookup-append_none k [] b h l = l
  lookup-append_none k ((j, v) ∷ a) b h l = ground (arith, lookup-append_none k a b)

  pub put_last-none :
      (k j : K) (v : V) (s : Dict K V)
      → j ≢ k
      → lookup k s ≡ none
      → lookup k (put_last j v s) ≡ none
  unfolding lookup
  put_last-none k j v s apart h =
      lookup-append_none k (without (j ∷ []) s) ((j, v) ∷ [])
        (ground (arith, lookup-without k (j ∷ []) s)) (ground arith)

  pub nothing : (k : K) → ◌≡◌ {A = Option V} (lookup k []) none
  unfolding lookup
  nothing k = refl

  apart_tail :
      (k j : K) (v : V) (s : Dict K V)
      → lookup k ((j, v) ∷ s) ≡ none
      → (j ≢ k) × (lookup k s ≡ none)
  unfolding lookup
  apart_tail k j v s h = (λ p. ground arith, ground arith)

  evict_loop-none :
      (k : K) (m : ℕ) (s : Dict K V) → lookup k s ≡ none → lookup k (evict_loop m s).0 ≡ none
  unfolding evict_loop lookup
  evict_loop-none k m [] h = refl
  evict_loop-none k m ((j, v) ∷ s) h = elim (Bool-cases (ltb m (length ((j, v) ∷ s)))) [
    | inl over ↦ rw (over, evict_loop) (evict_loop-none k m s (apart_tail k j v s h).1)
    | inr fits ↦ rw (fits, evict_loop) h
  ]

  pub evict_to-none :
      (k : K) (maxsize : Option ℕ) (s : Dict K V)
      → lookup k s ≡ none
      → lookup k (evict_to maxsize s).0 ≡ none
  evict_to-none k none s h = h
  evict_to-none k (some m) s h = evict_loop-none k m s h

  pub put_all-none :
      (k : K) (s items : Dict K V)
      → lookup k s ≡ none
      → lookup k items ≡ none
      → lookup k (put_all s items) ≡ none
  unfolding put_all lookup
  put_all-none k s [] h l = h
  put_all-none k s ((j, v) ∷ items) h l =
      let tail = apart_tail k j v items l in
      put_all-none k (put_last j v s) items (put_last-none k j v s tail.0 h) tail.1

  pub without-none :
      (k : K) (ks : Frozenset K) (s : Dict K V) → lookup k s ≡ none → lookup k (without ks s) ≡ none
  without-none k ks s h = ground (arith, lookup-without k ks s)
