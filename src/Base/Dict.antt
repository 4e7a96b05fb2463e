-- ===== src/Base/Dict.antt =====
-- Python's `dict` and `frozenset` as association lists, in insertion order, over keys with a
-- decidable equality.
use mathlib.Core.Bool.{Bool, true, false, not, ◌&&◌}
use mathlib.Core.List.{List, [], ◌∷◌, ◌++◌}
use mathlib.Core.Logic.{ite, if_pos, if_neg, ◌≢◌}
use mathlib.Core.Option.{Option, none, some}
use mathlib.Core.Path.{◌≡◌, refl, sym, subst, ◌∙◌}
use native.Mathlib.Omega.{arith}
use apm_repo_sdk_python.Base.Lists.{All}
use apm_repo_sdk_python.Base.Tests.{DecEq, some-cancel, if◌then◌else◌}

abbrev pub Dict {ℓ κ} : Type ℓ → Type κ → Type (ℓ ⊔ κ)
Dict K V = List (K × V)

abbrev pub Frozenset {ℓ} : Type ℓ → Type ℓ
Frozenset K = List K

module _ {ℓ} {K : Type ℓ} ⦃e : DecEq K⦄ where
  -- `k in s`, `s | {k}` and `s - {k}`.
  unfoldable pub contains : K → Frozenset K → Bool
  contains k [] = false
  contains k (j ∷ s) = ite (e.eq? j k) true (contains k s)

  unfoldable pub add : K → Frozenset K → Frozenset K
  unfolding contains
  add k s = if contains k s then s else k ∷ s

  unfoldable pub remove : K → Frozenset K → Frozenset K
  remove k [] = []
  remove k (j ∷ s) = ite (e.eq? j k) (remove k s) (j ∷ remove k s)

  -- `s - t`.
  unfoldable pub minus : Frozenset K → Frozenset K → Frozenset K
  unfolding contains
  minus [] t = []
  minus (j ∷ s) t = if contains j t then minus s t else j ∷ minus s t

  pub contains-add :
      (k j : K) (s : Frozenset K) → contains j (add k s) ≡ ite (e.eq? k j) true (contains j s)
  unfolding add
  contains-add k j [] = refl
  contains-add k j (i ∷ s) = ground (arith, contains-add k j s)

  pub contains-remove :
      (k j : K) (s : Frozenset K) → contains j (remove k s) ≡ ite (e.eq? k j) false (contains j s)
  unfolding remove contains
  contains-remove k j [] = ground arith
  contains-remove k j (i ∷ s) = elim (e.eq? i k) [
    | yes p ↦ rw (if_pos _ p) (ground (arith, contains-remove k j s))
    | no p ↦ rw (if_neg _ p) (ground (arith, contains-remove k j s))
  ]

  pub contains-minus :
      (j : K) (s t : Frozenset K) → contains j (minus s t) ≡ contains j s && not (contains j t)
  unfolding minus
  contains-minus j [] t = refl
  contains-minus j (i ∷ s) t = ground (arith, contains-minus j s t)

module _ {ℓ} {K V : Type ℓ} ⦃e : DecEq K⦄ where
  -- `m.get(k)`.
  unfoldable pub lookup : K → Dict K V → Option V
  lookup k [] = none
  lookup k ((j, v) ∷ m) = ite (e.eq? j k) (some v) (lookup k m)

  -- `{**m, k: v}`: an old key keeps its place.
  unfoldable pub insert : K → V → Dict K V → Dict K V
  insert k v [] = (k, v) ∷ []
  insert k v ((j, w) ∷ m) = ite (e.eq? j k) ((k, v) ∷ m) ((j, w) ∷ insert k v m)

  -- `{**m, **n}`.
  unfoldable pub update : Dict K V → Dict K V → Dict K V
  unfolding insert
  update m [] = m
  update m ((k, v) ∷ n) = update (insert k v m) n

  -- `{k: v for k, v in m.items() if k not in ks}`.
  unfoldable pub without : Frozenset K → Dict K V → Dict K V
  unfolding contains
  without ks [] = []
  without ks ((j, v) ∷ m) = if contains j ks then without ks m else (j, v) ∷ without ks m

  pub lookup-insert :
      (k j : K) (v : V) (m : Dict K V)
      → lookup j (insert k v m) ≡ ite (e.eq? k j) (some v) (lookup j m)
  unfolding lookup insert
  lookup-insert k j v [] = refl
  lookup-insert k j v ((i, w) ∷ m) = ground (arith, lookup-insert k j v m)

  pub lookup-without :
      (j : K) (ks : Frozenset K) (m : Dict K V)
      → lookup j (without ks m) ≡ (if contains j ks then none else lookup j m)
  unfolding lookup without
  lookup-without j ks [] = ground arith
  lookup-without j ks ((i, w) ∷ m) = ground (arith, lookup-without j ks m)

  pub lookup-insert_kept :
      (k j : K) (v : V) (m : Dict K V) → lookup j m ≢ none → lookup j (insert k v m) ≢ none
  lookup-insert_kept k j v m h = ground (arith, lookup-insert k j v m)

  -- `{**m, **n}` has every key of `m`, and every key of `n`.
  pub lookup-update_kept :
      (j : K) (m n : Dict K V) → lookup j m ≢ none → lookup j (update m n) ≢ none
  unfolding update
  lookup-update_kept j m [] h = h
  lookup-update_kept j m ((k, v) ∷ n) h =
      lookup-update_kept j (insert k v m) n (lookup-insert_kept k j v m h)

  pub lookup-update_added :
      (m a : Dict K V) (k : K) (v : V) (b : Dict K V)
      → lookup k (update m (a ++ ((k, v) ∷ b))) ≢ none
  unfolding update
  lookup-update_added m [] k v b =
      lookup-update_kept k (insert k v m) b (ground (arith, lookup-insert k k v m))
  lookup-update_added m ((i, w) ∷ a) k v b = lookup-update_added (insert i w m) a k v b

  pub lookup-insert_hit :
      (k j : K) (v : V) (m : Dict K V) → k ≡ j → lookup j (insert k v m) ≡ some v
  lookup-insert_hit k j v m p = ground (arith, lookup-insert k j v m)

  pub lookup-insert_miss :
      (k j : K) (v : V) (m : Dict K V) → k ≢ j → lookup j (insert k v m) ≡ lookup j m
  lookup-insert_miss k j v m p = ground (arith, lookup-insert k j v m)

  -- A property of the values of `m` and of `n` is one of the values of `{**m, **n}`.
  pub lookup-update_all :
      (P : V → Type ℓ) (m n : Dict K V)
      → ((j : K) (v : V) → lookup j m ≡ some v → P v)
      → All (λ (p : K × V). P p.1) n
      → (j : K) (v : V) → lookup j (update m n) ≡ some v
      → P v
  unfolding update
  lookup-update_all P m [] h k = h
  lookup-update_all P m ((i, w) ∷ n) h k =
      lookup-update_all P (insert i w m) n
        (λ j v e'. elim (e.eq? i j) [
          | yes p ↦ subst P (some-cancel (sym (lookup-insert_hit i j w m p) ∙ e')) k.0
          | no p ↦ h j v (sym (lookup-insert_miss i j w m p) ∙ e')
        ])
        k.1
