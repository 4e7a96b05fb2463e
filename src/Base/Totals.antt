-- ===== src/Base/Totals.antt =====
-- A `dict` with one entry for each key, and sums over its values.
use Prim.Native.Nat.{ℕ, ◌+◌, ◌≤◌}
use mathlib.Core.List.{[], ◌∷◌}
use mathlib.Core.Logic.{if_pos, if_neg}
use mathlib.Core.Option.{none, some}
use mathlib.Core.Path.{◌≡◌, refl, sym, ◌∙◌, ap, subst}
use native.Mathlib.Omega.{arith}
use apm_repo_sdk_python.Base.Dict.{
  Dict, lookup, insert, without, contains, lookup-insert_miss, lookup-without,
}
use apm_repo_sdk_python.Base.Tests.{DecEq, some-cancel, some_none}

module _ {K V : Type 0} ⦃e : DecEq K⦄ where
  unfoldable pub IsDistinct : Dict K V → Type 0
  unfolding lookup
  IsDistinct [] = Unit
  IsDistinct ((k, v) ∷ m) = (lookup k m ≡ none) × IsDistinct m

  pub IsDistinct-insert : (k : K) (v : V) (m : Dict K V) → IsDistinct m → IsDistinct (insert k v m)
  unfolding IsDistinct insert
  IsDistinct-insert k v [] h = (refl, tt)
  IsDistinct-insert k v ((j, w) ∷ m) h = elim (e.eq? j k) [
    | yes p ↦ rw (if_pos (e.eq? j k) p) (subst (λ x. lookup x m ≡ none) p h.0, h.1)
    | no p ↦
        rw (if_neg (e.eq? j k) p)
          (lookup-insert_miss k j v m (λ q. p (sym q)) ∙ h.0, IsDistinct-insert k v m h.1)
  ]

  lookup-without_none :
      (j k : K) (m : Dict K V) → lookup j m ≡ none → lookup j (without (k ∷ []) m) ≡ none
  lookup-without_none j k m h = ground (arith, h, lookup-without j (k ∷ []) m)

  pub IsDistinct-without : (k : K) (m : Dict K V) → IsDistinct m → IsDistinct (without (k ∷ []) m)
  unfolding IsDistinct without contains
  IsDistinct-without k [] h = tt
  IsDistinct-without k ((j, w) ∷ m) h = elim (e.eq? k j) [
    | yes p ↦ rw (if_pos (e.eq? k j) p) (IsDistinct-without k m h.1)
    | no p ↦ rw (if_neg (e.eq? k j) p) (lookup-without_none j k m h.0, IsDistinct-without k m h.1)
  ]

  without-absent : (k : K) (m : Dict K V) → lookup k m ≡ none → without (k ∷ []) m ≡ m
  unfolding without lookup contains
  without-absent k [] h = refl
  without-absent k ((j, w) ∷ m) h = elim (e.eq? j k) [
    | yes p ↦ absurd (some_none (sym (if_pos (e.eq? j k) p (some w) (lookup k m)) ∙ h))
    | no p ↦ rw (if_neg (e.eq? k j) (λ q. p (sym q))) (
        ap (◌∷◌ (j, w)) (without-absent k m (sym (if_neg (e.eq? j k) p (some w) (lookup k m)) ∙ h)))
  ]

  -- The sum of a weight over the values.
  module _ (weight : V → ℕ) where
    unfoldable pub total : Dict K V → ℕ
    total [] = 0
    total ((k, v) ∷ m) = weight v + total m

    pub total-insert_new :
        (k : K) (v : V) (m : Dict K V)
        → lookup k m ≡ none
        → total (insert k v m) ≡ total m + weight v
    unfolding total insert lookup
    total-insert_new k v [] h = omega arith
    total-insert_new k v ((j, w) ∷ m) h = elim (e.eq? j k) [
      | yes p ↦ absurd (some_none (sym (if_pos (e.eq? j k) p (some w) (lookup k m)) ∙ h))
      | no p ↦ rw (if_neg (e.eq? j k) p) (
          omega
            (arith, total-insert_new k v m (sym (if_neg (e.eq? j k) p (some w) (lookup k m)) ∙ h)))
    ]

    pub total-insert_old :
        (k : K) (v old : V) (m : Dict K V)
        → lookup k m ≡ some old
        → total (insert k v m) + weight old ≡ total m + weight v
    unfolding total insert lookup
    total-insert_old k v old [] h = cc
    total-insert_old k v old ((j, w) ∷ m) h = elim (e.eq? j k) [
      | yes p ↦
          let same = some-cancel (sym (if_pos (e.eq? j k) p (some w) (lookup k m)) ∙ h) in
          rw (if_pos (e.eq? j k) p) (omega (arith, ap weight same))
      | no p ↦ rw (if_neg (e.eq? j k) p) (
          omega (
            arith,
            total-insert_old k v old m (sym (if_neg (e.eq? j k) p (some w) (lookup k m)) ∙ h),
          ))
    ]

    pub total-member : (k : K) (v : V) (m : Dict K V) → lookup k m ≡ some v → weight v ≤ total m
    unfolding total lookup
    total-member k v [] h = cc
    total-member k v ((j, w) ∷ m) h = elim (e.eq? j k) [
      | yes p ↦
          let same = some-cancel (sym (if_pos (e.eq? j k) p (some w) (lookup k m)) ∙ h) in
          omega (arith, ap weight same)
      | no p ↦
          omega (arith, total-member k v m (sym (if_neg (e.eq? j k) p (some w) (lookup k m)) ∙ h))
    ]

    pub total-without :
        (k : K) (old : V) (m : Dict K V)
        → IsDistinct m
        → lookup k m ≡ some old
        → total (without (k ∷ []) m) + weight old ≡ total m
    unfolding total without lookup IsDistinct contains
    total-without k old [] d h = cc
    total-without k old ((j, w) ∷ m) d h = elim (e.eq? j k) [
      | yes p ↦
          let same = some-cancel (sym (if_pos (e.eq? j k) p (some w) (lookup k m)) ∙ h) in
          let gone = without-absent k m (subst (λ x. lookup x m ≡ none) p d.0) in
          rw (if_pos (e.eq? k j) (sym p), gone) (omega (arith, ap weight same))
      | no p ↦ rw (if_neg (e.eq? k j) (λ q. p (sym q))) (
          omega (
            arith,
            total-without k old m d.1 (sym (if_neg (e.eq? j k) p (some w) (lookup k m)) ∙ h),
          ))
    ]
