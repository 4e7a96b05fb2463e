-- ===== src/Base/Text/Split.antt =====
-- `text.split(sep)` and the cut at the first separator, for a separator of one character.
use mathlib.Core.Bool.{true, false}
use mathlib.Core.List.{List, [], ◌∷◌, ◌++◌}
use mathlib.Core.Logic.{inl, inr, ◌≢◌}
use mathlib.Core.Option.{Option, none, some}
use mathlib.Core.Path.{◌≡◌, refl, ap, sym, subst, ◌∙◌}
use native.Mathlib.Omega.{arith}
use Prim.Native.Nat.{ℕ}
use apm_repo_sdk_python.Base.Decimal.{join}
use apm_repo_sdk_python.Base.Lists.{All}
use apm_repo_sdk_python.Base.Tests.{
  none_some, some_none, ◌==◌, if◌then◌else◌, ==_iff, Bool-cases, Option-cases, some-cancel,
}

-- A character before the first part.
abbrev pub onto_first : ℕ → List (List ℕ) → List (List ℕ)
onto_first c [] = (c ∷ []) ∷ []
onto_first c (x ∷ xs) = (c ∷ x) ∷ xs

unfoldable pub split_on : ℕ → List ℕ → List (List ℕ)
split_on sep [] = [] ∷ []
split_on sep (c ∷ cs) =
    let rest = split_on sep cs in if c == sep then [] ∷ rest else onto_first c rest

-- `text.split(sep, 1)` in two, where the separator occurs.
unfoldable pub cut_at : ℕ → List ℕ → Option (List ℕ × List ℕ)
cut_at sep [] = none
cut_at sep (c ∷ cs) =
    if c == sep
    then some ([], cs)
    else elim (cut_at sep cs) [ none ↦ none | some (before, after) ↦ some (c ∷ before, after) ]

abbrev pub Without : ℕ → List ℕ → Type 0
Without sep xs = All (λ c. c ≢ sep) xs

split_on-last : (sep : ℕ) (xs : List ℕ) → Without sep xs → split_on sep xs ≡ xs ∷ []
unfolding split_on
split_on-last sep [] h = refl
split_on-last sep (c ∷ cs) h = ground (arith, split_on-last sep cs h.1, h.0)

split_on-first :
    (sep : ℕ) (xs ys : List ℕ)
    → Without sep xs
    → split_on sep (xs ++ (sep ∷ ys)) ≡ xs ∷ split_on sep ys
unfolding split_on
split_on-first sep [] ys h = ground arith
split_on-first sep (c ∷ cs) ys h = ground (arith, split_on-first sep cs ys h.1, h.0)

-- Parts without the separator, joined and split again.
pub split_on-join :
    (sep : ℕ) (x : List ℕ) (xs : List (List ℕ))
    → All (Without sep) (x ∷ xs)
    → split_on sep (join sep (x ∷ xs)) ≡ x ∷ xs
unfolding join
split_on-join sep x [] h = split_on-last sep x h.0
split_on-join sep x (y ∷ ys) h =
    split_on-first sep x (join sep (y ∷ ys)) h.0 ∙ ap (◌∷◌ x) (split_on-join sep y ys h.1)

pub cut_at-first :
    (sep : ℕ) (xs ys : List ℕ) → Without sep xs → cut_at sep (xs ++ (sep ∷ ys)) ≡ some (xs, ys)
unfolding cut_at
cut_at-first sep [] ys h = ground arith
cut_at-first sep (c ∷ cs) ys h = ground (arith, cut_at-first sep cs ys h.1, h.0)

pub cut_at-absent : (sep : ℕ) (xs : List ℕ) → Without sep xs → cut_at sep xs ≡ none
unfolding cut_at
cut_at-absent sep [] h = refl
cut_at-absent sep (c ∷ cs) h = ground (arith, cut_at-absent sep cs h.1, h.0)

not_test : (c sep : ℕ) → (c == sep) ≡ false → c ≢ sep
not_test c sep e d = ground arith

cut_at-hit : (sep c : ℕ) (cs : List ℕ) → (c == sep) ≡ true → cut_at sep (c ∷ cs) ≡ some ([], cs)
unfolding cut_at
cut_at-hit sep c cs e = rw (e, cut_at) refl

cut_at-none :
    (sep c : ℕ) (cs : List ℕ)
    → (c == sep) ≡ false
    → cut_at sep cs ≡ none
    → cut_at sep (c ∷ cs) ≡ none
unfolding cut_at
cut_at-none sep c cs e f = rw (e, f, cut_at) refl

cut_at-miss :
    (sep c : ℕ) (cs before after : List ℕ)
    → (c == sep) ≡ false
    → cut_at sep cs ≡ some (before, after)
    → cut_at sep (c ∷ cs) ≡ some (c ∷ before, after)
unfolding cut_at
cut_at-miss sep c cs before after e f = rw (e, f, cut_at) refl

pub cut_at-Without : (sep : ℕ) (text : List ℕ) → cut_at sep text ≡ none → Without sep text
unfolding cut_at
cut_at-Without sep [] h = tt
cut_at-Without sep (c ∷ cs) h = elim (Bool-cases (c == sep)) [
  | inl e ↦ absurd (some_none (sym (cut_at-hit sep c cs e) ∙ h))
  | inr e ↦ elim (Option-cases (cut_at sep cs)) [
    | inl f ↦ (not_test c sep e, cut_at-Without sep cs f)
    | inr (q, f) ↦ absurd (some_none (sym (cut_at-miss sep c cs q.0 q.1 e f) ∙ h))
  ]
]

Parts : ℕ → List ℕ → List ℕ × List ℕ → Type 0
Parts sep text p = (text ≡ p.0 ++ (sep ∷ p.1)) × Without sep p.0

-- What a cut says of the text.
pub cut_at-parts :
    (sep : ℕ) (text : List ℕ) (p : List ℕ × List ℕ)
    → cut_at sep text ≡ some p
    → (text ≡ p.0 ++ (sep ∷ p.1)) × Without sep p.0
unfolding cut_at Parts
cut_at-parts sep [] p h = absurd (none_some h)
cut_at-parts sep (c ∷ cs) p h = elim (Bool-cases (c == sep)) [
  | inl e ↦
      subst (λ q. Parts sep (c ∷ cs) q) (some-cancel (sym (cut_at-hit sep c cs e) ∙ h))
        (ap (λ d. d ∷ cs) ((==_iff c sep).0 e), tt)
  | inr e ↦ elim (Option-cases (cut_at sep cs)) [
    | inl f ↦ absurd (none_some (sym (cut_at-none sep c cs e f) ∙ h))
    | inr (q, f) ↦
        let rest = cut_at-parts sep cs q f in
        subst (λ x. Parts sep (c ∷ cs) x) (some-cancel (sym (cut_at-miss sep c cs q.0 q.1 e f) ∙ h))
          (ap (◌∷◌ c) rest.0, (not_test c sep e, rest.1))
  ]
]
