-- ===== src/Base/Tests.antt =====
-- Boolean tests on the native numbers, the conditional, and decisions packed as instances.
use Prim.Native.Nat.{ℕ, ◌≤◌, ◌<◌, compare, Ordering}
use Prim.Native.String.{String}
use mathlib.Core.Path.{◌≡◌, refl}
use mathlib.Core.Logic.{◌↔◌, ◌⊎◌, inl, inr}
use mathlib.Core.Bool.{Bool, true, false}
use mathlib.Core.Option.{Option, none, some}
use native.Mathlib.Omega.{arith}
use native.Mathlib.Decide.{ℕ_discrete}
use text.Mathlib.Text.{◌==◌ as str_eq}
use text.Mathlib.TextEquality.{eq_iff}

-- These compute to `compare`, which `ground` and `grind` read with no lemma listed.
abbrev pub ltb : ℕ → ℕ → Bool
ltb a b = elim (compare a b) [ Ordering.lt ↦ true | _ ↦ false ]

abbrev pub leb : ℕ → ℕ → Bool
leb a b = elim (compare a b) [ Ordering.gt ↦ false | _ ↦ true ]

infix 50 ◌==◌
abbrev pub ◌==◌ : ℕ → ℕ → Bool
a == b = elim (compare a b) [ Ordering.eq ↦ true | _ ↦ false ]

infix 1 if◌then◌else◌
abbrev pub if◌then◌else◌ {ℓ} : {A : Type ℓ} → Bool → A → A → A
if true then x else y = x
if false then x else y = y

pub ltb→lt : (a b : ℕ) → ltb a b ≡ true → a < b
ltb→lt a b h = ground arith

pub lt→ltb : (a b : ℕ) → a < b → ltb a b ≡ true
lt→ltb a b h = ground arith

pub le→ltb : (a b : ℕ) → b ≤ a → ltb a b ≡ false
le→ltb a b h = ground arith

pub le→leb : (a b : ℕ) → a ≤ b → leb a b ≡ true
le→leb a b h = ground arith

pub ==_iff : (a b : ℕ) → ((a == b) ≡ true) ↔ (a ≡ b)
==_iff a b = ground arith

-- To split on a computed value and keep the equation.
pub Bool-cases : (b : Bool) → (b ≡ true) ⊎ (b ≡ false)
Bool-cases true = inl refl
Bool-cases false = inr refl

pub Option-cases {ℓ} : {A : Type ℓ} (o : Option A) → (o ≡ none) ⊎ ((a : A) × (o ≡ some a))
Option-cases none = inl refl
Option-cases (some a) = inr (a, refl)

pub some-cancel {ℓ} : {A : Type ℓ} {a b : A} → some a ≡ some b → a ≡ b
some-cancel p = cc

pub some_none {ℓ} : {A : Type ℓ} {a : A} → some a ≡ none → ⊥
some_none p = cc

pub none_some {ℓ} : {A : Type ℓ} {a : A} → none ≡ some a → ⊥
none_some p = cc

-- Python's `==` on a hashable type, as the decision that `dict` and `set` make on keys.
pub record DecEq {ℓ} (A : Type ℓ) : Type ℓ where
  pub eq? : Discrete A

dec_of_iff {ℓ} : {A : Type ℓ} (a b : A) (t : Bool) → ((t ≡ true) ↔ (a ≡ b)) → Dec (a ≡ b)
dec_of_iff a b true h = yes (h.0 refl)
dec_of_iff a b false h = no (λ p. cc (h.1 p))

unfoldable pub String-discrete : Discrete String
unfolding dec_of_iff
String-discrete a b = dec_of_iff a b (str_eq a b) (eq_iff a b)

instance abbrev pub nat_deceq : DecEq ℕ
nat_deceq = record { eq? = ℕ_discrete }
