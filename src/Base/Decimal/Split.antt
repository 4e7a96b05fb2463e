-- ===== src/Base/Decimal/Split.antt =====
-- `sep.join(parts)` and `text.rpartition(sep)` for a separator of one character.
use mathlib.Core.List.{List, [], ◌∷◌, ◌++◌}
use mathlib.Core.List.{append_assoc}
use mathlib.Core.Logic.{◌≢◌}
use mathlib.Core.Option.{Option, none, some}
use mathlib.Core.Path.{◌≡◌, refl}
use native.Mathlib.Omega.{arith}
use Prim.Native.Nat.{ℕ}
use apm_repo_sdk_python.Base.Lists.{All}
use apm_repo_sdk_python.Base.Tests.{◌==◌, if◌then◌else◌}

unfoldable pub join : ℕ → List (List ℕ) → List ℕ
join sep [] = []
join sep (x ∷ []) = x
join sep (x ∷ y ∷ rest) = x ++ (sep ∷ join sep (y ∷ rest))

-- The text before the last separator, and the text after it.
unfoldable pub last_split : ℕ → List ℕ → Option (List ℕ × List ℕ)
last_split sep [] = none
last_split sep (c ∷ cs) = elim (last_split sep cs) [
  | some (before, after) ↦ some (c ∷ before, after)
  | none ↦ if c == sep then some ([], cs) else none
]

last_split_absent : (sep : ℕ) (cs : List ℕ) → All (λ c. c ≢ sep) cs → last_split sep cs ≡ none
unfolding last_split
last_split_absent sep [] h = refl
last_split_absent sep (c ∷ cs) h = ground (arith, last_split_absent sep cs h.1, h.0)

pub last_split_lem :
    (sep : ℕ) (xs ys : List ℕ)
    → All (λ c. c ≢ sep) ys
    → last_split sep (xs ++ (sep ∷ ys)) ≡ some (xs, ys)
unfolding last_split
last_split_lem sep [] ys h = ground (arith, last_split_absent sep ys h)
last_split_lem sep (x ∷ xs) ys h = ground (arith, last_split_lem sep xs ys h)

-- A last part, behind the ones before it.
pub join-append :
    (sep : ℕ) (x : List ℕ) (xs : List (List ℕ)) (y : List ℕ)
    → join sep (x ∷ (xs ++ (y ∷ []))) ≡ join sep (x ∷ xs) ++ (sep ∷ y)
unfolding join
join-append sep x [] y = refl
join-append sep x (z ∷ xs) y = simp (join-append sep z xs y, append_assoc)
