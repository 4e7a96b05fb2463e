-- ===== src/Base/Decimal.antt =====
-- `str(n)` for a non-negative integer, as code points: decimal digits, the highest first. And
-- `"/".join` and `rpartition` on such texts.
mod Split
unfoldable pub use Split.*
use Prim.Native.Nat.{ℕ, zero, suc, ◌+◌, ◌-◌, ◌*◌, ◌/◌, ◌%◌, ◌≤◌, ◌<◌}
use mathlib.Core.List.{List, [], ◌∷◌, ◌++◌}
use mathlib.Core.Path.{◌≡◌, refl, sym, ap, ◌∙◌}
use native.Mathlib.Omega.{arith}
use apm_repo_sdk_python.Base.Lists.{All, All-append}
use apm_repo_sdk_python.Base.Tests.{ltb, if◌then◌else◌}

-- With fuel, one unit for each digit.
digits_of : ℕ → ℕ → List ℕ
digits_of zero n = []
digits_of (suc f) n =
    let higher = digits_of f (n / 10) in
    if ltb n 10 then (48 + n) ∷ [] else higher ++ ((48 + n % 10) ∷ [])

unfoldable pub str : ℕ → List ℕ
unfolding digits_of
str n = digits_of (suc n) n

-- The number that a row of digits stands for.
value : ℕ → List ℕ → ℕ
value acc [] = acc
value acc (c ∷ cs) = value (acc * 10 + (c - 48)) cs

value-append : (acc : ℕ) (xs ys : List ℕ) → value acc (xs ++ ys) ≡ value (value acc xs) ys
unfolding value
value-append acc [] ys = refl
value-append acc (x ∷ xs) ys = value-append (acc * 10 + (x - 48)) xs ys

value-digits_of : (f n : ℕ) → n < f → value 0 (digits_of f n) ≡ n
unfolding value digits_of
value-digits_of zero n h = elim h [ ]
value-digits_of (suc f) n h =
    ground (
      arith,
      value-append 0 (digits_of f (n / 10)) ((48 + n % 10) ∷ []),
      value-digits_of f (n / 10),
    )

pub str-injective : (m n : ℕ) → str m ≡ str n → m ≡ n
unfolding str
str-injective m n e =
    sym (value-digits_of (suc m) m (omega arith))
    ∙ (ap (value 0) e ∙ value-digits_of (suc n) n (omega arith))

abbrev pub IsDigit : ℕ → Type 0
IsDigit c = (48 ≤ c) × (c < 58)

digits_of-IsDigit : (f n : ℕ) → All IsDigit (digits_of f n)
unfolding digits_of
digits_of-IsDigit zero n = tt
digits_of-IsDigit (suc f) n = ground (
  arith,
  digits_of-IsDigit f (n / 10),
  All-append IsDigit (digits_of f (n / 10)) ((48 + n % 10) ∷ []),
)

pub str-IsDigit : (n : ℕ) → All IsDigit (str n)
unfolding str
str-IsDigit n = digits_of-IsDigit (suc n) n
