-- ===== src/Base/Strides.antt =====
-- Extended slices of byte strings: `data[pos::step]`, read and assigned.
use Prim.Native.Nat.{ℕ, zero, suc, ◌+◌, ◌-◌, ◌*◌, ◌/◌, ◌<◌}
use mathlib.Core.List.{[], ◌∷◌}
use mathlib.Core.Path.{◌≡◌, refl, sym}
use mathlib.Core.Logic.{◌≢◌}
use native.Mathlib.Nat.{div-eq_of_lt, add-div_right}
use native.Mathlib.Omega.{arith}
use apm_repo_sdk_python.Base.Lists.{All, length, get_or}
use apm_repo_sdk_python.Base.Bytes.{Bytes}

-- `data[skip::suc step]`.
unfoldable pub strided : ℕ → ℕ → Bytes → Bytes
strided step skip [] = []
strided step zero (x ∷ xs) = x ∷ strided step step xs
strided step (suc k) (x ∷ xs) = strided step k xs

-- `buf[skip::suc step] = src`, for a `src` of the slice's length.
unfoldable pub assign_strided : ℕ → ℕ → Bytes → Bytes → Bytes
assign_strided step skip src [] = []
assign_strided step zero [] buf = buf
assign_strided step zero (v ∷ src) (x ∷ buf) = v ∷ assign_strided step step src buf
assign_strided step (suc k) src (x ∷ buf) = x ∷ assign_strided step k src buf

pub length-assign_strided :
    (step skip : ℕ) (src buf : Bytes) → length (assign_strided step skip src buf) ≡ length buf
unfolding assign_strided
length-assign_strided step skip src [] = refl
length-assign_strided step zero [] (x ∷ buf) = refl
length-assign_strided step zero (v ∷ src) (x ∷ buf) =
    omega (arith, length-assign_strided step step src buf)
length-assign_strided step (suc k) src (x ∷ buf) =
    omega (arith, length-assign_strided step k src buf)

short : (step skip : ℕ) → 0 + step - skip < suc step
short step skip = omega arith

one_more : (n step : ℕ) → n + step - step ≡ n
one_more n step = omega arith

next : (n step : ℕ) → suc n + step - 0 ≡ n + suc step
next n step = omega arith

skipped : (n step k : ℕ) → n + step - k ≡ suc n + step - suc k
skipped n step k = omega arith

pub length-strided :
    (step skip : ℕ) (xs : Bytes)
    → length (strided step skip xs) ≡ (length xs + step - skip) / suc step
unfolding strided
length-strided step skip [] = sym (div-eq_of_lt (short step skip))
length-strided step zero (x ∷ xs) =
    rw
      (
        length-strided step step xs,
        one_more (length xs) step,
        next (length xs) step,
        add-div_right (length xs) {k = suc step} (omega arith),
      )
      (omega arith)
length-strided step (suc k) (x ∷ xs) =
    rw (length-strided step k xs, skipped (length xs) step k) refl

module _ (step : ℕ) where
  -- Element `i` of the slice is the element of the string at `n`.
  pub get_or-strided :
      (skip i n : ℕ) (xs : Bytes)
      → n ≡ skip + i * suc step
      → get_or (strided step skip xs) i 0 ≡ get_or xs n 0
  unfolding strided
  get_or-strided skip i n [] e = refl
  get_or-strided zero zero zero (x ∷ xs) e = refl
  get_or-strided zero zero (suc n) (x ∷ xs) e = absurd (omega (arith, e))
  get_or-strided zero (suc i) zero (x ∷ xs) e = absurd (omega (arith, e))
  get_or-strided zero (suc i) (suc n) (x ∷ xs) e = get_or-strided step i n xs (omega (arith, e))
  get_or-strided (suc k) i zero (x ∷ xs) e = absurd (omega (arith, e))
  get_or-strided (suc k) i (suc n) (x ∷ xs) e = get_or-strided k i n xs (omega (arith, e))

  -- What is assigned, and what is left as it was.
  pub assign_strided-hit :
      (skip i n : ℕ) (src buf : Bytes)
      → n ≡ skip + i * suc step
      → i < length src
      → n < length buf
      → get_or (assign_strided step skip src buf) n 0 ≡ get_or src i 0
  unfolding assign_strided
  assign_strided-hit skip i n src [] e p q = absurd (omega (arith, q))
  assign_strided-hit zero i n [] (x ∷ buf) e p q = absurd (omega (arith, p))
  assign_strided-hit zero zero zero (v ∷ src) (x ∷ buf) e p q = refl
  assign_strided-hit zero zero (suc n) (v ∷ src) (x ∷ buf) e p q = absurd (omega (arith, e))
  assign_strided-hit zero (suc i) zero (v ∷ src) (x ∷ buf) e p q = absurd (omega (arith, e))
  assign_strided-hit zero (suc i) (suc n) (v ∷ src) (x ∷ buf) e p q =
      assign_strided-hit step i n src buf (omega (arith, e)) (omega (arith, p)) (omega (arith, q))
  assign_strided-hit (suc k) i zero src (x ∷ buf) e p q = absurd (omega (arith, e))
  assign_strided-hit (suc k) i (suc n) src (x ∷ buf) e p q =
      assign_strided-hit k i n src buf (omega (arith, e)) p (omega (arith, q))

  pub assign_strided-miss :
      (skip n : ℕ) (src buf : Bytes)
      → ((i : ℕ) → n ≢ skip + i * suc step)
      → get_or (assign_strided step skip src buf) n 0 ≡ get_or buf n 0
  unfolding assign_strided
  assign_strided-miss skip n src [] h = refl
  assign_strided-miss zero n [] (x ∷ buf) h = refl
  assign_strided-miss zero zero (v ∷ src) (x ∷ buf) h = absurd (h 0 (omega arith))
  assign_strided-miss zero (suc n) (v ∷ src) (x ∷ buf) h =
      assign_strided-miss step n src buf (λ i e. h (suc i) (omega (arith, e)))
  assign_strided-miss (suc k) zero src (x ∷ buf) h = refl
  assign_strided-miss (suc k) (suc n) src (x ∷ buf) h =
      assign_strided-miss k n src buf (λ i e. h i (omega (arith, e)))

pub All-strided :
    (P : ℕ → Type 0) (step skip : ℕ) (xs : Bytes) → All P xs → All P (strided step skip xs)
unfolding strided
All-strided P step skip [] h = tt
All-strided P step zero (x ∷ xs) h = (h.0, All-strided P step step xs h.1)
All-strided P step (suc k) (x ∷ xs) h = All-strided P step k xs h.1
