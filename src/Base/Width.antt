-- ===== src/Base/Width.antt =====
-- Numbers as wide as a string of bytes: how large they are, and what the bitwise operations do to
-- their bytes.
use Prim.Native.Nat.{ℕ, zero, suc, ◌+◌, ◌-◌, ◌*◌, ◌/◌, ◌%◌, ◌^◌, ◌≤◌, ◌<◌, bit_xor}
use mathlib.Core.List.{[], ◌∷◌}
use mathlib.Core.Path.{◌≡◌, refl, sym, ap, ◌∙◌, subst}
use native.Mathlib.Nat.{
  zero-add, suc-add, pow-suc, div-lt_iff_lt-mul, mul-le-mul_right, mul-lt-mul_of_pos_right,
  div-eq_of_lt, mul-add-div_right, mul-add-mod_self_right,
}
use native.Mathlib.Omega.{arith}
use apm_repo_sdk_python.Base.Lists.{All, length, get_or}
use apm_repo_sdk_python.Base.Bits.{◌<<<◌, ◌>>>◌}
use apm_repo_sdk_python.Base.Bytes.{Bytes, from_be, from_be_acc, to_be}
use apm_repo_sdk_python.Base.Crc.Bound.{IsByte, bit_xor-lt}

pow256-suc : (n : ℕ) → 256 ^ suc n ≡ 256 ^ n * 256
pow256-suc n = pow-suc 256 n

pub pow256-two : (n : ℕ) → 256 ^ n ≡ 2 ^ (8 * n)
pow256-two zero = refl
pow256-two (suc n) =
    pow256-suc n ∙ (ap (λ x. x * 256) (pow256-two n) ∙ (sym (eight (8 * n)) ∙ ap (λ m. 2 ^ m) more))
  where
    eight : (m : ℕ) → 2 ^ suc (suc (suc (suc (suc (suc (suc (suc m))))))) ≡ 2 ^ m * 256
    eight m = simp pow-suc (omega arith)

    more : suc (suc (suc (suc (suc (suc (suc (suc (8 * n)))))))) ≡ 8 * suc n
    more = omega arith

pub pow256-add : (a b : ℕ) → 256 ^ (a + b) ≡ 256 ^ a * 256 ^ b
pow256-add zero b = rw zero-add (omega arith)
pow256-add (suc a) b = rw (suc-add, pow256-suc (a + b), pow256-suc a, pow256-add a b) (omega arith)

pub pow256-pos : (n : ℕ) → 0 < 256 ^ n
pow256-pos zero = omega arith
pow256-pos (suc n) = omega (arith, pow256-suc n, pow256-pos n)

-- A number read from bytes fits their width.
from_be_acc-lt :
    (acc : ℕ) (bs : Bytes) → All IsByte bs → from_be_acc acc bs < (acc + 1) * 256 ^ length bs
unfolding from_be_acc
from_be_acc-lt acc [] h = omega arith
from_be_acc-lt acc (b ∷ bs) h =
    subst (λ n. from_be_acc (acc * 256 + b) bs < (acc + 1) * n) (sym (pow256-suc (length bs)))
      (grow (from_be_acc (acc * 256 + b) bs) (256 ^ length bs)
        (from_be_acc-lt (acc * 256 + b) bs h.1) (mul-le-mul_right (256 ^ length bs) (step h.0)))
  where
    step : b < 256 → acc * 256 + b + 1 ≤ (acc + 1) * 256
    step byte = omega (arith, byte)

    grow :
        (x p : ℕ)
        → x < (acc * 256 + b + 1) * p
        → (acc * 256 + b + 1) * p ≤ (acc + 1) * 256 * p
        → x < (acc + 1) * (p * 256)
    grow x p lt le = omega (arith, lt, le)

pub from_be-lt : (bs : Bytes) → All IsByte bs → from_be bs < 256 ^ length bs
unfolding from_be
from_be-lt bs h = omega (arith, from_be_acc-lt 0 bs h)

split : (w h : ℕ) → w ≤ h → w + (h - w) ≡ h
split w h le = omega (arith, le)

pub shifted-lt : (x w h : ℕ) → w ≤ h → x < 256 ^ w → x <<< (8 * (h - w)) < 256 ^ h
shifted-lt x w h le lt =
    subst (λ n. x * n < 256 ^ h) (pow256-two (h - w))
      (subst (λ n. x * 256 ^ (h - w) < n)
        (sym (pow256-add w (h - w)) ∙ ap (λ n. 256 ^ n) (split w h le))
        (mul-lt-mul_of_pos_right {k = 256 ^ (h - w)} lt (pow256-pos (h - w))))

pub unshifted-lt : (x w h : ℕ) → w ≤ h → x < 256 ^ h → x >>> (8 * (h - w)) < 256 ^ w
unshifted-lt x w h le lt = rw (← pow256-two) (
    (div-lt_iff_lt-mul (pow256-pos (h - w))).1
      (subst (λ n. x < n) (sym (ap (λ n. 256 ^ n) (split w h le)) ∙ pow256-add w (h - w)) lt))

pub xor-lt : (h x y : ℕ) → x < 256 ^ h → y < 256 ^ h → bit_xor x y < 256 ^ h
xor-lt h x y p q = rw pow256-two (
    bit_xor-lt (8 * h) x y (subst (λ n. x < n) (pow256-two h) p)
      (subst (λ n. y < n) (pow256-two h) q))

-- The bytes of a number are those that it was read from.
to_be-high : (w h l : ℕ) → to_be w (h * 256 ^ w + l) ≡ to_be w l
unfolding to_be
to_be-high zero h l = refl
to_be-high (suc w) h l =
    let e : h * 256 ^ suc w + l ≡ h * 256 * 256 ^ w + l =
      omega (arith, ap (λ t. h * t) (pow256-suc w)) in
    rw (e, mul-add-div_right (pow256-pos w) (h * 256) l, mul-add-mod_self_right h 256 (l / 256 ^ w))
      (ap (◌∷◌ (l / 256 ^ w % 256)) (to_be-high w (h * 256) l))

from_be_acc-from_be :
    (acc : ℕ) (bs : Bytes) → from_be_acc acc bs ≡ acc * 256 ^ length bs + from_be_acc 0 bs
unfolding from_be_acc
from_be_acc-from_be acc [] = omega arith
from_be_acc-from_be acc (b ∷ bs) =
    rw (pow256-suc (length bs))
      (omega (arith, from_be_acc-from_be (acc * 256 + b) bs, from_be_acc-from_be (0 * 256 + b) bs))

from_be-cons : (b : ℕ) (bs : Bytes) → from_be (b ∷ bs) ≡ b * 256 ^ length bs + from_be bs
unfolding from_be from_be_acc
from_be-cons b bs = omega (arith, from_be_acc-from_be (0 * 256 + b) bs)

pub to_be-from_be : (bs : Bytes) → All IsByte bs → to_be (length bs) (from_be bs) ≡ bs
unfolding to_be
to_be-from_be [] h = refl
to_be-from_be (b ∷ bs) h =
    rw
      (
        from_be-cons b bs,
        mul-add-div_right (pow256-pos (length bs)) b (from_be bs),
        to_be-high (length bs) b (from_be bs),
        to_be-from_be bs h.1,
      )
      (ap (λ t. t ∷ bs) (omega (arith, h.0, from_be-lt bs h.1, div-eq_of_lt (from_be-lt bs h.1))))

-- An operation on the bytes of two strings of the same length.
abbrev pub zip_bytes : (ℕ → ℕ → ℕ) → Bytes → Bytes → Bytes
zip_bytes op [] ys = []
zip_bytes op (x ∷ xs) [] = []
zip_bytes op (x ∷ xs) (y ∷ ys) = op x y ∷ zip_bytes op xs ys

pub length-zip_bytes :
    (op : ℕ → ℕ → ℕ) (xs ys : Bytes)
    → length xs ≡ length ys
    → length (zip_bytes op xs ys) ≡ length ys
length-zip_bytes op [] ys e = e
length-zip_bytes op (x ∷ xs) [] e = absurd (omega (arith, e))
length-zip_bytes op (x ∷ xs) (y ∷ ys) e = ap suc (length-zip_bytes op xs ys (omega (arith, e)))

pub get_or-zip_bytes :
    (op : ℕ → ℕ → ℕ) (xs ys : Bytes) (i : ℕ)
    → length xs ≡ length ys
    → i < length ys
    → get_or (zip_bytes op xs ys) i 0 ≡ op (get_or xs i 0) (get_or ys i 0)
get_or-zip_bytes op xs [] i e h = absurd (omega (arith, h))
get_or-zip_bytes op [] (y ∷ ys) i e h = absurd (omega (arith, e))
get_or-zip_bytes op (x ∷ xs) (y ∷ ys) zero e h = refl
get_or-zip_bytes op (x ∷ xs) (y ∷ ys) (suc i) e h =
    get_or-zip_bytes op xs ys i (omega (arith, e)) (omega (arith, h))

pub All-zip_bytes :
    (P : ℕ → Type 0) (op : ℕ → ℕ → ℕ) (xs ys : Bytes)
    → ((x y : ℕ) → P x → P y → P (op x y))
    → All P xs
    → All P ys
    → All P (zip_bytes op xs ys)
All-zip_bytes P op [] ys h p q = tt
All-zip_bytes P op (x ∷ xs) [] h p q = tt
All-zip_bytes P op (x ∷ xs) (y ∷ ys) h p q = (h x y p.0 q.0, All-zip_bytes P op xs ys h p.1 q.1)

-- Operations on the numbers work on each byte apart.
module _ (op : ℕ → ℕ → ℕ)
    (joins : (k x y a b : ℕ)
      → a < 2 ^ k
      → b < 2 ^ k
      → op (x * 2 ^ k + a) (y * 2 ^ k + b) ≡ op x y * 2 ^ k + op a b)
    (nothing : op 0 0 ≡ 0) where
  pub from_be-zip_bytes :
      (xs ys : Bytes)
      → All IsByte xs
      → All IsByte ys
      → length xs ≡ length ys
      → op (from_be xs) (from_be ys) ≡ from_be (zip_bytes op xs ys)
  unfolding from_be
  from_be-zip_bytes [] [] p q e = nothing
  from_be-zip_bytes [] (y ∷ ys) p q e = absurd (omega (arith, e))
  from_be-zip_bytes (x ∷ xs) [] p q e = absurd (omega (arith, e))
  from_be-zip_bytes (x ∷ xs) (y ∷ ys) p q e =
      let same : length xs ≡ length ys = omega (arith, e) in
      let w = 8 * length ys in
      let lt : from_be xs < 2 ^ w =
        subst (λ n. from_be xs < n) (ap (λ n. 256 ^ n) same ∙ pow256-two (length ys))
          (from_be-lt xs p.1) in
      let lt' : from_be ys < 2 ^ w =
        subst (λ n. from_be ys < n) (pow256-two (length ys)) (from_be-lt ys q.1) in
      rw
        (
          from_be-cons x xs,
          from_be-cons y ys,
          from_be-cons (op x y) (zip_bytes op xs ys),
          same,
          length-zip_bytes op xs ys same,
          pow256-two (length ys),
          joins w x y (from_be xs) (from_be ys) lt lt',
          from_be-zip_bytes xs ys p.1 q.1 same,
        )
        refl
