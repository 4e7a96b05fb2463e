-- ===== src/Base/Bytes.antt =====
-- Byte strings as lists of numbers below 256: slices, and big-endian words as `struct` and
-- `int.from_bytes` read and write them.
use Prim.Native.Nat.{ℕ, zero, suc, ◌+◌, ◌-◌, ◌*◌, ◌/◌, ◌%◌, ◌^◌, ◌≤◌, ◌<◌}
use mathlib.Core.Path.{◌≡◌, refl, ap, ◌∙◌}
use mathlib.Core.List.{List, [], ◌∷◌, ◌++◌}
use native.Mathlib.Decide.{ℕ_discrete}
use native.Mathlib.Nat.{
  zero-add, suc-add, pow-suc, div-add-mod', mod-eq_of_lt, mul-add-mod_self_right, mod-lt,
  mul-le-mul_right,
}
use native.Mathlib.Omega.{arith}
use apm_repo_sdk_python.Base.Lists.{length, take, drop, take-append, drop-append}

abbrev pub Bytes : Type 0
Bytes = List ℕ

-- `data[i:j]`: what is out of range is left out.
abbrev pub slice : Bytes → ℕ → ℕ → Bytes
slice data' i j = take (j - i) (drop i data')

-- `int.from_bytes(data, "big")`, with the value of the bytes read so far.
unfoldable pub from_be_acc : ℕ → Bytes → ℕ
from_be_acc acc [] = acc
from_be_acc acc (b ∷ bs) = from_be_acc (acc * 256 + b) bs

unfoldable pub from_be : Bytes → ℕ
unfolding from_be_acc
from_be bs = from_be_acc 0 bs

-- `n.to_bytes(w, "big")`, for a value that fits.
unfoldable pub to_be : ℕ → ℕ → Bytes
to_be zero n = []
to_be (suc w) n = n / 256 ^ w % 256 ∷ to_be w n

-- The big-endian word of `w` bytes at an offset.
unfoldable pub word_at : ℕ → ℕ → Bytes → ℕ
unfolding from_be
word_at off w data' = from_be (slice data' off (off + w))

unfoldable pub bytes_discrete : Discrete Bytes
bytes_discrete = hlevel ℕ_discrete

pub length-to_be : (w n : ℕ) → length (to_be w n) ≡ w
unfolding to_be
length-to_be zero n = refl
length-to_be (suc w) n = ap suc (length-to_be w n)

-- A remainder by `p * m`, in two steps.
pub mod_digit : (p m n : ℕ) → 0 < p → 0 < m → n % (p * m) ≡ n / p % m * p + n % p
mod_digit p m n pos pos' =
    let low : ℕ = n / p % m * p + n % p in
    let split : n ≡ n / p / m * (p * m) + low =
      omega (arith, div-add-mod' n p, ap (λ (t : ℕ). t * p) (div-add-mod' (n / p) m)) in
    let digit : n / p % m + 1 ≤ m = omega (arith, mod-lt (n / p) pos') in
    let small : low < p * m = omega (arith, mod-lt n pos, mul-le-mul_right p digit) in
    ap (λ (t : ℕ). t % (p * m)) split
    ∙ (mul-add-mod_self_right (n / p / m) (p * m) low ∙ mod-eq_of_lt small)

pow256-pos : (w : ℕ) → 0 < 256 ^ w
pow256-pos zero = omega arith
pow256-pos (suc w) = omega (arith, pow-suc 256 w, pow256-pos w)

from_be_acc-to_be : (w n acc : ℕ) → from_be_acc acc (to_be w n) ≡ acc * 256 ^ w + n % 256 ^ w
unfolding from_be_acc to_be
from_be_acc-to_be zero n acc = omega arith
from_be_acc-to_be (suc w) n acc =
    let d : ℕ = n / 256 ^ w % 256 in
    rw pow-suc (
      omega (
        arith,
        from_be_acc-to_be w n (acc * 256 + d),
        mod_digit (256 ^ w) 256 n (pow256-pos w) (omega arith),
      ))

pub from_be-to_be : (w n : ℕ) → n < 256 ^ w → from_be (to_be w n) ≡ n
unfolding from_be
from_be-to_be w n h = omega (arith, from_be_acc-to_be w n 0, mod-eq_of_lt h)

-- Reading past a prefix of known length.
pub word_at-append :
    (off w : ℕ) (xs ys : Bytes) → length xs ≡ off → word_at off w (xs ++ ys) ≡ word_at 0 w ys
unfolding word_at
word_at-append off w xs ys h = rw (← h, drop-append) (ap (λ k. from_be (take k ys)) cut)
  where
    cut : length xs + w - length xs ≡ 0 + w - 0
    cut = omega arith

pub word_at-to_be : (w n : ℕ) (rest : Bytes) → n < 256 ^ w → word_at 0 w (to_be w n ++ rest) ≡ n
unfolding word_at
word_at-to_be w n rest h =
    ap (λ k. from_be (take k (to_be w n ++ rest))) cut
    ∙ (ap from_be (take-append (to_be w n) rest) ∙ from_be-to_be w n h)
  where
    cut : 0 + w - 0 ≡ length (to_be w n)
    cut = omega (arith, length-to_be w n)

drop-skip : (xs ys : Bytes) (off : ℕ) → drop (length xs + off) (xs ++ ys) ≡ drop off ys
drop-skip [] ys off = rw zero-add
drop-skip (x ∷ xs) ys off = rw suc-add (drop-skip xs ys off)

pub word_at-skip :
    (k off w : ℕ) (xs ys : Bytes)
    → length xs ≡ k
    → word_at (k + off) w (xs ++ ys) ≡ word_at off w ys
unfolding word_at
word_at-skip k off w xs ys h = rw (← h) (
    ap (λ t. from_be (take (length xs + off + w - (length xs + off)) t)) (drop-skip xs ys off)
    ∙ ap (λ n. from_be (take n (drop off ys))) same)
  where
    same : length xs + off + w - (length xs + off) ≡ off + w - off
    same = omega arith

-- Past one field.
pub hop : (k off w n : ℕ) (ys : Bytes) → word_at (k + off) w (to_be k n ++ ys) ≡ word_at off w ys
hop k off w n ys = word_at-skip k off w (to_be k n) ys (length-to_be k n)
