-- ===== src/Format/Bucket/Packed.antt =====
-- The bits of a byte string, the highest of a byte first: what a field of a packed record is.
use native.Mathlib.Nat.{
  zero-add, suc-add, add_assoc, pow-suc, pow-succ', div-div-eq-div-mul, mod-one,
}
use apm_repo_sdk_python.Base.{
  ℕ, zero, suc, ◌+◌, ◌-◌, ◌*◌, ◌/◌, ◌%◌, ◌^◌, ◌≤◌, ◌<◌, ◌≡◌, refl, sym, arith, get_or,
}
use apm_repo_sdk_python.Base.Bits.{two_pow-pos}
use apm_repo_sdk_python.Base.Bytes.{Bytes, mod_digit}

abbrev pub bit_at : Bytes → ℕ → ℕ
bit_at data' i = get_or data' (i / 8) 0 / 2 ^ (7 - i % 8) % 2

-- The number that the `width` bits from `start` on make.
abbrev pub bits : Bytes → ℕ → ℕ → ℕ
bits data' start zero = 0
bits data' start (suc width) = bits data' start width * 2 + bit_at data' (start + width)

plus : (start b a : ℕ) → start + (b + a) ≡ start + a + b
plus start b a = omega arith

byte : (q j k : ℕ) → j + k ≡ 7 → (8 * q + j) / 8 ≡ q
byte q j k h = omega (arith, h)

place : (q j k : ℕ) → j + k ≡ 7 → 7 - (8 * q + j) % 8 ≡ k
place q j k h = omega (arith, h)

pub bits-add :
    (data' : Bytes) (start a b : ℕ)
    → bits data' start (b + a) ≡ bits data' start a * 2 ^ b + bits data' (start + a) b
bits-add data' start a zero = rw (zero-add a) (omega arith)
bits-add data' start a (suc b) =
    rw (suc-add b a, plus start b a, bits-add data' start a b, pow-suc 2 b) (omega arith)

bit_at-within :
    (data' : Bytes) (q j k : ℕ)
    → j + k ≡ 7
    → bit_at data' (8 * q + j) ≡ get_or data' q 0 / 2 ^ k % 2
bit_at-within data' q j k h = rw (byte q j k h, place q j k h) refl

low_bit : (x w : ℕ) → x / 2 % 2 ^ w * 2 + x % 2 ≡ x % 2 ^ suc w
low_bit x w = rw (pow-succ' 2 w) (sym (mod_digit 2 (2 ^ w) x (omega arith) (two_pow-pos w)))

pub bits-within :
    (data' : Bytes) (q c w k : ℕ)
    → c + w + k ≡ 8
    → bits data' (8 * q + c) w ≡ get_or data' q 0 / 2 ^ k % 2 ^ w
bits-within data' q c zero k h = sym (mod-one (get_or data' q 0 / 2 ^ k))
bits-within data' q c (suc w) k h =
    rw
      (
        bits-within data' q c w (suc k) (omega (arith, h)),
        add_assoc (8 * q) c w,
        bit_at-within data' q (c + w) k (omega (arith, h)),
        pow-suc 2 k,
        ← div-div-eq-div-mul (get_or data' q 0) (2 ^ k) 2,
      )
      (low_bit (get_or data' q 0 / 2 ^ k) w)

pub bits-lt : (data' : Bytes) (start w : ℕ) → bits data' start w < 2 ^ w
bits-lt data' start zero = omega arith
bits-lt data' start (suc w) = omega (arith, pow-suc 2 w, bits-lt data' start w)

-- A field depends on its own bytes only.
pub bits-same :
    (xs ys : Bytes) (m start w : ℕ)
    → ((j : ℕ) → j < m → get_or xs j 0 ≡ get_or ys j 0)
    → start + w ≤ 8 * m
    → bits xs start w ≡ bits ys start w
bits-same xs ys m start zero h k = refl
bits-same xs ys m start (suc w) h k =
    rw (bits-same xs ys m start w h (omega (arith, k)), h ((start + w) / 8) (omega (arith, k))) refl
