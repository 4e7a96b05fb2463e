-- ===== src/Base/Crc/Bound.antt =====
-- The checksum of bytes is a number of 32 bits.
use Prim.Native.Nat.{bit_xor}
use native.Mathlib.Nat.{pow-suc}
use apm_repo_sdk_python.Base.Lists.{All}
use Prim.Native.Nat.{ℕ, zero, suc, ◌/◌, ◌%◌, ◌^◌, ◌<◌}
use mathlib.Core.List.{[], ◌∷◌}
use native.Mathlib.Omega.{arith}
use apm_repo_sdk_python.Base.Bytes.{Bytes}
use apm_repo_sdk_python.Base.Crc.{
  crc_bit, crc_bits, crc_fold, crc32_from, bit_xor-halve, differ_bits,
}

pub bit_xor-lt : (k x y : ℕ) → x < 2 ^ k → y < 2 ^ k → bit_xor x y < 2 ^ k
bit_xor-lt zero zero zero p q = omega arith
bit_xor-lt zero zero (suc y) p q = absurd (omega (arith, p, q))
bit_xor-lt zero (suc x) y p q = absurd (omega (arith, p, q))
bit_xor-lt (suc k) x y p q =
    let half =
      bit_xor-lt k (x / 2) (y / 2) (omega (arith, p, pow-suc 2 k))
        (omega (arith, q, pow-suc 2 k)) in
    let low = differ_bits (x % 2) (y % 2) (omega arith) (omega arith) in
    omega (arith, bit_xor-halve x y, half, low.0, pow-suc 2 k)

crc_bit-lt : (c : ℕ) → c < 2 ^ 32 → crc_bit c < 2 ^ 32
unfolding crc_bit
crc_bit-lt c h = ground (arith, bit_xor-lt 32 (c / 2) 0xedb88320 (omega arith) (omega arith))

crc_bits-lt : (n c : ℕ) → c < 2 ^ 32 → crc_bits n c < 2 ^ 32
unfolding crc_bits
crc_bits-lt zero c h = h
crc_bits-lt (suc n) c h = crc_bits-lt n (crc_bit c) (crc_bit-lt c h)

abbrev pub IsByte : ℕ → Type 0
IsByte b = b < 256

crc_fold-lt : (c : ℕ) (bs : Bytes) → c < 2 ^ 32 → All IsByte bs → crc_fold c bs < 2 ^ 32
unfolding crc_fold
crc_fold-lt c [] h k = h
crc_fold-lt c (b ∷ bs) h k =
    crc_fold-lt (crc_bits 8 (bit_xor c b)) bs
      (crc_bits-lt 8 (bit_xor c b) (bit_xor-lt 32 c b h (omega (arith, k.0)))) k.1

pub crc32_from-lt : (v : ℕ) (bs : Bytes) → v < 2 ^ 32 → All IsByte bs → crc32_from v bs < 2 ^ 32
unfolding crc32_from
crc32_from-lt v bs h k =
    bit_xor-lt 32 _ 0xffffffff
      (crc_fold-lt (bit_xor v 0xffffffff) bs (bit_xor-lt 32 v 0xffffffff h (omega arith)) k)
      (omega arith)
