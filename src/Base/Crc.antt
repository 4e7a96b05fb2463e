-- ===== src/Base/Crc.antt =====
-- `zlib.crc32` of the standard library: the reflected polynomial 0xEDB88320, one bit at a time.
pub mod Bound
use Prim.Native.Nat.{ℕ, zero, suc, ◌+◌, ◌*◌, ◌/◌, ◌%◌, ◌≤◌, ◌<◌, bit_xor, differ, bit_xor-bitwise}
use mathlib.Core.List.{[], ◌∷◌, ◌++◌}
use mathlib.Core.Path.{◌≡◌, refl}
use native.Mathlib.Omega.{arith}
use apm_repo_sdk_python.Base.Tests.{◌==◌, if◌then◌else◌}
use apm_repo_sdk_python.Base.Bits.{bitwise-suc}
use apm_repo_sdk_python.Base.Bytes.{Bytes}

crc_bit : ℕ → ℕ
crc_bit c = if c % 2 == 1 then bit_xor (c / 2) 0xedb88320 else c / 2

crc_bits : ℕ → ℕ → ℕ
crc_bits zero c = c
crc_bits (suc n) c = crc_bits n (crc_bit c)

crc_fold : ℕ → Bytes → ℕ
crc_fold c [] = c
crc_fold c (b ∷ bs) = crc_fold (crc_bits 8 (bit_xor c b)) bs

-- `zlib.crc32(data, value)`.
unfoldable pub crc32_from : ℕ → Bytes → ℕ
unfolding crc_bit crc_bits crc_fold
crc32_from value bs = bit_xor (crc_fold (bit_xor value 0xffffffff) bs) 0xffffffff

bit_xor-halve : (x y : ℕ) → bit_xor x y ≡ bit_xor (x / 2) (y / 2) * 2 + differ (x % 2) (y % 2)
bit_xor-halve zero y = simp bit_xor-bitwise (omega arith)
bit_xor-halve (suc x) y = simp bit_xor-bitwise (bitwise-suc (λ b. b) differ x y)

-- To take the checksum of a part and go on from it is to take that of the whole.
crc_fold-append : (c : ℕ) (xs ys : Bytes) → crc_fold c (xs ++ ys) ≡ crc_fold (crc_fold c xs) ys
unfolding crc_fold
crc_fold-append c [] ys = refl
crc_fold-append c (x ∷ xs) ys = crc_fold-append (crc_bits 8 (bit_xor c x)) xs ys

differ_bits : (a b : ℕ) → a < 2 → b < 2 → (differ a b < 2) × (differ (differ a b) b ≡ a)
differ_bits zero zero p q = omega arith
differ_bits zero (suc zero) p q = omega arith
differ_bits (suc zero) zero p q = omega arith
differ_bits (suc zero) (suc zero) p q = omega arith
differ_bits (suc (suc a)) b p q = absurd (omega arith)
differ_bits a (suc (suc b)) p q = absurd (omega arith)

bit_xor_twice_bounded : (f x m : ℕ) → x ≤ f → m ≤ f → bit_xor (bit_xor x m) m ≡ x
bit_xor_twice_bounded zero zero zero p q = refl
bit_xor_twice_bounded zero (suc x) m p q = elim p [ ]
bit_xor_twice_bounded zero zero (suc m) p q = elim q [ ]
bit_xor_twice_bounded (suc f) x m p q = ground (
  arith,
  bit_xor-halve x m,
  bit_xor-halve (bit_xor x m) m,
  differ_bits (x % 2) (m % 2),
  bit_xor_twice_bounded f (x / 2) (m / 2) (omega arith) (omega arith),
)

pub bit_xor_twice : (x m : ℕ) → bit_xor (bit_xor x m) m ≡ x
bit_xor_twice x m = bit_xor_twice_bounded (x + m) x m (omega arith) (omega arith)

-- The running form: the checksum of a whole is that of its second part, from the first's.
pub crc32_from-append :
    (v : ℕ) (xs ys : Bytes) → crc32_from v (xs ++ ys) ≡ crc32_from (crc32_from v xs) ys
unfolding crc32_from
crc32_from-append v xs ys = rw (crc_fold-append (bit_xor v 0xffffffff) xs ys, bit_xor_twice)

crc32_check_value : crc32_from 0 (49 ∷ 50 ∷ 51 ∷ 52 ∷ 53 ∷ 54 ∷ 55 ∷ 56 ∷ 57 ∷ []) ≡ 0xcbf43926
unfolding crc32_from
crc32_check_value = refl
