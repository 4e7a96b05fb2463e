-- ===== src/Format/Bucket/Wide.antt =====
-- One operation on numbers as wide as a string of bytes is the operation on each byte.
use Prim.Native.Nat.{bit_and, bit_or}
use apm_repo_sdk_python.Base.{ℕ, ◌^◌, ◌≡◌, refl, arith, All, length, lt→ltb}
use apm_repo_sdk_python.Base.Bits.{bit_and-join, bit_or-join, bit_or-lt}
use apm_repo_sdk_python.Base.Bytes.{Bytes, from_be}
use apm_repo_sdk_python.Base.Crc.Bound.{IsByte}
use apm_repo_sdk_python.Base.Width.{
  from_be-lt, to_be-from_be, zip_bytes, length-zip_bytes, All-zip_bytes, from_be-zip_bytes,
}
use apm_repo_sdk_python.Errors.{ok}
use apm_repo_sdk_python.Format.Redundancy.{to_bytes}

pub to_bytes-from_be :
    (n : ℕ) (bs : Bytes) → length bs ≡ n → All IsByte bs → to_bytes n (from_be bs) ≡ ok bs
unfolding to_bytes
to_bytes-from_be n bs e h =
    rw (← e, lt→ltb (from_be bs) (256 ^ length bs) (from_be-lt bs h), to_be-from_be bs h) refl

pub bit_or-bytes :
    (xs ys : Bytes)
    → All IsByte xs
    → All IsByte ys
    → length xs ≡ length ys
    → bit_or (from_be xs) (from_be ys) ≡ from_be (zip_bytes bit_or xs ys)
bit_or-bytes = from_be-zip_bytes bit_or bit_or-join refl

pub bit_and-bytes :
    (xs ys : Bytes)
    → All IsByte xs
    → All IsByte ys
    → length xs ≡ length ys
    → bit_and (from_be xs) (from_be ys) ≡ from_be (zip_bytes bit_and xs ys)
bit_and-bytes = from_be-zip_bytes bit_and bit_and-join refl

bit_or-IsByte : (x y : ℕ) → IsByte x → IsByte y → IsByte (bit_or x y)
bit_or-IsByte x y p q = bit_or-lt 8 x y p q

pub bit_or-AllBytes :
    (xs ys : Bytes) → All IsByte xs → All IsByte ys → All IsByte (zip_bytes bit_or xs ys)
bit_or-AllBytes xs ys = All-zip_bytes IsByte bit_or xs ys bit_or-IsByte

-- The disjunction of two byte strings, computed on their numbers.
pub to_bytes-bit_or :
    (n : ℕ) (xs ys : Bytes)
    → length xs ≡ n
    → length ys ≡ n
    → All IsByte xs
    → All IsByte ys
    → to_bytes n (bit_or (from_be xs) (from_be ys)) ≡ ok (zip_bytes bit_or xs ys)
to_bytes-bit_or n xs ys e f p q =
    let same : length xs ≡ length ys = omega (arith, e, f) in
    rw (bit_or-bytes xs ys p q same) (
      to_bytes-from_be n (zip_bytes bit_or xs ys)
        (omega (arith, length-zip_bytes bit_or xs ys same, f)) (bit_or-AllBytes xs ys p q))
