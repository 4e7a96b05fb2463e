-- ===== src/Format/Bucket/Lanes.antt =====
-- `BucketIndex.of`: the operations on wide numbers give each chunk its effective length, whatever
-- the machine's byte order.
use Prim.Native.Nat.{bit_and, bit_or}
use apm_repo_sdk_python.Base.{
  ℕ, zero, suc, ◌+◌, ◌*◌, ◌/◌, ◌%◌, ◌^◌, ◌<◌, ◌≡◌, refl, sym, ap, ◌∙◌, arith, All, length, Bool,
  true, false, Bool-cases, inl, inr, ◌==◌, if◌then◌else◌, List, [], ◌∷◌, map, ==_iff,
}
use apm_repo_sdk_python.Base.Bits.{bit_and-zero, bit_and-lt, bit_or-zero, bit_and-mask}
use apm_repo_sdk_python.Base.Bytes.{Bytes}
use apm_repo_sdk_python.Base.Crc.Bound.{IsByte}
use apm_repo_sdk_python.Base.Tabulate.{length-map}
use apm_repo_sdk_python.Base.Width.{zip_bytes, length-zip_bytes, All-zip_bytes}
use apm_repo_sdk_python.Errors.{ok}
use apm_repo_sdk_python.Format.Bucket.Wide.{to_bytes-bit_or, bit_and-bytes}
use apm_repo_sdk_python.Format.Bucket.SizeStore.{
  pairs, zeros, keeps_stored_len, fixed_len_high_byte, u16_of, tobytes, native_u16, frombytes,
  effective_lens_of,
}

-- The length of a chunk in the data region, from the raw type and the stored length.
abbrev pub raw_effective : ℕ → ℕ → ℕ
raw_effective t n = if t == 0 then 4096 else if t == 4 then 0 else n

abbrev pub IsU16 : ℕ → Type 0
IsU16 n = n < 2 ^ 16

-- One byte of a lane.
abbrev lane : ℕ → ℕ → ℕ → ℕ
lane b k h = bit_or (bit_and b k) h

lane-kept : (b : ℕ) → b < 256 → lane b 0xff 0 ≡ b
lane-kept b h = rw (bit_or-zero (bit_and b 255), bit_and-mask 8 b) (omega (arith, h))

lanes :
    (t n : ℕ)
    → IsU16 n
    → lane (n % 256) (keeps_stored_len t) 0
        + 256 * lane (n / 256) (keeps_stored_len t) (fixed_len_high_byte t)
      ≡ raw_effective t n
lanes t n h = elim (Bool-cases (t == 0)) [
  | inl e ↦ rw (e, bit_and-zero (n % 256), bit_and-zero (n / 256)) refl
  | inr e ↦ elim (Bool-cases (t == 4)) [
    | inl f ↦ rw (e, f, bit_and-zero (n % 256), bit_and-zero (n / 256)) refl
    | inr f ↦
        rw (e, f, lane-kept (n % 256) (omega arith), lane-kept (n / 256) (omega (arith, h)))
          (omega arith)
  ]
]

big_lanes :
    (t n : ℕ)
    → IsU16 n
    → 256 * lane (n / 256) (keeps_stored_len t) (fixed_len_high_byte t)
        + lane (n % 256) (keeps_stored_len t) 0
      ≡ raw_effective t n
big_lanes t n h = omega (arith, lanes t n h)

abbrev keep : List ℕ → Bytes
keep ts = map keeps_stored_len ts

abbrev high : List ℕ → Bytes
high ts = map fixed_len_high_byte ts

-- The bytes of the mask, and those filled in.
abbrev mask : Bool → List ℕ → Bytes
mask little ts = if little then pairs (keep ts) (keep ts) else pairs (keep ts) (keep ts)

abbrev full : Bool → List ℕ → Bytes
full little ts =
    if little then pairs (zeros (length ts)) (high ts) else pairs (high ts) (zeros (length ts))

abbrev masked : Bool → List ℕ → List ℕ → Bytes
masked little ts ns = zip_bytes bit_and (tobytes little ns) (mask little ts)

merged :
    (little : Bool) (ts ns : List ℕ)
    → length ts ≡ length ns
    → All IsU16 ns
    → u16_of little (zip_bytes bit_or (masked little ts ns) (full little ts))
      ≡ zip_bytes raw_effective ts ns
unfolding u16_of tobytes
merged true [] [] e h = refl
merged false [] [] e h = refl
merged little [] (n ∷ ns) e h = absurd (omega (arith, e))
merged little (t ∷ ts) [] e h = absurd (omega (arith, e))
merged true (t ∷ ts) (n ∷ ns) e h =
    rw (lanes t n h.0) (ap (◌∷◌ (raw_effective t n)) (merged true ts ns (omega (arith, e)) h.1))
merged false (t ∷ ts) (n ∷ ns) e h =
    rw (big_lanes t n h.0)
      (ap (◌∷◌ (raw_effective t n)) (merged false ts ns (omega (arith, e)) h.1))

pub length-pairs : (xs ys : Bytes) → length xs ≡ length ys → length (pairs xs ys) ≡ 2 * length ys
length-pairs [] ys e = omega (arith, e)
length-pairs (x ∷ xs) [] e = absurd (omega (arith, e))
length-pairs (x ∷ xs) (y ∷ ys) e = omega (arith, length-pairs xs ys (omega (arith, e)))

All-pairs : (xs ys : Bytes) → All IsByte xs → All IsByte ys → All IsByte (pairs xs ys)
All-pairs [] ys p q = tt
All-pairs (x ∷ xs) [] p q = tt
All-pairs (x ∷ xs) (y ∷ ys) p q = (p.0, (q.0, All-pairs xs ys p.1 q.1))

pub length-zeros : (n : ℕ) → length (zeros n) ≡ n
length-zeros zero = refl
length-zeros (suc n) = ap suc (length-zeros n)

pub All-zeros : (n : ℕ) → All IsByte (zeros n)
All-zeros zero = tt
All-zeros (suc n) = (omega arith, All-zeros n)

length-tobytes : (little : Bool) (ns : List ℕ) → length (tobytes little ns) ≡ 2 * length ns
unfolding tobytes
length-tobytes little [] = refl
length-tobytes true (n ∷ ns) = omega (arith, length-tobytes true ns)
length-tobytes false (n ∷ ns) = omega (arith, length-tobytes false ns)

All-tobytes : (little : Bool) (ns : List ℕ) → All IsU16 ns → All IsByte (tobytes little ns)
unfolding tobytes
All-tobytes little [] h = tt
All-tobytes true (n ∷ ns) h = (omega arith, (omega (arith, h.0), All-tobytes true ns h.1))
All-tobytes false (n ∷ ns) h = (omega (arith, h.0), (omega arith, All-tobytes false ns h.1))

All-keep : (ts : List ℕ) → All IsByte (keep ts)
All-keep [] = tt
All-keep (t ∷ ts) = (ground arith, All-keep ts)

All-high : (ts : List ℕ) → All IsByte (high ts)
All-high [] = tt
All-high (t ∷ ts) = (ground arith, All-high ts)

length-mask : (little : Bool) (ts : List ℕ) → length (mask little ts) ≡ 2 * length ts
length-mask true ts =
    omega (arith, length-pairs (keep ts) (keep ts) refl, length-map keeps_stored_len ts)
length-mask false ts =
    omega (arith, length-pairs (keep ts) (keep ts) refl, length-map keeps_stored_len ts)

All-mask : (little : Bool) (ts : List ℕ) → All IsByte (mask little ts)
All-mask true ts = All-pairs (keep ts) (keep ts) (All-keep ts) (All-keep ts)
All-mask false ts = All-pairs (keep ts) (keep ts) (All-keep ts) (All-keep ts)

same_length : (ts : List ℕ) → length (zeros (length ts)) ≡ length (high ts)
same_length ts = omega (arith, length-zeros (length ts), length-map fixed_len_high_byte ts)

length-full : (little : Bool) (ts : List ℕ) → length (full little ts) ≡ 2 * length ts
length-full true ts = omega (
  arith,
  length-pairs (zeros (length ts)) (high ts) (same_length ts),
  length-map fixed_len_high_byte ts,
)
length-full false ts = omega (
  arith,
  length-pairs (high ts) (zeros (length ts)) (sym (same_length ts)),
  length-zeros (length ts),
)

All-full : (little : Bool) (ts : List ℕ) → All IsByte (full little ts)
All-full true ts = All-pairs (zeros (length ts)) (high ts) (All-zeros (length ts)) (All-high ts)
All-full false ts = All-pairs (high ts) (zeros (length ts)) (All-high ts) (All-zeros (length ts))

bit_and-IsByte : (x y : ℕ) → IsByte x → IsByte y → IsByte (bit_and x y)
bit_and-IsByte x y p q = bit_and-lt 8 x y p

pub native_u16-ok :
    (little : Bool) (lows highs : Bytes)
    → length lows ≡ length highs
    → native_u16 little lows highs ≡ ok (if little then pairs lows highs else pairs highs lows)
unfolding native_u16
native_u16-ok little lows highs e = rw ((==_iff (length lows) (length highs)).1 e) refl

pub frombytes-ok :
    (little : Bool) (bs : Bytes) (n : ℕ)
    → length bs ≡ 2 * n
    → frombytes little bs ≡ ok (u16_of little bs)
unfolding frombytes
frombytes-ok little bs n e = rw ((==_iff (length bs % 2) 0).1 (omega (arith, e))) refl

pub effective_lens_of-raw :
    (little : Bool) (ts ns : List ℕ)
    → length ts ≡ length ns
    → All IsU16 ns
    → effective_lens_of little ts ns ≡ ok (zip_bytes raw_effective ts ns)
unfolding effective_lens_of
effective_lens_of-raw little ts ns e h =
    let stored = tobytes little ns in
    let l : length stored ≡ length (mask little ts) =
      omega (arith, e, length-tobytes little ns, length-mask little ts) in
    let lm : length (masked little ts ns) ≡ length stored =
      length-zip_bytes bit_and stored (mask little ts) l ∙ sym l in
    let lf : length (full little ts) ≡ length stored = l' (length-full little ts) in
    let result = zip_bytes bit_or (masked little ts ns) (full little ts) in
    rw
      (
        native_u16-ok little (keep ts) (keep ts) refl,
        native_u16-ok little (zeros (length ts)) (high ts) (same_length ts),
        bit_and-bytes stored (mask little ts) (All-tobytes little ns h) (All-mask little ts) l,
        to_bytes-bit_or (length stored) (masked little ts ns) (full little ts) lm lf
            (All-zip_bytes IsByte bit_and stored (mask little ts) bit_and-IsByte
              (All-tobytes little ns h) (All-mask little ts))
            (All-full little ts),
        frombytes-ok little result (length ns) (
            length-zip_bytes bit_or (masked little ts ns) (full little ts) (lm ∙ sym lf)
            ∙ (lf ∙ length-tobytes little ns)),
      )
      (ap ok (merged little ts ns e h))
  where
    l' :
        length (full little ts) ≡ 2 * length ts
        → length (full little ts) ≡ length (tobytes little ns)
    l' f = omega (arith, e, f, length-tobytes little ns)
