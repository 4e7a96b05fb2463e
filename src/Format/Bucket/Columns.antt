-- ===== src/Format/Bucket/Columns.antt =====
-- `_field_bytes`: one field of every group is read off the columns.
use Prim.Native.Nat.{bit_and, bit_or}
use native.Mathlib.Nat.{
  div-le_self, mod-lt, pow-le-pow_right, zero-add, one-mul, div-one, mod-eq_of_lt,
  div-lt_iff_lt-mul, mul-div_cancel, mul-mod_left,
}
use mathlib.Core.Path.{subst}
use apm_repo_sdk_python.Base.{
  ℕ, zero, suc, ◌+◌, ◌-◌, ◌*◌, ◌/◌, ◌%◌, ◌^◌, ◌≤◌, ◌<◌, ◌≡◌, refl, sym, ap, ◌∙◌, arith, map, All,
  inl, inr, length, get_or, leb, Bool-cases, get_elem?, some, ◌∷◌, [],
}
use apm_repo_sdk_python.Base.Bits.{
  ◌<<<◌, ◌>>>◌, bit_and-mask, bit_or-field, two_pow-pos, two_pow-add,
}
use apm_repo_sdk_python.Base.Bytes.{Bytes, mod_digit}
use apm_repo_sdk_python.Base.Crc.Bound.{IsByte}
use apm_repo_sdk_python.Base.Strides.{strided, length-strided, get_or-strided, All-strided}
use apm_repo_sdk_python.Base.Tabulate.{
  tabulate, pointwise-tabulate, length-map, get_or-map, All-map, All-get_or,
}
use apm_repo_sdk_python.Base.Width.{zip_bytes, length-zip_bytes, get_or-zip_bytes}
use apm_repo_sdk_python.Errors.{ok}
use apm_repo_sdk_python.Format.Bucket.Packed.{bits, bits-add, bits-within}
use apm_repo_sdk_python.Format.Bucket.Wide.{to_bytes-bit_or}
use apm_repo_sdk_python.Format.Bucket.SizeStore.{Table, field_plan, part, field_bytes, columns_from}

-- A field within one byte.
one_part :
    (data' : Bytes) (q c w : ℕ)
    → c + w ≤ 8
    → bit_and (get_or data' q 0 >>> (8 - (c + w))) (1 <<< w - 1) ≡ bits data' (8 * q + c) w
one_part data' q c w h =
    rw
      (
        one-mul (2 ^ w),
        bit_and-mask w (get_or data' q 0 >>> (8 - (c + w))),
        bits-within data' q c w (8 - (c + w)) (omega (arith, h)),
      )
      refl

high_part : (x a b : ℕ) → bit_and (x <<< b) (1 <<< (b + a) - 1) ≡ (x % 2 ^ a) <<< b
high_part x a b =
    rw
      (
        one-mul (2 ^ (b + a)),
        bit_and-mask (b + a) (x * 2 ^ b),
        two_pow-add b a,
        mod_digit (2 ^ b) (2 ^ a) (x * 2 ^ b) (two_pow-pos b) (two_pow-pos a),
        mul-div_cancel x {n = 2 ^ b} (two_pow-pos b),
        mul-mod_left x (2 ^ b),
      )
      (omega arith)

low_part-lt : (x b k : ℕ) → b + k ≡ 8 → x < 256 → x / 2 ^ k < 2 ^ b
low_part-lt x b k e h =
    (div-lt_iff_lt-mul (two_pow-pos k)).1
      (subst (λ n. x < n) (sym (ap (λ n. 2 ^ n) e) ∙ two_pow-add b k) h)

next_byte : (q c a : ℕ) → c + a ≡ 8 → 8 * q + c + a ≡ 8 * suc q + 0
next_byte q c a e = omega (arith, e)

-- A field over two bytes.
two_parts :
    (data' : Bytes) (q c a b k w : ℕ)
    → c + a ≡ 8
    → b + k ≡ 8
    → w ≡ b + a
    → All IsByte data'
    → bit_or (bit_and (get_or data' q 0 <<< b) (1 <<< w - 1)) (get_or data' (suc q) 0 >>> k)
      ≡ bits data' (8 * q + c) w
two_parts data' q c a b k w e f split h =
    let low = get_or data' (suc q) 0 in
    let fits = low_part-lt low b k f (All-get_or IsByte data' (suc q) (omega arith) h) in
    rw
      (
        split,
        high_part (get_or data' q 0) a b,
        bit_or-field b (get_or data' q 0 % 2 ^ a) (low / 2 ^ k) fits,
        bits-add data' (8 * q + c) a b,
        bits-within data' q c a 0 (omega (arith, e)),
        next_byte q c a e,
        bits-within data' (suc q) 0 b k (omega (arith, f)),
        mod-eq_of_lt fits,
        div-one (get_or data' q 0),
      )
      refl

masked-IsByte : (y w : ℕ) → w ≤ 8 → IsByte (bit_and y (1 <<< w - 1))
masked-IsByte y w h =
    rw (one-mul (2 ^ w), bit_and-mask w y)
      (omega (arith, mod-lt y (two_pow-pos w), pow-le-pow_right {n = 2} (omega arith) h))

shifted-IsByte : (x k : ℕ) → IsByte x → IsByte (x >>> k)
shifted-IsByte x k h = omega (arith, h, div-le_self x (2 ^ k))

next_column : (g q : ℕ) → 15 * g + (q + 1) ≡ suc (15 * g + q)
next_column g q = omega arith

module _ (padded : Bytes) (gc : ℕ) (len : length padded ≡ gc * 15) (bytes : All IsByte padded) where
  -- The column of a field, in the words of the packed records.
  abbrev pub column : ℕ → ℕ → Bytes
  column start width = tabulate (λ g. bits padded (120 * g + start) width) 0 gc

  length-column : (pos : ℕ) → pos < 15 → length (strided 14 pos padded) ≡ gc
  length-column pos h = omega (arith, h, len, length-strided 14 pos padded)

  length-part : (pos : ℕ) (t : Table) → pos < 15 → length (map t (strided 14 pos padded)) ≡ gc
  length-part pos t h = length-map t (strided 14 pos padded) ∙ length-column pos h

  get_or-part :
      (pos g : ℕ) (t : Table)
      → pos < 15
      → g < gc
      → get_or (map t (strided 14 pos padded)) g 0 ≡ t (get_or padded (15 * g + pos) 0)
  get_or-part pos g t h k =
      get_or-map t (strided 14 pos padded) g (omega (arith, length-column pos h, k))
      ∙ ap t (get_or-strided 14 pos g (15 * g + pos) padded (omega arith))

  get_elem?-columns_from :
      (p left i : ℕ)
      → i < left
      → get_elem? (columns_from padded p left) i ≡ some (strided 14 (p + i) padded)
  unfolding columns_from
  get_elem?-columns_from p zero i h = absurd (omega (arith, h))
  get_elem?-columns_from p (suc left) zero h = ap (λ n. some (strided 14 n padded)) (omega arith)
  get_elem?-columns_from p (suc left) (suc i) h =
      get_elem?-columns_from (suc p) left i (omega (arith, h))
      ∙ ap (λ n. some (strided 14 n padded)) (omega arith)

  part-column :
      (pos : ℕ) (t : Table)
      → pos < 15
      → part (columns_from padded 0 15) (pos, t) ≡ ok (map t (strided 14 pos padded))
  unfolding columns_from strided
  part-column pos t h = rw (get_elem?-columns_from 0 15 pos h, zero-add pos) refl

  place : (g start : ℕ) → 8 * (15 * g + start / 8) + start % 8 ≡ 120 * g + start
  place g start = omega arith

  All-part :
      (pos : ℕ) (t : Table)
      → ((b : ℕ) → IsByte b → IsByte (t b))
      → All IsByte (map t (strided 14 pos padded))
  All-part pos t h =
      All-map IsByte IsByte t (strided 14 pos padded) h (All-strided IsByte 14 pos padded bytes)

  one_byte :
      (start width : ℕ)
      → 0 < width
      → start + width ≤ 120
      → start % 8 + width ≤ 8
      → part
          (columns_from padded 0 15)
          (start / 8, λ value. bit_and (value >>> (8 - (start % 8 + width))) (1 <<< width - 1))
        ≡ ok (column start width)
  one_byte start width pos inside one =
      let t : Table = λ value. bit_and (value >>> (8 - (start % 8 + width))) (1 <<< width - 1) in
      let q = start / 8 in
      let at : q < 15 = omega (arith, pos, inside) in
      rw (part-column q t at) (
        ap ok (
          pointwise-tabulate (λ g. bits padded (120 * g + start) width) gc
            (map t (strided 14 q padded)) (length-part q t at)
            (λ g k.
              get_or-part q g t at k
              ∙ (one_part padded (15 * g + q) (start % 8) width one
                  ∙ ap (λ n. bits padded n width) (place g start)))))

  two_bytes :
      (start width : ℕ)
      → width ≤ 8
      → start + width ≤ 120
      → 8 < start % 8 + width
      → field_bytes
          (columns_from padded 0 15)
          ((start / 8, λ value. bit_and (value <<< (start % 8 + width - 8)) (1 <<< width - 1))
            ∷ (start / 8 + 1, λ value. value >>> (16 - (start % 8 + width)))
            ∷ [])
          gc
        ≡ ok (column start width)
  unfolding field_bytes
  two_bytes start width small inside two =
      let q = start / 8 in
      let b = start % 8 + width - 8 in
      let t : Table = λ value. bit_and (value <<< b) (1 <<< width - 1) in
      let u : Table = λ value. value >>> (16 - (start % 8 + width)) in
      let at : q + 1 < 15 = omega (arith, small, inside, two) in
      let at' : q < 15 = omega (arith, at) in
      let first = map t (strided 14 q padded) in
      let second = map u (strided 14 (q + 1) padded) in
      let same : length first ≡ length second =
        length-part q t at' ∙ sym (length-part (q + 1) u at) in
      rw
        (
          part-column q t at',
          part-column (q + 1) u at,
          to_bytes-bit_or gc first second (length-part q t at') (length-part (q + 1) u at)
              (All-part q t (λ x h. masked-IsByte (x <<< b) width small))
              (All-part (q + 1) u (λ x h. shifted-IsByte x (16 - (start % 8 + width)) h)),
        )
        (ap ok (
          pointwise-tabulate (λ g. bits padded (120 * g + start) width) gc
            (zip_bytes bit_or first second)
            (length-zip_bytes bit_or first second same ∙ length-part (q + 1) u at)
            (λ g k.
              rw
                (
                  get_or-zip_bytes bit_or first second g same
                      (omega (arith, k, length-part (q + 1) u at)),
                  get_or-part q g t at' k,
                  get_or-part (q + 1) g u at k,
                  next_column g q,
                )
                (two_parts padded (15 * g + q) (start % 8) (8 - start % 8) b
                    (16 - (start % 8 + width)) width (omega arith) (omega (arith, small, two))
                    (omega (arith, two)) bytes
                  ∙ ap (λ n. bits padded n width) (place g start)))))

  pub field_bytes-column :
      (start width : ℕ)
      → 0 < width
      → width ≤ 8
      → start + width ≤ 120
      → field_bytes (columns_from padded 0 15) (field_plan start width) gc ≡ ok (column start width)
  unfolding field_bytes field_plan
  field_bytes-column start width pos small inside = elim (Bool-cases (leb (start % 8 + width) 8)) [
    | inl one ↦ rw one (one_byte start width pos inside (ground arith))
    | inr two ↦ rw two (two_bytes start width small inside (ground arith))
  ]
