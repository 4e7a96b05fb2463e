-- ===== src/Format/Bucket/Decode.antt =====
-- `parse_size_store`: decoding all groups at once gives the records that the bits spell out.
use native.Mathlib.Nat.{add-zero}
use apm_repo_sdk_python.Base.{
  ℕ, ◌+◌, ◌-◌, ◌*◌, ◌/◌, ◌^◌, ◌≤◌, ◌<◌, ◌≡◌, refl, sym, ap, ◌∙◌, arith, All, length, length-append,
  length-take, get_or, take, leb, All-append, le→leb, Bool, true, false, Bool-cases, inl, inr,
  if◌then◌else◌, List, [], ◌∷◌, Option,
}
use apm_repo_sdk_python.Base.Bytes.{Bytes}
use apm_repo_sdk_python.Base.Crc.Bound.{IsByte}
use apm_repo_sdk_python.Base.Tabulate.{
  tabulate, length-tabulate, pointwise-tabulate, get_or-append, get_or-take, All-take, All-tabulate,
}
use apm_repo_sdk_python.Base.Width.{zip_bytes, length-zip_bytes, get_or-zip_bytes}
use apm_repo_sdk_python.Errors.{Result, ok, Error, ◌>>=◌, ◌>>◌, ensure}
use apm_repo_sdk_python.Format.Const.{compress_reserved_leng, fixed_chunk_length}
use apm_repo_sdk_python.Format.Bucket.{BucketIndex, chunk_size_store_tight_length, verify_if}
use apm_repo_sdk_python.Format.Bucket.LaidOut.{IsLen, laid_out, index_of-laid_out}
use apm_repo_sdk_python.Format.Bucket.Packed.{bits, bits-add, bits-lt, bits-same}
use apm_repo_sdk_python.Format.Bucket.Groups.{
  filled, record_column, decode_fields-filled, filled-bits, length-filled,
}
use apm_repo_sdk_python.Format.Bucket.Lanes.{
  length-zeros, All-zeros, native_u16-ok, frombytes-ok, length-pairs,
}
use apm_repo_sdk_python.Format.Bucket.SizeStore.{
  decode_fields, columns_from, native_u16, frombytes, zeros, ljust, pairs, u16_of, index_of,
  all_known, parse_size_store,
}

-- Record `i` takes the fifteen bits from `15 * i` on: three of the type, twelve of the length.
abbrev pub packed_types : Bytes → ℕ → List ℕ
packed_types data' n = tabulate (λ i. bits data' (15 * i) 3) 0 n

abbrev pub packed_lens : Bytes → ℕ → List ℕ
packed_lens data' n = tabulate (λ i. bits data' (15 * i + 3) 12) 0 n

abbrev pub packed_index : Bytes → ℕ → Option ℕ → Result BucketIndex
packed_index data' n crc = do
  ensure (leb (chunk_size_store_tight_length n) (length data')) Error.format_error
  verify_if crc (take (chunk_size_store_tight_length n) data')
  ensure (all_known (packed_types data' n)) Error.data_corrupt_error
  ok (laid_out compress_reserved_leng (packed_types data' n) (packed_lens data' n))

u16_of-pairs :
    (little : Bool) (lows highs : Bytes)
    → length lows ≡ length highs
    → u16_of little (if little then pairs lows highs else pairs highs lows)
      ≡ zip_bytes (λ x y. x + 256 * y) lows highs
unfolding u16_of
u16_of-pairs true [] ys e = refl
u16_of-pairs false [] [] e = refl
u16_of-pairs false [] (y ∷ ys) e = absurd (omega (arith, e))
u16_of-pairs little (x ∷ xs) [] e = absurd (omega (arith, e))
u16_of-pairs true (x ∷ xs) (y ∷ ys) e =
    ap (◌∷◌ (x + 256 * y)) (u16_of-pairs true xs ys (omega (arith, e)))
u16_of-pairs false (x ∷ xs) (y ∷ ys) e =
    let swap : 256 * y + x ≡ x + 256 * y = omega arith in
    rw swap (ap (◌∷◌ (x + 256 * y)) (u16_of-pairs false xs ys (omega (arith, e))))

length-native :
    (little : Bool) (lows highs : Bytes)
    → length lows ≡ length highs
    → length (if little then pairs lows highs else pairs highs lows) ≡ 2 * length lows
length-native true lows highs e = length-pairs lows highs e ∙ ap (λ n. 2 * n) (sym e)
length-native false lows highs e = length-pairs highs lows (sym e)

halves_sum : (x y : ℕ) → x + 256 * y ≡ y * 256 + x
halves_sum x y = omega arith

module _ (data' : Bytes) (n : ℕ) (enough : chunk_size_store_tight_length n ≤ length data')
    (bytes : All IsByte data') where
  abbrev gc : ℕ
  gc = (n + 7) / 8

  abbrev tight : Bytes
  tight = take (chunk_size_store_tight_length n) data'

  abbrev padded : Bytes
  padded = ljust (gc * 15) tight

  abbrev empty : Bytes
  empty = zeros (gc * 8)

  length-tight : length tight ≡ chunk_size_store_tight_length n
  length-tight = omega (arith, enough, length-take (chunk_size_store_tight_length n) data')

  length-padded : length padded ≡ gc * 15
  unfolding chunk_size_store_tight_length
  length-padded = omega (
    arith,
    length-tight,
    length-append tight (zeros (gc * 15 - length tight)),
    length-zeros (gc * 15 - length tight),
  )

  All-padded : All IsByte padded
  All-padded =
      All-append IsByte tight (zeros (gc * 15 - length tight))
        (All-take IsByte (chunk_size_store_tight_length n) data' bytes)
        (All-zeros (gc * 15 - length tight))

  padded-data' : (start w : ℕ) → start + w ≤ 15 * n → bits padded start w ≡ bits data' start w
  unfolding chunk_size_store_tight_length
  padded-data' start w h =
      bits-same padded data' ((n * 15 + 7) / 8) start w
        (λ j k.
          get_or-append j tight (zeros (gc * 15 - length tight)) (omega (arith, k, length-tight))
          ∙ get_or-take ((n * 15 + 7) / 8) j data' k)
        (omega (arith, h))

  abbrev buffer : ℕ → ℕ → Bytes
  buffer offset width =
      filled (record_column padded gc length-padded All-padded offset width) 0 8 empty

  get_or-buffer :
      (offset width i : ℕ)
      → offset + width ≤ 15
      → i < n
      → get_or (buffer offset width) i 0 ≡ bits data' (15 * i + offset) width
  get_or-buffer offset width i h k =
      filled-bits padded gc length-padded All-padded offset width i empty (length-zeros (gc * 8))
        (omega (arith, k))
      ∙ padded-data' (15 * i + offset) width (omega (arith, h, k))

  length-buffer : (offset width : ℕ) → length (buffer offset width) ≡ gc * 8
  length-buffer offset width =
      length-filled (record_column padded gc length-padded All-padded offset width) 0 8 empty
      ∙ length-zeros (gc * 8)

  types_lem : take n (buffer 0 3) ≡ packed_types data' n
  types_lem =
      pointwise-tabulate (λ i. bits data' (15 * i) 3) n (take n (buffer 0 3))
        (omega (arith, length-take n (buffer 0 3), length-buffer 0 3))
        (λ i k.
          get_or-take n i (buffer 0 3) k
          ∙ (get_or-buffer 0 3 i (omega arith) k ∙ ap (λ j. bits data' j 3) (add-zero (15 * i))))

  abbrev wide_lens : List ℕ
  wide_lens = zip_bytes (λ x y. x + 256 * y) (buffer 7 8) (buffer 3 4)

  same_lengths : length (buffer 7 8) ≡ length (buffer 3 4)
  same_lengths = length-buffer 7 8 ∙ sym (length-buffer 3 4)

  length-wide_lens : length wide_lens ≡ gc * 8
  length-wide_lens =
      length-zip_bytes (λ x y. x + 256 * y) (buffer 7 8) (buffer 3 4) same_lengths
      ∙ length-buffer 3 4

  halves : (s : ℕ) → bits data' (s + 4) 8 + 256 * bits data' s 4 ≡ bits data' s 12
  halves s = halves_sum (bits data' (s + 4) 8) (bits data' s 4) ∙ sym (bits-add data' s 4 8)

  next_field : (i : ℕ) → 15 * i + 7 ≡ 15 * i + 3 + 4
  next_field i = omega arith

  wide_len : (i : ℕ) → i < n → get_or wide_lens i 0 ≡ bits data' (15 * i + 3) 12
  wide_len i k =
      rw
        (
          get_or-zip_bytes (λ x y. x + 256 * y) (buffer 7 8) (buffer 3 4) i same_lengths
              (omega (arith, k, length-buffer 3 4)),
          get_or-buffer 7 8 i (omega arith) k,
          get_or-buffer 3 4 i (omega arith) k,
          next_field i,
        )
        (halves (15 * i + 3))

  lens_lem : take n wide_lens ≡ packed_lens data' n
  lens_lem =
      pointwise-tabulate (λ i. bits data' (15 * i + 3) 12) n (take n wide_lens)
        (omega (arith, length-take n wide_lens, length-wide_lens))
        (λ i k. get_or-take n i wide_lens k ∙ wide_len i k)

  index_lem :
      (little : Bool)
      → compress_reserved_leng + n * fixed_chunk_length < 2 ^ 32
      → index_of little (packed_types data' n) (packed_lens data' n) compress_reserved_leng
        ≡ ok (laid_out compress_reserved_leng (packed_types data' n) (packed_lens data' n))
  index_lem little small =
      index_of-laid_out little (packed_types data' n) (packed_lens data' n) compress_reserved_leng
        (length-tabulate (λ i. bits data' (15 * i) 3) 0 n ∙ sym long)
        (All-tabulate IsLen (λ i. bits data' (15 * i + 3) 12) 0 n
          (λ i. omega (arith, bits-lt data' (15 * i + 3) 12)))
        (omega (arith, small, long))
    where
      long : length (packed_lens data' n) ≡ n
      long = length-tabulate (λ i. bits data' (15 * i + 3) 12) 0 n

  pub parse_checked :
      (little : Bool) (crc : Option ℕ)
      → compress_reserved_leng + n * fixed_chunk_length < 2 ^ 32
      → parse_size_store little data' n crc ≡ packed_index data' n crc
  unfolding parse_size_store
  parse_checked little crc small =
      rw (le→leb (chunk_size_store_tight_length n) (length data') enough)
        (ap (λ k. verify_if crc tight >>= λ _. k) after)
    where
      raw : Bytes
      raw = if little then pairs (buffer 7 8) (buffer 3 4) else pairs (buffer 3 4) (buffer 7 8)

      after :
          (decode_fields
              (columns_from padded 0 15)
              gc
              0
              8
              (record { types = empty; highs = empty; lows = empty })
            >>= λ fields. do
              ensure (all_known (take n fields.types)) Error.data_corrupt_error
              raw' ← native_u16 little fields.lows fields.highs
              stored_lens ← frombytes little raw'
              index_of little (take n fields.types) (take n stored_lens) compress_reserved_leng)
          ≡ (do
            ensure (all_known (packed_types data' n)) Error.data_corrupt_error
            ok (laid_out compress_reserved_leng (packed_types data' n) (packed_lens data' n)))
      after =
          rw
            (
              decode_fields-filled padded gc length-padded All-padded 8 0 empty empty empty
                  (omega arith) (length-zeros (gc * 8)) (length-zeros (gc * 8))
                  (length-zeros (gc * 8)),
              types_lem,
              native_u16-ok little (buffer 7 8) (buffer 3 4) same_lengths,
              frombytes-ok little raw (gc * 8) (
                  length-native little (buffer 7 8) (buffer 3 4) same_lengths
                  ∙ ap (λ k. 2 * k) (length-buffer 7 8)),
              u16_of-pairs little (buffer 7 8) (buffer 3 4) same_lengths,
              lens_lem,
              index_lem little small,
            )
            refl

-- For data of bytes and a number of chunks that a 32-bit offset can reach, decoding a size store
-- gives, on every machine, the index that the packed records spell out: the same errors in the
-- same order, or each chunk's three bits of type and twelve bits of length, its effective length,
-- and the chunks laid out back to back.
pub parse_size_store-packed :
    (little : Bool) (data' : Bytes) (n : ℕ) (crc : Option ℕ)
    → All IsByte data'
    → compress_reserved_leng + n * fixed_chunk_length < 2 ^ 32
    → parse_size_store little data' n crc ≡ packed_index data' n crc
unfolding parse_size_store
parse_size_store-packed little data' n crc bytes small =
    elim (Bool-cases (leb (chunk_size_store_tight_length n) (length data'))) [
      | inl e ↦ parse_checked data' n (ground arith) bytes little crc small
      | inr e ↦ rw e refl
    ]
