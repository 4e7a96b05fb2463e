-- ===== src/Format/Bucket/Trailer.antt =====
-- The checksums behind the chunks: a chunk's place among them, and their decoding.
use native.Mathlib.Nat.{zero-add}
use apm_repo_sdk_python.Base.{
  ℕ, zero, suc, ◌+◌, ◌-◌, ◌*◌, ◌^◌, ◌<◌, ◌≡◌, refl, sym, ap, ◌∙◌, arith, All, length, get_or, take,
  drop, Bool-cases, inl, inr, ◌==◌, le→leb, List, [], ◌∷◌, ◌++◌, some, length-append, take-append,
  drop-append,
}
use apm_repo_sdk_python.Base.Bytes.{Bytes, to_be, length-to_be, word_at-to_be}
use apm_repo_sdk_python.Errors.{ok}
use apm_repo_sdk_python.Format.Header.{compute_crc32}
use apm_repo_sdk_python.Format.Header.Codec.{verify_crc32-own}
use apm_repo_sdk_python.Format.Redundancy.{unpack_words}
use apm_repo_sdk_python.Format.Bucket.{
  BucketIndex, crc_store_positions, non_empty_count, count_zero, positive, positives, accumulate,
  range_from, sum, parse_chunk_crc_store,
}

-- The number of chunks that are not empty among the first `i`.
abbrev pub non_empty_before : List ℕ → ℕ → ℕ
non_empty_before lens i = sum (positives (take i lens))

count_lem : (lens : List ℕ) → sum (positives lens) + count_zero lens ≡ length lens
count_lem [] = refl
count_lem (n ∷ lens) = ground (arith, count_lem lens)

first_positive :
    (n : ℕ) (lens : List ℕ) → count_zero (n ∷ lens) ≡ 0 → (positive n ≡ 1) × (count_zero lens ≡ 0)
first_positive n lens h = ground (arith, h)

next : (start step : ℕ) → step ≡ 1 → suc start ≡ start + step
next start step h = omega (arith, h)

none_empty : (lens : List ℕ) → length lens - count_zero lens ≡ length lens → count_zero lens ≡ 0
none_empty lens h = omega (arith, h, count_lem lens)

-- Where no chunk is empty the positions are the chunks' own numbers.
all_positive :
    (lens : List ℕ) (start : ℕ)
    → count_zero lens ≡ 0
    → range_from start (length lens) ≡ accumulate start (positives lens)
all_positive [] start h = refl
all_positive (n ∷ lens) start h =
    let (step, rest) = first_positive n lens h in
    ap (◌∷◌ start) (
      all_positive lens (suc start) rest
      ∙ ap (λ k. accumulate k (positives lens)) (next start (positive n) step))

positions_lem :
    (index : BucketIndex)
    → length index.compress_types ≡ length index.effective_lens
    → crc_store_positions index ≡ accumulate 0 (positives index.effective_lens)
unfolding crc_store_positions non_empty_count
positions_lem index same =
    elim (Bool-cases (
      length index.effective_lens - count_zero index.effective_lens
      == length index.compress_types)) [
        | inl e ↦
            rw (e, same)
              (all_positive index.effective_lens 0
                (none_empty index.effective_lens (ground (arith, same, e))))
        | inr e ↦ rw e refl
      ]

get_or-accumulate :
    (ns : List ℕ) (start i : ℕ)
    → i < length ns
    → get_or (accumulate start (positives ns)) i 0 ≡ start + non_empty_before ns i
get_or-accumulate [] start i h = absurd (omega (arith, h))
get_or-accumulate (n ∷ ns) start zero h = omega arith
get_or-accumulate (n ∷ ns) start (suc i) h =
    omega (arith, get_or-accumulate ns (start + positive n) i (omega (arith, h)))

non_empty_before-lt :
    (ns : List ℕ) (i : ℕ)
    → i < length ns
    → 0 < get_or ns i 0
    → non_empty_before ns i < sum (positives ns)
non_empty_before-lt [] i h k = absurd (omega (arith, h))
non_empty_before-lt (n ∷ ns) zero h k = ground arith
non_empty_before-lt (n ∷ ns) (suc i) h k =
    omega (arith, non_empty_before-lt ns i (omega (arith, h)) k)

-- The checksum of a chunk that is not empty stands at the number of such chunks before it, and that
-- is within the trailer, in an index with as many lengths as types.
pub crc_store_positions-rank :
    (index : BucketIndex) (i : ℕ)
    → length index.compress_types ≡ length index.effective_lens
    → i < length index.effective_lens
    → 0 < get_or index.effective_lens i 0
    → (get_or (crc_store_positions index) i 0 ≡ non_empty_before index.effective_lens i)
      × (get_or (crc_store_positions index) i 0 < non_empty_count index)
unfolding non_empty_count
crc_store_positions-rank index i same inside full =
    let lens = index.effective_lens in
    let place : get_or (crc_store_positions index) i 0 ≡ non_empty_before lens i =
      ap (λ ps. get_or ps i 0) (positions_lem index same)
      ∙ (get_or-accumulate lens 0 i inside ∙ zero-add _) in
    (place, omega (arith, place, count_lem lens, non_empty_before-lt lens i inside full))

-- The trailer as it is written.
abbrev pub crc_store_bytes : List ℕ → Bytes
crc_store_bytes [] = []
crc_store_bytes (w ∷ ws) = to_be 4 w ++ crc_store_bytes ws

length-crc_store_bytes : (ws : List ℕ) → length (crc_store_bytes ws) ≡ 4 * length ws
length-crc_store_bytes [] = refl
length-crc_store_bytes (w ∷ ws) = omega (
  arith,
  length-append (to_be 4 w) (crc_store_bytes ws),
  length-to_be 4 w,
  length-crc_store_bytes ws,
)

abbrev pub IsWord : ℕ → Type 0
IsWord w = w < 256 ^ 4

unpack_words-written :
    (ws : List ℕ) → All IsWord ws → unpack_words (length ws) (crc_store_bytes ws) ≡ ws
unfolding unpack_words
unpack_words-written [] h = refl
unpack_words-written (w ∷ ws) h =
    rw
      (
        word_at-to_be 4 w (crc_store_bytes ws) h.0,
        ap (λ n. drop n (to_be 4 w ++ crc_store_bytes ws)) (sym (length-to_be 4 w)),
        drop-append (to_be 4 w) (crc_store_bytes ws),
        unpack_words-written ws h.1,
      )
      refl

-- A trailer written with its checksum is read back, whatever follows it.
pub parse_chunk_crc_store-written :
    (ws : List ℕ) (rest : Bytes)
    → All IsWord ws
    → parse_chunk_crc_store
        (crc_store_bytes ws ++ rest)
        (length ws)
        (some (compute_crc32 (crc_store_bytes ws)))
      ≡ ok ws
unfolding parse_chunk_crc_store
parse_chunk_crc_store-written ws rest h =
    rw
      (
        sym (length-crc_store_bytes ws),
        le→leb (length (crc_store_bytes ws)) (length (crc_store_bytes ws ++ rest))
            (omega (arith, length-append (crc_store_bytes ws) rest)),
        take-append (crc_store_bytes ws) rest,
        verify_crc32-own (crc_store_bytes ws),
        unpack_words-written ws h,
      )
      refl
