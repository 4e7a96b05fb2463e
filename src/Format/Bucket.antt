-- ===== src/Format/Bucket.antt =====
-- format/bucket.py: the header of a bucket file, the
-- entries of its chunks and the layout that follows from them. An `array.array` is the list of its
-- numbers; the arrays of 32-bit numbers refuse a larger one.
mod Packed
mod Wide
mod Columns
mod Groups
mod Lanes
mod LaidOut
pub mod Decode
pub mod SizeStore
pub mod Layout
pub mod Trailer
use Prim.Native.Nat.{bit_and}
use apm_repo_sdk_python.Base.{
  ℕ, zero, suc, ◌+◌, ◌-◌, ◌*◌, ◌/◌, ◌^◌, Bool, true, false, not, ◌&&◌, List, [], ◌∷◌, Option, none,
  some, ltb, leb, ◌==◌, if◌then◌else◌, length, get_elem?, take,
}
use apm_repo_sdk_python.Base.Bytes.{Bytes, word_at}
use apm_repo_sdk_python.Base.Bits.{◌>>>◌}
use apm_repo_sdk_python.Errors.{Result, ok, raise, Error, ◌>>=◌, ◌>>◌, ensure}
use apm_repo_sdk_python.Format.Compression.{CompressType}
use apm_repo_sdk_python.Format.Const.{
  fixed_chunk_length, size_store_rec_bit_num, chunk_crc_size, compress_reserved_leng,
  redundancy_coverage_bucket,
}
use apm_repo_sdk_python.Format.Header.{IndexHeader, bucket_magic, parse_index_header, verify_crc32}
use apm_repo_sdk_python.Format.Redundancy.{redundancy_size, unpack_words}

abbrev pub mode_compress : ℕ
mode_compress = 0x01

abbrev pub mode_vault_encrypt : ℕ
mode_vault_encrypt = 0x80

abbrev pub major_vault : ℕ
major_vault = 3

pub record BucketFileHeader : Type 0 where
  pub major : ℕ
  pub minor : ℕ
  pub mode : ℕ
  pub chunk_num : ℕ
  pub chunk_size_crc : ℕ
  pub crc_of_chunk_crc : ℕ

unfoldable pub is_compressed : BucketFileHeader → Bool
is_compressed h = not (bit_and h.mode mode_compress == 0)

unfoldable pub is_vault_encrypted : BucketFileHeader → Bool
is_vault_encrypted h = not (bit_and h.mode mode_vault_encrypt == 0)

unfoldable pub parse_bucket_header : Bytes → Result BucketFileHeader
parse_bucket_header data' = do
  header ← parse_index_header data' bucket_magic (some major_vault)
  ok (record {
    major = header.major;
    minor = header.minor;
    mode = word_at 8 4 data';
    chunk_num = word_at 12 4 data';
    chunk_size_crc = word_at 16 4 data';
    crc_of_chunk_crc = word_at 29 4 data';
  })

-- `COMPRESS_TYPE_BY_VALUE.get`.
unfoldable pub compress_type_by_value : ℕ → Option CompressType
compress_type_by_value value =
    if value == 0
    then some CompressType.none
    else if value == 1
    then some CompressType.lz4
    else if value == 2
    then some CompressType.zstd
    else if value == 4
    then some CompressType.compacted
    else none

pub record SizeStoreEntry : Type 0 where
  pub compress_type : CompressType
  pub stored_len : ℕ

-- The property `effective_len` of an entry.
abbrev pub effective_of : CompressType → ℕ → ℕ
effective_of CompressType.none n = fixed_chunk_length
effective_of CompressType.lz4 n = n
effective_of CompressType.zstd n = n
effective_of CompressType.compacted n = 0

unfoldable pub effective_len : SizeStoreEntry → ℕ
effective_len e = effective_of e.compress_type e.stored_len

unfoldable pub chunk_size_store_tight_length : ℕ → ℕ
chunk_size_store_tight_length chunk_num = (chunk_num * size_store_rec_bit_num + 7) >>> 3

pub record ChunkLocator : Type 0 where
  pub offset : ℕ
  pub length : ℕ

pub record BucketIndex : Type 0 where
  pub compress_types : List ℕ
  pub stored_lens : List ℕ
  pub effective_lens : List ℕ
  pub offsets : List ℕ

-- `xs[i]`.
abbrev pub item {ℓ} : {A : Type ℓ} → List A → ℕ → Result A
item xs i = elim (get_elem? xs i) [ none ↦ raise Error.index_error | some a ↦ ok a ]

-- `COMPRESS_TYPE_BY_VALUE[value]`.
unfoldable pub compress_type_at : ℕ → Result CompressType
unfolding compress_type_by_value
compress_type_at value = elim (compress_type_by_value value) [
  | none ↦ raise Error.key_error
  | some t ↦ ok t
]

-- `index[i]`, for an index that is not negative.
unfoldable pub entry_at : BucketIndex → ℕ → Result SizeStoreEntry
unfolding compress_type_at
entry_at index i = do
  value ← item index.compress_types i
  compress_type ← compress_type_at value
  stored_len ← item index.stored_lens i
  ok (record { compress_type = compress_type; stored_len = stored_len })

unfoldable pub locator : BucketIndex → ℕ → Result ChunkLocator
locator index i = do
  offset ← item index.offsets i
  length ← item index.effective_lens i
  ok (record { offset = offset; length = length })

abbrev pub sum : List ℕ → ℕ
sum [] = 0
sum (n ∷ ns) = n + sum ns

unfoldable pub total_effective_len : BucketIndex → ℕ
total_effective_len index = sum index.effective_lens

-- `xs.count(0)`.
abbrev pub count_zero : List ℕ → ℕ
count_zero [] = 0
count_zero (n ∷ ns) = let rest = count_zero ns in if n == 0 then suc rest else rest

unfoldable pub non_empty_count : BucketIndex → ℕ
non_empty_count index = length index.effective_lens - count_zero index.effective_lens

-- `itertools.accumulate(ns, initial=n)` without its last number.
abbrev pub accumulate : ℕ → List ℕ → List ℕ
accumulate start [] = []
accumulate start (n ∷ ns) = start ∷ accumulate (start + n) ns

abbrev pub range_from : ℕ → ℕ → List ℕ
range_from start zero = []
range_from start (suc n) = start ∷ range_from (suc start) n

-- `length > 0`, as a number.
abbrev pub positive : ℕ → ℕ
positive n = if ltb 0 n then 1 else 0

abbrev pub positives : List ℕ → List ℕ
positives [] = []
positives (n ∷ ns) = positive n ∷ positives ns

unfoldable pub crc_store_positions : BucketIndex → List ℕ
unfolding non_empty_count
crc_store_positions index =
    if non_empty_count index == length index.compress_types
    then range_from 0 (length index.compress_types)
    else accumulate 0 (positives index.effective_lens)

unfoldable pub expected_bucket_size : BucketFileHeader → BucketIndex → Result ℕ
unfolding is_compressed
expected_bucket_size header index = do
  ensure (is_compressed header) Error.value_error
  let tight_len = chunk_size_store_tight_length header.chunk_num
  let trailer =
      chunk_crc_size * non_empty_count index + redundancy_size tight_len redundancy_coverage_bucket
  ok (compress_reserved_leng + total_effective_len index + trailer)

unfoldable pub chunk_crc_store_region : BucketFileHeader → BucketIndex → Result (ℕ × ℕ)
unfolding is_compressed
chunk_crc_store_region header index = do
  ensure (is_compressed header) Error.value_error
  ok (compress_reserved_leng + total_effective_len index, chunk_crc_size * non_empty_count index)

-- `verify_crc32` where a checksum is given.
abbrev pub verify_if : Option ℕ → Bytes → Result (Unit {0})
verify_if none data' = ok tt
verify_if (some crc) data' = verify_crc32 data' crc

unfoldable pub parse_chunk_crc_store : Bytes → ℕ → Option ℕ → Result (List ℕ)
parse_chunk_crc_store data' non_empty verify_crc = do
  let len = chunk_crc_size * non_empty
  ensure (leb len (length data')) Error.format_error
  let trailer = take len data'
  verify_if verify_crc trailer
  ok (unpack_words non_empty trailer)
