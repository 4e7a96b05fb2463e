-- ===== src/Tests/Buckets.antt =====
-- Runs of the bucket files: packages/synology-apm-repo-sdk/src/synology_apm_repo/sdk/format/bucket.py.
use apm_repo_sdk_python.Base.{
  ◌<◌, ◌≡◌, ◌∙◌, refl, arith, true, false, [], ◌∷◌, ◌++◌, none, some, All, get_or,
}
use apm_repo_sdk_python.Base.Bytes.{Bytes}
use apm_repo_sdk_python.Base.Crc.Bound.{IsByte}
use apm_repo_sdk_python.Errors.{ok}
use apm_repo_sdk_python.Format.Header.{compute_crc32}
use apm_repo_sdk_python.Format.Bucket.{
  BucketIndex, chunk_size_store_tight_length, compress_type_by_value, crc_store_positions,
  non_empty_count, parse_chunk_crc_store,
}
use apm_repo_sdk_python.Format.Bucket.Decode.{packed_index, parse_size_store-packed}
use apm_repo_sdk_python.Format.Bucket.Layout.{Located, parse_size_store-Located}
use apm_repo_sdk_python.Format.Bucket.SizeStore.{parse_size_store}
use apm_repo_sdk_python.Format.Bucket.Trailer.{
  non_empty_before, crc_store_positions-rank, crc_store_bytes, parse_chunk_crc_store-written,
}

-- Three chunks: a ZSTD frame of 100 bytes, one that is not compressed, and one compacted away.
abbrev store : Bytes
store = 0x40 ∷ 0xc8 ∷ 0x00 ∷ 0x02 ∷ 0x00 ∷ 0x00 ∷ []

abbrev index : BucketIndex
index = record {
  compress_types = 2 ∷ 0 ∷ 4 ∷ [];
  stored_lens = 100 ∷ 0 ∷ 0 ∷ [];
  effective_lens = 100 ∷ 4096 ∷ 0 ∷ [];
  offsets = 16384 ∷ 16484 ∷ 20580 ∷ [];
}

store-bytes : All IsByte store
store-bytes =
    (omega arith, (omega arith, (omega arith, (omega arith, (omega arith, (omega arith, tt))))))

parse_size_store_example : parse_size_store true store 3 none ≡ packed_index store 3 none
parse_size_store_example = parse_size_store-packed true store 3 none store-bytes (omega arith)

packed : packed_index store 3 none ≡ ok index
unfolding chunk_size_store_tight_length compress_type_by_value
packed = refl

big_endian : parse_size_store false store 3 none ≡ packed_index store 3 none
big_endian = parse_size_store-packed false store 3 none store-bytes (omega arith)

parse_size_store-Located_example : Located 16384 1 index
parse_size_store-Located_example =
    parse_size_store-Located true store 3 none index 1 store-bytes (omega arith)
      (parse_size_store_example ∙ packed) (omega arith)

crc_store_positions_example :
    (get_or (crc_store_positions index) 1 0 ≡ non_empty_before (100 ∷ 4096 ∷ 0 ∷ []) 1)
    × (get_or (crc_store_positions index) 1 0 < non_empty_count index)
crc_store_positions_example = crc_store_positions-rank index 1 refl (omega arith) (omega arith)

parse_chunk_crc_store_example :
    parse_chunk_crc_store
      (crc_store_bytes (7 ∷ 0xffffffff ∷ []) ++ (1 ∷ []))
      2
      (some (compute_crc32 (crc_store_bytes (7 ∷ 0xffffffff ∷ []))))
    ≡ ok (7 ∷ 0xffffffff ∷ [])
parse_chunk_crc_store_example =
    parse_chunk_crc_store-written (7 ∷ 0xffffffff ∷ []) (1 ∷ []) (omega arith, (omega arith, tt))
