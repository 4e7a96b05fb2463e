-- ===== src/Tests/Formats.antt =====
-- Runs of the formats: packages/synology-apm-repo-sdk/src/synology_apm_repo/sdk/format.
use mathlib.Core.List.{reverse}
use apm_repo_sdk_python.Base.{
  zero, Option, ℕ, ◌+◌, ◌*◌, ◌%◌, ◌/◌, ◌≤◌, ◌<◌, ◌≡◌, refl, arith, true, false, List, [], ◌∷◌, ◌++◌,
  some, suc, ℕ_discrete, get_elem?, leb, length, if◌then◌else◌,
}
use apm_repo_sdk_python.Base.Bytes.{Bytes, bytes_discrete, word_at, to_be}
use apm_repo_sdk_python.Base.Crc.{crc32_from}
use apm_repo_sdk_python.Base.Decimal.{str}
use apm_repo_sdk_python.Base.Int.{pos}
use apm_repo_sdk_python.Errors.{is_format_error, ok, raise, Error, ◌>>=◌}
use apm_repo_sdk_python.Format.Address.{
  ChunkAddress, from_int, to_int, advance, id_layer_ancestors, pool_layer_path, split_layer_leaf,
  group_start_bucket_id, slash,
}
use apm_repo_sdk_python.Format.Address.Layers.{
  id_layer_ancestors_lem, layer_name, split_layer_leaf-pool_layer_path, pool_layer_path-injective,
}
use apm_repo_sdk_python.Format.Address.Packing.{
  InRange, from_int-to_int, to_int-from_int, advance-position, position, group_start_bucket_id_lem,
}
use apm_repo_sdk_python.Format.ChunkMap.{
  mapping, parse_chunk_map_record, parse_at, chunk_map_end_offset, iter_chunk_map_page,
  as_format_error, end_offset,
}
use apm_repo_sdk_python.Format.ChunkMap.Codec.{
  entry, record_bytes, head_word, count_word, parse_chunk_map_record-record_bytes,
}
use apm_repo_sdk_python.Format.ChunkMap.Paging.{
  records, chunk_map_end_offset_lem, iter_chunk_map_page_lem,
}
use apm_repo_sdk_python.Format.Composition.{CompositionStatus, RecordHead, parse_record_head}
use apm_repo_sdk_python.Format.Composition.Codec.{head_bytes, parse_record_head-head_bytes}
use apm_repo_sdk_python.Format.Composition.{parse_composition_header}
use apm_repo_sdk_python.Format.Composition.FileHeader.{
  file_header, parse_composition_header-file_header,
}
use apm_repo_sdk_python.Format.Header.Codec.{header_bytes, parse_index_header-header_bytes}
use apm_repo_sdk_python.Format.Header.{compute_crc32, bucket_magic, parse_index_header, too_new}
use apm_repo_sdk_python.Format.Redundancy.{RedundancyBlob, locate_first_bad_window, attempt_repair}
use apm_repo_sdk_python.Format.Redundancy.Rolling.{first_bad, locate_first_bad_window-first_bad}
use apm_repo_sdk_python.Format.Redundancy.Total.{attempt_repair-Succeeds}
use apm_repo_sdk_python.Format.Redundancy.Repair.{attempt_repair_lem}

abbrev an_address : ChunkAddress
an_address = record { stream_id = 3; bucket_id = 70000; chunk_idx = 8191 }

an_address-InRange : InRange an_address
an_address-InRange = record { stream = omega arith; bucket = omega arith; chunk = omega arith }

from_int-to_int_example : from_int (to_int an_address) ≡ an_address
from_int-to_int_example = from_int-to_int an_address an_address-InRange

to_int-from_int_example :
    (to_int (from_int 123456789012345) ≡ 123456789012345) × InRange (from_int 123456789012345)
to_int-from_int_example = to_int-from_int 123456789012345 (omega arith)

advance-position_example :
    (b : ChunkAddress) × (advance an_address (pos 5) ≡ ok b)
    × (position b ≡ position an_address + 5)
    × (b.stream_id ≡ an_address.stream_id)
    × (b.chunk_idx < 8192)
advance-position_example = advance-position an_address 5

group_start_bucket_id_example :
    (group_start_bucket_id 70000 % 1024 ≡ 0)
    × (group_start_bucket_id 70000 ≤ 70000)
    × (70000 < group_start_bucket_id 70000 + 1024)
    × (70000 / 1024 ≡ 69990 / 1024 → group_start_bucket_id 70000 ≡ group_start_bucket_id 69990)
group_start_bucket_id_example = group_start_bucket_id_lem 70000 69990

id_layer_ancestors_example :
    (out : List (List ℕ)) × (id_layer_ancestors 2100000 ≡ some out)
    × ((k : ℕ) → get_elem? (reverse out) k ≡ layer_name 2100000 (suc k))
id_layer_ancestors_example = id_layer_ancestors_lem 2100000

split_layer_leaf-pool_layer_path_example :
    (dir : List ℕ) × (pool_layer_path 3 70000 ≡ some (dir ++ (slash ∷ str 70000)))
    × (split_layer_leaf (dir ++ (slash ∷ str 70000)) ≡ (dir, str 70000))
split_layer_leaf-pool_layer_path_example = split_layer_leaf-pool_layer_path 3 70000

pool_layer_path-injective_example : ◌≡◌ {A = ℕ} 3 3 × ◌≡◌ {A = ℕ} 70000 70000
pool_layer_path-injective_example = pool_layer_path-injective 3 70000 3 70000 refl

parse_chunk_map_record_example :
    parse_chunk_map_record (
      record_bytes (head_word mapping true 77) (to_int an_address) (count_word mapping 5 2)
      ++ (1 ∷ []))
    ≡ ok (entry mapping true 77 an_address 5 2)
parse_chunk_map_record_example =
    parse_chunk_map_record-record_bytes mapping true 77 an_address 5 2 (1 ∷ [])
      (omega arith, an_address-InRange, omega arith, omega arith)

abbrev a_page : Bytes
a_page =
    record_bytes (head_word mapping false 1) (to_int an_address) (count_word mapping 5 2)
    ++ record_bytes (head_word mapping true 77) (to_int an_address) (count_word mapping 1 0)

chunk_map_end_offset_example :
    chunk_map_end_offset a_page 1
    ≡ (as_format_error (parse_at a_page (1 * 20)) >>= λ e. ok (end_offset e))
chunk_map_end_offset_example = chunk_map_end_offset_lem a_page 1

iter_chunk_map_page_example :
    iter_chunk_map_page a_page 2
    ≡ (if leb (2 * 20) (length a_page) then records a_page 2 else ([], raise Error.format_error))
iter_chunk_map_page_example = iter_chunk_map_page_lem a_page 2

abbrev a_head : RecordHead
a_head = record {
  status = CompositionStatus.complete;
  map_num = 12;
  map_crc = 3405691582;
  mode = 1;
  attr_leng = 40;
  attr_crc = 99;
}

parse_record_head_example : parse_record_head (head_bytes a_head 7 ++ (1 ∷ 2 ∷ [])) ≡ ok a_head
parse_record_head_example =
    parse_record_head-head_bytes a_head 7 (1 ∷ 2 ∷ [])
      (record {
        map_num = omega arith;
        map_crc = omega arith;
        mode = omega arith;
        attr_leng = omega arith;
        attr_crc = omega arith;
      })
      refl

-- Windows of two bytes; the second checkpoint is not that of the data.
abbrev a_blob : RedundancyBlob
a_blob = record {
  coverage = 2;
  data_size = 3;
  step_crc = 3066839698 ∷ 5 ∷ [];
  parity = 4 ∷ 2 ∷ 3 ∷ [];
}

locate_first_bad_window_example :
    locate_first_bad_window a_blob (1 ∷ 2 ∷ 3 ∷ [])
    ≡ first_bad a_blob (1 ∷ 2 ∷ 3 ∷ []) (3066839698 ∷ 5 ∷ []) 0
locate_first_bad_window_example =
    locate_first_bad_window-first_bad a_blob (1 ∷ 2 ∷ 3 ∷ [])
      (omega arith, (omega arith, (omega arith, tt)))

-- The trailer of 1, 2, 3 in windows of two bytes, and that data with its first byte damaged.
abbrev a_trailer : Bytes
a_trailer =
    82 ∷ 68 ∷ 0 ∷ 0 ∷ 0 ∷ 0 ∷ 0 ∷ 2 ∷ 0 ∷ 0 ∷ 0 ∷ 0 ∷ 0 ∷ 0 ∷ 0 ∷ 3 ∷ 182 ∷ 204 ∷ 66 ∷ 146 ∷ 85
    ∷ 188 ∷ 128 ∷ 29 ∷ 1 ∷ 2 ∷ 3 ∷ []

abbrev damaged : Bytes
damaged = 9 ∷ 2 ∷ 3 ∷ []

abbrev repaired : Bytes
repaired = 1 ∷ 2 ∷ 3 ∷ []

attempt_repair_run : attempt_repair damaged a_trailer 2 1438416925 ≡ ok (some repaired)
unfolding attempt_repair compute_crc32 bytes_discrete is_format_error crc32_from ℕ_discrete word_at
    to_be
attempt_repair_run = refl

attempt_repair_example : (compute_crc32 repaired ≡ 1438416925) × (length repaired ≡ length damaged)
attempt_repair_example =
    attempt_repair_lem damaged a_trailer 2 1438416925 repaired attempt_repair_run

abbrev replicate : ℕ → ℕ → Bytes
replicate zero b = []
replicate (suc n) b = b ∷ replicate n b

abbrev reserved_bytes : Bytes
reserved_bytes = replicate 48 0

parse_composition_header_example :
    parse_composition_header (file_header 3 reserved_bytes ++ (1 ∷ []))
    ≡ ok (record { major = 1; minor = 3 })
parse_composition_header_example =
    parse_composition_header-file_header 3 reserved_bytes (1 ∷ []) (omega arith) refl

abbrev own_bytes : Bytes
own_bytes = replicate 52 7

parse_index_header_example :
    parse_index_header (header_bytes bucket_magic 2 1 own_bytes ++ []) bucket_magic (some 3)
    ≡ ok (record {
      magic = bucket_magic;
      major = 2;
      minor = 1;
      raw = header_bytes bucket_magic 2 1 own_bytes;
    })
unfolding too_new
parse_index_header_example =
    parse_index_header-header_bytes bucket_magic own_bytes 2 1 refl refl (omega arith) (omega arith)
      (some 3) [] supported
  where
    supported : too_new (some 3) 2 ≡ false
    supported = refl

attempt_repair-Succeeds_example :
    (result : Option Bytes) × (attempt_repair damaged a_trailer 2 5 ≡ ok result)
attempt_repair-Succeeds_example =
    attempt_repair-Succeeds damaged a_trailer 2 5 (omega arith) (omega arith) (omega arith)
