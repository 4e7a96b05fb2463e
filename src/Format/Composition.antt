-- ===== src/Format/Composition.antt =====
-- format/composition.py: the header of a session's first file and the head of each record.
pub mod Codec
pub mod FileHeader
use Prim.Native.Nat.{bit_and}
use apm_repo_sdk_python.Base.{
  ℕ, ◌+◌, ◌*◌, Bool, not, [], ◌∷◌, Option, none, some, leb, ◌==◌, ite, if◌then◌else◌, length, take,
}
use apm_repo_sdk_python.Base.Bytes.{Bytes, slice, word_at, bytes_discrete}
use apm_repo_sdk_python.Errors.{Result, ok, raise, Error, ◌>>=◌, ◌>>◌, ensure}
use apm_repo_sdk_python.Format.Const.{
  chunk_map_record_length, record_head_length, redundancy_coverage_composition, sub_file_size,
}
use apm_repo_sdk_python.Format.Header.{composition_magic, parse_index_header, verify_crc32}
use apm_repo_sdk_python.Format.Redundancy.{redundancy_size}

abbrev pub composition_major : ℕ
composition_major = 1

-- `b"Mu"`.
abbrev pub record_magic : Bytes
record_magic = 0x4d ∷ 0x75 ∷ []

abbrev pub mode_redundancy : ℕ
mode_redundancy = 0x0001

pub record CompositionHeader : Type 0 where
  pub major : ℕ
  pub minor : ℕ

unfoldable pub parse_composition_header : Bytes → Result CompositionHeader
unfolding parse_index_header
parse_composition_header data' = do
  header ← parse_index_header data' composition_magic none
  ensure (header.major == composition_major) Error.unsupported_version_error
  ensure (word_at 8 4 data' == sub_file_size) Error.data_corrupt_error
  ok (record { major = header.major; minor = header.minor })

pub data CompositionStatus : Type 0 where
  complete interrupted : CompositionStatus

-- `CompositionStatus(value)`.
abbrev pub status_of : ℕ → Result CompositionStatus
status_of value =
    if value == 0
    then ok CompositionStatus.complete
    else if value == 1
    then ok CompositionStatus.interrupted
    else raise Error.data_corrupt_error

pub record RecordHead : Type 0 where
  pub status : CompositionStatus
  pub map_num : ℕ
  pub map_crc : ℕ
  pub mode : ℕ
  pub attr_leng : ℕ
  pub attr_crc : ℕ

abbrev pub has_redundancy : RecordHead → Bool
has_redundancy r = not (bit_and r.mode mode_redundancy == 0)

unfoldable pub parse_record_head : Bytes → Result RecordHead
unfolding verify_crc32
parse_record_head data' = do
  ensure (leb record_head_length (length data')) Error.format_error
  ite (bytes_discrete (slice data' 0 2) record_magic) (ok tt) (raise Error.data_corrupt_error)
  verify_crc32 (take 28 data') (word_at 28 4 data')
  status ← status_of (word_at 2 2 data')
  let head : RecordHead = record {
    status = status;
    map_num = word_at 6 8 data';
    map_crc = word_at 14 4 data';
    mode = word_at 18 2 data';
    attr_leng = word_at 20 4 data';
    attr_crc = word_at 24 4 data';
  }
  ensure (has_redundancy head) Error.unsupported_version_error
  ok head

abbrev pub verify_chunk_map_crc : Bytes → ℕ → Result (Unit {0})
verify_chunk_map_crc = verify_crc32

abbrev pub verify_attr_crc : Bytes → ℕ → Result (Unit {0})
verify_attr_crc = verify_crc32

unfoldable pub record_total_length : ℕ → ℕ → ℕ
record_total_length map_num attr_leng =
    let map_array_len = map_num * chunk_map_record_length in
    let trailer = redundancy_size map_array_len redundancy_coverage_composition in
    record_head_length + map_array_len + attr_leng + trailer

unfoldable pub chunk_map_array_offset : ℕ → ℕ
chunk_map_array_offset head_off = head_off + record_head_length
