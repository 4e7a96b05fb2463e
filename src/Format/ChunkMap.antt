-- ===== src/Format/ChunkMap.antt =====
-- format/chunkmap.py: the 20-byte record that describes one segment of a file's content.
pub mod Codec
pub mod Paging
use Prim.Native.Nat.{bit_and}
use apm_repo_sdk_python.Base.{
  ℕ, zero, suc, ◌+◌, ◌-◌, ◌*◌, ◌^◌, Bool, not, List, [], ◌∷◌, Option, none, some, leb, ◌==◌,
  if◌then◌else◌, length, drop,
}
use apm_repo_sdk_python.Base.Bits.{◌<<<◌, ◌>>>◌}
use apm_repo_sdk_python.Base.Bytes.{Bytes, word_at}
use apm_repo_sdk_python.Errors.{Result, ok, raise, Error, ◌>>=◌, ◌>>◌, ensure}
use apm_repo_sdk_python.Format.Address.{ChunkAddress, from_int}
use apm_repo_sdk_python.Format.Const.{
  fixed_chunk_length, fixed_chunk_bit_num, chunk_map_record_length,
}

pub data ChunkMapKind : Type 0 where
  mapping zero_fill : ChunkMapKind

pub record ChunkMapEntry : Type 0 where
  pub kind : ChunkMapKind
  pub file_offset : ℕ
  pub is_inherit : Bool
  pub addr : Option ChunkAddress
  pub map_num : ℕ
  pub repeat : ℕ

-- The chunks that a record covers, from the two halves of its last word.
abbrev chunk_count : ChunkMapKind → ℕ → ℕ → ℕ
chunk_count zero_fill map_num repeat = map_num
chunk_count mapping map_num repeat = map_num * (1 + repeat)

unfoldable pub entry_length : ChunkMapEntry → ℕ
entry_length e = chunk_count e.kind e.map_num e.repeat * fixed_chunk_length

unfoldable pub end_offset : ChunkMapEntry → ℕ
unfolding entry_length
end_offset e = e.file_offset + entry_length e

-- `_KIND_BY_VALUE.get`.
kind_by_value : ℕ → Option ChunkMapKind
kind_by_value v = if v == 0 then some mapping else if v == 1 then some zero_fill else none

unfoldable pub kind_of : ℕ → Result ChunkMapKind
unfolding kind_by_value
kind_of word0 = elim (kind_by_value (bit_and (word0 >>> 56) 0x0f)) [
  | none ↦ raise Error.data_corrupt_error
  | some kind ↦ ok kind
]

unfoldable pub file_offset_of : ℕ → ℕ
file_offset_of word0 = bit_and word0 (1 <<< 56 - 1) <<< fixed_chunk_bit_num

-- The entry of three unpacked words.
unfoldable pub entry_of : ChunkMapKind → ℕ → ℕ → ℕ → ChunkMapEntry
unfolding file_offset_of
entry_of mapping word0 addr_raw num = record {
  kind = mapping;
  file_offset = file_offset_of word0;
  is_inherit = not (bit_and (word0 >>> 56) 0x10 == 0);
  addr = some (from_int addr_raw);
  map_num = num >>> 16;
  repeat = bit_and num (1 <<< 16 - 1);
}
entry_of zero_fill word0 addr_raw num = record {
  kind = zero_fill;
  file_offset = file_offset_of word0;
  is_inherit = not (bit_and (word0 >>> 56) 0x10 == 0);
  addr = none;
  map_num = num;
  repeat = 0;
}

-- `_RECORD.unpack_from(data, offset)` raises where the 20 bytes are not all there.
unfoldable pub unpack_from : Bytes → ℕ → Result (ℕ × ℕ × ℕ)
unpack_from data' offset = do
  ensure (leb (offset + chunk_map_record_length) (length data')) Error.struct_error
  ok (word_at offset 8 data', word_at (offset + 8) 8 data', word_at (offset + 16) 4 data')

unfoldable pub parse_at : Bytes → ℕ → Result ChunkMapEntry
parse_at data' offset = do
  (word0, addr_raw, num) ← unpack_from data' offset
  kind ← kind_of word0
  ok (entry_of kind word0 addr_raw num)

unfoldable pub parse_chunk_map_record : Bytes → Result ChunkMapEntry
unfolding parse_at
parse_chunk_map_record data' = do
  ensure (leb chunk_map_record_length (length data')) Error.format_error
  parse_at data' 0

-- `except struct.error: raise FormatError`.
unfoldable pub as_format_error {ℓ} : {A : Type ℓ} → Result A → Result A
as_format_error (ok a) = ok a
as_format_error (raise Error.struct_error) = raise Error.format_error
as_format_error (raise e) = raise e

-- The end of record `index`, computed from the words without building the entry.
raw_end_offset : ChunkMapKind → ℕ → ℕ → ℕ
raw_end_offset zero_fill word0 num =
    bit_and word0 (1 <<< 56 - 1) <<< fixed_chunk_bit_num + num * fixed_chunk_length
raw_end_offset mapping word0 num =
    bit_and word0 (1 <<< 56 - 1) <<< fixed_chunk_bit_num
    + (num >>> 16) * (1 + bit_and num (1 <<< 16 - 1)) * fixed_chunk_length

unfoldable pub chunk_map_end_offset : Bytes → ℕ → Result ℕ
unfolding raw_end_offset
chunk_map_end_offset page_bytes index = do
  (word0, _, num) ← as_format_error (unpack_from page_bytes (index * chunk_map_record_length))
  kind ← kind_of word0
  ok (raw_end_offset kind word0 num)

-- The loop of `iter_chunk_map_page` from record `i`, for `left` records. A generator yields the
-- entries before it raises: they stand beside how it ended.
unfoldable pub page_loop : Bytes → ℕ → ℕ → List ChunkMapEntry × Result (Unit {0})
page_loop page_bytes zero i = ([], ok tt)
page_loop page_bytes (suc left) i =
    let rest = page_loop page_bytes left (i + 1) in
    elim (parse_at page_bytes (i * chunk_map_record_length)) [
      | raise e ↦ ([], raise e)
      | ok entry ↦ (entry ∷ rest.0, rest.1)
    ]

unfoldable pub iter_chunk_map_page : Bytes → ℕ → List ChunkMapEntry × Result (Unit {0})
unfolding page_loop
iter_chunk_map_page page_bytes count =
    if leb (count * chunk_map_record_length) (length page_bytes)
    then page_loop page_bytes count 0
    else ([], raise Error.format_error)
