-- ===== src/Format/ChunkMap/Codec.antt =====
-- The record's bytes as FORMAT-SPEC.md lays them out, and that the decoder reads them back.
use mathlib.Core.List.{append_assoc}
use Prim.Native.Nat.{bit_and}
use apm_repo_sdk_python.Base.{
  ℕ, ◌+◌, ◌*◌, ◌/◌, ◌%◌, ◌^◌, ◌<◌, ◌≡◌, ap, arith, Bool, true, false, not, ◌++◌, none, some, length,
  length-append, leb, ◌==◌,
}
use apm_repo_sdk_python.Base.Bits.{bit_and-mask}
use apm_repo_sdk_python.Base.Bytes.{Bytes, to_be, word_at-append, word_at-to_be, length-to_be}
use apm_repo_sdk_python.Errors.{ok}
use apm_repo_sdk_python.Format.Address.{ChunkAddress, to_int}
use apm_repo_sdk_python.Format.Address.Packing.{InRange, from_int-to_int, to_int-lt}
use apm_repo_sdk_python.Format.ChunkMap.{
  ChunkMapKind, mapping, zero_fill, ChunkMapEntry, parse_at, parse_chunk_map_record, unpack_from,
  kind_of, entry_of,
}

-- An entry that the format can hold: offsets are whole chunks, counts fit their fields.
abbrev pub Encodes : ChunkMapKind → Bool → ℕ → ChunkAddress → ℕ → ℕ → Type 0
Encodes mapping inherit idx a m r = (idx < 2 ^ 56) × InRange a × (m < 2 ^ 16) × (r < 2 ^ 16)
Encodes zero_fill inherit idx a m r = (idx < 2 ^ 56) × InRange a × (m < 2 ^ 32) × (r < 2 ^ 16)

-- Type nibble and INHERIT bit.
abbrev pub type_byte : ChunkMapKind → Bool → ℕ
type_byte mapping false = 0
type_byte mapping true = 16
type_byte zero_fill false = 1
type_byte zero_fill true = 17

abbrev pub entry : ChunkMapKind → Bool → ℕ → ChunkAddress → ℕ → ℕ → ChunkMapEntry
entry mapping inherit idx a m r = record {
  kind = mapping;
  file_offset = idx * 4096;
  is_inherit = inherit;
  addr = some a;
  map_num = m;
  repeat = r;
}
entry zero_fill inherit idx a m r = record {
  kind = zero_fill;
  file_offset = idx * 4096;
  is_inherit = inherit;
  addr = none;
  map_num = m;
  repeat = 0;
}

abbrev pub count_word : ChunkMapKind → ℕ → ℕ → ℕ
count_word mapping m r = m * 2 ^ 16 + r
count_word zero_fill m r = m

-- The 20 bytes: three big-endian words. A ZERO record's address word is whatever it is.
abbrev pub record_bytes : ℕ → ℕ → ℕ → Bytes
record_bytes word0 addr_raw num = to_be 8 word0 ++ (to_be 8 addr_raw ++ to_be 4 num)

abbrev pub head_word : ChunkMapKind → Bool → ℕ → ℕ
head_word kind inherit idx = type_byte kind inherit * 2 ^ 56 + idx

pub unpack_from-record_bytes :
    (w a n : ℕ) (rest : Bytes)
    → w < 256 ^ 8
    → a < 256 ^ 8
    → n < 256 ^ 4
    → unpack_from (record_bytes w a n ++ rest) 0 ≡ ok (w, a, n)
unfolding unpack_from
unpack_from-record_bytes w a n rest hw ha hn = ground (
  arith,
  append_assoc (to_be 8 w) (to_be 8 a ++ to_be 4 n) rest,
  append_assoc (to_be 8 a) (to_be 4 n) rest,
  length-append (to_be 8 w) (to_be 8 a ++ (to_be 4 n ++ rest)),
  length-append (to_be 8 a) (to_be 4 n ++ rest),
  length-append (to_be 4 n) rest,
  length-to_be 8 w,
  length-to_be 8 a,
  length-to_be 4 n,
  word_at-to_be 8 w (to_be 8 a ++ (to_be 4 n ++ rest)) hw,
  word_at-append 8 8 (to_be 8 w) (to_be 8 a ++ (to_be 4 n ++ rest)) (length-to_be 8 w),
  word_at-to_be 8 a (to_be 4 n ++ rest) ha,
  word_at-append 16 4 (to_be 8 w ++ to_be 8 a) (to_be 4 n ++ rest),
  append_assoc (to_be 8 w) (to_be 8 a) (to_be 4 n ++ rest),
  length-append (to_be 8 w) (to_be 8 a),
  word_at-to_be 4 n rest hn,
)

enough : (w a n : ℕ) (rest : Bytes) → leb 20 (length (record_bytes w a n ++ rest)) ≡ true
enough w a n rest = ground (
  arith,
  length-append (record_bytes w a n) rest,
  length-append (to_be 8 w) (to_be 8 a ++ to_be 4 n),
  length-append (to_be 8 a) (to_be 4 n),
  length-to_be 8 w,
  length-to_be 8 a,
  length-to_be 4 n,
)

kind_of-head_word :
    (kind : ChunkMapKind) (inherit : Bool) (idx : ℕ)
    → idx < 2 ^ 56
    → kind_of (head_word kind inherit idx) ≡ ok kind
unfolding kind_of
kind_of-head_word mapping true idx h =
    ground (arith, bit_and-mask 4 (head_word mapping true idx / 2 ^ 56))
kind_of-head_word mapping false idx h =
    ground (arith, bit_and-mask 4 (head_word mapping false idx / 2 ^ 56))
kind_of-head_word zero_fill true idx h =
    ground (arith, bit_and-mask 4 (head_word zero_fill true idx / 2 ^ 56))
kind_of-head_word zero_fill false idx h =
    ground (arith, bit_and-mask 4 (head_word zero_fill false idx / 2 ^ 56))

head_word-fields :
    (kind : ChunkMapKind) (inherit : Bool) (idx : ℕ)
    → idx < 2 ^ 56
    → (head_word kind inherit idx / 2 ^ 56 ≡ type_byte kind inherit)
      × (head_word kind inherit idx % 2 ^ 56 ≡ idx)
      × (head_word kind inherit idx < 256 ^ 8)
head_word-fields mapping true idx h = omega arith
head_word-fields mapping false idx h = omega arith
head_word-fields zero_fill true idx h = omega arith
head_word-fields zero_fill false idx h = omega arith

inherit_bit :
    (kind : ChunkMapKind) (inherit : Bool) (idx : ℕ)
    → idx < 2 ^ 56
    → not (bit_and (head_word kind inherit idx / 2 ^ 56) 0x10 == 0) ≡ inherit
inherit_bit mapping true idx h = rw ((head_word-fields mapping true idx h).0)
inherit_bit mapping false idx h = rw ((head_word-fields mapping false idx h).0)
inherit_bit zero_fill true idx h = rw ((head_word-fields zero_fill true idx h).0)
inherit_bit zero_fill false idx h = rw ((head_word-fields zero_fill false idx h).0)

entry_of-words :
    (kind : ChunkMapKind) (inherit : Bool) (idx : ℕ) (a : ChunkAddress) (m r : ℕ)
    → Encodes kind inherit idx a m r
    → entry_of kind (head_word kind inherit idx) (to_int a) (count_word kind m r)
      ≡ entry kind inherit idx a m r
unfolding entry_of
entry_of-words mapping inherit idx a m r h = ground (
  arith,
  inherit_bit mapping inherit idx h.0,
  head_word-fields mapping inherit idx h.0,
  bit_and-mask 56 (head_word mapping inherit idx),
  bit_and-mask 16 (count_word mapping m r),
  from_int-to_int a h.1,
)
entry_of-words zero_fill inherit idx a m r h = ground (
  arith,
  inherit_bit zero_fill inherit idx h.0,
  head_word-fields zero_fill inherit idx h.0,
  bit_and-mask 56 (head_word zero_fill inherit idx),
)

count_word-lt :
    (kind : ChunkMapKind) (inherit : Bool) (idx : ℕ) (a : ChunkAddress) (m r : ℕ)
    → Encodes kind inherit idx a m r
    → count_word kind m r < 256 ^ 4
count_word-lt mapping inherit idx a m r h = omega arith
count_word-lt zero_fill inherit idx a m r h = omega arith

Encodes-address :
    (kind : ChunkMapKind) (inherit : Bool) (idx : ℕ) (a : ChunkAddress) (m r : ℕ)
    → Encodes kind inherit idx a m r
    → (idx < 2 ^ 56) × (to_int a < 256 ^ 8)
Encodes-address mapping inherit idx a m r h = omega (arith, to_int-lt a h.1)
Encodes-address zero_fill inherit idx a m r h = omega (arith, to_int-lt a h.1)

-- The decoder reads back an entry that the format can hold, from its 20 bytes and whatever
-- follows them.
pub parse_chunk_map_record-record_bytes :
    (kind : ChunkMapKind) (inherit : Bool) (idx : ℕ) (a : ChunkAddress) (m r : ℕ) (rest : Bytes)
    → Encodes kind inherit idx a m r
    → parse_chunk_map_record
        (record_bytes (head_word kind inherit idx) (to_int a) (count_word kind m r) ++ rest)
      ≡ ok (entry kind inherit idx a m r)
unfolding parse_chunk_map_record parse_at
parse_chunk_map_record-record_bytes kind inherit idx a m r rest h =
    let (fits_idx, fits_addr) = Encodes-address kind inherit idx a m r h in
    let (_, _, fits_head) = head_word-fields kind inherit idx fits_idx in
    let fits_count = count_word-lt kind inherit idx a m r h in
    let w = head_word kind inherit idx in
    let n = count_word kind m r in
    rw
      (
        enough w (to_int a) n rest,
        unpack_from-record_bytes w (to_int a) n rest fits_head fits_addr fits_count,
        kind_of-head_word kind inherit idx fits_idx,
      )
      (ap ok (entry_of-words kind inherit idx a m r h))
