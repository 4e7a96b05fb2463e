-- ===== src/Format/Bucket/SizeStore.antt =====
-- `parse_size_store` and `BucketIndex.of`: the packed records of a bucket's chunks are decoded a
-- field at a time over all groups of eight records, and their lengths by operations on numbers as
-- wide as the whole store. `little` is `sys.byteorder == "little"`; a translate table is the
-- function that it tabulates.
use Prim.Native.Nat.{bit_and, bit_or}
use apm_repo_sdk_python.Base.{
  ℕ, zero, suc, ◌+◌, ◌-◌, ◌*◌, ◌/◌, ◌%◌, ◌^◌, Bool, true, false, ◌&&◌, List, [], ◌∷◌, ◌++◌, Option,
  none, some, ltb, leb, ◌==◌, if◌then◌else◌, length, take, map,
}
use apm_repo_sdk_python.Base.Bits.{◌<<<◌, ◌>>>◌}
use apm_repo_sdk_python.Base.Bytes.{Bytes, from_be}
use apm_repo_sdk_python.Base.Strides.{strided, assign_strided}
use apm_repo_sdk_python.Errors.{Result, ok, raise, Error, ◌>>=◌, ◌>>◌, ensure}
use apm_repo_sdk_python.Format.Const.{
  fixed_chunk_length, size_store_rec_bit_num, compress_reserved_leng, reserved_leng,
}
use apm_repo_sdk_python.Format.Redundancy.{to_bytes}
use apm_repo_sdk_python.Format.Bucket.{
  BucketIndex, compress_type_by_value, chunk_size_store_tight_length, item, accumulate, sum,
  verify_if,
}

abbrev pub group_records : ℕ
group_records = 8

abbrev pub group_bytes : ℕ
group_bytes = 15

abbrev pub Table : Type 0
Table = ℕ → ℕ

abbrev pub FieldPlan : Type 0
FieldPlan = List (ℕ × Table)

unfoldable pub field_plan : ℕ → ℕ → FieldPlan
field_plan start width =
    let byte_pos = start / 8 in
    let mask = 1 <<< width - 1 in
    let end = start % 8 + width in
    if leb end 8
    then (byte_pos, λ value. bit_and (value >>> (8 - end)) mask) ∷ []
    else (byte_pos, λ value. bit_and (value <<< (end - 8)) mask)
      ∷ (byte_pos + 1, λ value. value >>> (16 - end))
      ∷ []

abbrev pub compress_type_plan : ℕ → FieldPlan
compress_type_plan record' = field_plan (record' * size_store_rec_bit_num) 3

abbrev pub stored_len_high_plan : ℕ → FieldPlan
stored_len_high_plan record' = field_plan (record' * size_store_rec_bit_num + 3) 4

abbrev pub stored_len_low_plan : ℕ → FieldPlan
stored_len_low_plan record' = field_plan (record' * size_store_rec_bit_num + 7) 8

-- `columns[byte_pos].translate(table)`.
abbrev pub part : List Bytes → ℕ × Table → Result Bytes
part columns p = do column ← item columns p.0; ok (map p.1 column)

unfoldable pub field_bytes : List Bytes → FieldPlan → ℕ → Result Bytes
unfolding to_bytes
field_bytes columns [] group_count = raise Error.index_error
field_bytes columns (p ∷ []) group_count = part columns p
field_bytes columns (p ∷ q ∷ _) group_count = do
  first ← part columns p
  second ← part columns q
  to_bytes group_count (bit_or (from_be first) (from_be second))

-- `buf[record::8] = src`, which raises where the lengths differ.
unfoldable pub set_every_eighth : ℕ → Bytes → Bytes → Result Bytes
set_every_eighth record' src buf = do
  ensure (length src == length (strided 7 record' buf)) Error.value_error
  ok (assign_strided 7 record' src buf)

pub record Fields : Type 0 where
  pub types : Bytes
  pub highs : Bytes
  pub lows : Bytes

-- The loop over the records of a group, from `record'` for `left` of them.
unfoldable pub decode_fields : List Bytes → ℕ → ℕ → ℕ → Fields → Result Fields
unfolding field_bytes set_every_eighth
decode_fields columns group_count record' zero fields = ok fields
decode_fields columns group_count record' (suc left) fields = do
  t ← field_bytes columns (compress_type_plan record') group_count
  types ← set_every_eighth record' t fields.types
  h ← field_bytes columns (stored_len_high_plan record') group_count
  highs ← set_every_eighth record' h fields.highs
  l ← field_bytes columns (stored_len_low_plan record') group_count
  lows ← set_every_eighth record' l fields.lows
  decode_fields columns group_count (suc record') left
      (record { types = types; highs = highs; lows = lows })

abbrev pub zeros : ℕ → Bytes
zeros zero = []
zeros (suc n) = 0 ∷ zeros n

-- `tight.ljust(n, b"\0")`.
abbrev pub ljust : ℕ → Bytes → Bytes
ljust n tight = tight ++ zeros (n - length tight)

-- `[padded[pos::15] for pos in range(15)]`, from `pos` for `left` columns.
unfoldable pub columns_from : Bytes → ℕ → ℕ → List Bytes
columns_from padded pos zero = []
columns_from padded pos (suc left) = strided 14 pos padded ∷ columns_from padded (suc pos) left

-- The bytes of 16-bit numbers from their halves, in the machine's order.
abbrev pub pairs : Bytes → Bytes → Bytes
pairs [] ys = []
pairs (x ∷ xs) [] = []
pairs (x ∷ xs) (y ∷ ys) = x ∷ y ∷ pairs xs ys

unfoldable pub native_u16 : Bool → Bytes → Bytes → Result Bytes
native_u16 little lows highs = do
  ensure (length lows == length highs) Error.value_error
  ok (if little then pairs lows highs else pairs highs lows)

-- `frombytes` and `tobytes` of an array of 16-bit numbers.
unfoldable pub u16_of : Bool → Bytes → List ℕ
u16_of little [] = []
u16_of little (x ∷ []) = []
u16_of little (x ∷ y ∷ bs) = (if little then x + 256 * y else 256 * x + y) ∷ u16_of little bs

unfoldable pub frombytes : Bool → Bytes → Result (List ℕ)
unfolding u16_of
frombytes little bs = do ensure (length bs % 2 == 0) Error.value_error; ok (u16_of little bs)

unfoldable pub tobytes : Bool → List ℕ → Bytes
tobytes little [] = []
tobytes little (n ∷ ns) =
    if little then n % 256 ∷ n / 256 ∷ tobytes little ns else n / 256 ∷ n % 256 ∷ tobytes little ns

abbrev pub keeps_stored_len : Table
keeps_stored_len value = if value == 0 then 0 else if value == 4 then 0 else 0xff

abbrev pub fixed_len_high_byte : Table
fixed_len_high_byte value = if value == 0 then fixed_chunk_length >>> 8 else 0

abbrev pub all_below : ℕ → List ℕ → Bool
all_below bound [] = true
all_below bound (n ∷ ns) = ltb n bound && all_below bound ns

-- `array.array("I", accumulate(...))` takes the end of the last chunk too, before it is dropped.
unfoldable pub offsets_of : ℕ → List ℕ → Result (List ℕ)
offsets_of data_start lens = do
  ensure (all_below (2 ^ 32) (accumulate data_start lens)) Error.overflow_error
  ensure (ltb (data_start + sum lens) (2 ^ 32)) Error.overflow_error
  ok (accumulate data_start lens)

unfoldable pub effective_lens_of : Bool → List ℕ → List ℕ → Result (List ℕ)
unfolding native_u16 frombytes tobytes
effective_lens_of little compress_types stored_lens = do
  let keep = map keeps_stored_len compress_types
  let stored = tobytes little stored_lens
  mask ← native_u16 little keep keep
  full ← native_u16 little (zeros (length compress_types)) (map fixed_len_high_byte compress_types)
  let effective = bit_or (bit_and (from_be stored) (from_be mask)) (from_be full)
  raw ← to_bytes (length stored) effective
  frombytes little raw

unfoldable pub index_of : Bool → List ℕ → List ℕ → ℕ → Result BucketIndex
unfolding effective_lens_of offsets_of
index_of little compress_types stored_lens data_start = do
  effective_lens ← effective_lens_of little compress_types stored_lens
  offsets ← offsets_of data_start effective_lens
  ok (record {
    compress_types = compress_types;
    stored_lens = stored_lens;
    effective_lens = effective_lens;
    offsets = offsets;
  })

unfoldable pub uncompressed : Bool → ℕ → Result BucketIndex
unfolding index_of
uncompressed little chunk_num = index_of little (zeros chunk_num) (zeros chunk_num) reserved_leng

abbrev pub is_known : ℕ → Bool
is_known value = elim (compress_type_by_value value) [ none ↦ false | some _ ↦ true ]

abbrev pub all_known : Bytes → Bool
all_known [] = true
all_known (v ∷ vs) = is_known v && all_known vs

unfoldable pub parse_size_store : Bool → Bytes → ℕ → Option ℕ → Result BucketIndex
unfolding columns_from decode_fields native_u16 frombytes
parse_size_store little data' chunk_num verify_crc = do
  let tight_len = chunk_size_store_tight_length chunk_num
  ensure (leb tight_len (length data')) Error.format_error
  let tight = take tight_len data'
  verify_if verify_crc tight
  let group_count = (chunk_num + 7) / group_records
  let padded = ljust (group_count * group_bytes) tight
  let empty = zeros (group_count * group_records)
  fields ←
      decode_fields (columns_from padded 0 group_bytes) group_count 0 group_records
        (record { types = empty; highs = empty; lows = empty })
  let types = take chunk_num fields.types
  ensure (all_known types) Error.data_corrupt_error
  raw ← native_u16 little fields.lows fields.highs
  stored_lens ← frombytes little raw
  index_of little types (take chunk_num stored_lens) compress_reserved_leng
