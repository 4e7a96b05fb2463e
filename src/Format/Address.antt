-- ===== src/Format/Address.antt =====
-- format/addressing.py: packed chunk addresses, and the paths that id-layering gives.
pub mod Packing
pub mod Layers
use Prim.Native.Nat.{bit_and, bit_or}
use apm_repo_sdk_python.Base.{
  ℕ, zero, suc, ◌+◌, ◌-◌, ◌/◌, ◌%◌, List, [], ◌∷◌, ◌++◌, Option, none, some, ◌==◌, if◌then◌else◌,
}
use apm_repo_sdk_python.Base.Bits.{◌<<<◌, ◌>>>◌, bit_clear}
use apm_repo_sdk_python.Base.Decimal.{str, join, last_split}
use apm_repo_sdk_python.Base.Int.{ℤ, pos, negsuc}
use apm_repo_sdk_python.Errors.{Result, ok, raise, Error}
use apm_repo_sdk_python.Format.Const.{
  chunk_bit_num, bucket_id_bit_num, max_bucket_num, bucket_max_chunk_num, bucket_id_layer_shift,
  sub_file_size_shift, sub_file_size, group_bucket_num,
}

abbrev pub chunk_idx_mask : ℕ
chunk_idx_mask = 1 <<< chunk_bit_num - 1

abbrev pub bucket_id_mask : ℕ
bucket_id_mask = max_bucket_num - 1

pub record ChunkAddress : Type 0 where
  pub stream_id : ℕ
  pub bucket_id : ℕ
  pub chunk_idx : ℕ

unfoldable pub from_int : ℕ → ChunkAddress
from_int raw =
    let addr_id = raw >>> chunk_bit_num in
    record {
      stream_id = addr_id >>> bucket_id_bit_num;
      bucket_id = bit_and addr_id bucket_id_mask;
      chunk_idx = bit_and raw chunk_idx_mask;
    }

unfoldable pub to_int : ChunkAddress → ℕ
to_int a =
    let addr_id = bit_or (a.stream_id <<< bucket_id_bit_num) a.bucket_id in
    bit_or (addr_id <<< chunk_bit_num) a.chunk_idx

unfoldable pub advance : ChunkAddress → ℤ → Result ChunkAddress
advance a (negsuc n) = raise Error.value_error
advance a (pos k) =
    let total = a.chunk_idx + k in
    ok (record a {
      bucket_id = a.bucket_id + total / bucket_max_chunk_num;
      chunk_idx = total % bucket_max_chunk_num;
    })

-- The `while` loop of `_id_layer_ancestors`, with fuel; `none` means that the fuel ran out.
unfoldable pub layer_loop : ℕ → ℕ → List (List ℕ) → Option (List (List ℕ))
layer_loop zero shifted ancestors = none
layer_loop (suc fuel) shifted ancestors =
    let rest = layer_loop fuel (shifted >>> bucket_id_layer_shift) (str shifted ∷ ancestors) in
    if shifted == 0 then some ancestors else rest

-- A quotient falls with every round, so an id is fuel enough.
unfoldable pub id_layer_ancestors : ℕ → Option (List (List ℕ))
unfolding layer_loop
id_layer_ancestors id = layer_loop (suc id) (id >>> bucket_id_layer_shift) []

-- The code point of `/`.
abbrev pub slash : ℕ
slash = 47

-- `"/".join([first, *_id_layer_ancestors(id), leaf])`.
unfoldable pub layered : List ℕ → ℕ → List ℕ → Option (List ℕ)
layered first id leaf = elim (id_layer_ancestors id) [
  | none ↦ none
  | some ancestors ↦ some (join slash (first ∷ (ancestors ++ (leaf ∷ []))))
]

unfoldable pub pool_layer_path : ℕ → ℕ → Option (List ℕ)
unfolding layered
pool_layer_path stream_id bucket_id = layered (str stream_id) bucket_id (str bucket_id)

-- The code points of `.com`.
abbrev com_suffix : List ℕ
com_suffix = 46 ∷ 99 ∷ 111 ∷ 109 ∷ []

unfoldable pub composition_session_dir : ℕ → ℕ → Option (List ℕ)
unfolding layered
composition_session_dir stream_id session_id =
    layered (str stream_id) session_id (str session_id ++ com_suffix)

-- The leaf is `c<subID>`.
unfoldable pub composition_path : ℕ → ℕ → ℕ → Option (List ℕ)
unfolding layered composition_session_dir
composition_path stream_id session_id sub_id = elim (composition_session_dir stream_id session_id) [
  | none ↦ none
  | some session_dir ↦ layered session_dir sub_id (99 ∷ str sub_id)
]

unfoldable pub split_layer_leaf : List ℕ → List ℕ × List ℕ
split_layer_leaf layer_path = elim (last_split slash layer_path) [
  | none ↦ ([], layer_path)
  | some parts ↦ parts
]

unfoldable pub split_composition_offset : ℕ → ℕ × ℕ
split_composition_offset global_offset =
    (global_offset >>> sub_file_size_shift, bit_and global_offset (sub_file_size - 1))

unfoldable pub group_start_bucket_id : ℕ → ℕ
unfolding bit_clear
group_start_bucket_id bucket_id = bit_clear bucket_id (group_bucket_num - 1)
