-- ===== src/Format/Address/Packing.antt =====
-- Packed addresses: packing and unpacking are inverse, and `advance` counts chunks.
use apm_repo_sdk_python.Base.{ℕ, ◌+◌, ◌*◌, ◌/◌, ◌%◌, ◌^◌, ◌<◌, ◌≤◌, ◌≡◌, refl, arith}
use apm_repo_sdk_python.Base.Bits.{bit_and-mask, bit_or-field}
use apm_repo_sdk_python.Base.Int.{pos}
use apm_repo_sdk_python.Errors.{ok, ◌>>=◌}
use apm_repo_sdk_python.Format.Address.{
  ChunkAddress, from_int, to_int, advance, split_composition_offset, group_start_bucket_id,
}

-- The ranges of the packed fields.
pub record InRange (a : ChunkAddress) : Type 0 where
  pub stream : a.stream_id < 2 ^ 8
  pub bucket : a.bucket_id < 2 ^ 40
  pub chunk : a.chunk_idx < 2 ^ 16

pub from_int_fields :
    (raw : ℕ)
    → ((from_int raw).stream_id ≡ raw / 2 ^ 56)
      × ((from_int raw).bucket_id ≡ raw / 2 ^ 16 % 2 ^ 40)
      × ((from_int raw).chunk_idx ≡ raw % 2 ^ 16)
unfolding from_int
from_int_fields raw = (omega arith, bit_and-mask 40 (raw / 2 ^ 16), bit_and-mask 16 raw)

to_int_sum :
    (a : ChunkAddress)
    → a.bucket_id < 2 ^ 40
    → a.chunk_idx < 2 ^ 16
    → to_int a ≡ (a.stream_id * 2 ^ 40 + a.bucket_id) * 2 ^ 16 + a.chunk_idx
unfolding to_int
to_int_sum a hb hc =
    rw (bit_or-field 40 a.stream_id a.bucket_id hb)
      (bit_or-field 16 (a.stream_id * 2 ^ 40 + a.bucket_id) a.chunk_idx hc)

pub to_int-lt : (a : ChunkAddress) → InRange a → to_int a < 2 ^ 64
to_int-lt a h = omega (arith, to_int_sum a h.bucket h.chunk, h.stream, h.bucket, h.chunk)

-- Unpacking a packed address gives it back, if its bucket and chunk fit their fields.
pub from_int-to_int : (a : ChunkAddress) → InRange a → from_int (to_int a) ≡ a
from_int-to_int a h = ground (arith, to_int_sum a h.bucket h.chunk, from_int_fields (to_int a))

-- Packing an unpacked address gives the number back, and a `uint64` has fields in range.
pub to_int-from_int :
    (raw : ℕ) → raw < 2 ^ 64 → (to_int (from_int raw) ≡ raw) × InRange (from_int raw)
to_int-from_int raw h = ground (arith, to_int_sum (from_int raw), from_int_fields raw)

-- The number of chunks before an address in its stream's pool.
abbrev pub position : ChunkAddress → ℕ
position a = a.bucket_id * 8192 + a.chunk_idx

-- `advance` by a number `k` that is not negative succeeds, moves the position by `k`, stays in the stream and ends below the capacity of
-- a bucket.
pub advance-position :
    (a : ChunkAddress) (k : ℕ)
    → (b : ChunkAddress) × (advance a (pos k) ≡ ok b)
      × (position b ≡ position a + k)
      × (b.stream_id ≡ a.stream_id)
      × (b.chunk_idx < 8192)
unfolding advance
advance-position a k = (_, refl, omega arith, refl, omega arith)

-- Two advances are one by the sum.
advance-add :
    (a : ChunkAddress) (j k : ℕ)
    → (advance a (pos j) >>= λ b. advance b (pos k)) ≡ advance a (pos (j + k))
unfolding advance
advance-add a j k = ground arith

-- A session-wide offset is that of its sub-file plus the offset within it, which is below the
-- size of a sub-file.
pub split_composition_offset_lem :
    (off : ℕ)
    → ((split_composition_offset off).0 * 2 ^ 24 + (split_composition_offset off).1 ≡ off)
      × ((split_composition_offset off).1 < 2 ^ 24)
unfolding split_composition_offset
split_composition_offset_lem off = omega (arith, bit_and-mask 24 off)

-- The group of a bucket starts at a multiple of 1024, at most 1023 before it, and every bucket of
-- the group has the same start.
pub group_start_bucket_id_lem :
    (b c : ℕ)
    → (group_start_bucket_id b % 1024 ≡ 0)
      × (group_start_bucket_id b ≤ b)
      × (b < group_start_bucket_id b + 1024)
      × (b / 1024 ≡ c / 1024 → group_start_bucket_id b ≡ group_start_bucket_id c)
unfolding group_start_bucket_id
group_start_bucket_id_lem b c = omega (arith, bit_and-mask 10 b, bit_and-mask 10 c)
