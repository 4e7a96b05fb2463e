-- ===== src/Format/Redundancy.antt =====
-- format/redundancy.py: the trailer that repairs one damaged region, its size, its parse and the
-- repair. A slice that is assigned has the length of what replaces it.
pub mod Rolling
mod Bounds
pub mod Total
pub mod Repair
use Prim.Native.Nat.{bit_and, bit_xor, min}
use apm_repo_sdk_python.Base.{
  ℕ, zero, suc, ◌+◌, ◌-◌, ◌*◌, ◌/◌, ◌%◌, ◌^◌, Bool, true, false, not, ◌||◌, List, [], ◌∷◌, ◌++◌,
  Option, none, some, ltb, leb, ◌==◌, ite, if◌then◌else◌, length, take, drop,
}
use apm_repo_sdk_python.Base.Bits.{◌<<<◌, ◌>>>◌}
use apm_repo_sdk_python.Base.Bytes.{Bytes, slice, word_at, from_be, to_be, bytes_discrete}
use apm_repo_sdk_python.Base.Crc.{crc32_from}
use apm_repo_sdk_python.Errors.{Result, ok, raise, Error, ◌>>=◌, ◌>>◌, ensure, is_format_error}
use apm_repo_sdk_python.Format.Header.{compute_crc32}

-- `b"RD"`.
abbrev pub redundancy_magic : Bytes
redundancy_magic = 0x52 ∷ 0x44 ∷ []

abbrev pub head_length : ℕ
head_length = 16

-- The lengths of the checkpoints and of the parity.
abbrev pub blob_component_lengths : ℕ → ℕ → ℕ × ℕ
blob_component_lengths data_size coverage =
    (4 * ((data_size + coverage - 1) / coverage), min data_size (2 * coverage))

unfoldable pub redundancy_size : ℕ → ℕ → ℕ
redundancy_size data_size coverage =
    let (step_crc_len, parity_len) = blob_component_lengths data_size coverage in
    head_length + step_crc_len + parity_len

pub record RedundancyBlob : Type 0 where
  pub coverage : ℕ
  pub data_size : ℕ
  pub step_crc : List ℕ
  pub parity : Bytes

-- `struct.unpack(f">{count}I", data)`.
unfoldable pub unpack_words : ℕ → Bytes → List ℕ
unpack_words zero data' = []
unpack_words (suc count) data' = word_at 0 4 data' ∷ unpack_words count (drop 4 data')

unfoldable pub parse_redundancy_blob : Bytes → ℕ → ℕ → Result RedundancyBlob
unfolding redundancy_size unpack_words
parse_redundancy_blob data' data_size coverage = do
  ensure (leb (redundancy_size data_size coverage) (length data')) Error.format_error
  ite (bytes_discrete (slice data' 0 2) redundancy_magic) (ok tt) (raise Error.format_error)
  ensure (word_at 2 2 data' == 0) Error.format_error
  ensure (word_at 4 4 data' == coverage) Error.format_error
  ensure (word_at 8 8 data' == data_size) Error.format_error
  let (step_crc_len, parity_len) = blob_component_lengths data_size coverage
  let step_crc_raw = slice data' head_length (head_length + step_crc_len)
  let parity = slice data' (head_length + step_crc_len) (head_length + step_crc_len + parity_len)
  ok (record {
    coverage = coverage;
    data_size = data_size;
    step_crc = unpack_words (step_crc_len / 4) step_crc_raw;
    parity = parity;
  })

abbrev pub window_span : ℕ → ℕ → ℕ → ℕ × ℕ
window_span idx coverage data_size = (idx * coverage, min (idx * coverage + coverage) data_size)

abbrev pub window : Bytes → RedundancyBlob → ℕ → Bytes
window data' blob idx =
    let (start, end) = window_span idx blob.coverage blob.data_size in slice data' start end

-- The loop of `_locate_first_bad_window` from window `i`, with the checksum of what is before it.
unfoldable pub locate_from : RedundancyBlob → Bytes → List ℕ → ℕ → ℕ → Option ℕ
locate_from blob data' [] i crc = none
locate_from blob data' (expected ∷ step_crc) i crc =
    let crc' = bit_and (crc32_from crc (window data' blob i)) 0xffffffff in
    let rest = locate_from blob data' step_crc (i + 1) crc' in
    if crc' == expected then rest else some i

unfoldable pub locate_first_bad_window : RedundancyBlob → Bytes → Option ℕ
unfolding locate_from
locate_first_bad_window blob data' = locate_from blob data' blob.step_crc 0 0

-- `range(start, stop, 2)`, for at most `n` numbers.
unfoldable pub every_second : ℕ → ℕ → ℕ → List ℕ
every_second zero start stop = []
every_second (suc n) start stop =
    let rest = every_second n (start + 2) stop in if ltb start stop then start ∷ rest else []

-- `acc ^= int.from_bytes(window, "big") << (8 * (half_len - len(window)))`, for the other windows
-- of a half; a negative shift raises.
unfoldable pub xor_windows : Bytes → RedundancyBlob → ℕ → ℕ → List ℕ → ℕ → Result ℕ
xor_windows data' blob idx half_len [] acc = ok acc
xor_windows data' blob idx half_len (j ∷ js) acc =
    let shift = 8 * (half_len - length (window data' blob j)) in
    let skipped = xor_windows data' blob idx half_len js acc in
    let taken =
      xor_windows data' blob idx half_len js
        (bit_xor acc (from_be (window data' blob j) <<< shift)) in
    if j == idx
    then skipped
    else if ltb half_len (length (window data' blob j))
    then raise Error.value_error
    else taken

-- `n.to_bytes(w, "big")`, which raises for a value that does not fit.
unfoldable pub to_bytes : ℕ → ℕ → Result Bytes
to_bytes w n = do ensure (ltb n (256 ^ w)) Error.overflow_error; ok (to_be w n)

unfoldable pub reconstruct_window : Bytes → RedundancyBlob → ℕ → ℕ → Result Bytes
unfolding every_second xor_windows to_bytes
reconstruct_window data' blob idx num_windows =
    let half = idx % 2 in
    let half_bytes = slice blob.parity (half * blob.coverage) ((half + 1) * blob.coverage) in
    let half_len = length half_bytes in
    let (start, end) = window_span idx blob.coverage blob.data_size in
    let target_len = end - start in
    do
      acc ←
          xor_windows data' blob idx half_len (every_second num_windows half num_windows)
            (from_be half_bytes)
      ensure (leb target_len half_len) Error.value_error
      to_bytes target_len (acc >>> (8 * (half_len - target_len)))

-- The loop over the windows to replace; each one is rebuilt from the data as it was read.
unfoldable pub patch_windows : Bytes → RedundancyBlob → ℕ → List ℕ → Bytes → Result Bytes
unfolding reconstruct_window
patch_windows data' blob num_windows [] patched = ok patched
patch_windows data' blob num_windows (idx ∷ rest) patched = do
  let (start, end) = window_span idx blob.coverage blob.data_size
  rebuilt ← reconstruct_window data' blob idx num_windows
  patch_windows data' blob num_windows rest (take start patched ++ (rebuilt ++ drop end patched))

abbrev pub candidate_windows : ℕ → ℕ → List ℕ
candidate_windows bad_idx num_windows =
    if leb num_windows (bad_idx + 1) then bad_idx ∷ [] else bad_idx ∷ (bad_idx + 1) ∷ []

abbrev is_empty : List ℕ → Bool
is_empty [] = true
is_empty (_ ∷ _) = false

-- The repair with a trailer that parses.
unfoldable pub repair_with : Bytes → RedundancyBlob → ℕ → Result (Option Bytes)
unfolding locate_first_bad_window patch_windows
repair_with data' blob expected_crc =
    if is_empty blob.step_crc then ok none else elim (locate_first_bad_window blob data') [
      | none ↦ ok none
      | some bad_idx ↦
          let num_windows = length blob.step_crc in
          patch_windows data' blob num_windows (candidate_windows bad_idx num_windows) data'
          >>= λ candidate.
              ok (if compute_crc32 candidate == expected_crc then some candidate else none)
    ]

unfoldable pub attempt_repair : Bytes → Bytes → ℕ → ℕ → Result (Option Bytes)
unfolding parse_redundancy_blob repair_with
attempt_repair data' redundancy_raw coverage expected_crc =
    elim (parse_redundancy_blob redundancy_raw (length data') coverage) [
      | raise e ↦ if is_format_error e then ok none else raise e
      | ok blob ↦ repair_with data' blob expected_crc
    ]
