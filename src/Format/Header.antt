-- ===== src/Format/Header.antt =====
-- format/headers.py: the 64-byte header shell of every binary format, and its checks in order.
pub mod Codec
use Prim.Native.Nat.{bit_and}
use apm_repo_sdk_python.Base.{
  ℕ, Bool, not, [], ◌∷◌, Option, none, some, ltb, leb, ite, length, take, ◌==◌,
}
use apm_repo_sdk_python.Base.Bytes.{Bytes, slice, word_at, bytes_discrete}
use apm_repo_sdk_python.Base.Crc.{crc32_from}
use apm_repo_sdk_python.Errors.{Result, ok, raise, Error, ◌>>◌, ensure}

abbrev pub header_len : ℕ
header_len = 64

-- The magics of `MAGIC` that the modelled formats use: `bFiL` and `cMpS`.
abbrev pub bucket_magic : Bytes
bucket_magic = 0x62 ∷ 0x46 ∷ 0x69 ∷ 0x4c ∷ []

abbrev pub composition_magic : Bytes
composition_magic = 0x63 ∷ 0x4d ∷ 0x70 ∷ 0x53 ∷ []

pub record IndexHeader : Type 0 where
  pub magic : Bytes
  pub major : ℕ
  pub minor : ℕ
  pub raw : Bytes

unfoldable pub compute_crc32 : Bytes → ℕ
compute_crc32 data' = bit_and (crc32_from 0 data') 0xffffffff

unfoldable pub verify_crc32 : Bytes → ℕ → Result (Unit {0})
verify_crc32 data' expected = ensure (compute_crc32 data' == expected) Error.data_corrupt_error

-- `max_major is not None and major > max_major`.
unfoldable pub too_new : Option ℕ → ℕ → Bool
too_new none major = Bool.false
too_new (some m) major = ltb m major

-- The checks on the first 64 bytes.
unfoldable pub parse_shell : Bytes → Bytes → Option ℕ → Result IndexHeader
unfolding verify_crc32 too_new
parse_shell data' expect_magic max_major = do
  let magic = slice data' 0 4
  ite (bytes_discrete magic expect_magic) (ok tt) (raise Error.data_corrupt_error)
  verify_crc32 (take 60 data') (word_at 60 4 data')
  let major = word_at 4 2 data'
  ensure (not (too_new max_major major)) Error.unsupported_version_error
  ok (record { magic = magic; major = major; minor = word_at 6 2 data'; raw = data' })

unfoldable pub parse_index_header : Bytes → Bytes → Option ℕ → Result IndexHeader
unfolding parse_shell
parse_index_header data' expect_magic max_major = do
  ensure (leb header_len (length data')) Error.format_error
  parse_shell (take header_len data') expect_magic max_major
