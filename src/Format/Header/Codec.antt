-- ===== src/Format/Header/Codec.antt =====
-- `parse_index_header`: what a written header is read back as.
use mathlib.Core.List.{append_assoc, append-nil}
use apm_repo_sdk_python.Base.{
  ℕ, ◌^◌, ◌<◌, ◌≡◌, ◌∙◌, sym, ap, refl, arith, true, false, [], ◌++◌, Option, leb, ==_iff, if_pos,
  ite, length, take, length-append, take-append,
}
use apm_repo_sdk_python.Base.Bits.{bit_and-mask}
use apm_repo_sdk_python.Base.Bytes.{
  Bytes, slice, to_be, word_at, bytes_discrete, length-to_be, word_at-to_be, word_at-skip, hop,
}
use apm_repo_sdk_python.Base.Crc.{crc32_from}
use apm_repo_sdk_python.Errors.{Result, ok, raise, Error}
use apm_repo_sdk_python.Format.Header.{
  compute_crc32, verify_crc32, too_new, parse_shell, parse_index_header,
}

pub compute_crc32-lt : (data' : Bytes) → compute_crc32 data' < 256 ^ 4
unfolding compute_crc32
compute_crc32-lt data' = omega (arith, bit_and-mask 32 (crc32_from 0 data'))

pub verify_crc32-own : (data' : Bytes) → verify_crc32 data' (compute_crc32 data') ≡ ok tt
unfolding verify_crc32
verify_crc32-own data' = rw ((==_iff (compute_crc32 data') (compute_crc32 data')).1 refl)

-- The 60 bytes that the checksum covers: magic, versions and 52 bytes of the format's own.
abbrev pub header_body : Bytes → ℕ → ℕ → Bytes → Bytes
header_body magic major minor own = magic ++ (to_be 2 major ++ (to_be 2 minor ++ own))

abbrev pub header_bytes : Bytes → ℕ → ℕ → Bytes → Bytes
header_bytes magic major minor own =
    header_body magic major minor own ++ to_be 4 (compute_crc32 (header_body magic major minor own))

module _ (magic own : Bytes) (major minor : ℕ) (four : length magic ≡ 4)
    (rest_own : length own ≡ 52) (major_fits : major < 256 ^ 2) (minor_fits : minor < 256 ^ 2) where
  abbrev body : Bytes
  body = header_body magic major minor own

  length-body : length body ≡ 60
  length-body = omega (
    arith,
    four,
    rest_own,
    length-append magic (to_be 2 major ++ (to_be 2 minor ++ own)),
    length-append (to_be 2 major) (to_be 2 minor ++ own),
    length-append (to_be 2 minor) own,
    length-to_be 2 major,
    length-to_be 2 minor,
  )

  abbrev whole : Bytes
  whole = header_bytes magic major minor own

  length-whole : length whole ≡ 64
  length-whole = omega (
    arith,
    length-append body (to_be 4 (compute_crc32 body)),
    length-body,
    length-to_be 4 (compute_crc32 body),
  )

  abbrev sum : Bytes
  sum = to_be 4 (compute_crc32 body)

  flat : whole ≡ magic ++ (to_be 2 major ++ (to_be 2 minor ++ (own ++ sum)))
  flat = simp append_assoc

  take-prefix : (n : ℕ) (xs ys : Bytes) → length xs ≡ n → take n (xs ++ ys) ≡ xs
  take-prefix n xs ys h = rw (← h) (take-append xs ys)

  shell-read :
      (slice whole 0 4 ≡ magic)
      × (word_at 4 2 whole ≡ major)
      × (word_at 6 2 whole ≡ minor)
      × (take 60 whole ≡ body)
      × (word_at 60 4 whole ≡ compute_crc32 body)
  shell-read = (
    ap (take 4) flat ∙ take-prefix 4 magic _ four,
    ap (word_at 4 2) flat ∙ (word_at-skip 4 0 2 magic _ four ∙ word_at-to_be 2 major _ major_fits),
    ap (word_at 6 2) flat
        ∙ (word_at-skip 4 2 2 magic _ four
            ∙ (hop 2 0 2 major _ ∙ word_at-to_be 2 minor _ minor_fits)),
    take-prefix 60 body sum length-body,
    word_at-skip 60 0 4 body sum length-body
        ∙ (ap (word_at 0 4) (sym (append-nil sum))
            ∙ word_at-to_be 4 (compute_crc32 body) [] (compute_crc32-lt body)),
  )

  parse_shell-whole :
      (max_major : Option ℕ)
      → too_new max_major major ≡ false
      → parse_shell whole magic max_major
        ≡ ok (record { magic = magic; major = major; minor = minor; raw = whole })
  unfolding parse_shell
  parse_shell-whole max_major supported =
      let read = shell-read in
      rw (read.0, own_magic, read.3, read.4, verify_crc32-own, read.1, supported, read.2) refl
    where
      own_magic :
          ◌≡◌ {A = Result (Unit {0})}
            (ite (bytes_discrete magic magic) (ok tt) (raise Error.data_corrupt_error))
            (ok tt)
      own_magic = if_pos (bytes_discrete magic magic) refl (ok tt) (raise Error.data_corrupt_error)

  -- A header of 64 bytes, with a magic of four, versions of 16 bits and written with its checksum,
  -- is read back by a reader of its magic that takes its major version, whatever follows it; the
  -- reader keeps the 64 bytes.
  pub parse_index_header-header_bytes :
      (max_major : Option ℕ) (rest : Bytes)
      → too_new max_major major ≡ false
      → parse_index_header (header_bytes magic major minor own ++ rest) magic max_major
        ≡ ok (record {
          magic = magic;
          major = major;
          minor = minor;
          raw = header_bytes magic major minor own;
        })
  unfolding parse_index_header
  parse_index_header-header_bytes max_major rest supported =
      rw (long, take-prefix 64 whole rest length-whole) (parse_shell-whole max_major supported)
    where
      long : leb 64 (length (whole ++ rest)) ≡ true
      long = ground (arith, length-append whole rest, length-whole)
