-- ===== src/Format/Composition/FileHeader.antt =====
-- `parse_composition_header`: what a written file header is read back as.
use apm_repo_sdk_python.Base.{
  ℕ, ◌^◌, ◌<◌, ◌≡◌, ◌∙◌, ap, refl, arith, ◌++◌, none, length, length-append,
}
use apm_repo_sdk_python.Base.Bytes.{
  Bytes, to_be, word_at, length-to_be, word_at-to_be, word_at-skip, hop,
}
use apm_repo_sdk_python.Errors.{ok}
use apm_repo_sdk_python.Format.Composition.{parse_composition_header}
use apm_repo_sdk_python.Format.Const.{sub_file_size}
use apm_repo_sdk_python.Format.Header.{composition_magic, too_new, compute_crc32}
use apm_repo_sdk_python.Format.Header.Codec.{
  header_body, header_bytes, parse_index_header-header_bytes,
}
use mathlib.Core.List.{append_assoc}

-- A composition file's own 52 bytes: the size of a sub-file, then 48 reserved ones.
abbrev pub file_header : ℕ → Bytes → Bytes
file_header minor reserved =
    header_bytes composition_magic 1 minor (to_be 4 sub_file_size ++ reserved)

module _ (minor : ℕ) (reserved rest : Bytes) (fits : minor < 256 ^ 2)
    (size : length reserved ≡ 48) where
  own-size : length (to_be 4 sub_file_size ++ reserved) ≡ 52
  own-size =
      omega
        (arith, length-append (to_be 4 sub_file_size) reserved, length-to_be 4 sub_file_size, size)

  abbrev sum : Bytes
  sum =
      to_be 4
        (compute_crc32 (header_body composition_magic 1 minor (to_be 4 sub_file_size ++ reserved)))

  flat :
      file_header minor reserved ++ rest
      ≡ composition_magic
        ++ (to_be 2 1 ++ (to_be 2 minor ++ (to_be 4 sub_file_size ++ (reserved ++ (sum ++ rest)))))
  flat = simp append_assoc

  read-size : word_at 8 4 (file_header minor reserved ++ rest) ≡ sub_file_size
  read-size =
      ap (word_at 8 4) flat
      ∙ (word_at-skip 4 4 4 composition_magic _ refl
          ∙ (hop 2 2 4 1 _ ∙ (hop 2 0 4 minor _ ∙ word_at-to_be 4 sub_file_size _ (omega arith))))

  -- The header that opens a session's first file, with a minor version of 16 bits and 48 reserved
  -- bytes, is read back, whatever those bytes are and what follows them.
  pub parse_composition_header-file_header :
      parse_composition_header (file_header minor reserved ++ rest)
      ≡ ok (record { major = 1; minor = minor })
  unfolding parse_composition_header too_new
  parse_composition_header-file_header =
      rw
        (
          parse_index_header-header_bytes composition_magic (to_be 4 sub_file_size ++ reserved) 1
              minor refl own-size (omega arith) fits none rest refl,
          read-size,
        )
        refl
