-- ===== src/Format/Composition/Codec.antt =====
-- `parse_record_head`: what a written head is read back as.
use mathlib.Core.List.{append_assoc}
use apm_repo_sdk_python.Base.{
  ℕ, ◌+◌, ◌^◌, ◌<◌, ◌≡◌, ◌∙◌, sym, ap, refl, arith, true, [], ◌++◌, leb, if_pos, ite, length, take,
  take-append, length-append,
}
use apm_repo_sdk_python.Format.Header.Codec.{compute_crc32-lt, verify_crc32-own}
use apm_repo_sdk_python.Base.Bytes.{
  word_at-skip, hop, Bytes, slice, to_be, word_at, bytes_discrete, length-to_be, word_at-to_be,
}
use apm_repo_sdk_python.Errors.{Result, ok, raise, Error}
use apm_repo_sdk_python.Format.Composition.{
  CompositionStatus, RecordHead, record_magic, status_of, has_redundancy, parse_record_head,
}
use apm_repo_sdk_python.Format.Header.{compute_crc32}

abbrev pub status_value : CompositionStatus → ℕ
status_value CompositionStatus.complete = 0
status_value CompositionStatus.interrupted = 1

-- The fields, as wide as they are on disk, with two reserved bytes after the status.
unfoldable pub fields : RecordHead → ℕ → Bytes → Bytes
fields r reserved rest =
    to_be 2 (status_value r.status)
    ++ (to_be 2 reserved
        ++ (to_be 8 r.map_num
            ++ (to_be 4 r.map_crc
                ++ (to_be 2 r.mode ++ (to_be 4 r.attr_leng ++ (to_be 4 r.attr_crc ++ rest))))))

-- The 28 bytes of a head that its checksum covers.
abbrev pub head_body : RecordHead → ℕ → Bytes
head_body r reserved = record_magic ++ fields r reserved []

abbrev pub head_bytes : RecordHead → ℕ → Bytes
head_bytes r reserved = head_body r reserved ++ to_be 4 (compute_crc32 (head_body r reserved))

pub record InRange (r : RecordHead) : Type 0 where
  pub map_num : r.map_num < 256 ^ 8
  pub map_crc : r.map_crc < 256 ^ 4
  pub mode : r.mode < 256 ^ 2
  pub attr_leng : r.attr_leng < 256 ^ 4
  pub attr_crc : r.attr_crc < 256 ^ 4

status_value-lt : (s : CompositionStatus) → status_value s < 256 ^ 2
status_value-lt CompositionStatus.complete = omega arith
status_value-lt CompositionStatus.interrupted = omega arith

status_of-status_value : (s : CompositionStatus) → status_of (status_value s) ≡ ok s
status_of-status_value CompositionStatus.complete = refl
status_of-status_value CompositionStatus.interrupted = refl

-- A head whose checksum is part of what follows.
abbrev written : RecordHead → ℕ → Bytes → Bytes
written r reserved rest = record_magic ++ fields r reserved rest

module _ (r : RecordHead) (reserved : ℕ) (rest : Bytes) (fits : InRange r) where
  read-fields :
      (word_at 2 2 (written r reserved rest) ≡ status_value r.status)
      × (word_at 6 8 (written r reserved rest) ≡ r.map_num)
      × (word_at 14 4 (written r reserved rest) ≡ r.map_crc)
      × (word_at 18 2 (written r reserved rest) ≡ r.mode)
      × (word_at 20 4 (written r reserved rest) ≡ r.attr_leng)
      × (word_at 24 4 (written r reserved rest) ≡ r.attr_crc)
      × (word_at 28 4 (written r reserved rest) ≡ word_at 0 4 rest)
  unfolding fields
  read-fields = (
    word_at-skip 2 0 2 record_magic _ refl ∙ word_at-to_be 2 _ _ (status_value-lt r.status),
    word_at-skip 2 4 8 record_magic _ refl
        ∙ (hop 2 2 8 _ _ ∙ (hop 2 0 8 _ _ ∙ word_at-to_be 8 _ _ fits.map_num)),
    word_at-skip 2 12 4 record_magic _ refl
        ∙ (hop 2 10 4 _ _ ∙ (hop 2 8 4 _ _ ∙ (hop 8 0 4 _ _ ∙ word_at-to_be 4 _ _ fits.map_crc))),
    word_at-skip 2 16 2 record_magic _ refl
        ∙ (hop 2 14 2 _ _
            ∙ (hop 2 12 2 _ _ ∙ (hop 8 4 2 _ _ ∙ (hop 4 0 2 _ _ ∙ word_at-to_be 2 _ _ fits.mode)))),
    word_at-skip 2 18 4 record_magic _ refl
        ∙ (hop 2 16 4 _ _
            ∙ (hop 2 14 4 _ _
                ∙ (hop 8 6 4 _ _
                    ∙ (hop 4 2 4 _ _ ∙ (hop 2 0 4 _ _ ∙ word_at-to_be 4 _ _ fits.attr_leng))))),
    word_at-skip 2 22 4 record_magic _ refl
        ∙ (hop 2 20 4 _ _
            ∙ (hop 2 18 4 _ _
                ∙ (hop 8 10 4 _ _
                    ∙ (hop 4 6 4 _ _
                        ∙ (hop 2 4 4 _ _ ∙ (hop 4 0 4 _ _ ∙ word_at-to_be 4 _ _ fits.attr_crc)))))),
    word_at-skip 2 26 4 record_magic _ refl
        ∙ (hop 2 24 4 _ _
            ∙ (hop 2 22 4 _ _
                ∙ (hop 8 14 4 _ _
                    ∙ (hop 4 10 4 _ _ ∙ (hop 2 8 4 _ _ ∙ (hop 4 4 4 _ _ ∙ hop 4 0 4 _ _)))))),
  )

fields-append :
    (r : RecordHead) (reserved : ℕ) (rest : Bytes)
    → fields r reserved [] ++ rest ≡ fields r reserved rest
unfolding fields
fields-append r reserved rest = simp append_assoc

length-fields :
    (r : RecordHead) (reserved : ℕ) (rest : Bytes)
    → length (fields r reserved rest) ≡ 26 + length rest
unfolding fields
length-fields r reserved rest = simp (length-append, length-to_be) (omega arith)

length-head_body : (r : RecordHead) (reserved : ℕ) → length (head_body r reserved) ≡ 28
length-head_body r reserved = omega (arith, length-fields r reserved [])

module _ (r : RecordHead) (reserved : ℕ) (rest : Bytes) where
  abbrev checksum : Bytes
  checksum = to_be 4 (compute_crc32 (head_body r reserved)) ++ rest

  long_enough : leb 32 (length (written r reserved checksum)) ≡ true
  long_enough = ground (
    arith,
    length-fields r reserved checksum,
    length-append (to_be 4 (compute_crc32 (head_body r reserved))) rest,
    length-to_be 4 (compute_crc32 (head_body r reserved)),
  )

  parse-written :
      InRange r → has_redundancy r ≡ true → parse_record_head (written r reserved checksum) ≡ ok r
  unfolding parse_record_head
  parse-written fits redundant =
      let read = read-fields r reserved checksum fits in
      rw
        (
          long_enough,
          magic_there,
          body,
          read.6,
          word_at-to_be 4 (compute_crc32 (head_body r reserved)) rest (compute_crc32-lt _),
          verify_crc32-own,
          read.0,
          status_of-status_value,
          read.1,
          read.2,
          read.3,
          read.4,
          read.5,
          redundant,
        )
        refl
    where
      magic_there :
          ◌≡◌ {A = Result (Unit {0})}
            (ite
              (bytes_discrete (slice (written r reserved checksum) 0 2) record_magic)
              (ok tt)
              (raise Error.data_corrupt_error))
            (ok tt)
      magic_there =
          if_pos (bytes_discrete record_magic record_magic) refl (ok tt)
            (raise Error.data_corrupt_error)

      body : take 28 (written r reserved checksum) ≡ head_body r reserved
      body =
          ap (λ n. take n (written r reserved checksum)) (sym (length-head_body r reserved))
          ∙ (ap (λ t. take (length (head_body r reserved)) (record_magic ++ t))
                (sym (fields-append r reserved checksum))
              ∙ take-append (head_body r reserved) checksum)

-- The head of a record, written with its checksum and whatever two reserved bytes and further data,
-- is read back as it was, when its fields are as wide as on disk and its redundancy bit is set.
pub parse_record_head-head_bytes :
    (r : RecordHead) (reserved : ℕ) (rest : Bytes)
    → InRange r
    → has_redundancy r ≡ true
    → parse_record_head (head_bytes r reserved ++ rest) ≡ ok r
parse_record_head-head_bytes r reserved rest fits redundant =
    ap parse_record_head same ∙ parse-written r reserved rest fits redundant
  where
    same : head_bytes r reserved ++ rest ≡ written r reserved (checksum r reserved rest)
    same =
        append_assoc (head_body r reserved) (to_be 4 (compute_crc32 (head_body r reserved))) rest
        ∙ ap (λ t. record_magic ++ t) (fields-append r reserved (checksum r reserved rest))
