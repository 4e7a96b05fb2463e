-- ===== src/Format/Bucket/Groups.antt =====
-- The loop over the eight records of a group: what it leaves in a buffer is the field of every
-- record in order.
use native.Mathlib.Nat.{add-zero}
use mathlib.Core.Path.{subst}
use apm_repo_sdk_python.Base.{
  ℕ, zero, suc, ◌+◌, ◌*◌, ◌/◌, ◌%◌, ◌≤◌, ◌<◌, ◌≡◌, refl, sym, ap, ◌∙◌, arith, All, length, get_or,
  ◌==◌, ==_iff, true, ℕ_discrete,
}
use apm_repo_sdk_python.Base.Bytes.{Bytes}
use apm_repo_sdk_python.Base.Crc.Bound.{IsByte}
use apm_repo_sdk_python.Base.Strides.{
  strided, assign_strided, length-strided, length-assign_strided, assign_strided-hit,
  assign_strided-miss,
}
use apm_repo_sdk_python.Base.Tabulate.{length-tabulate, get_or-tabulate}
use apm_repo_sdk_python.Errors.{ok}
use apm_repo_sdk_python.Format.Bucket.Packed.{bits}
use apm_repo_sdk_python.Format.Bucket.Columns.{column, field_bytes-column}
use apm_repo_sdk_python.Format.Bucket.SizeStore.{
  decode_fields, columns_from, field_bytes, field_plan, compress_type_plan, set_every_eighth,
}

-- The loop on one buffer, with the columns that it stores.
abbrev pub filled : (ℕ → Bytes) → ℕ → ℕ → Bytes → Bytes
filled f r zero buf = buf
filled f r (suc left) buf = filled f (suc r) left (assign_strided 7 r (f r) buf)

pub length-filled :
    (f : ℕ → Bytes) (r left : ℕ) (buf : Bytes) → length (filled f r left buf) ≡ length buf
length-filled f r zero buf = refl
length-filled f r (suc left) buf =
    length-filled f (suc r) left (assign_strided 7 r (f r) buf)
    ∙ length-assign_strided 7 r (f r) buf

-- A record before the loop's is not written again.
filled-before :
    (f : ℕ → Bytes) (r left g s : ℕ) (buf : Bytes)
    → s < r
    → r + left ≤ 8
    → get_or (filled f r left buf) (8 * g + s) 0 ≡ get_or buf (8 * g + s) 0
filled-before f r zero g s buf h k = refl
filled-before f r (suc left) g s buf h k =
    filled-before f (suc r) left g s (assign_strided 7 r (f r) buf) (omega (arith, h))
      (omega (arith, k))
    ∙ assign_strided-miss 7 r (8 * g + s) (f r) buf (λ i e. absurd (omega (arith, h, k, e)))

filled-at :
    (f : ℕ → Bytes) (r left g s : ℕ) (buf : Bytes)
    → r ≤ s
    → s < r + left
    → r + left ≤ 8
    → g < length (f s)
    → 8 * g + s < length buf
    → get_or (filled f r left buf) (8 * g + s) 0 ≡ get_or (f s) g 0
filled-at f r zero g s buf h k l m n = absurd (omega (arith, h, k))
filled-at f r (suc left) g s buf h k l m n = elim (ℕ_discrete r s) [
  | yes e ↦
      filled-before f (suc r) left g s (assign_strided 7 r (f r) buf) (omega (arith, e))
        (omega (arith, l))
      ∙ (assign_strided-hit 7 r g (8 * g + s) (f r) buf (omega (arith, e))
            (subst (λ n. g < length (f n)) (sym e) m) n
          ∙ ap (λ n. get_or (f n) g 0) e)
  | no e ↦
      filled-at f (suc r) left g s (assign_strided 7 r (f r) buf) (omega (arith, h, e))
        (omega (arith, k)) (omega (arith, l)) m
        (omega (arith, n, length-assign_strided 7 r (f r) buf))
]

set_every_eighth-ok :
    (r gc : ℕ) (src buf : Bytes)
    → r < 8
    → length src ≡ gc
    → length buf ≡ gc * 8
    → set_every_eighth r src buf ≡ ok (assign_strided 7 r src buf)
unfolding set_every_eighth
set_every_eighth-ok r gc src buf h e f = rw (same) refl
  where
    same : (length src == length (strided 7 r buf)) ≡ true
    same =
        (==_iff (length src) (length (strided 7 r buf))).1
          (omega (arith, h, e, f, length-strided 7 r buf))

module _ (padded : Bytes) (gc : ℕ) (len : length padded ≡ gc * 15) (bytes : All IsByte padded) where
  -- The column that record `r` of each group takes a field from.
  abbrev pub record_column : ℕ → ℕ → ℕ → Bytes
  record_column offset width r = column padded gc len bytes (r * 15 + offset) width

  set_field :
      (offset width r : ℕ) (buf : Bytes)
      → r < 8
      → length buf ≡ gc * 8
      → set_every_eighth r (record_column offset width r) buf
        ≡ ok (assign_strided 7 r (record_column offset width r) buf)
  set_field offset width r buf h e =
      set_every_eighth-ok r gc (record_column offset width r) buf h
        (length-tabulate (λ g. bits padded (120 * g + (r * 15 + offset)) width) 0 gc) e

  read_field :
      (offset width r : ℕ)
      → r < 8
      → 0 < width
      → width ≤ 8
      → offset + width ≤ 15
      → field_bytes (columns_from padded 0 15) (field_plan (r * 15 + offset) width) gc
        ≡ ok (record_column offset width r)
  read_field offset width r h pos small inside =
      field_bytes-column padded gc len bytes (r * 15 + offset) width pos small
        (omega (arith, h, inside))

  read_types :
      (r : ℕ)
      → r < 8
      → field_bytes (columns_from padded 0 15) (compress_type_plan r) gc ≡ ok (record_column 0 3 r)
  read_types r h =
      ap (λ n. field_bytes (columns_from padded 0 15) (field_plan n 3) gc) (sym (add-zero (r * 15)))
      ∙ read_field 0 3 r h (omega arith) (omega arith) (omega arith)

  pub decode_fields-filled :
      (left r : ℕ) (types highs lows : Bytes)
      → r + left ≤ 8
      → length types ≡ gc * 8
      → length highs ≡ gc * 8
      → length lows ≡ gc * 8
      → decode_fields
          (columns_from padded 0 15)
          gc
          r
          left
          (record { types = types; highs = highs; lows = lows })
        ≡ ok (record {
          types = filled (record_column 0 3) r left types;
          highs = filled (record_column 3 4) r left highs;
          lows = filled (record_column 7 8) r left lows;
        })
  unfolding decode_fields
  decode_fields-filled zero r types highs lows h p q s = refl
  decode_fields-filled (suc left) r types highs lows h p q s =
      let r8 : r < 8 = omega (arith, h) in
      let next =
        decode_fields-filled left (suc r) (assign_strided 7 r (record_column 0 3 r) types)
          (assign_strided 7 r (record_column 3 4 r) highs)
          (assign_strided 7 r (record_column 7 8 r) lows) (omega (arith, h))
          (length-assign_strided 7 r (record_column 0 3 r) types ∙ p)
          (length-assign_strided 7 r (record_column 3 4 r) highs ∙ q)
          (length-assign_strided 7 r (record_column 7 8 r) lows ∙ s) in
      rw
        (
          read_types r r8,
          set_field 0 3 r types r8 p,
          read_field 3 4 r r8 (omega arith) (omega arith) (omega arith),
          set_field 3 4 r highs r8 q,
          read_field 7 8 r r8 (omega arith) (omega arith) (omega arith),
          set_field 7 8 r lows r8 s,
        )
        next

  -- The element of every record, once the loop is over.
  pub filled-bits :
      (offset width i : ℕ) (buf : Bytes)
      → length buf ≡ gc * 8
      → i < gc * 8
      → get_or (filled (record_column offset width) 0 8 buf) i 0
        ≡ bits padded (15 * i + offset) width
  filled-bits offset width i buf e h =
      ap (λ k. get_or (filled (record_column offset width) 0 8 buf) k 0) (split i)
      ∙ (filled-at (record_column offset width) 0 8 (i / 8) (i % 8) buf (omega arith) (omega arith)
            (omega arith) (omega (arith, h, long)) (omega (arith, h, e))
          ∙ (get_or-tabulate f 0 gc (i / 8) (omega (arith, h))
              ∙ ap (λ k. bits padded k width) (place i)))
    where
      f : ℕ → ℕ
      f g = bits padded (120 * g + (i % 8 * 15 + offset)) width

      long : length (record_column offset width (i % 8)) ≡ gc
      long = length-tabulate f 0 gc

      split : (j : ℕ) → j ≡ 8 * (j / 8) + j % 8
      split j = omega arith

      place : (j : ℕ) → 120 * (0 + j / 8) + (j % 8 * 15 + offset) ≡ 15 * j + offset
      place j = omega arith
