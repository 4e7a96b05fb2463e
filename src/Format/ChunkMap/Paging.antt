-- ===== src/Format/ChunkMap/Paging.antt =====
-- Reading a page: the shortcut for a record's end, and the batch decoder, against the decoder of
-- one record.
use native.Mathlib.Nat.{suc-add, zero-add}
use apm_repo_sdk_python.Base.{
  ℕ, zero, suc, ◌+◌, ◌-◌, ◌*◌, ◌≤◌, ◌≡◌, refl, ap, arith, List, [], ◌∷◌, inl, inr, leb, length,
  drop, take, length-drop, Bool-cases, Option-cases, ◌⊎◌, if◌then◌else◌,
}
use Prim.Native.Nat.{bit_and}
use apm_repo_sdk_python.Base.Bits.{◌>>>◌}
use apm_repo_sdk_python.Base.Bytes.{Bytes, word_at, from_be}
use apm_repo_sdk_python.Errors.{Result, ok, raise, Error, ◌>>=◌}
use apm_repo_sdk_python.Format.ChunkMap.{
  ChunkMapKind, mapping, zero_fill, ChunkMapEntry, parse_at, parse_chunk_map_record, unpack_from,
  kind_of, entry_of, end_offset, chunk_map_end_offset, as_format_error, raw_end_offset, page_loop,
  iter_chunk_map_page, kind_by_value,
}

raw_end_offset_lem :
    (kind : ChunkMapKind) (word0 addr_raw num : ℕ)
    → raw_end_offset kind word0 num ≡ end_offset (entry_of kind word0 addr_raw num)
unfolding raw_end_offset end_offset entry_of
raw_end_offset_lem mapping word0 addr_raw num = refl
raw_end_offset_lem zero_fill word0 addr_raw num = refl

unpack_from-cases :
    (page : Bytes) (off : ℕ)
    → (unpack_from page off ≡ raise Error.struct_error)
      ⊎ ((w : ℕ × ℕ × ℕ) × (unpack_from page off ≡ ok w))
unfolding unpack_from
unpack_from-cases page off = elim (Bool-cases (leb (off + 20) (length page))) [
  | inl fits ↦
      inr ((word_at off 8 page, word_at (off + 8) 8 page, word_at (off + 16) 4 page), rw fits)
  | inr short ↦ inl (rw short)
]

kind_of-cases :
    (word0 : ℕ)
    → (kind_of word0 ≡ raise Error.data_corrupt_error)
      ⊎ ((k : ChunkMapKind) × (kind_of word0 ≡ ok k))
unfolding kind_of
kind_of-cases word0 = elim (Option-cases (kind_by_value (bit_and (word0 >>> 56) 0x0f))) [
  | inl unknown ↦ inl (rw (unknown, kind_of))
  | inr (k, known) ↦ inr (k, rw (known, kind_of))
]

-- The shortcut gives the end of the entry that the full decoder builds, and fails where that
-- fails: with the same error, but for a page that ends early, which it reports as malformed.
pub chunk_map_end_offset_lem :
    (page : Bytes) (index : ℕ)
    → chunk_map_end_offset page index
      ≡ (as_format_error (parse_at page (index * 20)) >>= λ e. ok (end_offset e))
unfolding chunk_map_end_offset parse_at as_format_error
chunk_map_end_offset_lem page index = elim (unpack_from-cases page (index * 20)) [
  | inl short ↦ rw short
  | inr (w, fits) ↦ rw fits (elim (kind_of-cases w.0) [
    | inl unknown ↦ rw unknown
    | inr (k, known) ↦ rw known (ap ok (raw_end_offset_lem k w.0 w.1 w.2))
  ])
]

drop-drop : (m n : ℕ) (xs : Bytes) → drop m (drop n xs) ≡ drop (n + m) xs
drop-drop m zero xs = rw zero-add
drop-drop zero (suc n) [] = rw suc-add
drop-drop (suc m) (suc n) [] = rw suc-add
drop-drop m (suc n) (x ∷ xs) = rw suc-add (drop-drop m n xs)

word_at-drop : (off i w : ℕ) (xs : Bytes) → word_at i w (drop off xs) ≡ word_at (off + i) w xs
unfolding word_at
word_at-drop off i w xs = rw drop-drop (ap (λ k. from_be (take k (drop (off + i) xs))) same)
  where
    same : i + w - i ≡ off + i + w - (off + i)
    same = omega arith

-- One record of a page is the record at the front of what is left of the page.
parse_at-drop :
    (page : Bytes) (off : ℕ)
    → off + 20 ≤ length page
    → parse_at page off ≡ parse_chunk_map_record (drop off page)
unfolding parse_chunk_map_record parse_at unpack_from
parse_at-drop page off h = ground (
  arith,
  length-drop off page,
  word_at-drop off 0 8 page,
  word_at-drop off 8 8 page,
  word_at-drop off 16 4 page,
)

-- The decoder of one record, applied `count` times from the front.
abbrev pub records : Bytes → ℕ → List ChunkMapEntry × Result (Unit {0})
records page zero = ([], ok tt)
records page (suc count) = elim (parse_chunk_map_record page) [
  | raise e ↦ ([], raise e)
  | ok entry ↦ (entry ∷ (records (drop 20 page) count).0, (records (drop 20 page) count).1)
]

page_loop_lem :
    (page : Bytes) (left i : ℕ)
    → (i + left) * 20 ≤ length page
    → page_loop page left i ≡ records (drop (i * 20) page) left
unfolding page_loop
page_loop_lem page zero i h = refl
page_loop_lem page (suc left) i h = ground (
  arith,
  parse_at-drop page (i * 20),
  page_loop_lem page left (i + 1),
  drop-drop 20 (i * 20) page,
)

-- On a page that holds its records, the batch decoder yields what the decoder of one record
-- yields for them in order, up to the first that it refuses. A shorter page is refused whole.
pub iter_chunk_map_page_lem :
    (page : Bytes) (count : ℕ)
    → iter_chunk_map_page page count ≡ (
        if leb (count * 20) (length page)
        then records page count
        else ([], raise Error.format_error))
unfolding iter_chunk_map_page
iter_chunk_map_page_lem page count = ground (arith, page_loop_lem page count 0)
