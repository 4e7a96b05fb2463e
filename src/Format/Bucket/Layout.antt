-- ===== src/Format/Bucket/Layout.antt =====
-- Where the chunks of a parsed index lie, and the entries of the checksum trailer.
use mathlib.Core.Path.{subst}
use native.Mathlib.Nat.{add-zero, add_assoc}
use apm_repo_sdk_python.Base.{
  ℕ, zero, suc, ◌+◌, ◌*◌, ◌^◌, ◌≤◌, ◌<◌, ◌≡◌, refl, sym, ap, ◌∙◌, arith, All, length, take, Bool,
  true, false, ◌&&◌, Bool-cases, inl, inr, ◌==◌, List, [], ◌∷◌, Option,
}
use apm_repo_sdk_python.Base.Bytes.{Bytes}
use apm_repo_sdk_python.Base.Crc.Bound.{IsByte}
use apm_repo_sdk_python.Base.Tabulate.{length-tabulate}
use apm_repo_sdk_python.Base.Width.{zip_bytes}
use apm_repo_sdk_python.Errors.{ok, Error, ensure-ok, then-ok, ok-cancel}
use apm_repo_sdk_python.Format.Compression.{CompressType}
use apm_repo_sdk_python.Format.Const.{compress_reserved_leng, fixed_chunk_length}
use apm_repo_sdk_python.Format.Bucket.{
  BucketIndex, SizeStoreEntry, entry_at, locator, effective_len, effective_of, sum,
  compress_type_by_value, compress_type_at, total_effective_len,
}
use apm_repo_sdk_python.Format.Bucket.Lanes.{raw_effective}
use apm_repo_sdk_python.Format.Bucket.Packed.{bits}
use apm_repo_sdk_python.Format.Bucket.LaidOut.{laid_out}
use apm_repo_sdk_python.Format.Bucket.Decode.{packed_types, packed_lens, parse_size_store-packed}
use apm_repo_sdk_python.Format.Bucket.SizeStore.{all_known, is_known, parse_size_store}

not_four : (t k : ℕ) → (t == k) ≡ true → (k == 4) ≡ false → (t == 4) ≡ false
not_four t k h e = ground arith

unknown :
    (t : ℕ)
    → (t == 0) ≡ false
    → (t == 1) ≡ false
    → (t == 2) ≡ false
    → (t == 4) ≡ false
    → is_known t ≡ false
unfolding compress_type_by_value
unknown t a b c d = rw (a, b, c, d, is_known) refl

true_neq_false : true ≡ false → ⊥
true_neq_false p = cc

both : (a b : Bool) → (a && b) ≡ true → (a ≡ true) × (b ≡ true)
both true b h = (refl, h)
both false b h = cc

-- The raw type of a chunk is known, and both effective lengths are the same.
known-type :
    (t n : ℕ)
    → is_known t ≡ true
    → (c : CompressType) × (compress_type_at t ≡ ok c) × (effective_of c n ≡ raw_effective t n)
unfolding compress_type_at compress_type_by_value
known-type t n h = elim (Bool-cases (t == 0)) [
  | inl a ↦ (CompressType.none, rw (a, compress_type_at) refl, rw a refl)
  | inr a ↦ elim (Bool-cases (t == 1)) [
    | inl b ↦ (CompressType.lz4, rw (a, b, compress_type_at) refl, rw (a, not_four t 1 b refl) refl)
    | inr b ↦ elim (Bool-cases (t == 2)) [
      | inl c ↦
          (CompressType.zstd, rw (a, b, c, compress_type_at) refl, rw (a, not_four t 2 c refl) refl)
      | inr c ↦ elim (Bool-cases (t == 4)) [
        | inl d ↦ (CompressType.compacted, rw (a, b, c, d, compress_type_at) refl, rw (a, d) refl)
        | inr d ↦ absurd (true_neq_false (sym h ∙ unknown t a b c d))
      ]
    ]
  ]
]

-- Chunk `i` of an index: its entry is there, and its locator lies after the chunks before it, takes
-- the effective length of the entry and ends within the data region.
abbrev pub Located : ℕ → ℕ → BucketIndex → Type 0
Located start i index =
    (e : SizeStoreEntry) × (entry_at index i ≡ ok e)
    × (locator index i
        ≡ ok (record {
          offset = start + sum (take i index.effective_lens);
          length = effective_len e;
        }))
    × (sum (take i index.effective_lens) + effective_len e ≤ total_effective_len index)

located :
    (ts ns : List ℕ) (start i : ℕ)
    → length ts ≡ length ns
    → all_known ts ≡ true
    → i < length ns
    → Located start i (laid_out start ts ns)
unfolding entry_at locator effective_len total_effective_len
located [] ns start i e h k = absurd (omega (arith, e, k))
located (t ∷ ts) [] start i e h k = absurd (omega (arith, e))
located (t ∷ ts) (n ∷ ns) start zero e h k =
    let (c, known, same) = known-type t n (both (is_known t) (all_known ts) h).0 in
    (
      record { compress_type = c; stored_len = n },
      rw known refl,
      rw (add-zero start, same) refl,
      omega (arith, same),
    )
located (t ∷ ts) (n ∷ ns) start (suc i) e h k =
    let r = raw_effective t n in
    let (entry, found, place, inside) =
      located ts ns (start + r) i (omega (arith, e)) (both (is_known t) (all_known ts) h).1
        (omega (arith, k)) in
    (
      entry,
      found,
      place
          ∙ ap (λ off. ok (record { offset = off; length = effective_len entry }))
              (add_assoc start r (sum (take i (zip_bytes raw_effective ts ns)))),
      omega (arith, inside),
    )

-- Every chunk of an index that was parsed from bytes, with a number of chunks that a 32-bit offset
-- can reach, has an entry and a locator: the chunk lies after all chunks before it, is as long as
-- its entry says, and ends within the data region.
pub parse_size_store-Located :
    (little : Bool) (data' : Bytes) (n : ℕ) (crc : Option ℕ) (index : BucketIndex) (i : ℕ)
    → All IsByte data'
    → compress_reserved_leng + n * fixed_chunk_length < 2 ^ 32
    → parse_size_store little data' n crc ≡ ok index
    → i < n
    → Located compress_reserved_leng i index
parse_size_store-Located little data' n crc index i bytes small parsed inside =
    let packed = sym (parse_size_store-packed little data' n crc bytes small) ∙ parsed in
    let (_, checked) = ensure-ok _ Error.format_error _ index packed in
    let (known, laid) = ensure-ok _ Error.data_corrupt_error _ index (then-ok _ _ index checked) in
    subst (λ x. Located compress_reserved_leng i x) (ok-cancel laid)
      (located (packed_types data' n) (packed_lens data' n) compress_reserved_leng i
        (length-tabulate (λ j. bits data' (15 * j) 3) 0 n
          ∙ sym (length-tabulate (λ j. bits data' (15 * j + 3) 12) 0 n))
        known
        (subst (λ k. i < k) (sym (length-tabulate (λ j. bits data' (15 * j + 3) 12) 0 n)) inside))
