-- ===== src/Format/Redundancy/Repair.antt =====
-- `attempt_repair`: what it returns is as long as the data and is checked, and a trailer that does
-- not parse is no error.
use mathlib.Core.Path.{subst}
use apm_repo_sdk_python.Base.{
  leb, ite, ◌%◌, ℕ, ◌+◌, ◌-◌, ◌*◌, ◌^◌, ◌≡◌, sym, refl, arith, Bool, true, false, ltb, ==_iff,
  Bool-cases, inl, inr, List, [], ◌∷◌, ◌++◌, Option, none, some, length, length-append, length-take,
  length-drop, min, take, drop, ◌==◌, if◌then◌else◌,
}
use apm_repo_sdk_python.Base.Bytes.{Bytes, slice, from_be, word_at, bytes_discrete, length-to_be}
use apm_repo_sdk_python.Errors.{
  ok-cancel, Result, ok, raise, Error, ◌>>=◌, ◌>>◌, ensure, is_format_error,
}
use apm_repo_sdk_python.Format.Header.{compute_crc32}
use apm_repo_sdk_python.Format.Redundancy.{
  every_second, redundancy_magic, redundancy_size, RedundancyBlob, parse_redundancy_blob,
  locate_first_bad_window, patch_windows, xor_windows, reconstruct_window, to_bytes,
  candidate_windows, is_empty, attempt_repair, repair_with,
}

-- A property of what is returned; an exception returns nothing.
data Returned {A : Type 0} (P : A → Type 0) : Result A → Type 0 where
  returned : {a : A} → P a → Returned P (ok a)
  raised : {e : Error} → Returned P (raise e)

module _ {A B : Type 0} {Q : B → Type 0} where
  after : (x : Result A) {f : A → Result B} → ((a : A) → Returned Q (f a)) → Returned Q (x >>= f)
  after (ok a) k = k a
  after (raise e) k = raised

  after_any :
      {P : A → Type 0} {x : Result A} {f : A → Result B}
      → Returned P x
      → ((a : A) → P a → Returned Q (f a))
      → Returned Q (x >>= f)
  after_any (returned {a = a} h) k = k a h
  after_any raised k = raised

ensured :
    {B : Type 0} {Q : B → Type 0} (c : Bool) (e : Error) {y : Result B}
    → Returned Q y
    → Returned Q (ensure c e >> y)
ensured true e k = k
ensured false e k = raised

abbrev HasLength : ℕ → Bytes → Type 0
HasLength n bs = length bs ≡ n

to_bytes-length : (w n : ℕ) → Returned (HasLength w) (to_bytes w n)
unfolding to_bytes
to_bytes-length w n = ensured (ltb n (256 ^ w)) Error.overflow_error (returned (length-to_be w n))

abbrev span_length : RedundancyBlob → ℕ → ℕ
span_length blob idx =
    min (idx * blob.coverage + blob.coverage) blob.data_size - idx * blob.coverage

reconstruct_window-length :
    (data' : Bytes) (blob : RedundancyBlob) (idx n : ℕ)
    → Returned (HasLength (span_length blob idx)) (reconstruct_window data' blob idx n)
unfolding reconstruct_window
reconstruct_window-length data' blob idx n =
    let half_bytes : Bytes =
      slice blob.parity (idx % 2 * blob.coverage) ((idx % 2 + 1) * blob.coverage) in
    after
      (xor_windows data' blob idx (length half_bytes) (every_second n (idx % 2) n)
        (from_be half_bytes))
      λ acc.
        ensured (leb (span_length blob idx) (length half_bytes)) Error.value_error
          (to_bytes-length (span_length blob idx) _)

-- A window that is replaced keeps its length, also where it ends with the data.
patched-length :
    (s c n : ℕ) (bs rebuilt : Bytes)
    → length bs ≡ n
    → length rebuilt ≡ min (s + c) n - s
    → length (take s bs ++ (rebuilt ++ drop (min (s + c) n) bs)) ≡ n
patched-length s c n bs rebuilt h k = omega (
  arith,
  h,
  k,
  length-append (take s bs) (rebuilt ++ drop (min (s + c) n) bs),
  length-append rebuilt (drop (min (s + c) n) bs),
  length-take s bs,
  length-drop (min (s + c) n) bs,
)

patch_windows-length :
    (data' : Bytes) (blob : RedundancyBlob) (n : ℕ) (windows : List ℕ) (patched : Bytes)
    → length patched ≡ blob.data_size
    → Returned (HasLength blob.data_size) (patch_windows data' blob n windows patched)
unfolding patch_windows
patch_windows-length data' blob n [] patched h = returned h
patch_windows-length data' blob n (idx ∷ rest) patched h =
    after_any (reconstruct_window-length data' blob idx n) λ rebuilt k.
      patch_windows-length data' blob n rest _
        (patched-length (idx * blob.coverage) blob.coverage blob.data_size patched rebuilt h k)

-- What a repair may return: nothing, or data of a length and a checksum.
abbrev Repairs : ℕ → ℕ → Option Bytes → Type 0
Repairs n crc none = Unit
Repairs n crc (some candidate) = (compute_crc32 candidate ≡ crc) × (length candidate ≡ n)

checked :
    (n crc : ℕ) (candidate : Bytes)
    → length candidate ≡ n
    → Repairs n crc (if compute_crc32 candidate == crc then some candidate else none)
checked n crc candidate h = elim (Bool-cases (compute_crc32 candidate == crc)) [
  | inl fits ↦ rw fits ((==_iff (compute_crc32 candidate) crc).0 fits, h)
  | inr differs ↦ rw differs tt
]

located :
    {n crc : ℕ} (found : Option ℕ) {f : ℕ → Result (Option Bytes)}
    → ((idx : ℕ) → Returned (Repairs n crc) (f idx))
    → Returned
        (Repairs n crc)
        (elim found as (λ y. Result (Option Bytes)) [ none ↦ ok none | some idx ↦ f idx ])
located none h = returned tt
located (some idx) h = h idx

branch :
    {n crc : ℕ} (t : Bool) {x y : Result (Option Bytes)}
    → Returned (Repairs n crc) x
    → Returned (Repairs n crc) y
    → Returned (Repairs n crc) (if t then x else y)
branch true h k = h
branch false h k = k

repair_with-Returned :
    (data' : Bytes) (blob : RedundancyBlob) (crc : ℕ)
    → length data' ≡ blob.data_size
    → Returned (Repairs blob.data_size crc) (repair_with data' blob crc)
unfolding repair_with
repair_with-Returned data' blob crc h = branch (is_empty blob.step_crc) (returned tt) (
    located (locate_first_bad_window blob data') λ bad_idx.
      after_any
        (patch_windows-length data' blob (length blob.step_crc)
          (candidate_windows bad_idx (length blob.step_crc)) data' h)
        λ candidate k. returned (checked blob.data_size crc candidate k))

-- A trailer that parses is one for data of this size.
parse_redundancy_blob-size :
    (raw : Bytes) (data_size coverage : ℕ)
    → Returned (λ blob. blob.data_size ≡ data_size) (parse_redundancy_blob raw data_size coverage)
unfolding parse_redundancy_blob
parse_redundancy_blob-size raw data_size coverage =
    ensured (leb (redundancy_size data_size coverage) (length raw)) Error.format_error (
      after
        (ite (bytes_discrete (slice raw 0 2) redundancy_magic) (ok tt) (raise Error.format_error))
        λ _. ensured (word_at 2 2 raw == 0) Error.format_error (
          ensured (word_at 4 4 raw == coverage) Error.format_error
            (ensured (word_at 8 8 raw == data_size) Error.format_error (returned refl))))

parsed :
    {P : RedundancyBlob → Type 0} {n crc : ℕ} {x : Result RedundancyBlob}
    {f : RedundancyBlob → Result (Option Bytes)}
    → Returned P x
    → ((blob : RedundancyBlob) → P blob → Returned (Repairs n crc) (f blob))
    → Returned (Repairs n crc) (elim x as (λ y. Result (Option Bytes)) [
      | raise e ↦ if is_format_error e then ok none else raise e
      | ok blob ↦ f blob
    ])
parsed (returned {a = blob} h) k = k blob h
parsed (raised {e = e}) k = branch (is_format_error e) (returned tt) raised

attempt_repair-Returned :
    (data' raw : Bytes) (coverage crc : ℕ)
    → Returned (Repairs (length data') crc) (attempt_repair data' raw coverage crc)
unfolding attempt_repair
attempt_repair-Returned data' raw coverage crc =
    parsed (parse_redundancy_blob-size raw (length data') coverage) λ blob size.
      subst (λ n. Returned (Repairs n crc) (repair_with data' blob crc)) size
        (repair_with-Returned data' blob crc (sym size))

raise-ok : {A : Type 0} {e : Error} {a : A} → ◌≡◌ {A = Result A} (raise e) (ok a) → ⊥
raise-ok p = cc

Returned-ok : {A : Type 0} {P : A → Type 0} {x : Result A} {a : A} → Returned P x → x ≡ ok a → P a
Returned-ok {P} (returned h) e = subst P (ok-cancel e) h
Returned-ok raised e = absurd (raise-ok e)

-- Data that a repair returns is as long as the damaged data and has the checksum that was asked
-- for, whatever the trailer says.
pub attempt_repair_lem :
    (data' raw : Bytes) (coverage expected_crc : ℕ) (candidate : Bytes)
    → attempt_repair data' raw coverage expected_crc ≡ ok (some candidate)
    → (compute_crc32 candidate ≡ expected_crc) × (length candidate ≡ length data')
attempt_repair_lem data' raw coverage expected_crc candidate e =
    Returned-ok (attempt_repair-Returned data' raw coverage expected_crc) e
