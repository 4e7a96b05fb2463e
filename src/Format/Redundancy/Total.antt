-- ===== src/Format/Redundancy/Total.antt =====
-- `attempt_repair` never raises: a trailer that is refused is no error, and no shift is negative
-- and no number too large on the way of one that is taken.
use mathlib.Core.Path.{subst}
use apm_repo_sdk_python.Base.{
  ℕ, ◌+◌, ◌-◌, ◌*◌, ◌/◌, ◌%◌, ◌^◌, ◌≤◌, ◌<◌, ◌≡◌, ◌∙◌, ap, refl, arith, Bool, true, false, List, [],
  ◌∷◌, Option, none, some, All, length, length-take, length-drop, min, drop, ltb, leb, ite, ◌==◌,
  lt→ltb, le→ltb, if◌then◌else◌, Bool-cases, inl, inr,
}
use apm_repo_sdk_python.Base.Bits.{◌>>>◌}
use apm_repo_sdk_python.Base.Bytes.{Bytes, slice, from_be, word_at, bytes_discrete}
use apm_repo_sdk_python.Base.Crc.Bound.{IsByte}
use apm_repo_sdk_python.Errors.{Result, ok, raise, Error, ◌>>=◌, ◌>>◌, ensure, is_format_error}
use apm_repo_sdk_python.Format.Redundancy.{
  RedundancyBlob, redundancy_magic, redundancy_size, parse_redundancy_blob, window, every_second,
  xor_windows, to_bytes, reconstruct_window, patch_windows, candidate_windows, is_empty,
  locate_first_bad_window, repair_with, attempt_repair,
}
use apm_repo_sdk_python.Format.Redundancy.Rolling.{All-take, All-drop}
use apm_repo_sdk_python.Base.Width.{from_be-lt, shifted-lt, unshifted-lt, xor-lt}
use apm_repo_sdk_python.Format.Redundancy.Bounds.{every_second-parity, window-fits}

data Succeeds {A : Type 0} (P : A → Type 0) : Result A → Type 0 where
  succeeds : {a : A} → P a → Succeeds P (ok a)

Succeeds-bind :
    {A B : Type 0} {P : A → Type 0} {Q : B → Type 0} {x : Result A} {f : A → Result B}
    → Succeeds P x
    → ((a : A) → P a → Succeeds Q (f a))
    → Succeeds Q (x >>= f)
Succeeds-bind (succeeds {a = a} h) k = k a h

ensured :
    {B : Type 0} {Q : B → Type 0} (c : Bool) (e : Error) {y : Result B}
    → c ≡ true
    → Succeeds Q y
    → Succeeds Q (ensure c e >> y)
ensured true e h k = k
ensured false e h k = absurd (false-true h)
  where
    false-true : false ≡ true → ⊥
    false-true p = cc

-- What a parsed trailer is: for data of this size, with as much parity as belongs to it.
record Fits (blob : RedundancyBlob) : Type 0 where
  parity_size : length blob.parity ≡ min blob.data_size (2 * blob.coverage)
  parity_bytes : All IsByte blob.parity

All-weaken : {P Q : ℕ → Type 0} (js : List ℕ) → ((j : ℕ) → P j → Q j) → All P js → All Q js
All-weaken [] f h = tt
All-weaken (j ∷ js) f h = (f j h.0, All-weaken js f h.1)

module _ (data' : Bytes) (blob : RedundancyBlob) (bytes : All IsByte data') where
  xor_windows-Succeeds :
      (idx h : ℕ) (js : List ℕ) (acc : ℕ)
      → All (λ j. length (window data' blob j) ≤ h) js
      → acc < 256 ^ h
      → Succeeds (λ v. v < 256 ^ h) (xor_windows data' blob idx h js acc)
  unfolding xor_windows
  xor_windows-Succeeds idx h [] acc fits lt = succeeds lt
  xor_windows-Succeeds idx h (j ∷ js) acc fits lt = elim (Bool-cases (j == idx)) [
    | inl same ↦ rw (same, xor_windows) (xor_windows-Succeeds idx h js acc fits.1 lt)
    | inr other ↦
        rw (other, xor_windows, le→ltb h (length (window data' blob j)) fits.0)
          (xor_windows-Succeeds idx h js _ fits.1 (
            xor-lt h acc _ lt (
              shifted-lt (from_be (window data' blob j)) (length (window data' blob j)) h fits.0 (
                from_be-lt (window data' blob j)
                  (All-take IsByte _ _ (All-drop IsByte _ data' bytes))))))
  ]

  module _ (f : Fits blob) where
    half_length :
        (half : ℕ)
        → length (slice blob.parity (half * blob.coverage) ((half + 1) * blob.coverage))
          ≡ min
              ((half + 1) * blob.coverage - half * blob.coverage)
              (min blob.data_size (2 * blob.coverage) - half * blob.coverage)
    half_length half =
        length-take ((half + 1) * blob.coverage - half * blob.coverage)
          (drop (half * blob.coverage) blob.parity)
        ∙ ap (λ n. min ((half + 1) * blob.coverage - half * blob.coverage) n)
            (length-drop (half * blob.coverage) blob.parity
              ∙ ap (λ n. n - half * blob.coverage) f.parity_size)

    window-short :
        (half j : ℕ)
        → j % 2 ≡ half
        → length (window data' blob j)
          ≤ length (slice blob.parity (half * blob.coverage) ((half + 1) * blob.coverage))
    window-short half j p =
        subst
          (λ h.
            length (window data' blob j)
            ≤ length (slice blob.parity (h * blob.coverage) ((h + 1) * blob.coverage)))
          p
          (omega (
            arith,
            half_length (j % 2),
            window-fits j blob.coverage blob.data_size,
            length-take (min (j * blob.coverage + blob.coverage) blob.data_size - j * blob.coverage)
                (drop (j * blob.coverage) data'),
          ))

    reconstruct_window-Succeeds :
        (idx n : ℕ) → Succeeds (λ w. Unit {0}) (reconstruct_window data' blob idx n)
    unfolding reconstruct_window to_bytes
    reconstruct_window-Succeeds idx n =
        let half : ℕ = idx % 2 in
        let half_bytes : Bytes =
          slice blob.parity (half * blob.coverage) ((half + 1) * blob.coverage) in
        let h : ℕ = length half_bytes in
        let t : ℕ =
          min (idx * blob.coverage + blob.coverage) blob.data_size - idx * blob.coverage in
        let room : t ≤ h =
          omega (arith, half_length (idx % 2), window-fits idx blob.coverage blob.data_size) in
        Succeeds-bind
          (xor_windows-Succeeds idx h (every_second n half n) (from_be half_bytes)
            (All-weaken (every_second n half n) (window-short half)
              (every_second-parity n half n half (omega arith)))
            (from_be-lt half_bytes
              (All-take IsByte _ _ (All-drop IsByte _ blob.parity f.parity_bytes))))
          λ acc lt. ensured (leb t h) Error.value_error (ground arith) (
            ensured (ltb (acc >>> (8 * (h - t))) (256 ^ t)) Error.overflow_error
              (lt→ltb _ _ (unshifted-lt acc t h room lt)) (succeeds tt))

    patch_windows-Succeeds :
        (n : ℕ) (windows : List ℕ) (patched : Bytes)
        → Succeeds (λ c. Unit {0}) (patch_windows data' blob n windows patched)
    unfolding patch_windows
    patch_windows-Succeeds n [] patched = succeeds tt
    patch_windows-Succeeds n (idx ∷ rest) patched =
        Succeeds-bind (reconstruct_window-Succeeds idx n)
          λ rebuilt _. patch_windows-Succeeds n rest _

branch :
    {P : Option Bytes → Type 0} (t : Bool) {x y : Result (Option Bytes)}
    → Succeeds P x
    → Succeeds P y
    → Succeeds P (if t then x else y)
branch true h k = h
branch false h k = k

located :
    {P : Option Bytes → Type 0} (found : Option ℕ) {x : Result (Option Bytes)}
    {f : ℕ → Result (Option Bytes)}
    → Succeeds P x
    → ((idx : ℕ) → Succeeds P (f idx))
    → Succeeds P (elim found as (λ y. Result (Option Bytes)) [ none ↦ x | some idx ↦ f idx ])
located none h k = h
located (some idx) h k = k idx

repair_with-Succeeds :
    (data' : Bytes) (blob : RedundancyBlob) (crc : ℕ)
    → All IsByte data'
    → Fits blob
    → Succeeds (λ c. Unit {0}) (repair_with data' blob crc)
unfolding repair_with
repair_with-Succeeds data' blob crc bytes f = branch (is_empty blob.step_crc) (succeeds tt) (
    located (locate_first_bad_window blob data') (succeeds tt) λ bad_idx.
      Succeeds-bind
        (patch_windows-Succeeds data' blob bytes f (length blob.step_crc)
          (candidate_windows bad_idx (length blob.step_crc)) data')
        λ candidate _. succeeds tt)

-- A trailer is taken, and fits, or refused with a `FormatError`.
data Taken : Result RedundancyBlob → Type 0 where
  taken : {blob : RedundancyBlob} → Fits blob → Taken (ok blob)
  refused : Taken (raise Error.format_error)

check :
    (c : Bool) {y : Result RedundancyBlob}
    → (c ≡ true → Taken y)
    → Taken (ensure c Error.format_error >> y)
check true k = k refl
check false k = refused

check_magic :
    {A : Type 0} (d : Dec A) {y : Result RedundancyBlob}
    → Taken y
    → Taken (ite d (ok tt) (raise Error.format_error) >> y)
check_magic (yes p) h = h
check_magic (no p) h = refused

parity-size : (raw : Bytes) (a n : ℕ) → a + n ≤ length raw → length (slice raw a (a + n)) ≡ n
parity-size raw a n long =
    omega (arith, long, length-take (a + n - a) (drop a raw), length-drop a raw)

parse_redundancy_blob-Taken :
    (raw : Bytes) (data_size coverage : ℕ)
    → All IsByte raw
    → Taken (parse_redundancy_blob raw data_size coverage)
unfolding parse_redundancy_blob redundancy_size
parse_redundancy_blob-Taken raw data_size coverage bytes =
    let start : ℕ = 16 + 4 * ((data_size + coverage - 1) / coverage) in
    let size : ℕ = min data_size (2 * coverage) in
    check (leb (redundancy_size data_size coverage) (length raw)) λ long.
      check_magic (bytes_discrete (slice raw 0 2) redundancy_magic) (
        check (word_at 2 2 raw == 0) λ _. check (word_at 4 4 raw == coverage) λ _.
          check (word_at 8 8 raw == data_size) λ _. taken (record {
            parity_size = parity-size raw start size (ground (arith, long));
            parity_bytes = All-take IsByte _ _ (All-drop IsByte start raw bytes);
          }))

after_parse :
    {x : Result RedundancyBlob} {f : RedundancyBlob → Result (Option Bytes)}
    → Taken x
    → ((blob : RedundancyBlob) → Fits blob → Succeeds (λ c. Unit {0}) (f blob))
    → Succeeds
        (λ c. Unit {0})
        (elim x as (λ y. Result (Option Bytes)) [
          | raise e ↦ if is_format_error e then ok none else raise e
          | ok blob ↦ f blob
        ])
unfolding is_format_error
after_parse (taken {blob = blob} h) k = k blob h
after_parse refused k = succeeds tt

-- For data and a trailer of bytes and a coverage that is not zero, a repair never raises, whatever
-- the bytes are: it returns repaired data or nothing.
pub attempt_repair-Succeeds :
    (data' raw : Bytes) (coverage expected_crc : ℕ)
    → 0 < coverage
    → All IsByte data'
    → All IsByte raw
    → (result : Option Bytes) × (attempt_repair data' raw coverage expected_crc ≡ ok result)
unfolding attempt_repair
attempt_repair-Succeeds data' raw coverage expected_crc pos data_bytes raw_bytes = result_of (
    after_parse (parse_redundancy_blob-Taken raw (length data') coverage raw_bytes)
      λ blob f. repair_with-Succeeds data' blob expected_crc data_bytes f)
  where
    result_of :
        {x : Result (Option Bytes)}
        → Succeeds (λ c. Unit {0}) x
        → (result : Option Bytes) × (x ≡ ok result)
    result_of (succeeds {a = result} h) = (result, refl)
