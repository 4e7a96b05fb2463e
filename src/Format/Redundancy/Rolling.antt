-- ===== src/Format/Redundancy/Rolling.antt =====
-- `_locate_first_bad_window`: the running checksum is that of the data from its start.
use Prim.Native.Nat.{bit_and}
use native.Mathlib.Nat.{zero-add, suc-add, mod-eq_of_lt}
use mathlib.Core.List.{append-nil}
use apm_repo_sdk_python.Base.{
  dec_lt, ℕ, zero, suc, ◌+◌, ◌-◌, ◌*◌, ◌<◌, ◌^◌, ◌≡◌, ◌∙◌, sym, ap, refl, arith, min, List, [], ◌∷◌,
  ◌++◌, Option, none, some, ◌==◌, if◌then◌else◌, take, drop, All,
}
use apm_repo_sdk_python.Base.Bits.{bit_and-mask}
use apm_repo_sdk_python.Base.Bytes.{Bytes}
use apm_repo_sdk_python.Base.Crc.{crc32_from, crc32_from-append}
use apm_repo_sdk_python.Base.Crc.Bound.{IsByte, crc32_from-lt}
use apm_repo_sdk_python.Format.Header.{compute_crc32}
use apm_repo_sdk_python.Format.Redundancy.{
  RedundancyBlob, window, locate_from, locate_first_bad_window,
}

-- The first `k` windows.
abbrev pub prefix : RedundancyBlob → Bytes → ℕ → Bytes
prefix blob data' k = take (min (k * blob.coverage) blob.data_size) data'

-- The first checkpoint, from number `i` on, that is not the checksum of the data up to the end of
-- its window.
unfoldable pub first_bad : RedundancyBlob → Bytes → List ℕ → ℕ → Option ℕ
first_bad blob data' [] i = none
first_bad blob data' (expected ∷ step_crc) i =
    let rest = first_bad blob data' step_crc (i + 1) in
    if compute_crc32 (prefix blob data' (i + 1)) == expected then rest else some i

take-add : {A : Type 0} (a d : ℕ) (xs : List A) → take a xs ++ take d (drop a xs) ≡ take (a + d) xs
take-add zero d xs = rw zero-add
take-add (suc a) zero [] = rw suc-add refl
take-add (suc a) (suc d) [] = rw suc-add refl
take-add (suc a) d (x ∷ xs) = rw suc-add (ap (λ t. x ∷ t) (take-add a d xs))

pub All-take : (P : ℕ → Type 0) (n : ℕ) (xs : List ℕ) → All P xs → All P (take n xs)
All-take P zero xs h = tt
All-take P (suc n) [] h = tt
All-take P (suc n) (x ∷ xs) h = (h.0, All-take P n xs h.1)

pub All-drop : (P : ℕ → Type 0) (n : ℕ) (xs : List ℕ) → All P xs → All P (drop n xs)
All-drop P zero xs h = h
All-drop P (suc n) [] h = tt
All-drop P (suc n) (x ∷ xs) h = All-drop P n xs h.1

-- A window goes on where the windows before it end, also past the end of the data.
span-append :
    (a c s : ℕ) (xs : Bytes)
    → take (min a s) xs ++ take (min (a + c) s - a) (drop a xs) ≡ take (min (a + c) s) xs
span-append a c s xs = elim (dec_lt s a) [
  | yes past ↦ rw (stop past, (at_end past).0, (at_end past).1) (append-nil (take s xs))
  | no inside ↦
      ap (λ n. take n xs ++ take (min (a + c) s - a) (drop a xs)) (start inside)
      ∙ (take-add a (min (a + c) s - a) xs ∙ ap (λ n. take n xs) (total inside))
]
  where
    stop : s < a → min (a + c) s - a ≡ 0
    stop past = omega (arith, past)

    at_end : s < a → (min a s ≡ s) × (min (a + c) s ≡ s)
    at_end past = omega (arith, past)

    start : (s < a → ⊥) → min a s ≡ a
    start inside = ground arith

    total : (s < a → ⊥) → a + (min (a + c) s - a) ≡ min (a + c) s
    total inside = ground arith

masked : (x : ℕ) → x < 2 ^ 32 → bit_and x 0xffffffff ≡ x
masked x h = bit_and-mask 32 x ∙ mod-eq_of_lt h

module _ (blob : RedundancyBlob) (data' : Bytes) (bytes : All IsByte data') where
  window-prefix : (k : ℕ) → prefix blob data' k ++ window data' blob k ≡ prefix blob data' (k + 1)
  window-prefix k =
      span-append (k * blob.coverage) blob.coverage blob.data_size data'
      ∙ ap (λ n. take (min n blob.data_size) data') (omega arith)

  -- The checksum goes on from that of the windows before.
  crc-step :
      (k : ℕ)
      → bit_and (crc32_from (compute_crc32 (prefix blob data' k)) (window data' blob k)) 0xffffffff
        ≡ compute_crc32 (prefix blob data' (k + 1))
  unfolding compute_crc32
  crc-step k =
      rw
        (
          masked (crc32_from 0 (prefix blob data' k))
              (crc32_from-lt 0 (prefix blob data' k) (omega arith) (All-take IsByte _ data' bytes)),
          ← window-prefix k,
          crc32_from-append,
        )
        refl

  locate_from-first_bad :
      (step_crc : List ℕ) (i : ℕ)
      → locate_from blob data' step_crc i (compute_crc32 (prefix blob data' i))
        ≡ first_bad blob data' step_crc i
  unfolding locate_from first_bad
  locate_from-first_bad [] i = refl
  locate_from-first_bad (expected ∷ step_crc) i =
      rw (crc-step i, locate_from-first_bad step_crc (i + 1))

  nothing_yet : compute_crc32 (prefix blob data' 0) ≡ 0
  unfolding compute_crc32 crc32_from
  nothing_yet =
      ap (λ n. compute_crc32 (take n data')) (empty blob.coverage blob.data_size) ∙ none_read
    where
      empty : (c s : ℕ) → min (0 * c) s ≡ 0
      empty c s = omega arith

      none_read : compute_crc32 [] ≡ 0
      none_read = refl

  -- For data of bytes, the window that the running checksum finds is the first one at whose end the
  -- checksum of the data so far is not the stored one; it finds none where there is none.
  pub locate_first_bad_window-first_bad :
      locate_first_bad_window blob data' ≡ first_bad blob data' blob.step_crc 0
  unfolding locate_first_bad_window
  locate_first_bad_window-first_bad =
      ap (λ c. locate_from blob data' blob.step_crc 0 c) (sym nothing_yet)
      ∙ locate_from-first_bad blob.step_crc 0
