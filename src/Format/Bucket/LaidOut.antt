-- ===== src/Format/Bucket/LaidOut.antt =====
-- `BucketIndex.of`: the chunks are laid out back to back, and no offset overflows.
use apm_repo_sdk_python.Base.{
  ℕ, ◌+◌, ◌*◌, ◌^◌, ◌≤◌, ◌<◌, ◌≡◌, refl, arith, All, length, lt→ltb, Bool, true, List, [], ◌∷◌,
}
use apm_repo_sdk_python.Base.Width.{zip_bytes}
use apm_repo_sdk_python.Errors.{ok}
use apm_repo_sdk_python.Format.Const.{fixed_chunk_length}
use apm_repo_sdk_python.Format.Bucket.{BucketIndex, accumulate, sum}
use apm_repo_sdk_python.Format.Bucket.Lanes.{raw_effective, IsU16, effective_lens_of-raw}
use apm_repo_sdk_python.Format.Bucket.SizeStore.{all_below, offsets_of, index_of}

-- Chunks laid out back to back from `start`.
abbrev pub laid_out : ℕ → List ℕ → List ℕ → BucketIndex
laid_out start types lens = record {
  compress_types = types;
  stored_lens = lens;
  effective_lens = zip_bytes raw_effective types lens;
  offsets = accumulate start (zip_bytes raw_effective types lens);
}

abbrev pub IsLen : ℕ → Type 0
IsLen n = n ≤ 4096

sum-bound :
    (types lens : List ℕ)
    → length types ≡ length lens
    → All IsLen lens
    → sum (zip_bytes raw_effective types lens) ≤ length lens * 4096
sum-bound [] ns e h = omega arith
sum-bound (t ∷ ts) [] e h = absurd (omega (arith, e))
sum-bound (t ∷ ts) (n ∷ ns) e h =
    let rest = sum-bound ts ns (omega (arith, e)) h.1 in
    let one : raw_effective t n ≤ 4096 = ground (arith, h.0) in omega (arith, rest, one)

accumulate-below :
    (start bound : ℕ) (ns : List ℕ)
    → start + sum ns < bound
    → all_below bound (accumulate start ns) ≡ true
accumulate-below start bound [] h = refl
accumulate-below start bound (n ∷ ns) h =
    rw
      (
        lt→ltb start bound (omega (arith, h)),
        accumulate-below (start + n) bound ns (omega (arith, h)),
      )
      refl

All-IsU16 : (ns : List ℕ) → All IsLen ns → All IsU16 ns
All-IsU16 [] h = tt
All-IsU16 (n ∷ ns) h = (omega (arith, h.0), All-IsU16 ns h.1)

offsets_of-ok :
    (start : ℕ) (ns : List ℕ)
    → start + sum ns < 2 ^ 32
    → offsets_of start ns ≡ ok (accumulate start ns)
unfolding offsets_of
offsets_of-ok start ns h =
    rw (accumulate-below start (2 ^ 32) ns h, lt→ltb (start + sum ns) (2 ^ 32) h) refl

pub index_of-laid_out :
    (little : Bool) (types lens : List ℕ) (start : ℕ)
    → length types ≡ length lens
    → All IsLen lens
    → start + length lens * fixed_chunk_length < 2 ^ 32
    → index_of little types lens start ≡ ok (laid_out start types lens)
unfolding index_of
index_of-laid_out little types lens start e h small =
    rw
      (
        effective_lens_of-raw little types lens e (All-IsU16 lens h),
        offsets_of-ok start (zip_bytes raw_effective types lens)
            (omega (arith, small, sum-bound types lens e h)),
      )
      refl
