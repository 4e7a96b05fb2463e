-- ===== src/Dedup/CompositionReader/Flat.antt =====
-- dedup/composition_reader.py: the sub-files read as one sequence of bytes.
use mathlib.Core.List.{append_assoc, append-nil}
use apm_repo_sdk_python.Base.{
  ℕ, zero, suc, ◌+◌, ◌-◌, ◌*◌, ◌^◌, ◌≤◌, ◌<◌, ◌≡◌, refl, sym, ap, ◌∙◌, arith, [], ◌∷◌, ◌++◌, le→leb,
}
use apm_repo_sdk_python.Base.Bytes.{Bytes}
use apm_repo_sdk_python.Base.Tabulate.{tabulate, length-tabulate}
use apm_repo_sdk_python.Dedup.CompositionReader.{SubFiles, take_of, read_loop, read_at}
use apm_repo_sdk_python.Errors.{ok}
use apm_repo_sdk_python.Format.Address.{split_composition_offset}
use apm_repo_sdk_python.Format.Address.Packing.{split_composition_offset_lem}

-- Each sub-file holds its 2 ^ 24 bytes of one sequence of `total` bytes.
abbrev pub AreSlices : SubFiles → (ℕ → ℕ) → ℕ → Type 0
AreSlices files content total =
    (sub_id off n : ℕ)
    → off + n ≤ 2 ^ 24
    → sub_id * 2 ^ 24 + off + n ≤ total
    → files.read sub_id off n ≡ ok (tabulate content (sub_id * 2 ^ 24 + off) n)

same_tabulate : (f : ℕ → ℕ) (a b n m : ℕ) → a ≡ b → n ≡ m → tabulate f a n ≡ tabulate f b m
same_tabulate f a b n m p q = cc

tabulate-add :
    (f : ℕ → ℕ) (a n k : ℕ) → tabulate f a n ++ tabulate f (a + n) k ≡ tabulate f a (n + k)
tabulate-add f a zero k = same_tabulate f (a + 0) a k (0 + k) (omega arith) (omega arith)
tabulate-add f a (suc n) k =
    ap (◌∷◌ (f a)) (
      ap (◌++◌ (tabulate f (suc a) n))
        (same_tabulate f (a + suc n) (suc a + n) k k (omega arith) refl)
      ∙ tabulate-add f (suc a) n k)
    ∙ same_tabulate f a a (suc (n + k)) (suc n + k) refl (omega arith)

-- What is taken in a round: something, no more than is left, and inside the sub-file.
take_of-bounds :
    (offset r : ℕ)
    → (0 < take_of offset (suc r))
      × (take_of offset (suc r) ≤ suc r)
      × ((split_composition_offset offset).1 + take_of offset (suc r) ≤ 2 ^ 24)
unfolding take_of
take_of-bounds offset r = ground (arith, split_composition_offset_lem offset)

module _ (files : SubFiles) (content : ℕ → ℕ) (total : ℕ)
    (slices : AreSlices files content total) where
  round :
      (fuel offset r : ℕ) (out : Bytes)
      → offset + suc r ≤ total
      → read_loop files (suc fuel) offset (suc r) out
        ≡ read_loop files fuel
            (offset + take_of offset (suc r))
            (suc r - take_of offset (suc r))
            (out ++ tabulate content offset (take_of offset (suc r)))
  unfolding read_loop
  round fuel offset r out inside =
      let t = take_of offset (suc r) in
      let s = split_composition_offset offset in
      let bounds = take_of-bounds offset r in
      let place = (split_composition_offset_lem offset).0 in
      let found : files.read s.0 s.1 t ≡ ok (tabulate content offset t) =
        slices s.0 s.1 t bounds.2 (omega (arith, place, bounds, inside))
        ∙ ap (λ a. ok (tabulate content a t)) place in
      rw (found, length-tabulate content offset t, le→leb t t (omega arith), read_loop) refl

  read_loop-flat :
      (fuel offset remaining : ℕ) (out : Bytes)
      → remaining ≤ fuel
      → offset + remaining ≤ total
      → read_loop files fuel offset remaining out ≡ ok (out ++ tabulate content offset remaining)
  unfolding read_loop
  read_loop-flat zero offset zero out enough inside = ap ok (sym (append-nil out))
  read_loop-flat zero offset (suc r) out enough inside = absurd (omega (arith, enough))
  read_loop-flat (suc fuel) offset zero out enough inside = ap ok (sym (append-nil out))
  read_loop-flat (suc fuel) offset (suc r) out enough inside =
      let t = take_of offset (suc r) in
      let bounds = take_of-bounds offset r in
      round fuel offset r out inside
      ∙ (read_loop-flat fuel (offset + t) (suc r - t) (out ++ tabulate content offset t)
            (omega (arith, enough, bounds)) (omega (arith, inside, bounds))
          ∙ ap ok (
              append_assoc out (tabulate content offset t)
                (tabulate content (offset + t) (suc r - t))
              ∙ ap (◌++◌ out) (
                  tabulate-add content offset t (suc r - t)
                  ∙ same_tabulate content offset offset (t + (suc r - t)) (suc r) refl
                      (omega (arith, bounds)))))

  -- Where the sub-files hold one sequence of bytes, a range within it is read as it stands there,
  -- over as many sub-files as it crosses.
  pub read_at-flat :
      (offset n : ℕ) → offset + n ≤ total → read_at files offset n ≡ ok (tabulate content offset n)
  unfolding read_at
  read_at-flat offset n inside = read_loop-flat n offset n [] (omega arith) inside
