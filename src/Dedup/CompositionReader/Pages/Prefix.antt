-- ===== src/Dedup/CompositionReader/Pages/Prefix.antt =====
-- dedup/composition_reader.py: the pages whose ends are known without a gap.
use mathlib.Core.Path.{subst}
use apm_repo_sdk_python.Base.{
  ℕ, zero, suc, ◌+◌, ◌≤◌, ◌<◌, ◌≡◌, ◌≢◌, refl, sym, ap, ◌∙◌, arith, Bool, true, false, Option-cases,
  inl, inr, none, some, ◌==◌, ==_iff, if◌then◌else◌, nat_deceq, ℕ_discrete, some_none,
}
use apm_repo_sdk_python.Base.Bytes.{Bytes}
use apm_repo_sdk_python.Base.Dict.{
  Dict, lookup, insert, lookup-insert_hit, lookup-insert_miss, lookup-insert_kept,
}
use apm_repo_sdk_python.Dedup.CompositionReader.Pages.{
  page_count, PageEnds, absorb, note_end, note_page_end,
}
use apm_repo_sdk_python.Errors.{Result, ok, raise, ◌>>=◌, ok-cancel}
use apm_repo_sdk_python.Format.ChunkMap.{ChunkMapEntry, parse_chunk_map_record, end_offset}

-- Every page of the prefix is known, the one after it is not, and only pages of the array are.
pub record IsPrefix (map_num : ℕ) (known : PageEnds) : Type 0 where
  pub covered : (i : ℕ) → i < known.scanned → lookup i known.end_offsets ≢ none
  pub gap : lookup known.scanned known.end_offsets ≡ none
  pub within : (i : ℕ) → lookup i known.end_offsets ≢ none → i < page_count map_num

absorb-stop : (fuel n : ℕ) (ends : Dict ℕ ℕ) → lookup n ends ≡ none → absorb (suc fuel) ends n ≡ n
unfolding absorb
absorb-stop fuel n ends e = rw (e, absorb) refl

absorb-go :
    (fuel n v : ℕ) (ends : Dict ℕ ℕ)
    → lookup n ends ≡ some v
    → absorb (suc fuel) ends n ≡ absorb fuel ends (n + 1)
unfolding absorb
absorb-go fuel n v ends e = rw (e, absorb) refl

-- Where the loop ends.
abbrev IsEnd : Dict ℕ ℕ → ℕ → Type 0
IsEnd ends n = ((i : ℕ) → i < n → lookup i ends ≢ none) × (lookup n ends ≡ none)

absorb-IsEnd :
    (fuel n bound : ℕ) (ends : Dict ℕ ℕ)
    → ((i : ℕ) → lookup i ends ≢ none → i < bound)
    → ((i : ℕ) → i < n → lookup i ends ≢ none)
    → bound ≤ n + fuel
    → IsEnd ends (absorb fuel ends n)
unfolding absorb
absorb-IsEnd zero n bound ends within covered enough = elim (Option-cases (lookup n ends)) [
  | inl e ↦ (covered, e)
  | inr (v, e) ↦ absurd (omega (arith, enough, within n (λ p. some_none (sym e ∙ p))))
]
absorb-IsEnd (suc fuel) n bound ends within covered enough = elim (Option-cases (lookup n ends)) [
  | inl e ↦ subst (IsEnd ends) (sym (absorb-stop fuel n ends e)) (covered, e)
  | inr (v, e) ↦ subst (IsEnd ends) (sym (absorb-go fuel n v ends e)) (
      absorb-IsEnd fuel (n + 1) bound ends within
        (λ i h. elim (ℕ_discrete n i) [
          | yes p ↦ λ q. some_none (sym e ∙ (ap (λ j. lookup j ends) p ∙ q))
          | no d ↦ covered i (omega (arith, h, d))
        ])
        (omega (arith, enough)))
]

either_IsEnd :
    (ends : Dict ℕ ℕ) (b : Bool) (x y : ℕ)
    → (b ≡ true → IsEnd ends x)
    → (b ≡ false → IsEnd ends y)
    → IsEnd ends (if b then x else y)
either_IsEnd ends true x y h k = h refl
either_IsEnd ends false x y h k = k refl

not_same : (a b : ℕ) → (a == b) ≡ false → a ≢ b
not_same a b e p = ground arith

module _ (map_num : ℕ) (known : PageEnds) (page_idx offset : ℕ) (v : IsPrefix map_num known) where
  within_noted :
      page_idx < page_count map_num
      → (i : ℕ) → lookup i (insert page_idx offset known.end_offsets) ≢ none
      → i < page_count map_num
  within_noted inside i h = elim (ℕ_discrete page_idx i) [
    | yes p ↦ subst (λ j. j < page_count map_num) p inside
    | no d ↦ v.within i (λ e. h (lookup-insert_miss page_idx i offset known.end_offsets d ∙ e))
  ]

  covered_noted :
      page_idx ≡ known.scanned
      → (i : ℕ) → i < known.scanned + 1
      → lookup i (insert page_idx offset known.end_offsets) ≢ none
  covered_noted same i h = elim (ℕ_discrete page_idx i) [
    | yes p ↦ λ e. some_none (sym (lookup-insert_hit page_idx i offset known.end_offsets p) ∙ e)
    | no d ↦
        lookup-insert_kept page_idx i offset known.end_offsets
          (v.covered i (omega (arith, h, d, same)))
  ]

  note_end-IsPrefix :
      page_idx < page_count map_num → IsPrefix map_num (note_end map_num known page_idx offset)
  unfolding note_end
  note_end-IsPrefix inside =
      let ends = insert page_idx offset known.end_offsets in
      let past = absorb (page_count map_num) ends (known.scanned + 1) in
      let end : IsEnd ends (if page_idx == known.scanned then past else known.scanned) =
        either_IsEnd ends (page_idx == known.scanned) past known.scanned
          (λ e.
            absorb-IsEnd (page_count map_num) (known.scanned + 1) (page_count map_num) ends
              (within_noted inside) (covered_noted ((==_iff page_idx known.scanned).0 e))
              (omega arith))
          (λ e. (
            (λ i h. lookup-insert_kept page_idx i offset known.end_offsets (v.covered i h)),
            lookup-insert_miss page_idx known.scanned offset known.end_offsets
                  (not_same page_idx known.scanned e)
                ∙ v.gap,
          )) in
      record { covered = end.0; gap = end.1; within = within_noted inside }

-- Noting the end of a page keeps the known prefix the longest one without a gap, in whatever order
-- the pages come: every page of it is known, and the one after it is not.
pub note_page_end-IsPrefix :
    (map_num : ℕ) (known : PageEnds) (page_idx : ℕ) (last_record : Bytes) (noted : PageEnds)
    → IsPrefix map_num known
    → page_idx < page_count map_num
    → note_page_end map_num known page_idx last_record ≡ ok noted
    → IsPrefix map_num noted
unfolding note_page_end
note_page_end-IsPrefix map_num known page_idx last_record noted v inside e =
    noted_from (parse_chunk_map_record last_record) e
  where
    noted_from :
        (r : Result ChunkMapEntry)
        → (r >>= λ entry. ok (note_end map_num known page_idx (end_offset entry))) ≡ ok noted
        → IsPrefix map_num noted
    noted_from (ok entry) d =
        subst (IsPrefix map_num) (ok-cancel d)
          (note_end-IsPrefix map_num known page_idx (end_offset entry) v inside)
    noted_from (raise error) d = cc
