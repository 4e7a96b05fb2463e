-- ===== src/Units/Ref/Joined.antt =====
-- units/node_ref.py: encoded segments between slashes are split again.
use apm_repo_sdk_python.Base.{
  ℕ, ◌/◌, ◌%◌, ◌<◌, ◌≡◌, ◌≢◌, refl, sym, ap, ◌∙◌, arith, Bool-cases, inl, inr, List, [], ◌∷◌, All,
}
use apm_repo_sdk_python.Base.Decimal.{join}
use apm_repo_sdk_python.Base.Text.{Text}
use apm_repo_sdk_python.Base.Text.Split.{
  split_on, Without, split_on-join, cut_at-first, cut_at-absent,
}
use apm_repo_sdk_python.Units.Ref.{
  slash, is_reserved, hex_char, encode_segment, encode_all, head_of, decode_all, segments_of,
}
use apm_repo_sdk_python.Units.Ref.Unquoting.{reserved-ascii, unreserved-slash}

hex_char-slash : (d : ℕ) → d < 16 → hex_char d ≢ slash
hex_char-slash d h = ground (arith, h)

pub encode-Without : (s : Text) → Without slash (encode_segment s)
unfolding encode_segment
encode-Without [] = tt
encode-Without (c ∷ s) = elim (Bool-cases (is_reserved c)) [
  | inl r ↦ rw r (
    (λ e. absurd (omega (arith, e))),
    (
      hex_char-slash (c / 16) (omega (arith, reserved-ascii c r)),
      (hex_char-slash (c % 16) (omega arith), encode-Without s),
    ),
  )
  | inr r ↦ rw r (unreserved-slash c r, encode-Without s)
]

pub encode_all-Without : (ss : List Text) → All (Without slash) (encode_all ss)
unfolding encode_all
encode_all-Without [] = tt
encode_all-Without (s ∷ ss) = (encode-Without s, encode_all-Without ss)

pub join-cons :
    (c : ℕ) (x : Text) (xs : List Text) → join slash ((c ∷ x) ∷ xs) ≡ c ∷ join slash (x ∷ xs)
unfolding join
join-cons c x [] = refl
join-cons c x (y ∷ ys) = refl

-- Joined parts are split and decoded, unless they are one empty part.
pub segments_of-join :
    (p : Text) (ps : List Text)
    → All (Without slash) (p ∷ ps)
    → (p ∷ ps) ≢ [] ∷ []
    → segments_of (join slash (p ∷ ps)) ≡ decode_all (p ∷ ps)
unfolding join
segments_of-join [] [] h n = absurd (n refl)
segments_of-join [] (q ∷ ps) h n = ap decode_all (split_on-join slash [] (q ∷ ps) h)
segments_of-join (c ∷ p) ps h n =
    ap segments_of (join-cons c p ps)
    ∙ ap decode_all
        (ap (split_on slash) (sym (join-cons c p ps)) ∙ split_on-join slash (c ∷ p) ps h)

pub head_of-join : (p : Text) (ps : List Text) → Without slash p → head_of (join slash (p ∷ ps)) ≡ p
unfolding join
head_of-join p [] h = rw (cut_at-absent slash p h, head_of) refl
head_of-join p (q ∷ ps) h = rw (cut_at-first slash p (join slash (q ∷ ps)) h, head_of) refl
