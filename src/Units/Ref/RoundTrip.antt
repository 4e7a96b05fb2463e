-- ===== src/Units/Ref/RoundTrip.antt =====
-- `parse` reads back what `__str__` prints.
use mathlib.Core.Path.{subst}
use apm_repo_sdk_python.Base.{
  ℕ, ◌≡◌, ◌≢◌, refl, sym, ap, ◌∙◌, arith, Bool, true, false, Bool-cases, inl, inr, List, [], ◌∷◌,
  ◌++◌, All, ==_iff, ◌==◌, if_pos, if_neg, if◌then◌else◌,
}
use apm_repo_sdk_python.Base.Bytes.{bytes_discrete}
use apm_repo_sdk_python.Base.Decimal.{join}
use apm_repo_sdk_python.Base.Text.{Text}
use apm_repo_sdk_python.Base.Text.Split.{Without, cut_at-first}
use apm_repo_sdk_python.Base.Text.Unquote.{unquote}
use apm_repo_sdk_python.Errors.{Result, ok, raise, Error, ok-cancel}
use apm_repo_sdk_python.Units.Node.{NodeRef, RefKind}
use apm_repo_sdk_python.Units.Ref.{
  hash, slash, percent, machine_sigil, is_reserved, encode_segment, decode_segment, encode_all,
  escape_sigil, ref_text, raw_head, cat_prefix, starts_with, machine_kind, decode_all, segments_of,
  fragment_kind, parse,
}
use apm_repo_sdk_python.Units.Ref.Unquoting.{
  true_neq_false, unquote_from-escape, unquote_from-encode, decode-encode, encoded_raw, unescaped,
  decode_all-encode_all,
}
use apm_repo_sdk_python.Units.Ref.Joined.{
  encode-Without, encode_all-Without, join-cons, segments_of-join, head_of-join,
}

-- A first segment as the kind asks for.
abbrev pub Shaped : RefKind → List Text → Type 0
Shaped RefKind.canonical [] = ⊥
Shaped RefKind.canonical (s ∷ ss) = starts_with cat_prefix s ≡ true
Shaped RefKind.raw [] = ⊥
Shaped RefKind.raw (s ∷ ss) = s ≡ raw_head
Shaped RefKind.human ss = ss ≢ [] ∷ []

if_true : (b x : Bool) → (if b then x else false) ≡ true → (b ≡ true) × (x ≡ true)
if_true true x h = (refl, h)
if_true false x h = cc

encode-starts_with :
    (p s : Text)
    → All (λ c. is_reserved c ≡ false) p
    → starts_with p s ≡ true
    → starts_with p (encode_segment s) ≡ true
unfolding encode_segment
encode-starts_with [] s plain h = refl
encode-starts_with (c ∷ p) [] plain h = cc
encode-starts_with (c ∷ p) (d ∷ s) plain h =
    let (same, rest) = if_true (c == d) (starts_with p s) h in
    let d_plain : is_reserved d ≡ false =
      subst (λ x. is_reserved x ≡ false) ((==_iff c d).0 same) plain.0 in
    rw (d_plain, same) (encode-starts_with p s plain.1 rest)

encode-cat :
    (s : Text) → starts_with cat_prefix s ≡ true → starts_with cat_prefix (encode_segment s) ≡ true
encode-cat s h = encode-starts_with cat_prefix s (refl, (refl, (refl, (refl, tt)))) h

not_raw : (s : Text) → starts_with cat_prefix s ≡ true → s ≢ raw_head
not_raw s h e = true_neq_false (sym h ∙ ap (starts_with cat_prefix) e)

abbrev cat_kind : Text → Result RefKind
cat_kind head =
    if starts_with cat_prefix head then ok RefKind.canonical else raise Error.value_error

machine_kind-canonical :
    (s : Text) (ss : List Text)
    → starts_with cat_prefix s ≡ true
    → machine_kind (join slash (encode_all (s ∷ ss))) ≡ ok RefKind.canonical
unfolding encode_all
machine_kind-canonical s ss h =
    let cat = encode-cat s h in
    rw (head_of-join (encode_segment s) (encode_all ss) (encode-Without s)) (
      if_neg (bytes_discrete (encode_segment s) raw_head) (not_raw (encode_segment s) cat)
        (ok RefKind.raw) (cat_kind (encode_segment s))
      ∙ rw cat refl)

machine_kind-raw :
    (s : Text) (ss : List Text)
    → s ≡ raw_head
    → machine_kind (join slash (encode_all (s ∷ ss))) ≡ ok RefKind.raw
unfolding encode_all
machine_kind-raw s ss h = rw (head_of-join (encode_segment s) (encode_all ss) (encode-Without s)) (
    if_pos (bytes_discrete (encode_segment s) raw_head) (ap encode_segment h ∙ encoded_raw)
      (ok RefKind.raw) (cat_kind (encode_segment s)))

escape_sigil-hit :
    (c : ℕ) (x : Text) → (c == machine_sigil) ≡ true → escape_sigil (c ∷ x) ≡ percent ∷ 52 ∷ 48 ∷ x
escape_sigil-hit c x e = rw e refl

escape_sigil-miss : (c : ℕ) (x : Text) → (c == machine_sigil) ≡ false → escape_sigil (c ∷ x) ≡ c ∷ x
escape_sigil-miss c x e = rw e refl

-- The first part of a reference to be read by people.
escape_sigil-join :
    (p : Text) (ps : List Text)
    → escape_sigil (join slash (p ∷ ps)) ≡ join slash (escape_sigil p ∷ ps)
unfolding join
escape_sigil-join [] [] = refl
escape_sigil-join [] (q ∷ ps) = refl
escape_sigil-join (c ∷ p) ps = elim (Bool-cases (c == machine_sigil)) [
  | inl e ↦
      ap escape_sigil (join-cons c p ps)
      ∙ (escape_sigil-hit c (join slash (p ∷ ps)) e
          ∙ (sym (three percent 52 48 p ps)
              ∙ ap (λ z. join slash (z ∷ ps)) (sym (escape_sigil-hit c p e))))
  | inr e ↦
      ap escape_sigil (join-cons c p ps)
      ∙ (escape_sigil-miss c (join slash (p ∷ ps)) e
          ∙ (sym (join-cons c p ps)
              ∙ ap (λ z. join slash (z ∷ ps)) (sym (escape_sigil-miss c p e))))
]
  where
    three :
        (a b d : ℕ) (x : Text) (xs : List Text)
        → join slash ((a ∷ b ∷ d ∷ x) ∷ xs) ≡ a ∷ b ∷ d ∷ join slash (x ∷ xs)
    three a b d x xs =
        join-cons a (b ∷ d ∷ x) xs
        ∙ ap (◌∷◌ a) (join-cons b (d ∷ x) xs ∙ ap (◌∷◌ b) (join-cons d x xs))

sigil_unreserved : (c : ℕ) → (c == machine_sigil) ≡ true → is_reserved c ≡ false
sigil_unreserved c h = ground (arith, h)

decode-escape_sigil : (s : Text) → decode_segment (escape_sigil (encode_segment s)) ≡ ok s
unfolding encode_segment decode_segment unquote
decode-escape_sigil [] = unquote_from-encode [] [] tt
decode-escape_sigil (c ∷ s) = elim (Bool-cases (c == machine_sigil)) [
  | inl e ↦
      rw (sigil_unreserved c e, e)
        (unquote_from-escape [] 64 (encode_segment s) (omega arith)
          ∙ (unquote_from-encode (64 ∷ []) s (omega arith, tt)
              ∙ ap (λ x. ok (x ∷ s)) (sym ((==_iff c 64).0 e))))
  | inr e ↦ kept e
]
  where
    kept :
        (c == machine_sigil) ≡ false
        → decode_segment (escape_sigil (encode_segment (c ∷ s))) ≡ ok (c ∷ s)
    kept e = ap decode_segment (unescaped c s e) ∙ decode-encode (c ∷ s)

fragment_kind-escape_sigil :
    (t : Text) → fragment_kind (escape_sigil t) ≡ ok (RefKind.human, escape_sigil t)
fragment_kind-escape_sigil [] = refl
fragment_kind-escape_sigil (c ∷ cs) = elim (Bool-cases (c == machine_sigil)) [
  | inl e ↦ rw e refl
  | inr e ↦ rw (e) (rw e refl)
]

escape_sigil-Without : (t : Text) → Without slash t → Without slash (escape_sigil t)
escape_sigil-Without [] h = tt
escape_sigil-Without (c ∷ cs) h = elim (Bool-cases (c == machine_sigil)) [
  | inl e ↦ rw e (
    (λ p. absurd (omega (arith, p))),
    ((λ p. absurd (omega (arith, p))), ((λ p. absurd (omega (arith, p))), h.1)),
  )
  | inr e ↦ rw e h
]

-- What a printed reference is read back as: no `#` in its path, a first segment as its kind asks
-- for, and not one empty segment alone.
abbrev pub Printable : NodeRef → Type 0
Printable ref = Without hash ref.repo_path × Shaped ref.kind ref.segments

parse-fragment :
    (path left : Text) (kind : RefKind) (fragment : Text) (ss : List Text)
    → Without hash path
    → fragment_kind fragment ≡ ok (kind, left)
    → segments_of left ≡ ok ss
    → parse (path ++ (hash ∷ fragment))
      ≡ ok (record { repo_path = path; segments = ss; kind = kind })
unfolding parse
parse-fragment path left kind fragment ss h e f =
    rw (cut_at-first hash path fragment h, e, f, parse) refl

decode_empty : decode_all ([] ∷ []) ≡ ok ([] ∷ [])
unfolding decode_all encode_segment
decode_empty = let e : decode_segment [] ≡ ok [] = decode-encode [] in rw e refl

-- Parts that decode to something else than one empty segment are not one empty part.
parts_left : (parts ss : List Text) → decode_all parts ≡ ok ss → ss ≢ [] ∷ [] → parts ≢ [] ∷ []
parts_left parts ss e h p = h (ok-cancel (sym e ∙ (ap decode_all p ∙ decode_empty)))

cat_nonempty : (s : Text) (ss : List Text) → starts_with cat_prefix s ≡ true → (s ∷ ss) ≢ [] ∷ []
cat_nonempty [] ss h e = true_neq_false (sym h)
cat_nonempty (c ∷ s) ss h e = cc

raw_nonempty : (s : Text) (ss : List Text) → s ≡ raw_head → (s ∷ ss) ≢ [] ∷ []
raw_nonempty [] ss h e = cc
raw_nonempty (c ∷ s) ss h e = cc

machine_segments :
    (s : Text) (ss : List Text)
    → (s ∷ ss) ≢ [] ∷ []
    → segments_of (join slash (encode_all (s ∷ ss))) ≡ ok (s ∷ ss)
unfolding encode_all
machine_segments s ss h =
    segments_of-join (encode_segment s) (encode_all ss) (encode_all-Without (s ∷ ss))
      (parts_left (encode_all (s ∷ ss)) (s ∷ ss) (decode_all-encode_all (s ∷ ss)) h)
    ∙ decode_all-encode_all (s ∷ ss)

human_parts :
    (s : Text) (ss : List Text)
    → decode_all (escape_sigil (encode_segment s) ∷ encode_all ss) ≡ ok (s ∷ ss)
unfolding decode_all
human_parts s ss = rw (decode-escape_sigil s, decode_all-encode_all ss) refl

human_segments :
    (s : Text) (ss : List Text)
    → (s ∷ ss) ≢ [] ∷ []
    → segments_of (escape_sigil (join slash (encode_all (s ∷ ss)))) ≡ ok (s ∷ ss)
unfolding encode_all
human_segments s ss h =
    ap segments_of (escape_sigil-join (encode_segment s) (encode_all ss))
    ∙ (segments_of-join (escape_sigil (encode_segment s)) (encode_all ss)
          (escape_sigil-Without (encode_segment s) (encode-Without s), encode_all-Without ss)
          (parts_left _ (s ∷ ss) (human_parts s ss) h)
        ∙ human_parts s ss)

parse-printed :
    (path : Text) (kind : RefKind) (ss : List Text)
    → Without hash path
    → Shaped kind ss
    → parse (ref_text (record { repo_path = path; segments = ss; kind = kind }))
      ≡ ok (record { repo_path = path; segments = ss; kind = kind })
unfolding ref_text encode_all join
parse-printed path RefKind.canonical [] h k = elim k [ ]
parse-printed path RefKind.canonical (s ∷ ss) h k =
    parse-fragment path (join slash (encode_all (s ∷ ss))) RefKind.canonical _ (s ∷ ss) h
      (rw (machine_kind-canonical s ss k) refl) (machine_segments s ss (cat_nonempty s ss k))
parse-printed path RefKind.raw [] h k = elim k [ ]
parse-printed path RefKind.raw (s ∷ ss) h k =
    parse-fragment path (join slash (encode_all (s ∷ ss))) RefKind.raw _ (s ∷ ss) h
      (rw (machine_kind-raw s ss k) refl) (machine_segments s ss (raw_nonempty s ss k))
parse-printed path RefKind.human [] h k = parse-fragment path [] RefKind.human [] [] h refl refl
parse-printed path RefKind.human (s ∷ ss) h k =
    parse-fragment path (escape_sigil (join slash (encode_all (s ∷ ss)))) RefKind.human _ (s ∷ ss) h
      (fragment_kind-escape_sigil (join slash (encode_all (s ∷ ss)))) (human_segments s ss k)

-- A printed reference is read back as it was, where its path has no `#`, its first segment is as its
-- kind asks for, and its segments are not one empty segment alone.
pub parse-ref_text : (ref : NodeRef) → Printable ref → parse (ref_text ref) ≡ ok ref
parse-ref_text ref h = parse-printed ref.repo_path ref.kind ref.segments h.0 h.1
