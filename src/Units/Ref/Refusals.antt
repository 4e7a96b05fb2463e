-- ===== src/Units/Ref/Refusals.antt =====
-- units/node_ref.py: what `parse` refuses, and what it says of the text that it takes.
use mathlib.Core.Path.{subst}
use apm_repo_sdk_python.Base.{
  ◌≡◌, refl, sym, Bool, true, false, Option-cases, inl, inr, List, [], ◌∷◌, ◌++◌, none, some, ◌==◌,
  ite, if◌then◌else◌,
}
use apm_repo_sdk_python.Base.Bytes.{bytes_discrete}
use apm_repo_sdk_python.Base.Text.{Text}
use apm_repo_sdk_python.Base.Text.Split.{split_on, cut_at, Without, cut_at-parts, cut_at-Without}
use apm_repo_sdk_python.Base.Text.Unquote.{unquote-ValueOr}
use apm_repo_sdk_python.Errors.{Result, ok, raise, Error, ◌>>=◌, ValueOr, ValueOr-bind}
use apm_repo_sdk_python.Units.Node.{NodeRef}
use apm_repo_sdk_python.Units.Ref.{
  hash, slash, machine_sigil, raw_head, cat_prefix, starts_with, head_of, machine_kind,
  decode_segment, decode_all, segments_of, fragment_kind, parse,
}

decode_segment-ValueOr : (s : Text) → ValueOr (decode_segment s)
unfolding decode_segment
decode_segment-ValueOr s = unquote-ValueOr s

decode_all-ValueOr : (parts : List Text) → ValueOr (decode_all parts)
unfolding decode_all
decode_all-ValueOr [] = ValueOr.value []
decode_all-ValueOr (part ∷ parts) =
    ValueOr-bind (decode_segment-ValueOr part)
      (λ s. ValueOr-bind (decode_all-ValueOr parts) (λ ss. ValueOr.value (s ∷ ss)))

segments_of-ValueOr : (left : Text) → ValueOr (segments_of left)
segments_of-ValueOr [] = ValueOr.value []
segments_of-ValueOr (c ∷ cs) = decode_all-ValueOr (split_on slash (c ∷ cs))

either {ℓ} :
    {A : Type ℓ} {P : Type 0} (d : Dec P) {r s : Result A}
    → ValueOr r
    → ValueOr s
    → ValueOr (ite d r s)
either (yes _) h k = h
either (no _) h k = k

branch {ℓ} :
    {A : Type ℓ} (b : Bool) {r s : Result A} → ValueOr r → ValueOr s → ValueOr (if b then r else s)
branch true h k = h
branch false h k = k

machine_kind-ValueOr : (fragment : Text) → ValueOr (machine_kind fragment)
machine_kind-ValueOr fragment =
    either (bytes_discrete (head_of fragment) raw_head) (ValueOr.value _)
      (branch (starts_with cat_prefix (head_of fragment)) (ValueOr.value _) ValueOr.refused)

fragment_kind-ValueOr : (fragment : Text) → ValueOr (fragment_kind fragment)
fragment_kind-ValueOr [] = ValueOr.value _
fragment_kind-ValueOr (c ∷ cs) =
    branch (c == machine_sigil) (ValueOr-bind (machine_kind-ValueOr cs) (λ kind. ValueOr.value _))
      (ValueOr.value _)

-- A text without `#` is refused; one with a `#` is cut at the first, and is refused for what comes
-- after it or gives a reference whose path is what comes before.
pub data Parsed : Text → Result NodeRef → Type 0 where
  no_hash : (text : Text) → Without hash text → Parsed text (raise Error.value_error)
  bad_fragment :
      (path fragment : Text)
      → Without hash path
      → Parsed (path ++ (hash ∷ fragment)) (raise Error.value_error)
  reference :
      (fragment : Text) (ref : NodeRef)
      → Without hash ref.repo_path
      → Parsed (ref.repo_path ++ (hash ∷ fragment)) (ok ref)

abbrev from_fragment : Text → Text → Result NodeRef
from_fragment path fragment = fragment_kind fragment >>= λ k.
    segments_of k.1 >>= λ ss. ok (record { repo_path = path; segments = ss; kind = k.0 })

parse-none : (text : Text) → cut_at hash text ≡ none → parse text ≡ raise Error.value_error
unfolding parse
parse-none text e = rw (parse, e) refl

parse-some :
    (text : Text) (p : Text × Text) → cut_at hash text ≡ some p → parse text ≡ from_fragment p.0 p.1
unfolding parse
parse-some text p e = rw (parse, e) refl

-- A value or ValueError whose values all have the path.
data Of : Text → Result NodeRef → Type 0 where
  of_value : (ref : NodeRef) → Of ref.repo_path (ok ref)
  of_error : (path : Text) → Of path (raise Error.value_error)

Of-bind {ℓ} :
    {A : Type ℓ} {path : Text} {r : Result A} {f : A → Result NodeRef}
    → ValueOr r
    → ((a : A) → Of path (f a))
    → Of path (r >>= f)
Of-bind (ValueOr.value a) h = h a
Of-bind ValueOr.refused h = Of.of_error _

from_fragment-Of : (path fragment : Text) → Of path (from_fragment path fragment)
from_fragment-Of path fragment =
    Of-bind (fragment_kind-ValueOr fragment)
      (λ k. Of-bind (segments_of-ValueOr k.1) (λ ss. Of.of_value _))

Of-Parsed :
    (path fragment : Text) (r : Result NodeRef)
    → Without hash path
    → Of path r
    → Parsed (path ++ (hash ∷ fragment)) r
Of-Parsed _ fragment _ h (Of.of_value ref) = Parsed.reference fragment ref h
Of-Parsed _ fragment _ h (Of.of_error path) = Parsed.bad_fragment path fragment h

-- `parse` raises no exception but ValueError. A text without `#` is refused; any other is a path
-- without `#`, a `#` and the rest, and gives a reference to that path, or ValueError.
pub parse-Parsed : (text : Text) → Parsed text (parse text)
parse-Parsed text = elim (Option-cases (cut_at hash text)) [
  | inl e ↦
      subst (Parsed text) (sym (parse-none text e))
        (Parsed.no_hash text (cut_at-Without hash text e))
  | inr (p, e) ↦
      let parts = cut_at-parts hash text p e in
      subst (Parsed text) (sym (parse-some text p e)) (
        subst (λ t. Parsed t (from_fragment p.0 p.1)) (sym parts.0)
          (Of-Parsed p.0 p.1 (from_fragment p.0 p.1) parts.1 (from_fragment-Of p.0 p.1)))
]
