-- ===== src/Units/Ref.antt =====
-- units/node_ref.py: the address of a node as a text, and its parse.
pub mod Unquoting
pub mod Joined
pub mod RoundTrip
pub mod Refusals
use apm_repo_sdk_python.Base.{
  ℕ, ◌+◌, ◌-◌, ◌*◌, ◌/◌, ◌%◌, Bool, true, false, ◌||◌, List, [], ◌∷◌, ◌++◌, Option, none, some, ltb,
  ◌==◌, if◌then◌else◌, drop, ite, ◌⊎◌, inl, inr,
}
use apm_repo_sdk_python.Base.Bytes.{bytes_discrete}
use apm_repo_sdk_python.Base.Decimal.{join, str}
use apm_repo_sdk_python.Base.Text.{Text}
use apm_repo_sdk_python.Base.Text.Split.{split_on, cut_at}
use apm_repo_sdk_python.Base.Text.Unquote.{unquote}
use apm_repo_sdk_python.Errors.{Result, ok, raise, Error, ◌>>=◌}
use apm_repo_sdk_python.Units.Node.{NodeRef, RefKind}

-- `#`, `/`, `%` and `@`.
abbrev pub hash : ℕ
hash = 35

abbrev pub slash : ℕ
slash = 47

abbrev pub percent : ℕ
percent = 37

abbrev pub machine_sigil : ℕ
machine_sigil = 64

-- `ch in _RESERVED or code < 0x20 or code == 0x7F`.
abbrev pub is_reserved : ℕ → Bool
is_reserved c = c == hash || c == slash || c == percent || ltb c 0x20 || c == 0x7f

-- A digit of `%X`.
abbrev pub hex_char : ℕ → ℕ
hex_char d = if ltb d 10 then 48 + d else 55 + d

-- A reserved character is below 128, so its UTF-8 is one byte.
unfoldable pub encode_segment : Text → Text
encode_segment [] = []
encode_segment (c ∷ cs) =
    let rest = encode_segment cs in
    if is_reserved c then percent ∷ hex_char (c / 16) ∷ hex_char (c % 16) ∷ rest else c ∷ rest

-- A text that is no UTF-8 is refused with ValueError.
unfoldable pub decode_segment : Text → Result Text
decode_segment segment = unquote segment

unfoldable pub encode_all : List Text → List Text
encode_all [] = []
encode_all (s ∷ ss) = encode_segment s ∷ encode_all ss

abbrev pub is_human : RefKind → Bool
is_human RefKind.canonical = false
is_human RefKind.raw = false
is_human RefKind.human = true

-- `%40` in place of a leading `@`.
abbrev pub escape_sigil : Text → Text
escape_sigil [] = []
escape_sigil (c ∷ cs) = if c == machine_sigil then percent ∷ 52 ∷ 48 ∷ cs else c ∷ cs

-- `__str__`.
unfoldable pub ref_text : NodeRef → Text
unfolding encode_all
ref_text ref =
    let encoded = join slash (encode_all ref.segments) in
    ref.repo_path
    ++ (hash ∷ (if is_human ref.kind then escape_sigil encoded else machine_sigil ∷ encoded))

-- `raw` and `cat:`.
abbrev pub raw_head : Text
raw_head = 114 ∷ 97 ∷ 119 ∷ []

abbrev pub cat_prefix : Text
cat_prefix = 99 ∷ 97 ∷ 116 ∷ 58 ∷ []

abbrev pub starts_with : Text → Text → Bool
starts_with [] text = true
starts_with (p ∷ ps) [] = false
starts_with (p ∷ ps) (c ∷ cs) = if p == c then starts_with ps cs else false

-- `fragment.split("/", 1)[0]`.
abbrev pub head_of : Text → Text
head_of fragment = elim (cut_at slash fragment) [ none ↦ fragment | some (head, _) ↦ head ]

-- The kind of a fragment without its `@`.
abbrev pub machine_kind : Text → Result RefKind
machine_kind fragment = ite (bytes_discrete (head_of fragment) raw_head) (ok RefKind.raw) (
    if starts_with cat_prefix (head_of fragment)
    then ok RefKind.canonical
    else raise Error.value_error)

unfoldable pub decode_all : List Text → Result (List Text)
unfolding decode_segment
decode_all [] = ok []
decode_all (part ∷ parts) = do s ← decode_segment part; ss ← decode_all parts; ok (s ∷ ss)

abbrev pub segments_of : Text → Result (List Text)
segments_of [] = ok []
segments_of (c ∷ cs) = decode_all (split_on slash (c ∷ cs))

-- The kind of a fragment, and what is left of it to split.
abbrev pub fragment_kind : Text → Result (RefKind × Text)
fragment_kind [] = ok (RefKind.human, [])
fragment_kind (c ∷ cs) =
    if c == machine_sigil
    then (machine_kind cs >>= λ kind. ok (kind, cs))
    else ok (RefKind.human, c ∷ cs)

unfoldable pub parse : Text → Result NodeRef
unfolding decode_all
parse text = elim (cut_at hash text) [
  | none ↦ raise Error.value_error
  | some (repo_path, fragment) ↦ do
    (kind, left) ← fragment_kind fragment
    segments ← segments_of left
    ok (record { repo_path = repo_path; segments = segments; kind = kind })
]

-- `coerce`: a reference, or the text of one.
unfoldable pub coerce : Text ⊎ NodeRef → Result NodeRef
unfolding parse
coerce (inl text) = parse text
coerce (inr ref) = ok ref

unfoldable pub extra_segments : NodeRef → List Text
extra_segments ref = elim ref.kind [
  | RefKind.canonical ↦ drop 3 ref.segments
  | RefKind.raw ↦ drop 1 ref.segments
  | RefKind.human ↦ ref.segments
]

-- `NodeRef.canonical`; a workload's id is a number that is not negative.
unfoldable pub canonical_ref : Text → Text → ℕ → Text → List Text → NodeRef
unfolding str
canonical_ref repo_path catalog_id workload_id version_uid extra = record {
  repo_path = repo_path;
  segments =
      (cat_prefix ++ catalog_id)
      ∷ (119 ∷ 108 ∷ 58 ∷ str workload_id)
      ∷ (118 ∷ 101 ∷ 114 ∷ 58 ∷ version_uid)
      ∷ extra;
  kind = RefKind.canonical;
}

unfoldable pub raw_ref : Text → Text → NodeRef
raw_ref repo_path file_map_path = record {
  repo_path = repo_path;
  segments = raw_head ∷ split_on slash file_map_path;
  kind = RefKind.raw;
}

unfoldable pub human_ref : Text → List Text → NodeRef
human_ref repo_path names = record { repo_path = repo_path; segments = names; kind = RefKind.human }

unfoldable pub child : NodeRef → List Text → NodeRef
child ref extra = record ref { segments = ref.segments ++ extra }
