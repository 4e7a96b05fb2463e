-- ===== src/Tests/Refs.antt =====
-- units/node_ref.py at concrete addresses.
use apm_repo_sdk_python.Base.{◌≡◌, ◌≢◌, refl, arith, [], ◌∷◌}
use apm_repo_sdk_python.Base.Decimal.{join, str}
use apm_repo_sdk_python.Base.Text.{code_points}
use apm_repo_sdk_python.Errors.{ok}
use apm_repo_sdk_python.Units.Node.{NodeRef}
use apm_repo_sdk_python.Units.Ref.{
  parse, ref_text, encode_segment, child, canonical_ref, human_ref, extra_segments,
}
use apm_repo_sdk_python.Units.Ref.RoundTrip.{parse-ref_text}
use apm_repo_sdk_python.Units.Ref.Refusals.{Parsed, parse-Parsed}

-- A display name that starts with `@` and holds a `#`, under a folder's name with a `/`.
abbrev odd_ref : NodeRef
odd_ref = human_ref (code_points "vault") (code_points "@a#1" ∷ code_points "b/c" ∷ [])

abbrev mail_ref : NodeRef
mail_ref =
    child (canonical_ref (code_points "vault") (code_points "1") 2 (code_points "uid") [])
      (code_points "100%" ∷ [])

odd_text : ref_text odd_ref ≡ code_points "vault#%40a%231/b%2Fc"
unfolding ref_text encode_segment human_ref join code_points
odd_text = refl

mail_text : ref_text mail_ref ≡ code_points "vault#@cat:1/wl:2/ver:uid/100%25"
unfolding ref_text encode_segment canonical_ref child str join code_points
mail_text = refl

mail_extra : extra_segments mail_ref ≡ code_points "100%" ∷ []
unfolding extra_segments canonical_ref child
mail_extra = refl

two_parts : code_points "@a#1" ∷ code_points "b/c" ∷ [] ≢ [] ∷ []
two_parts e = cc

parse-ref_text_example : parse (ref_text odd_ref) ≡ ok odd_ref
unfolding human_ref code_points
parse-ref_text_example =
    parse-ref_text odd_ref
      ((omega arith, (omega arith, (omega arith, (omega arith, (omega arith, tt))))), two_parts)

parse-Parsed_example : Parsed (code_points "vault#a%2") (parse (code_points "vault#a%2"))
parse-Parsed_example = parse-Parsed (code_points "vault#a%2")
