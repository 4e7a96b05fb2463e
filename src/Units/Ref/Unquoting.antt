-- ===== src/Units/Ref/Unquoting.antt =====
-- units/node_ref.py: a segment is decoded to what it encodes.
use mathlib.Core.List.{append_assoc, append-nil}
use apm_repo_sdk_python.Base.{
  ℕ, suc, ◌+◌, ◌*◌, ◌/◌, ◌%◌, ◌<◌, ◌≡◌, ◌≢◌, refl, sym, ap, ◌∙◌, arith, true, false, Bool-cases,
  inl, inr, List, [], ◌∷◌, ◌++◌, some, All, All-append, ltb, ltb→lt, ◌==◌,
}
use apm_repo_sdk_python.Base.Bytes.{Bytes}
use apm_repo_sdk_python.Base.Text.{Text}
use apm_repo_sdk_python.Base.Text.Unquote.{
  IsAscii, hex_digit, escaped, run_step, unquote_from, unquote, utf8_decode, utf8_decode-ascii,
}
use apm_repo_sdk_python.Errors.{ok}
use apm_repo_sdk_python.Units.Ref.{
  slash, percent, machine_sigil, is_reserved, hex_char, encode_segment, decode_segment, encode_all,
  escape_sigil, raw_head, decode_all,
}

pub true_neq_false : true ≡ false → ⊥
true_neq_false p = cc

hex_digit-hex_char : (d : ℕ) → d < 16 → hex_digit (hex_char d) ≡ some d
unfolding hex_digit
hex_digit-hex_char d h = ground (arith, h)

escaped-digits :
    (h l x y : ℕ) (rest : Text)
    → hex_digit h ≡ some x
    → hex_digit l ≡ some y
    → escaped (h ∷ l ∷ rest) ≡ some (x * 16 + y)
unfolding escaped
escaped-digits h l x y rest e f = rw (e, f, escaped) refl

escaped-hex_char :
    (c : ℕ) (rest : Text)
    → c < 128
    → escaped (hex_char (c / 16) ∷ hex_char (c % 16) ∷ rest) ≡ some c
escaped-hex_char c rest h =
    escaped-digits _ _ (c / 16) (c % 16) rest (hex_digit-hex_char (c / 16) (omega (arith, h)))
      (hex_digit-hex_char (c % 16) (omega arith))
    ∙ ap some (omega arith)

run_step-escape : (cs : Text) (b : ℕ) → escaped cs ≡ some b → run_step 37 cs ≡ (b, 2)
unfolding run_step
run_step-escape cs b e = rw (e, run_step) refl

run_step-plain : (c : ℕ) (cs : Text) → (c == 37) ≡ false → run_step c cs ≡ (c, 0)
unfolding run_step
run_step-plain c cs e = rw (e, run_step) refl

unquote_from-ascii :
    (run : Bytes) (c b k : ℕ) (cs : Text)
    → ltb c 128 ≡ true
    → run_step c cs ≡ (b, k)
    → unquote_from run 0 (c ∷ cs) ≡ unquote_from (run ++ (b ∷ [])) k cs
unfolding unquote_from
unquote_from-ascii run c b k cs e f = rw (e, f, unquote_from) refl

unquote_from-other :
    (run : Bytes) (c : ℕ) (cs t u : Text)
    → ltb c 128 ≡ false
    → utf8_decode run ≡ ok t
    → unquote_from [] 0 cs ≡ ok u
    → unquote_from run 0 (c ∷ cs) ≡ ok (t ++ (c ∷ u))
unfolding unquote_from
unquote_from-other run c cs t u e f g = rw (e, f, g, unquote_from) refl

unquote_from-skip :
    (run : Bytes) (k c : ℕ) (cs : Text) → unquote_from run (suc k) (c ∷ cs) ≡ unquote_from run k cs
unfolding unquote_from
unquote_from-skip run k c cs = refl

unquote_from-end : (run : Bytes) → unquote_from run 0 [] ≡ utf8_decode run
unfolding unquote_from
unquote_from-end run = refl

-- An escape is the byte of its two digits.
pub unquote_from-escape :
    (run : Bytes) (c : ℕ) (cs : Text)
    → c < 128
    → unquote_from run 0 (percent ∷ hex_char (c / 16) ∷ hex_char (c % 16) ∷ cs)
      ≡ unquote_from (run ++ (c ∷ [])) 0 cs
unquote_from-escape run c cs h =
    unquote_from-ascii run percent c 2 _ refl (run_step-escape _ c (escaped-hex_char c cs h))
    ∙ (unquote_from-skip _ 1 _ _ ∙ unquote_from-skip _ 0 _ _)

pub reserved-ascii : (c : ℕ) → is_reserved c ≡ true → c < 128
reserved-ascii c h = ground (arith, h)

unreserved-percent : (c : ℕ) → is_reserved c ≡ false → (c == 37) ≡ false
unreserved-percent c h = ground (arith, h)

pub unreserved-slash : (c : ℕ) → is_reserved c ≡ false → c ≢ slash
unreserved-slash c h = ground (arith, h)

All-IsAscii : (run : Bytes) (c : ℕ) → All IsAscii run → c < 128 → All IsAscii (run ++ (c ∷ []))
All-IsAscii run c h k = All-append IsAscii run (c ∷ []) h (k, tt)

-- What is encoded is decoded, behind any run of ASCII bytes.
pub unquote_from-encode :
    (run : Bytes) (s : Text)
    → All IsAscii run
    → unquote_from run 0 (encode_segment s) ≡ ok (run ++ s)
unfolding encode_segment
unquote_from-encode run [] h =
    unquote_from-end run ∙ (utf8_decode-ascii run h ∙ ap ok (sym (append-nil run)))
unquote_from-encode run (c ∷ s) h = elim (Bool-cases (is_reserved c)) [
  | inl r ↦
      let ascii = reserved-ascii c r in
      rw r (
        unquote_from-escape run c (encode_segment s) ascii
        ∙ (unquote_from-encode (run ++ (c ∷ [])) s (All-IsAscii run c h ascii)
            ∙ ap ok (append_assoc run (c ∷ []) s)))
  | inr r ↦ elim (Bool-cases (ltb c 128)) [
    | inl a ↦ rw r (
        unquote_from-ascii run c c 0 (encode_segment s) a
          (run_step-plain c (encode_segment s) (unreserved-percent c r))
        ∙ (unquote_from-encode (run ++ (c ∷ [])) s (All-IsAscii run c h (ltb→lt c 128 a))
            ∙ ap ok (append_assoc run (c ∷ []) s)))
    | inr a ↦ rw r (
        unquote_from-other run c (encode_segment s) run s a (utf8_decode-ascii run h)
          (unquote_from-encode [] s tt))
  ]
]

pub decode-encode : (s : Text) → decode_segment (encode_segment s) ≡ ok s
unfolding decode_segment unquote
decode-encode s = unquote_from-encode [] s tt

pub encoded_raw : encode_segment raw_head ≡ raw_head
unfolding encode_segment
encoded_raw = refl

pub unescaped :
    (c : ℕ) (s : Text)
    → (c == machine_sigil) ≡ false
    → escape_sigil (encode_segment (c ∷ s)) ≡ encode_segment (c ∷ s)
unfolding encode_segment
unescaped c s e = elim (Bool-cases (is_reserved c)) [ inl r ↦ rw r refl | inr r ↦ rw r (rw e refl) ]

pub decode_all-encode_all : (ss : List Text) → decode_all (encode_all ss) ≡ ok ss
unfolding decode_all encode_all
decode_all-encode_all [] = refl
decode_all-encode_all (s ∷ ss) = rw (decode-encode s, decode_all-encode_all ss) refl
