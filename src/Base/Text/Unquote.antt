-- ===== src/Base/Text/Unquote.antt =====
-- `bytes.decode("utf-8")` and `unquote(text, errors="strict")` of the standard library. A decoding
-- error stands for UnicodeDecodeError.
use Prim.Native.Nat.{ℕ, zero, suc, ◌+◌, ◌-◌, ◌*◌, ◌%◌, ◌<◌}
use mathlib.Core.Bool.{Bool, true, false, ◌&&◌}
use mathlib.Core.List.{[], ◌∷◌, ◌++◌}
use mathlib.Core.Logic.{inl, inr}
use mathlib.Core.Option.{Option, none, some}
use mathlib.Core.Path.{◌≡◌, refl, sym}
use apm_repo_sdk_python.Base.Bytes.{Bytes}
use apm_repo_sdk_python.Base.Lists.{All}
use apm_repo_sdk_python.Base.Tests.{ltb, leb, lt→ltb, ◌==◌, if◌then◌else◌, Bool-cases}
use apm_repo_sdk_python.Base.Text.{Text}
use apm_repo_sdk_python.Errors.{
  Result, ok, raise, Error, ◌>>=◌, ◌>>◌, ensure, ValueOr, ValueOr-bind, ValueOr-ensure,
}

-- How many bytes a character still needs, between which bounds the next of them is, and the bits
-- read so far.
pub record Utf8State : Type 0 where
  pub needs : ℕ
  pub low : ℕ
  pub high : ℕ
  pub point : ℕ

abbrev pub start : Utf8State
start = record { needs = 0; low = 0x80; high = 0xbf; point = 0 }

abbrev within : ℕ → ℕ → ℕ → Bool
within low high b = leb low b && leb b high

abbrev lead : ℕ → ℕ → ℕ → ℕ → Result (Utf8State × Text)
lead needs low high point = ok (record { needs = needs; low = low; high = high; point = point }, [])

-- The first byte of a character; no surrogate, no overlong form and nothing above U+10FFFF.
utf8_first : ℕ → Result (Utf8State × Text)
utf8_first b =
    if ltb b 0x80
    then ok (start, b ∷ [])
    else if within 0xc2 0xdf b
    then lead 1 0x80 0xbf (b - 0xc0)
    else if b == 0xe0
    then lead 2 0xa0 0xbf 0
    else if b == 0xed
    then lead 2 0x80 0x9f 0xd
    else if within 0xe1 0xef b
    then lead 2 0x80 0xbf (b - 0xe0)
    else if b == 0xf0
    then lead 3 0x90 0xbf 0
    else if within 0xf1 0xf3 b
    then lead 3 0x80 0xbf (b - 0xf0)
    else if b == 0xf4
    then lead 3 0x80 0x8f 4
    else raise Error.value_error

utf8_next : Utf8State → ℕ → Result (Utf8State × Text)
utf8_next s b = do
  ensure (within s.low s.high b) Error.value_error
  let point = s.point * 64 + b % 64
  (if s.needs == 1 then ok (start, point ∷ []) else lead (s.needs - 1) 0x80 0xbf point)

utf8_step : Utf8State → ℕ → Result (Utf8State × Text)
unfolding utf8_first utf8_next
utf8_step s b = if s.needs == 0 then utf8_first b else utf8_next s b

unfoldable pub utf8_from : Utf8State → Bytes → Result Text
unfolding utf8_step
utf8_from s [] = do ensure (s.needs == 0) Error.value_error; ok []
utf8_from s (b ∷ bs) = do
  (next, point) ← utf8_step s b
  rest ← utf8_from next bs
  ok (point ++ rest)

unfoldable pub utf8_decode : Bytes → Result Text
unfolding utf8_from
utf8_decode bs = utf8_from start bs

-- The value of a hexadecimal digit, in either case.
unfoldable pub hex_digit : ℕ → Option ℕ
hex_digit c =
    if within 48 57 c
    then some (c - 48)
    else if within 65 70 c
    then some (c - 55)
    else if within 97 102 c
    then some (c - 87)
    else none

-- The byte of an escape whose `%` has been read.
unfoldable pub escaped : Text → Option ℕ
unfolding hex_digit
escaped (h ∷ l ∷ _) = elim (hex_digit h) [
  | none ↦ none
  | some x ↦ elim (hex_digit l) [ none ↦ none | some y ↦ some (x * 16 + y) ]
]
escaped _ = none

-- What an ASCII character adds to the bytes of its run, and how many characters after it belong
-- to it: an escape is one byte, and a `%` without two digits stands for itself.
unfoldable pub run_step : ℕ → Text → ℕ × ℕ
unfolding escaped
run_step c cs = if c == 37 then elim (escaped cs) [ none ↦ (c, 0) | some b ↦ (b, 2) ] else (c, 0)

-- From the bytes of the current run of ASCII characters, with `skip` characters that belong to an
-- escape. Each run is decoded by itself; a character outside ASCII ends it.
unfoldable pub unquote_from : Bytes → ℕ → Text → Result Text
unfolding run_step
unquote_from run skip [] = utf8_decode run
unquote_from run (suc skip) (c ∷ cs) = unquote_from run skip cs
unquote_from run zero (c ∷ cs) = elim (ltb c 0x80) [
  | true ↦ let (b, skip) = run_step c cs in unquote_from (run ++ (b ∷ [])) skip cs
  | false ↦ do text ← utf8_decode run; rest ← unquote_from [] 0 cs; ok (text ++ (c ∷ rest))
]

unfoldable pub unquote : Text → Result Text
unfolding unquote_from
unquote text = unquote_from [] 0 text

-- Decoding gives a text or ValueError.
ValueOr-if :
    {A : Type 0} (b : Bool) {r s : Result A} → ValueOr r → ValueOr s → ValueOr (if b then r else s)
ValueOr-if true h k = h
ValueOr-if false h k = k

utf8_first-ValueOr : (b : ℕ) → ValueOr (utf8_first b)
unfolding utf8_first
utf8_first-ValueOr b = ValueOr-if (ltb b 0x80) (ValueOr.value _) (
    ValueOr-if (within 0xc2 0xdf b) (ValueOr.value _) (
      ValueOr-if (b == 0xe0) (ValueOr.value _) (
        ValueOr-if (b == 0xed) (ValueOr.value _) (
          ValueOr-if (within 0xe1 0xef b) (ValueOr.value _) (
            ValueOr-if (b == 0xf0) (ValueOr.value _) (
              ValueOr-if (within 0xf1 0xf3 b) (ValueOr.value _)
                (ValueOr-if (b == 0xf4) (ValueOr.value _) ValueOr.refused)))))))

utf8_step-ValueOr : (s : Utf8State) (b : ℕ) → ValueOr (utf8_step s b)
unfolding utf8_step utf8_next
utf8_step-ValueOr s b = ValueOr-if (s.needs == 0) (utf8_first-ValueOr b) (
    ValueOr-bind (ValueOr-ensure (within s.low s.high b))
      (λ _. ValueOr-if (s.needs == 1) (ValueOr.value _) (ValueOr.value _)))

utf8_from-ValueOr : (s : Utf8State) (bs : Bytes) → ValueOr (utf8_from s bs)
unfolding utf8_from
utf8_from-ValueOr s [] = ValueOr-bind (ValueOr-ensure (s.needs == 0)) (λ _. ValueOr.value [])
utf8_from-ValueOr s (b ∷ bs) =
    ValueOr-bind (utf8_step-ValueOr s b)
      (λ step. ValueOr-bind (utf8_from-ValueOr step.0 bs) (λ rest. ValueOr.value _))

utf8_decode-ValueOr : (bs : Bytes) → ValueOr (utf8_decode bs)
unfolding utf8_decode
utf8_decode-ValueOr bs = utf8_from-ValueOr start bs

unquote_from-ValueOr : (run : Bytes) (skip : ℕ) (cs : Text) → ValueOr (unquote_from run skip cs)
unfolding unquote_from
unquote_from-ValueOr run skip [] = utf8_decode-ValueOr run
unquote_from-ValueOr run (suc skip) (c ∷ cs) = unquote_from-ValueOr run skip cs
unquote_from-ValueOr run zero (c ∷ cs) = elim (Bool-cases (ltb c 0x80)) [
  | inl e ↦
      rw (unquote_from, e)
        (unquote_from-ValueOr (run ++ ((run_step c cs).0 ∷ [])) (run_step c cs).1 cs)
  | inr e ↦
      rw (unquote_from, e)
        (ValueOr-bind (utf8_decode-ValueOr run)
          (λ text. ValueOr-bind (unquote_from-ValueOr [] 0 cs) (λ rest. ValueOr.value _)))
]

pub unquote-ValueOr : (text : Text) → ValueOr (unquote text)
unfolding unquote
unquote-ValueOr text = unquote_from-ValueOr [] 0 text

-- ASCII bytes decode to themselves.
abbrev pub IsAscii : ℕ → Type 0
IsAscii b = b < 0x80

utf8_decode-unfold : (bs : Bytes) → utf8_decode bs ≡ utf8_from start bs
unfolding utf8_decode
utf8_decode-unfold bs = refl

pub utf8_decode-ascii : (bs : Bytes) → All IsAscii bs → utf8_decode bs ≡ ok bs
unfolding utf8_decode utf8_from utf8_step utf8_first
utf8_decode-ascii [] h = refl
utf8_decode-ascii (b ∷ bs) h =
    rw (lt→ltb b 128 h.0, sym (utf8_decode-unfold bs), utf8_decode-ascii bs h.1) refl
