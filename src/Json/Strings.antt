-- ===== src/Json/Strings.antt =====
-- src/protocol/BrokerProtocol.cpp: JsonReader::String on what AppendJsonString writes.
use launch_as.Base.{
  ℕ, zero, suc, ◌+◌, ◌-◌, ◌*◌, ◌/◌, ◌%◌, ◌^◌, ◌≤◌, ◌<◌, ◌≡◌, refl, sym, ap, ◌∙◌, some, List, [],
  ◌∷◌, ◌++◌, Bytes, Wide, All, length, length-append, arith, ok, append_assoc, append-nil,
}
use native.Mathlib.Decide.{dec_lt}
use launch_as.Utf8.{Win32Text, utf8_to_wide, int_max}
use launch_as.Utf8.Encoding.{IsScalar, IsStrict, utf8_char, utf16_char, utf8, utf16}
use launch_as.Json.{string_loop, string, skip_whitespace, expect, unicode_escape, code_point}
use launch_as.Json.Writer.{hex_digit, json_char, json_chars, json_string}
use launch_as.Json.Escapes.{append_utf8_code_point_lem, read_unicode_escape_unit}

abbrev hex_unit : ℕ → Bytes → Bytes
hex_unit c s =
    hex_digit (c / 2 ^ 12 % 16)
    ∷ hex_digit (c / 2 ^ 8 % 16)
    ∷ hex_digit (c / 2 ^ 4 % 16)
    ∷ hex_digit (c % 16)
    ∷ s

-- An escape of one code unit, and one of a pair of surrogates.
unicode_escape_single :
    (c : ℕ) (s output : Bytes)
    → c < 2 ^ 16
    → IsScalar c
    → unicode_escape (hex_unit c s) output ≡ ok (output ++ utf8_char c, s)
unfolding unicode_escape code_point
unicode_escape_single c s output h scalar =
    ground (arith, read_unicode_escape_unit c s, append_utf8_code_point_lem c output)

unicode_escape_pair :
    (high low : ℕ) (s output : Bytes)
    → high < 1024
    → low < 1024
    → unicode_escape (hex_unit (0xD800 + high) (b'\\' ∷ b'u' ∷ hex_unit (0xDC00 + low) s)) output
      ≡ ok (output ++ utf8_char (0x10000 + high * 1024 + low), s)
unfolding unicode_escape code_point
unicode_escape_pair high low s output h l = ground (
  arith,
  read_unicode_escape_unit (0xD800 + high) (b'\\' ∷ b'u' ∷ hex_unit (0xDC00 + low) s),
  read_unicode_escape_unit (0xDC00 + low) s,
  append_utf8_code_point_lem (0x10000 + high * 1024 + low) output,
)

-- One turn of the loop reads what was written for one code point.
step_single :
    (fuel c : ℕ) (s output : Bytes)
    → c < 2 ^ 16
    → IsScalar c
    → string_loop (suc fuel) (json_char c ++ s) output ≡ string_loop fuel s (output ++ utf8_char c)
unfolding string_loop json_char
step_single fuel c s output h scalar = ground (arith, unicode_escape_single c s output)

json_char-surrogate : (c : ℕ) → 0xD800 ≤ c → json_char c ≡ b'\\' ∷ b'u' ∷ hex_unit c []
unfolding json_char
json_char-surrogate c h = ground arith

step_escape :
    (fuel : ℕ) (s output s' output' : Bytes)
    → unicode_escape s output ≡ ok (output', s')
    → string_loop (suc fuel) (b'\\' ∷ b'u' ∷ s) output ≡ string_loop fuel s' output'
unfolding string_loop
step_escape fuel s output s' output' e = ground arith

step_pair :
    (fuel high low : ℕ) (s output : Bytes)
    → high < 1024
    → low < 1024
    → string_loop (suc fuel) (json_char (0xD800 + high) ++ (json_char (0xDC00 + low) ++ s)) output
      ≡ string_loop fuel s (output ++ utf8_char (0x10000 + high * 1024 + low))
step_pair fuel high low s output h l =
    rw
      (
        json_char-surrogate (0xD800 + high) (omega arith),
        json_char-surrogate (0xDC00 + low) (omega arith),
      )
      (step_escape fuel _ output s _ (unicode_escape_pair high low s output h l))

-- What is written for the code points `cs`, and the bytes it takes.
json_chars-append : (v w : Wide) → json_chars (v ++ w) ≡ json_chars v ++ json_chars w
unfolding json_chars
json_chars-append [] w = refl
json_chars-append (c ∷ v) w = rw (json_chars-append v w) (sym (append_assoc (json_char c) _ _))

IsScalar-lt : (c : ℕ) → IsScalar c → c < 0x110000
IsScalar-lt c h = omega arith

utf16_char-small : (c : ℕ) → c < 0x10000 → utf16_char c ≡ c ∷ []
utf16_char-small c h = ground arith

utf16_char-large :
    (c : ℕ)
    → 0x10000 ≤ c
    → utf16_char c ≡ (0xD800 + (c - 0x10000) / 1024) ∷ (0xDC00 + (c - 0x10000) % 1024) ∷ []
utf16_char-large c h = ground arith

json_chars-single : (c : ℕ) → json_chars (c ∷ []) ≡ json_char c
unfolding json_chars
json_chars-single c = append-nil (json_char c)

json_chars-double : (c d : ℕ) → json_chars (c ∷ d ∷ []) ≡ json_char c ++ json_char d
unfolding json_chars
json_chars-double c d = ap (◌++◌ (json_char c)) (append-nil (json_char d))

rejoin : (c : ℕ) → 0x10000 ≤ c → 0x10000 + (c - 0x10000) / 1024 * 1024 + (c - 0x10000) % 1024 ≡ c
rejoin c h = omega arith

step_char :
    (fuel c : ℕ) (s output : Bytes)
    → IsScalar c
    → string_loop (suc fuel) (json_chars (utf16_char c) ++ s) output
      ≡ string_loop fuel s (output ++ utf8_char c)
step_char fuel c s output scalar = elim (dec_lt c 0x10000) [
  | yes small ↦
      rw (utf16_char-small c small, json_chars-single) (step_single fuel c s output small scalar)
  | no large ↦
      rw (utf16_char-large c (omega arith), json_chars-double, append_assoc)
        (step_pair fuel ((c - 0x10000) / 1024) ((c - 0x10000) % 1024) s output
            (omega (arith, IsScalar-lt c scalar)) (omega arith)
          ∙ ap (λ x. string_loop fuel s (output ++ utf8_char x)) (rejoin c (omega arith)))
]

json_chars-reads :
    (cs : List ℕ) (fuel : ℕ) (rest output : Bytes)
    → All IsScalar cs
    → length cs < fuel
    → string_loop fuel (json_chars (utf16 cs) ++ b'"' ∷ rest) output ≡ ok (output ++ utf8 cs, rest)
json_chars-reads cs zero rest output scalars h = absurd (omega arith)
json_chars-reads [] (suc fuel) rest output scalars h =
    rw append-nil (unfold json_chars string_loop in refl)
json_chars-reads (c ∷ cs) (suc fuel) rest output (scalar, scalars) h =
    rw (json_chars-append (utf16_char c) (utf16 cs), append_assoc, step_char fuel c _ output scalar)
      (json_chars-reads cs fuel rest (output ++ utf8_char c) scalars (omega arith)
        ∙ ap (λ t. ok (t, rest)) (append_assoc output (utf8_char c) (utf8 cs)))

json_char_pos : (c : ℕ) → 0 < length (json_char c)
unfolding json_char
json_char_pos c = ground arith

length-json_chars : (v : Wide) → length v ≤ length (json_chars v)
unfolding json_chars
length-json_chars [] = omega arith
length-json_chars (c ∷ v) =
    omega (arith, length-append (json_char c) (json_chars v), json_char_pos c, length-json_chars v)

length-utf16 : (cs : List ℕ) → length cs ≤ length (utf16 cs)
length-utf16 [] = omega arith
length-utf16 (c ∷ cs) = ground (arith, length-append (utf16_char c) (utf16 cs), length-utf16 cs)

length-written :
    (cs : List ℕ) (rest : Bytes) → length cs < length (json_chars (utf16 cs) ++ b'"' ∷ rest)
length-written cs rest = omega (
  arith,
  length-append (json_chars (utf16 cs)) (b'"' ∷ rest),
  length-json_chars (utf16 cs),
  length-utf16 cs,
)

length-utf8_pos : (c : ℕ) (cs : List ℕ) → 0 < length (utf8 (c ∷ cs))
length-utf8_pos c cs = ground (arith, length-append (utf8_char c) (utf8 cs))

module _ (win32 : Win32Text) (strict : IsStrict win32) where
  utf8_to_wide_converts :
      (bytes : Bytes) (w : Wide)
      → 0 < length bytes
      → length bytes ≤ int_max
      → 0 < length w
      → win32.multi_byte_to_wide_char bytes ≡ some w
      → utf8_to_wide win32 bytes ≡ some w
  unfolding utf8_to_wide
  utf8_to_wide_converts [] w h k l e = absurd (omega arith)
  utf8_to_wide_converts (b ∷ bytes) [] h k l e = absurd (omega arith)
  utf8_to_wide_converts (b ∷ bytes) (c ∷ w) h k l e = ground arith

  utf8_to_wide-utf8 :
      (cs : List ℕ)
      → All IsScalar cs
      → length (utf8 cs) ≤ int_max
      → utf8_to_wide win32 (utf8 cs) ≡ some (utf16 cs)
  utf8_to_wide-utf8 [] scalars h = unfold utf8_to_wide in refl
  utf8_to_wide-utf8 (c ∷ cs) scalars h =
      utf8_to_wide_converts (utf8 (c ∷ cs)) (utf16 (c ∷ cs)) (length-utf8_pos c cs) h
        (omega (arith, length-utf16 (c ∷ cs))) (strict.decodes c cs scalars h)

  -- A text that AppendJsonString wrote is read back, up to its closing quote.
  pub string-json_string :
      (cs : List ℕ) (rest : Bytes)
      → All IsScalar cs
      → length (utf8 cs) ≤ int_max
      → string win32 (json_string (utf16 cs) ++ rest) ≡ ok (utf16 cs, rest)
  unfolding string json_string skip_whitespace expect
  string-json_string cs rest scalars h =
      rw (append_assoc (json_chars (utf16 cs)) (b'"' ∷ []) rest) (
        rw (
          json_chars-reads cs _ rest [] scalars (length-written cs rest),
          utf8_to_wide-utf8 cs scalars h,
        ))
