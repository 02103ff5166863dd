-- ===== src/Json/Texts.antt =====
-- src/protocol/BrokerProtocol.cpp: the texts between AppendJsonString and JsonReader::String, and
-- their lengths.
use launch_as.Base.{
  ℕ, ◌+◌, ◌*◌, ◌^◌, ◌≤◌, ◌≡◌, refl, ap, inl, Bool, true, ◌&&◌, List, [], ◌∷◌, ◌++◌, arith, ltb, leb,
  Bytes, Wide, length, all_of, All, length-append, ok,
}
use launch_as.Utf8.{Win32Text}
use launch_as.Utf8.Encoding.{IsScalar, IsUtf16, IsStrict, utf8_char, utf16_char, utf8, utf16}
use launch_as.Json.{string}
use launch_as.Json.Writer.{json_char, json_chars, json_string}
use launch_as.Json.Strings.{string-json_string}

-- A text short enough for every conversion.
abbrev pub IsText : Wide → Type 0
IsText w = IsUtf16 w × (length w ≤ 2 ^ 16)

length-utf8_char : (c : ℕ) → length (utf8_char c) ≤ 3 * length (utf16_char c)
length-utf8_char c = ground arith

length-utf8 : (cs : List ℕ) → length (utf8 cs) ≤ 3 * length (utf16 cs)
length-utf8 [] = omega arith
length-utf8 (c ∷ cs) = omega (
  arith,
  length-append (utf8_char c) (utf8 cs),
  length-append (utf16_char c) (utf16 cs),
  length-utf8_char c,
  length-utf8 cs,
)

-- Where the Win32 conversions are strict, what AppendJsonString writes for a well-formed text of
-- at most 65536 code units is read back by String, which leaves what follows it.
pub string-written :
    (win32 : Win32Text) (strict : IsStrict win32) (w : Wide) (rest : Bytes)
    → IsText w
    → string win32 (json_string w ++ rest) ≡ ok (w, rest)
string-written win32 strict w rest (u, short) = rw u.spells (
    string-json_string win32 strict u.scalars rest u.are_scalars
      (omega (arith, length-utf8 u.scalars, ap length u.spells)))

abbrev pub is_ascii : ℕ → Bool
is_ascii c = ltb c 0x80

ascii_scalars : (w : Wide) → all_of is_ascii w ≡ true → All IsScalar w
ascii_scalars [] h = tt
ascii_scalars (c ∷ w) h = (inl (ground arith), ascii_scalars w (ground arith))

utf16-ascii : (w : Wide) → all_of is_ascii w ≡ true → w ≡ utf16 w
utf16-ascii [] h = refl
utf16-ascii (c ∷ w) h = ground (arith, utf16-ascii w)

pub ascii-IsUtf16 : (w : Wide) → all_of is_ascii w ≡ true → IsUtf16 w
ascii-IsUtf16 w h = record {
  scalars = w;
  are_scalars = ascii_scalars w h;
  spells = utf16-ascii w h;
}

-- A literal is checked by evaluation.
abbrev pub is_literal : Wide → Bool
is_literal w = all_of is_ascii w && leb (length w) (2 ^ 16)

pub literal-IsText : (w : Wide) → is_literal w ≡ true → IsText w
literal-IsText w h = (ascii-IsUtf16 w (ground arith), ground arith)

length-json_char : (c : ℕ) → length (json_char c) ≤ 6
unfolding json_char
length-json_char c = ground arith

length-json_chars-le : (w : Wide) → length (json_chars w) ≤ 6 * length w
unfolding json_chars
length-json_chars-le [] = omega arith
length-json_chars-le (c ∷ w) =
    omega (
      arith,
      length-append (json_char c) (json_chars w),
      length-json_char c,
      length-json_chars-le w,
    )

pub length-json_string : (w : Wide) → length (json_string w) ≤ 6 * length w + 2
unfolding json_string
length-json_string w =
    omega (arith, length-append (json_chars w) (b'"' ∷ []), length-json_chars-le w)
