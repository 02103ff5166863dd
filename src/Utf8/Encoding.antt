-- ===== src/Utf8/Encoding.antt =====
-- The standard encodings of a Unicode text, and what the Win32 conversions promise about them.
use launch_as.Base.{
  ℕ, ◌+◌, ◌-◌, ◌/◌, ◌%◌, ◌≤◌, ◌<◌, ◌≡◌, ◌≢◌, ◌⊎◌, true, none, some, List, [], ◌∷◌, ◌++◌, arith, ltb,
  if◌then◌else◌, Bytes, Wide, length, All,
}
use launch_as.Utf8.{Win32Text, int_max, is_valid_utf16, converts}

-- A scalar value is a code point that is no surrogate.
abbrev pub IsScalar : ℕ → Type 0
IsScalar c = (c < 0xD800) ⊎ ((0xE000 ≤ c) × (c < 0x110000))

-- UTF-8 of one code point (RFC 3629).
abbrev pub utf8_char : ℕ → Bytes
utf8_char c =
    if ltb c 0x80
    then c ∷ []
    else if ltb c 0x800
    then (0xC0 + c / 64) ∷ (0x80 + c % 64) ∷ []
    else if ltb c 0x10000
    then (0xE0 + c / 4096) ∷ (0x80 + c / 64 % 64) ∷ (0x80 + c % 64) ∷ []
    else (0xF0 + c / 0x40000) ∷ (0x80 + c / 4096 % 64) ∷ (0x80 + c / 64 % 64) ∷ (0x80 + c % 64) ∷ []

-- UTF-16 of one code point (RFC 2781).
abbrev pub utf16_char : ℕ → Wide
utf16_char c =
    if ltb c 0x10000
    then c ∷ []
    else (0xD800 + (c - 0x10000) / 1024) ∷ (0xDC00 + (c - 0x10000) % 1024) ∷ []

abbrev pub utf8 : List ℕ → Bytes
utf8 [] = []
utf8 (c ∷ cs) = utf8_char c ++ utf8 cs

abbrev pub utf16 : List ℕ → Wide
utf16 [] = []
utf16 (c ∷ cs) = utf16_char c ++ utf16 cs

-- A UTF-16 text that is well formed: no surrogate stands alone.
pub record IsUtf16 (w : Wide) : Type 0 where
  pub scalars : List ℕ
  pub are_scalars : All IsScalar scalars
  pub spells : w ≡ utf16 scalars

-- What MSDN documents of MultiByteToWideChar and WideCharToMultiByte for CP_UTF8 with the strict
-- flags: well-formed UTF-8 is converted to the UTF-16 of the same text, and UTF-16 is converted
-- only if it is well formed.
pub record IsStrict (win32 : Win32Text) : Type 0 where
  pub decodes :
      (c : ℕ) (cs : List ℕ)
      → All IsScalar (c ∷ cs)
      → length (utf8 (c ∷ cs)) ≤ int_max
      → win32.multi_byte_to_wide_char (utf8 (c ∷ cs)) ≡ some (utf16 (c ∷ cs))
  pub refuses_lone :
      (w : Wide) (bytes : Bytes) → win32.wide_char_to_multi_byte w ≡ some bytes → IsUtf16 w

pub is_valid_utf16_converts :
    (win32 : Win32Text) (c : ℕ) (w : Wide)
    → is_valid_utf16 win32 (c ∷ w) ≡ true
    → win32.wide_char_to_multi_byte (c ∷ w) ≢ none
unfolding is_valid_utf16 converts
is_valid_utf16_converts win32 c w h e = ground (arith, h, e)
