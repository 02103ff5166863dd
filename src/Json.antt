-- ===== src/Json.antt =====
-- src/protocol/BrokerProtocol.cpp: the class JsonReader with the templates ReadObject and
-- ReadStringArray, and AppendJsonString.
--
-- A reader's state is what is left of the input. Where a method fails, the object is given up by
-- every caller, but for `Consume`: that leaves the whitespace skipped, which the next call skips
-- anyway. A loop takes as fuel the length of the text that is left.
pub mod Escapes
pub mod Invariants
pub mod Numbers
pub mod Arrays
pub mod Objects
pub mod Progress
pub mod Strings
pub mod Texts
pub mod Members
pub mod Termination
pub mod Writer
use launch_as.Base.{
  ℕ, zero, suc, ◌+◌, ◌-◌, ◌*◌, ◌/◌, ◌%◌, ◌^◌, bit_or, Bool, true, false, not, ◌&&◌, ◌||◌, Option,
  none, some, List, [], ◌∷◌, ◌++◌, String, Bytes, Wide, codes, length, drop, starts_with, ltb, leb,
  ◌==◌, within, if◌then◌else◌, Outcome, ok, rejected, stuck, ◌>>=◌, ◌>>◌, guard, or_reject,
}
use launch_as.Utf8.{Win32Text, utf8_to_wide}

abbrev is_space : ℕ → Bool
is_space c = c == b' ' || c == b'\n' || c == b'\r' || c == b'\t'

pub skip_whitespace : Bytes → Bytes
skip_whitespace [] = []
skip_whitespace (c ∷ s) = if is_space c then skip_whitespace s else c ∷ s

at_end : Bytes → Bool
at_end [] = true
at_end (c ∷ s) = false

pub end : Bytes → Bool
unfolding at_end
end s = at_end (skip_whitespace s)

expect : ℕ → Bytes → Option Bytes
expect expected [] = none
expect expected (c ∷ s) = if c == expected then some s else none

pub consume : ℕ → Bytes → Option Bytes
unfolding expect
consume expected s = expect expected (skip_whitespace s)

-- value <<= 4; value |= digit
add_digit : ℕ → ℕ → ℕ
add_digit value digit = bit_or (value * 16 % 2 ^ 32) digit

hex_value : ℕ → Option ℕ
hex_value c =
    if within b'0' b'9' c
    then some (c - b'0')
    else if within b'a' b'f' c
    then some (c - b'a' + 10)
    else if within b'A' b'F' c
    then some (c - b'A' + 10)
    else none

hex_digits : ℕ → ℕ → Bytes → Outcome (ℕ × Bytes)
hex_digits zero value s = ok (value, s)
hex_digits (suc index) value [] = rejected
hex_digits (suc index) value (c ∷ s) = do
  digit ← or_reject (hex_value c)
  hex_digits index (add_digit value digit) s

pub read_unicode_escape : Bytes → Outcome (ℕ × Bytes)
read_unicode_escape s = if ltb (length s) 4 then rejected else hex_digits 4 0 s

-- x >> n is x / 2 ^ n, and x & 0x3F is x % 64.
pub append_utf8_code_point : ℕ → Bytes → Bytes
append_utf8_code_point c output =
    if ltb c 0x80
    then output ++ c ∷ []
    else if ltb c 0x800
    then output ++ bit_or 0xC0 (c / 2 ^ 6) ∷ bit_or 0x80 (c % 64) ∷ []
    else if ltb c 0x10000
    then output
      ++ bit_or 0xE0 (c / 2 ^ 12) ∷ bit_or 0x80 (c / 2 ^ 6 % 64) ∷ bit_or 0x80 (c % 64) ∷ []
    else output
      ++ bit_or 0xF0 (c / 2 ^ 18)
        ∷ bit_or 0x80 (c / 2 ^ 12 % 64)
        ∷ bit_or 0x80 (c / 2 ^ 6 % 64)
        ∷ bit_or 0x80 (c % 64)
        ∷ []

-- The two characters behind a high surrogate.
low_escape : Bytes → Outcome Bytes
low_escape (a ∷ b ∷ s) = if a == b'\\' && b == b'u' then ok s else rejected
low_escape _ = rejected

-- value = 0x10000 + ((value - 0xD800) << 10) + (lowSurrogate - 0xDC00)
pair_value : ℕ → ℕ → ℕ
pair_value high low = 0x10000 + (high - 0xD800) * 2 ^ 10 + (low - 0xDC00)

-- The code point of an escape whose first half is `value`.
code_point : ℕ → Bytes → Outcome (ℕ × Bytes)
unfolding low_escape pair_value
code_point value s =
    let pair : Outcome (ℕ × Bytes) = do
      s' ← low_escape s
      (low, rest) ← read_unicode_escape s'
      guard (within 0xDC00 0xDFFF low)
      ok (pair_value value low, rest)
    in if within 0xD800 0xDBFF value
      then pair
      else if within 0xDC00 0xDFFF value
      then rejected
      else ok (value, s)

pub unicode_escape : Bytes → Bytes → Outcome (Bytes × Bytes)
unicode_escape s output = do
  (value, s') ← read_unicode_escape s
  (c, rest) ← code_point value s'
  ok (append_utf8_code_point c output, rest)

-- The switch on the character behind a backslash.
pub escape : ℕ → Bytes → Bytes → Outcome (Bytes × Bytes)
escape c s utf8 =
    if c == b'"' || c == b'\\' || c == b'/'
    then ok (utf8 ++ c ∷ [], s)
    else if c == b'b'
    then ok (utf8 ++ 8 ∷ [], s)
    else if c == b'f'
    then ok (utf8 ++ 12 ∷ [], s)
    else if c == b'n'
    then ok (utf8 ++ b'\n' ∷ [], s)
    else if c == b'r'
    then ok (utf8 ++ b'\r' ∷ [], s)
    else if c == b't'
    then ok (utf8 ++ b'\t' ∷ [], s)
    else if c == b'u'
    then unicode_escape s utf8
    else rejected

-- What follows a backslash; the input must not end there.
escaped : Bytes → Bytes → Outcome (Bytes × Bytes)
unfolding escape
escaped [] utf8 = rejected
escaped (c ∷ s) utf8 = escape c s utf8

-- The loop of `String` behind the opening quote: the UTF-8 of the text, and what follows the
-- closing quote.
pub string_loop : ℕ → Bytes → Bytes → Outcome (Bytes × Bytes)
unfolding escaped
string_loop fuel [] utf8 = rejected
string_loop zero (c ∷ s) utf8 = stuck
string_loop (suc fuel) (c ∷ s) utf8 =
    let plain = string_loop fuel s (utf8 ++ c ∷ []) in
    let special = escaped s utf8 >>= λ (utf8', rest). string_loop fuel rest utf8' in
    if c == b'"'
    then ok (utf8, s)
    else if ltb c 0x20
    then rejected
    else if not (c == b'\\')
    then plain
    else special

module _ (win32 : Win32Text) where
  pub string : Bytes → Outcome (Wide × Bytes)
  string s = do
    s' ← or_reject (expect b'"' (skip_whitespace s))
    (utf8, rest) ← string_loop (length s') s' []
    text ← or_reject (utf8_to_wide win32 utf8)
    ok (text, rest)

abbrev is_digit : ℕ → Bool
is_digit = within b'0' b'9'

-- The digits in front of `s` continue the number `value`.
pub digits_loop : ℕ → Bytes → ℕ × Bytes
digits_loop value [] = (value, [])
digits_loop value (c ∷ s) =
    let more = digits_loop (value * 10 + (c - b'0')) s in
    if is_digit c then more else (value, c ∷ s)

unsigned_digits : Bytes → Outcome (ℕ × Bytes)
unsigned_digits [] = rejected
unsigned_digits (c ∷ s) = do
  guard (is_digit c)
  let read = digits_loop 0 (c ∷ s)
  guard (ltb read.0 (2 ^ 32))
  ok read

-- `unsigned long` has 32 bits, and `std::from_chars` reports a number beyond them.
pub unsigned : Bytes → Outcome (ℕ × Bytes)
unfolding unsigned_digits
unsigned s = unsigned_digits (skip_whitespace s)

boolean_word : Bytes → Outcome (Bool × Bytes)
boolean_word s =
    if starts_with (codes "true") s
    then ok (true, drop 4 s)
    else if starts_with (codes "false") s
    then ok (false, drop 5 s)
    else rejected

pub boolean : Bytes → Outcome (Bool × Bytes)
unfolding boolean_word
boolean s = boolean_word (skip_whitespace s)
