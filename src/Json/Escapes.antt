-- ===== src/Json/Escapes.antt =====
-- The escapes of AppendJsonString and of JsonReader, in plain arithmetic.
use launch_as.Base.{
  ℕ, zero, suc, ◌+◌, ◌*◌, ◌/◌, ◌%◌, ◌^◌, ◌<◌, bit_or, ◌≡◌, refl, Bool, true, ◌&&◌, some, ◌∷◌, ◌++◌,
  Bytes, arith, ◌==◌, ==_iff, ok,
}
use launch_as.Utf8.Encoding.{utf8_char}
use launch_as.Json.{add_digit, hex_value, hex_digits, read_unicode_escape, append_utf8_code_point}
use launch_as.Json.Writer.{hex_digit}

-- A test that evaluation settles for the numbers under a bound.
passes : (ℕ → Bool) → ℕ → Bool
passes test zero = true
passes test (suc bound) = passes test bound && test bound

passes_at : (test : ℕ → Bool) (bound c : ℕ) → passes test bound ≡ true → c < bound → test c ≡ true
unfolding passes
passes_at test zero c h lt = ground arith
passes_at test (suc bound) c h lt = ground (arith, passes_at test bound c)

-- A mask over bits that are clear adds.
abbrev Adds : ℕ → ℕ → Type 0
Adds mask n = passes (λ x. bit_or mask x == mask + x) n ≡ true

bit_or-add : (mask n x : ℕ) → Adds mask n → x < n → bit_or mask x ≡ mask + x
bit_or-add mask n x h lt = (==_iff _ _).0 (passes_at _ n x h lt)

lead_two : (x : ℕ) → x < 32 → bit_or 0xC0 x ≡ 0xC0 + x
unfolding passes
lead_two x = bit_or-add 0xC0 32 x refl

lead_three : (x : ℕ) → x < 16 → bit_or 0xE0 x ≡ 0xE0 + x
unfolding passes
lead_three x = bit_or-add 0xE0 16 x refl

lead_four : (x : ℕ) → x < 8 → bit_or 0xF0 x ≡ 0xF0 + x
unfolding passes
lead_four x = bit_or-add 0xF0 8 x refl

tail_byte : (x : ℕ) → x < 64 → bit_or 0x80 x ≡ 0x80 + x
unfolding passes
tail_byte x = bit_or-add 0x80 64 x refl

-- AppendUtf8CodePoint appends the UTF-8 encoding of every code point below 0x110000.
pub append_utf8_code_point_lem :
    (c : ℕ) (output : Bytes)
    → c < 0x110000
    → append_utf8_code_point c output ≡ output ++ utf8_char c
unfolding append_utf8_code_point
append_utf8_code_point_lem c output h = ground (
  arith,
  lead_two (c / 64),
  lead_three (c / 4096),
  lead_four (c / 0x40000),
  tail_byte (c % 64),
  tail_byte (c / 64 % 64),
  tail_byte (c / 4096 % 64),
)

digit_table : passes (λ v. passes (λ d. bit_or (v * 16 % 2 ^ 32) d == v * 16 + d) 16) 4096 ≡ true
unfolding passes
digit_table = refl

add_digit_lem : (v d : ℕ) → v < 4096 → d < 16 → add_digit v d ≡ v * 16 + d
unfolding add_digit
add_digit_lem v d hv hd = (==_iff _ _).0 (passes_at _ 16 d (passes_at _ 4096 v digit_table hv) hd)

hex_value-hex_digit : (d : ℕ) → d < 16 → hex_value (hex_digit d) ≡ some d
unfolding hex_value hex_digit
hex_value-hex_digit d h = ground arith

hex_digits_step :
    (n v d : ℕ) (s : Bytes)
    → v < 4096
    → d < 16
    → hex_digits (suc n) v (hex_digit d ∷ s) ≡ hex_digits n (v * 16 + d) s
unfolding hex_digits
hex_digits_step n v d s hv hd = rw (hex_value-hex_digit d hd, add_digit_lem v d hv hd)

hex_digits_done : (v : ℕ) (s : Bytes) → hex_digits zero v s ≡ ok (v, s)
unfolding hex_digits
hex_digits_done v s = refl

-- Four hexadecimal digits are read back.
pub read_unicode_escape_lem :
    (a b c d : ℕ) (s : Bytes)
    → a < 16
    → b < 16
    → c < 16
    → d < 16
    → read_unicode_escape (hex_digit a ∷ hex_digit b ∷ hex_digit c ∷ hex_digit d ∷ s)
      ≡ ok (((a * 16 + b) * 16 + c) * 16 + d, s)
unfolding read_unicode_escape
read_unicode_escape_lem a b c d s ha hb hc hd = ground (
  arith,
  hex_digits_step 3 0 a (hex_digit b ∷ hex_digit c ∷ hex_digit d ∷ s),
  hex_digits_step 2 a b (hex_digit c ∷ hex_digit d ∷ s),
  hex_digits_step 1 (a * 16 + b) c (hex_digit d ∷ s),
  hex_digits_step 0 ((a * 16 + b) * 16 + c) d s,
  hex_digits_done (((a * 16 + b) * 16 + c) * 16 + d) s,
)

-- The four digits of a code unit give it back.
pub read_unicode_escape_unit :
    (c : ℕ) (s : Bytes)
    → c < 2 ^ 16
    → read_unicode_escape (
        hex_digit (c / 2 ^ 12 % 16)
        ∷ hex_digit (c / 2 ^ 8 % 16)
        ∷ hex_digit (c / 2 ^ 4 % 16)
        ∷ hex_digit (c % 16)
        ∷ s)
      ≡ ok (c, s)
read_unicode_escape_unit c s h =
    ground (
      arith,
      read_unicode_escape_lem (c / 2 ^ 12 % 16) (c / 2 ^ 8 % 16) (c / 2 ^ 4 % 16) (c % 16) s,
    )
