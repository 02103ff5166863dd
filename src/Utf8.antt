-- ===== src/Utf8.antt =====
-- src/common/Utf8.h: conversions between UTF-8 and UTF-16. The Win32 functions they call are not
-- part of the repository: they are the parameter `Win32Text`.
pub mod Encoding
use launch_as.Base.{
  ℕ, ◌-◌, ◌^◌, Bool, true, false, Option, none, some, Bytes, Wide, [], ◌∷◌, length, ltb, leb,
  if◌then◌else◌, ◌==◌,
}

-- The two conversions with their strict flags (WC_ERR_INVALID_CHARS, MB_ERR_INVALID_CHARS): `none`
-- is the result 0, which reports text that is not well formed.
pub record Win32Text : Type 0 where
  pub wide_char_to_multi_byte : Wide → Option Bytes
  pub multi_byte_to_wide_char : Bytes → Option Wide

-- std::numeric_limits<int>::max()
abbrev pub int_max : ℕ
int_max = 2 ^ 31 - 1

module _ (win32 : Win32Text) where
  open win32 use {wide_char_to_multi_byte, multi_byte_to_wide_char}

  converts : Option Bytes → Bool
  converts none = false
  converts (some bytes) = ltb 0 (length bytes)

  unfoldable pub is_valid_utf16 : Wide → Bool
  unfolding converts
  is_valid_utf16 [] = true
  is_valid_utf16 (c ∷ input) =
      if ltb int_max (length (c ∷ input))
      then false
      else converts (wide_char_to_multi_byte (c ∷ input))

  -- The call that measures the output and the call that fills it are one here.
  unfoldable pub wide_to_utf8 : Wide → Option Bytes
  unfolding is_valid_utf16
  wide_to_utf8 [] = some []
  wide_to_utf8 (c ∷ input) =
      if is_valid_utf16 (c ∷ input) then wide_char_to_multi_byte (c ∷ input) else none

  filled : Option Wide → Option Wide
  filled none = none
  filled (some []) = none
  filled (some (c ∷ output)) = some (c ∷ output)

  unfoldable pub utf8_to_wide : Bytes → Option Wide
  unfolding filled
  utf8_to_wide [] = some []
  utf8_to_wide (b ∷ input) =
      if ltb int_max (length (b ∷ input))
      then none
      else filled (multi_byte_to_wide_char (b ∷ input))
