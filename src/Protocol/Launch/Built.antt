-- ===== src/Protocol/Launch/Built.antt =====
-- src/protocol/BrokerProtocol.cpp: what is known of a launch request that a builder returned.
use launch_as.Base.{
  ◌≤◌, ◌≡◌, refl, ap, inl, inr, Bool, true, false, not, ◌||◌, Option, none, some, List, [], ◌∷◌,
  ◌++◌, arith, leb, if◌then◌else◌, Option-cases, Bytes, Wide, length, is_empty, all_of, All,
}
use launch_as.Utf8.{Win32Text, is_valid_utf16}
use launch_as.Utf8.Encoding.{IsStrict, IsUtf16, is_valid_utf16_converts}
use launch_as.AppContainer.Ascii.{capability-ascii}
use launch_as.Json.Texts.{IsText, ascii-IsUtf16}
use launch_as.AppContainer.{is_app_container_capability, are_capabilities}
use launch_as.Protocol.{maximum_message_bytes}
use launch_as.Protocol.Request.{is_argument}
use launch_as.Protocol.Build.{launch_head, begin_launch_request, within_message}

pub not_refused :
    (a : Bool) (o : Option Bytes) (m : Bytes)
    → (if a then none else o) ≡ some m
    → (a ≡ false) × (o ≡ some m)
not_refused true o m h = cc
not_refused false o m h = (refl, h)

kept : (b : Bool) (t m : Bytes) → (if b then some t else none) ≡ some m → (b ≡ true) × (t ≡ m)
kept true t m h = (refl, cc)
kept false t m h = cc

pub within_message_lem :
    (o : Option Bytes) (m : Bytes)
    → within_message o ≡ some m
    → (o ≡ some m) × (length m ≤ maximum_message_bytes)
within_message_lem none m h = cc
within_message_lem (some t) m h =
    let (fits, same) = kept (leb (length t) maximum_message_bytes) t m h in
    (ap some same, rw (← same) (ground arith))

some_injective : {a b : Bytes} → some a ≡ some b → a ≡ b
some_injective h = cc

-- The texts of the head are well-formed.
pub record HasTexts (profile_id working_directory : Wide) (arguments : List Wide) : Type 0 where
  pub profile_id_text : IsUtf16 profile_id
  pub working_directory_text : IsUtf16 working_directory
  pub arguments_texts : All IsUtf16 arguments

module _ (win32 : Win32Text) (strict : IsStrict win32) where
  pub is_valid_utf16-IsUtf16 : (w : Wide) → is_valid_utf16 win32 w ≡ true → IsUtf16 w
  unfolding is_valid_utf16
  is_valid_utf16-IsUtf16 [] h = ascii-IsUtf16 [] refl
  is_valid_utf16-IsUtf16 (c ∷ w) h = elim (Option-cases (win32.wide_char_to_multi_byte (c ∷ w))) [
    | inl e ↦ absurd (is_valid_utf16_converts win32 c w h e)
    | inr (bytes, e) ↦ strict.refuses_lone (c ∷ w) bytes e
  ]

  all_of-IsUtf16 : (ws : List Wide) → all_of (is_valid_utf16 win32) ws ≡ true → All IsUtf16 ws
  all_of-IsUtf16 [] h = tt
  all_of-IsUtf16 (w ∷ ws) h =
      (is_valid_utf16-IsUtf16 w (ground arith), all_of-IsUtf16 ws (ground arith))

  pub begin_launch_request_lem :
      (request_id profile_id mode : Wide) (arguments : List Wide) (working_directory : Wide)
      (more m : Bytes)
      → begin_launch_request win32 request_id profile_id mode arguments working_directory more
        ≡ some m
      → HasTexts profile_id working_directory arguments
        × (launch_head request_id profile_id mode arguments working_directory more ≡ m)
  unfolding begin_launch_request
  begin_launch_request_lem id p mode arguments directory more m h =
      let split =
        not_refused
          (is_empty id
            || is_empty p
            || is_empty arguments
            || is_empty directory
            || not (is_valid_utf16 win32 id)
            || not (is_valid_utf16 win32 p)
            || not (is_valid_utf16 win32 directory)
            || not (all_of (is_valid_utf16 win32) arguments))
          (some (launch_head id p mode arguments directory more)) m h in
      (
        record {
          profile_id_text = is_valid_utf16-IsUtf16 p (ground (arith, split.0));
          working_directory_text = is_valid_utf16-IsUtf16 directory (ground (arith, split.0));
          arguments_texts = all_of-IsUtf16 arguments (ground (arith, split.0));
        },
        some_injective split.1,
      )

pub arguments-IsText :
    (ws : List Wide) → All IsUtf16 ws → all_of is_argument ws ≡ true → All IsText ws
arguments-IsText [] u h = tt
arguments-IsText (w ∷ ws) (u, us) h = ((u, ground arith), arguments-IsText ws us (ground arith))

-- A capability is ASCII.
capability-IsText : (w : Wide) → is_app_container_capability w ≡ true → IsText w
unfolding is_app_container_capability
capability-IsText w h = (ascii-IsUtf16 w (capability-ascii w h), ground arith)

pub capabilities-IsText :
    (front ws : List Wide)
    → are_capabilities front ws ≡ true
    → All IsText ws × (all_of is_app_container_capability ws ≡ true)
unfolding are_capabilities
capabilities-IsText front [] h = (tt, refl)
capabilities-IsText front (w ∷ ws) h =
    let later = capabilities-IsText (front ++ w ∷ []) ws (ground arith) in
    let valid : is_app_container_capability w ≡ true = ground arith in
    ((capability-IsText w valid, later.0), ground (arith, valid, later.1))
