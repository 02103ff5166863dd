-- ===== src/AppContainer.antt =====
-- src/common/AppContainerOptions.h.
pub mod Distinct
pub mod Ascii
use launch_as.Base.{
  ℕ, Bool, true, false, not, ◌&&◌, ◌||◌, List, [], ◌∷◌, ◌++◌, ltb, leb, ◌==◌, within, if◌then◌else◌,
  Wide, length, is_empty, all_of, text_eq,
}

pub record AppContainerOptions : Type 0 where
  pub enabled : Bool
  pub capabilities : List Wide

is_capability_char : ℕ → Bool
is_capability_char c =
    within b'a' b'z' c
    || within b'A' b'Z' c
    || within b'0' b'9' c
    || c == b'-'
    || c == b'_'
    || c == b'.'

unfoldable pub is_app_container_capability : Wide → Bool
unfolding is_capability_char
is_app_container_capability value =
    not (is_empty value) && leb (length value) 128 && all_of is_capability_char value

-- `std::find(begin, end, value) != end`
abbrev pub contains : List Wide → Wide → Bool
contains [] value = false
contains (x ∷ xs) value = text_eq x value || contains xs value

-- The loop; `front` holds the capabilities before the index.
unfoldable pub are_capabilities : List Wide → List Wide → Bool
are_capabilities front [] = true
are_capabilities front (c ∷ cs) =
    let more = are_capabilities (front ++ c ∷ []) cs in
    if not (is_app_container_capability c) || contains front c then false else more

unfoldable pub is_valid_app_container_options : AppContainerOptions → Bool
is_valid_app_container_options options =
    if not options.enabled && not (is_empty options.capabilities)
      || ltb 32 (length options.capabilities)
    then false
    else are_capabilities [] options.capabilities
