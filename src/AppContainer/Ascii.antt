-- ===== src/AppContainer/Ascii.antt =====
-- src/common/AppContainerOptions.h: the characters of a capability.
use launch_as.Base.{ℕ, ◌≡◌, refl, true, [], ◌∷◌, arith, Wide, all_of}
use launch_as.Json.Texts.{is_ascii}
use launch_as.AppContainer.{is_capability_char, is_app_container_capability}

capability_char-ascii : (c : ℕ) → is_capability_char c ≡ true → is_ascii c ≡ true
unfolding is_capability_char
capability_char-ascii c h = ground arith

capability_chars-ascii : (w : Wide) → all_of is_capability_char w ≡ true → all_of is_ascii w ≡ true
capability_chars-ascii [] h = refl
capability_chars-ascii (c ∷ w) h =
    let first = capability_char-ascii c (ground arith) in
    let later = capability_chars-ascii w (ground arith) in ground (arith, first, later)

pub capability-ascii : (w : Wide) → is_app_container_capability w ≡ true → all_of is_ascii w ≡ true
unfolding is_app_container_capability
capability-ascii w h = capability_chars-ascii w (ground arith)
