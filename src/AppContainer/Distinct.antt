-- ===== src/AppContainer/Distinct.antt =====
-- src/common/AppContainerOptions.h: the loop over the capabilities, and what it decides.
use launch_as.Base.{
  ◌≡◌, refl, Bool, true, not, ◌&&◌, ◌||◌, List, [], ◌∷◌, ◌++◌, arith, leb, Wide, length, is_empty,
  all_of, text_eq,
}
use launch_as.AppContainer.{
  AppContainerOptions, is_app_container_capability, contains, are_capabilities,
  is_valid_app_container_options,
}

-- No text is one of the front.
abbrev are_outside : List Wide → List Wide → Bool
are_outside front [] = true
are_outside front (c ∷ cs) = not (contains front c) && are_outside front cs

-- No text occurs twice.
abbrev pub are_different : List Wide → Bool
are_different [] = true
are_different (c ∷ cs) = not (contains cs c) && are_different cs

text_eq_comm : (a b : Wide) → text_eq a b ≡ text_eq b a
text_eq_comm [] [] = refl
text_eq_comm [] (d ∷ b) = refl
text_eq_comm (c ∷ a) [] = refl
text_eq_comm (c ∷ a) (d ∷ b) = ground (arith, text_eq_comm a b)

contains-append :
    (front : List Wide) (c x : Wide)
    → contains (front ++ c ∷ []) x ≡ (contains front x || text_eq c x)
contains-append [] c x = ground arith
contains-append (y ∷ front) c x = ground (arith, contains-append front c x)

are_outside-append :
    (front : List Wide) (c : Wide) (cs : List Wide)
    → are_outside (front ++ c ∷ []) cs ≡ (are_outside front cs && not (contains cs c))
are_outside-append front c [] = refl
are_outside-append front c (x ∷ cs) =
    ground (arith, contains-append front c x, text_eq_comm c x, are_outside-append front c cs)

are_capabilities_lem :
    (front cs : List Wide)
    → are_capabilities front cs
      ≡ (all_of is_app_container_capability cs && are_outside front cs && are_different cs)
unfolding are_capabilities
are_capabilities_lem front [] = refl
are_capabilities_lem front (c ∷ cs) =
    ground (arith, are_capabilities_lem (front ++ c ∷ []) cs, are_outside-append front c cs)

are_outside_nothing : (cs : List Wide) → are_outside [] cs ≡ true
are_outside_nothing [] = refl
are_outside_nothing (c ∷ cs) = are_outside_nothing cs

-- IsValidAppContainerOptions accepts exactly the options whose capabilities are at most 32, each
-- well-formed and none given twice, and none at all where AppContainer is off.
pub is_valid_app_container_options_lem :
    (options : AppContainerOptions)
    → is_valid_app_container_options options ≡ (
        (options.enabled || is_empty options.capabilities)
        && leb (length options.capabilities) 32
        && all_of is_app_container_capability options.capabilities
        && are_different options.capabilities)
unfolding is_valid_app_container_options
is_valid_app_container_options_lem options =
    ground (
      arith,
      are_capabilities_lem [] options.capabilities,
      are_outside_nothing options.capabilities,
    )
