-- ===== src/Tests/Containers.antt =====
-- The AppContainer options at a concrete input.
use launch_as.Base.{◌≡◌, true, ◌&&◌, List, [], ◌∷◌, leb, Wide, codes, length, all_of}
use launch_as.AppContainer.{is_app_container_capability, is_valid_app_container_options}
use launch_as.AppContainer.Distinct.{are_different, is_valid_app_container_options_lem}

abbrev twice : List Wide
twice = codes "internetClient" ∷ codes "S-1-15-3-1" ∷ codes "internetClient" ∷ []

is_valid_app_container_options_lem_example :
    is_valid_app_container_options (record { enabled = true; capabilities = twice })
    ≡ (leb (length twice) 32 && all_of is_app_container_capability twice && are_different twice)
is_valid_app_container_options_lem_example =
    is_valid_app_container_options_lem (record { enabled = true; capabilities = twice })
