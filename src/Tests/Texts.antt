-- ===== src/Tests/Texts.antt =====
-- The texts and numbers of the JSON reader at concrete inputs.
use launch_as.Base.{ℕ, ◌≡◌, refl, List, [], ◌∷◌, ◌++◌, arith, Wide, codes, ok}
use launch_as.Utf8.Encoding.{utf8_char}
use launch_as.Json.{string, append_utf8_code_point, unsigned}
use launch_as.Json.Writer.{json_string, json_strings, to_string}
use launch_as.Json.Escapes.{append_utf8_code_point_lem}
use launch_as.Json.Numbers.{unsigned-to_string}
use launch_as.Json.Texts.{IsText, string-written, literal-IsText}
use launch_as.Json.Arrays.{read_string_array-written}
use launch_as.Json.Objects.{read_string_array}
use launch_as.Protocol.{is_valid_profile_id}
use launch_as.Tests.Converter.{converter, converter-IsStrict}

-- A quote, a line feed, an umlaut and a smiley.
abbrev scalars : List ℕ
scalars = 0x22 ∷ 0x0A ∷ 0xFC ∷ 0x1F600 ∷ []

abbrev title : Wide
title = 0x22 ∷ 0x0A ∷ 0xFC ∷ 0xD83D ∷ 0xDE00 ∷ []

title-IsText : IsText title
title-IsText =
    (record { scalars = scalars; are_scalars = ground arith; spells = refl }, ground arith)

string-written_example :
    string converter (json_string title ++ codes ",\"b\":1}") ≡ ok (title, codes ",\"b\":1}")
string-written_example =
    string-written converter converter-IsStrict title (codes ",\"b\":1}") title-IsText

append_utf8_code_point_lem_example :
    append_utf8_code_point 0x20AC (codes "a") ≡ codes "a" ++ utf8_char 0x20AC
append_utf8_code_point_lem_example = append_utf8_code_point_lem 0x20AC (codes "a") (omega arith)

unsigned-to_string_example :
    unsigned (to_string 4294967295 ++ codes "}") ≡ ok (4294967295, codes "}")
unsigned-to_string_example = unsigned-to_string 4294967295 b'}' [] (omega arith) refl

read_string_array-written_example :
    read_string_array converter is_valid_profile_id
      (b'[' ∷ (json_strings (codes "agent" ∷ codes "build" ∷ []) ++ b']' ∷ codes "}"))
    ≡ ok (codes "agent" ∷ codes "build" ∷ [], codes "}")
unfolding is_valid_profile_id
read_string_array-written_example =
    read_string_array-written converter converter-IsStrict is_valid_profile_id
      (codes "agent" ∷ codes "build" ∷ []) (codes "}")
      (literal-IsText (codes "agent") refl, (literal-IsText (codes "build") refl, tt)) refl
      (omega arith)
