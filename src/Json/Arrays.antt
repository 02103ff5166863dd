-- ===== src/Json/Arrays.antt =====
-- src/protocol/BrokerProtocol.cpp: ReadStringArray on the arrays that the builders write.
use launch_as.Base.{
  ℕ, zero, suc, ◌+◌, ◌≤◌, ◌<◌, ◌≡◌, refl, ap, ◌∙◌, Bool, true, not, ◌&&◌, none, some, List, [], ◌∷◌,
  ◌++◌, append_assoc, arith, ◌==◌, Bytes, Wide, length, all_of, All, length-append, ok,
}
use launch_as.Utf8.{Win32Text}
use launch_as.Utf8.Encoding.{IsStrict}
use launch_as.Json.{consume, expect, skip_whitespace}
use launch_as.Json.Writer.{json_string, json_strings}
use launch_as.Json.Objects.{elements, read_string_array, maximum_arguments}
use launch_as.Json.Texts.{IsText, string-written}

length-json_string_pos : (v : Wide) → 0 < length (json_string v)
unfolding json_string
length-json_string_pos v = omega arith

length-json_strings : (vs : List Wide) → length vs ≤ length (json_strings vs)
unfolding json_strings
length-json_strings [] = omega arith
length-json_strings (v ∷ []) = omega (arith, length-json_string_pos v)
length-json_strings (v ∷ w ∷ vs) = omega (
  arith,
  length-append (json_string v) (b',' ∷ json_strings (w ∷ vs)),
  length-json_strings (w ∷ vs),
)

module _ (win32 : Win32Text) (strict : IsStrict win32) (is_valid : Wide → Bool) where
  -- The test on an element.
  abbrev Fits : List Wide → Wide → Type 0
  Fits values v = (is_valid v && not (length values == maximum_arguments)) ≡ true

  elements_last :
      (fuel : ℕ) (values : List Wide) (v : Wide) (rest : Bytes)
      → IsText v
      → Fits values v
      → elements win32 is_valid (suc fuel) values (json_string v ++ b']' ∷ rest)
        ≡ ok (values ++ v ∷ [], rest)
  unfolding elements consume expect skip_whitespace
  elements_last fuel values v rest t fits =
      rw (string-written win32 strict v (b']' ∷ rest) t) (rw fits)

  elements_more :
      (fuel : ℕ) (values : List Wide) (v : Wide) (s : Bytes)
      → IsText v
      → Fits values v
      → elements win32 is_valid (suc fuel) values (json_string v ++ b',' ∷ s)
        ≡ elements win32 is_valid fuel (values ++ v ∷ []) s
  unfolding elements consume expect skip_whitespace
  elements_more fuel values v s t fits = rw (string-written win32 strict v (b',' ∷ s) t) (rw fits)

  elements-written :
      (v : Wide) (vs : List Wide) (fuel : ℕ) (values : List Wide) (rest : Bytes)
      → All IsText (v ∷ vs)
      → all_of is_valid (v ∷ vs) ≡ true
      → length values + length (v ∷ vs) ≤ maximum_arguments
      → length vs < fuel
      → elements win32 is_valid fuel values (json_strings (v ∷ vs) ++ b']' ∷ rest)
        ≡ ok (values ++ v ∷ vs, rest)
  unfolding json_strings
  elements-written v vs zero values rest t valid few h = absurd (omega arith)
  elements-written v [] (suc fuel) values rest (t, ts) valid few h =
      elements_last fuel values v rest t (ground arith)
  elements-written v (w ∷ vs) (suc fuel) values rest (t, ts) valid few h =
      rw (append_assoc (json_string v) (b',' ∷ json_strings (w ∷ vs)) (b']' ∷ rest)) (
        elements_more fuel values v _ t (ground arith)
        ∙ elements-written w vs fuel (values ++ v ∷ []) rest ts (ground arith)
            (omega (arith, length-append values (v ∷ []))) (omega arith)
        ∙ ap (λ x. ok (x, rest)) (append_assoc values (v ∷ []) (w ∷ vs)))

  string_first : (v : Wide) (s : Bytes) → consume b']' (json_string v ++ s) ≡ none
  unfolding consume expect skip_whitespace json_string
  string_first v s = refl

  strings_first :
      (v : Wide) (vs : List Wide) (s : Bytes) → consume b']' (json_strings (v ∷ vs) ++ s) ≡ none
  unfolding json_strings
  strings_first v [] s = string_first v s
  strings_first v (w ∷ vs) s =
      rw (append_assoc (json_string v) (b',' ∷ json_strings (w ∷ vs)) s) (string_first v _)

  opening : (s : Bytes) → consume b'[' (b'[' ∷ s) ≡ some s
  unfolding consume expect skip_whitespace
  opening s = refl

  opens :
      (s : Bytes)
      → consume b']' s ≡ none
      → read_string_array win32 is_valid (b'[' ∷ s) ≡ elements win32 is_valid (suc (length s)) [] s
  unfolding read_string_array
  opens s e = ground (arith, opening s)

  -- Where the Win32 conversions are strict, an array of at most 64 valid, short and well-formed
  -- texts is read back by ReadStringArray, which leaves what follows it.
  pub read_string_array-written :
      (vs : List Wide) (rest : Bytes)
      → All IsText vs
      → all_of is_valid vs ≡ true
      → length vs ≤ maximum_arguments
      → read_string_array win32 is_valid (b'[' ∷ (json_strings vs ++ b']' ∷ rest)) ≡ ok (vs, rest)
  read_string_array-written [] rest t valid few =
      unfold read_string_array consume expect skip_whitespace json_strings in refl
  read_string_array-written (v ∷ vs) rest t valid few =
      opens _ (strings_first v vs (b']' ∷ rest))
      ∙ elements-written v vs _ [] rest t valid (omega arith) (
          omega (
            arith,
            length-json_strings (v ∷ vs),
            length-append (json_strings (v ∷ vs)) (b']' ∷ rest),
          ))
