-- ===== src/Protocol/Foreign.antt =====
-- src/protocol/BrokerProtocol.cpp: ParseResponse on answers that are not the client's.
use launch_as.Base.{
  ℕ, ◌≡◌, refl, ◌≢◌, inl, inr, true, false, List, ◌++◌, Bool-cases, Bytes, Wide, codes, length,
  text_eq, text_eq_sound, rejected,
}
use launch_as.Utf8.{Win32Text}
use launch_as.Utf8.Encoding.{IsStrict}
use launch_as.Json.Progress.{Ends}
use launch_as.Json.Writer.{json_string, json_chars, json_char}
use launch_as.Json.Texts.{IsText, string-written}
use launch_as.Json.Members.{Continues-refused, read_object-member}
use launch_as.Protocol.Response
use launch_as.Protocol.Response.{Answer, no_answer, Expected, response_field, parse_response}
use launch_as.Protocol.Answers.{answer_head}
use launch_as.Protocol.Exchange.{response_field-Ends, walk, version_written, response_id_written}

text_eq_ne : (s t : List ℕ) → s ≢ t → text_eq s t ≡ false
text_eq_ne s t h = elim (Bool-cases (text_eq s t)) [
  | inl e ↦ absurd (h (text_eq_sound s t e))
  | inr e ↦ e
]

module _ {ℓ} (win32 : Win32Text) (strict : IsStrict win32) {X : Type ℓ} (expected : Expected X)
    (additional_ends : (x : X) (name : Wide) (s : Bytes)
      → Ends (length s) (expected.additional x name s)) where
  foreign_id :
      (r : Answer X) (id : Wide) (rest : Bytes)
      → IsText id
      → id ≢ expected.request_id
      → response_field win32 expected r (codes "requestId") (json_string id ++ rest) ≡ rejected
  unfolding response_field Response.read_response_id
  foreign_id r id rest t h = elim (Bool-cases r.response_id) [
    | inl e ↦ rw e
    | inr e ↦
        rw (e, string-written win32 strict id rest t) (rw (text_eq_ne id expected.request_id h))
  ]

  foreign_status :
      (r : Answer X) (status : Wide) (rest : Bytes)
      → IsText status
      → status ≢ expected.status
      → response_field win32 expected r (codes "status") (json_string status ++ rest) ≡ rejected
  unfolding response_field Response.read_status
  foreign_status r status rest t h = elim (Bool-cases r.status) [
    | inl e ↦ rw e
    | inr e ↦
        rw (e, string-written win32 strict status rest t) (rw (text_eq_ne status expected.status h))
  ]

  -- Where the Win32 conversions are strict and the callback for the other members ends on every
  -- input, an answer to another request, whose id is a short well-formed text, is refused,
  -- whatever follows its id.
  pub parse_response_of_other_request :
      (x : X) (id : Wide) (rest : Bytes)
      → IsText id
      → id ≢ expected.request_id
      → parse_response win32 expected (answer_head id rest) x ≡ rejected
  unfolding parse_response json_string json_chars json_char
  parse_response_of_other_request x id rest t h = rw (
      read_object-member win32 strict (response_field win32 expected)
        (response_field-Ends win32 expected additional_ends) (codes "version") (no_answer x) _ refl
        (version_written win32 expected additional_ends strict x _)
        (Continues-refused win32 strict (response_field win32 expected)
          (response_field-Ends win32 expected additional_ends) (codes "requestId")
          (record (no_answer x) { version = true }) _ refl
          (foreign_id (record (no_answer x) { version = true }) id rest t h)))

  -- Where the Win32 conversions are strict and the callback for the other members ends on every
  -- input, an answer to the client's request with another status than the expected one is refused,
  -- both texts being short and well-formed.
  pub parse_response_of_other_status :
      (x : X) (status : Wide) (rest : Bytes)
      → IsText expected.request_id
      → IsText status
      → status ≢ expected.status
      → parse_response win32 expected
          (answer_head expected.request_id (codes ",\"status\":" ++ (json_string status ++ rest)))
          x
        ≡ rejected
  unfolding parse_response json_string json_chars json_char
  parse_response_of_other_status x status rest t u h = rw (
      read_object-member win32 strict (response_field win32 expected)
        (response_field-Ends win32 expected additional_ends) (codes "version") (no_answer x) _ refl
        (version_written win32 expected additional_ends strict x _)
        (walk win32 expected additional_ends strict (codes "requestId")
          (record (no_answer x) { version = true }) _ refl
          (response_id_written win32 expected additional_ends strict
            (record (no_answer x) { version = true }) _ refl t)
          (Continues-refused win32 strict (response_field win32 expected)
            (response_field-Ends win32 expected additional_ends) (codes "status")
            (record (no_answer x) { version = true; response_id = true }) _ refl
            (foreign_status (record (no_answer x) { version = true; response_id = true }) status
              rest u h))))
