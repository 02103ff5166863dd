-- ===== src/Protocol/Exchange.antt =====
-- How ParseResponse walks an answer that the broker wrote.
use launch_as.Base.{
  ℕ, ◌^◌, ◌<◌, ◌≡◌, refl, true, false, not, ◌&&◌, [], ◌∷◌, ◌++◌, ◌==◌, Bytes, Wide, codes, length,
  text_eq, text_eq_refl, Outcome, ok,
}
use launch_as.Utf8.{Win32Text}
use launch_as.Utf8.Encoding.{IsStrict}
use launch_as.Json.Writer.{json_string, json_chars, json_char, to_string}
use launch_as.Json.Numbers.{unsigned_one, unsigned-to_string}
use launch_as.Json.Progress.{Ends, took, Ends-if, Ends-guard, Ends-bind, string-Ends, unsigned-Ends}
use launch_as.Json.Texts.{IsText, is_literal, string-written}
use launch_as.Json.Members.{
  Continues, Continues-end, Continues-member, read_object-member, member, end-nil,
}
use launch_as.Json.Objects.{read_object}
use launch_as.Protocol.Response
use launch_as.Protocol.Response.{
  Answer, no_answer, Expected, is_reason, is_error, response_field, parse_response,
}
use launch_as.Protocol.Answers.{answer_head}

module _ {ℓ} (win32 : Win32Text) {X : Type ℓ} (expected : Expected X)
    (additional_ends : (x : X) (name : Wide) (s : Bytes)
      → Ends (length s) (expected.additional x name s)) where
  read_additional-Ends :
      (r : Answer X) (name : Wide) (s : Bytes)
      → Ends (length s) (Response.read_additional win32 expected r name s)
  unfolding Response.read_additional
  read_additional-Ends r name s =
      Ends-bind _ (additional_ends r.more name s) λ more rest k. took {rest = rest} k

  -- Every member of an answer consumes input.
  pub response_field-Ends :
      (r : Answer X) (name : Wide) (s : Bytes)
      → Ends (length s) (response_field win32 expected r name s)
  unfolding response_field Response.read_version Response.read_response_id Response.read_status
      Response.read_reason Response.read_error
  response_field-Ends r name s =
      Ends-if (text_eq name (codes "version"))
        (Ends-guard (not r.version) _ λ _.
          Ends-bind _ (unsigned-Ends s)
            λ value rest k. Ends-guard (value == 1) _ λ _. took {rest = rest} k)
        (Ends-if (text_eq name (codes "requestId"))
          (Ends-guard (not r.response_id) _ λ _. Ends-bind _ (string-Ends win32 s) λ value rest k.
            Ends-guard (text_eq value expected.request_id) _ λ _. took {rest = rest} k)
          (Ends-if (text_eq name (codes "status"))
            (Ends-guard (not r.status) _ λ _. Ends-bind _ (string-Ends win32 s) λ value rest k.
              Ends-guard (text_eq value expected.status) _ λ _. took {rest = rest} k)
            (Ends-if (text_eq name (codes "reasonCode"))
              (Ends-guard (not r.reason) _ λ _. Ends-bind _ (string-Ends win32 s) λ value rest k.
                Ends-guard (is_reason expected.reason value) _ λ _. took {rest = rest} k)
              (Ends-if (text_eq name (codes "win32Error"))
                (Ends-guard (not r.error) _ λ _. Ends-bind _ (unsigned-Ends s) λ value rest k.
                  Ends-guard (is_error expected.error value) _ λ _. took {rest = rest} k)
                (read_additional-Ends r name s)))))

  module _ (strict : IsStrict win32) where
    abbrev pub Walks : Answer X → Bytes → Outcome (Answer X × Bytes) → Type ℓ
    Walks = Continues win32 strict (response_field win32 expected) response_field-Ends

    pub walk :
        (key : Wide) (r : Answer X) (value : Bytes) {r' : Answer X} {rest : Bytes}
        {result : Outcome (Answer X × Bytes)}
        → is_literal key ≡ true
        → response_field win32 expected r key value ≡ ok (r', rest)
        → Walks r' rest result
        → Walks r (b',' ∷ member key value) result
    walk = Continues-member win32 strict (response_field win32 expected) response_field-Ends

    pub version_written :
        (x : X) (rest : Bytes)
        → response_field win32 expected (no_answer x) (codes "version") (codes "1," ++ rest)
          ≡ ok (record (no_answer x) { version = true }, b',' ∷ rest)
    unfolding response_field Response.read_version
    version_written x rest = rw (unsigned_one b',' rest refl)

    pub response_id_written :
        (r : Answer X) (rest : Bytes)
        → r.response_id ≡ false
        → IsText expected.request_id
        → response_field win32 expected r
            (codes "requestId")
            (json_string expected.request_id ++ rest)
          ≡ ok (record r { response_id = true }, rest)
    unfolding response_field Response.read_response_id
    response_id_written r rest first t =
        rw (first, string-written win32 strict expected.request_id rest t)
          (rw (text_eq_refl expected.request_id))

    status_written :
        (r : Answer X) (rest : Bytes)
        → r.status ≡ false
        → IsText expected.status
        → response_field win32 expected r (codes "status") (json_string expected.status ++ rest)
          ≡ ok (record r { status = true }, rest)
    unfolding response_field Response.read_status
    status_written r rest first t =
        rw (first, string-written win32 strict expected.status rest t)
          (rw (text_eq_refl expected.status))

    reason_written :
        (r : Answer X) (v : Wide) (rest : Bytes)
        → r.reason ≡ false
        → IsText v
        → is_reason expected.reason v ≡ true
        → response_field win32 expected r (codes "reasonCode") (json_string v ++ rest)
          ≡ ok (record r { reason = true }, rest)
    unfolding response_field Response.read_reason
    reason_written r v rest first t fits =
        rw (first, string-written win32 strict v rest t) (rw fits)

    error_written :
        (r : Answer X) (n : ℕ) (rest : Bytes)
        → r.error ≡ false
        → n < 2 ^ 32
        → is_error expected.error n ≡ true
        → response_field win32 expected r (codes "win32Error") (to_string n ++ b'}' ∷ rest)
          ≡ ok (record r { parsed_error = n; error = true }, b'}' ∷ rest)
    unfolding response_field Response.read_error
    error_written r n rest first h fits =
        rw (first, unsigned-to_string n b'}' rest h refl) (rw fits)

    -- The end of every answer.
    pub walk_reason_and_error :
        (r : Answer X) (v : Wide) (n : ℕ)
        → r.reason ≡ false
        → r.error ≡ false
        → IsText v
        → is_reason expected.reason v ≡ true
        → n < 2 ^ 32
        → is_error expected.error n ≡ true
        → Walks r
            (codes ",\"reasonCode\":"
              ++ (json_string v ++ (codes ",\"win32Error\":" ++ (to_string n ++ codes "}"))))
            (ok (record r { reason = true; parsed_error = n; error = true }, []))
    unfolding json_string json_chars json_char
    walk_reason_and_error r v n fr fe t fits h ok_error =
        walk (codes "reasonCode") r _ refl (reason_written r v _ fr t fits) (
          walk (codes "win32Error") (record r { reason = true }) _ refl
            (error_written (record r { reason = true }) n [] fe h ok_error)
            (Continues-end win32 strict (response_field win32 expected) response_field-Ends _ []))

    -- The state behind the first three members.
    abbrev pub begun : X → Answer X
    begun x = record (no_answer x) { version = true; response_id = true; status = true }

    reads_head :
        (x : X) (rest : Bytes) {result : Outcome (Answer X × Bytes)}
        → IsText expected.request_id
        → IsText expected.status
        → Walks (begun x) rest result
        → read_object win32 (response_field win32 expected) (no_answer x) (
            answer_head expected.request_id
              (codes ",\"status\":" ++ (json_string expected.status ++ rest)))
          ≡ result
    unfolding json_string json_chars json_char
    reads_head x rest t u next =
        read_object-member win32 strict (response_field win32 expected) response_field-Ends
          (codes "version") (no_answer x) _ refl (version_written x _)
          (walk (codes "requestId") (record (no_answer x) { version = true }) _ refl
            (response_id_written (record (no_answer x) { version = true }) _ refl t)
            (walk (codes "status") (record (no_answer x) { version = true; response_id = true }) _
              refl
              (status_written (record (no_answer x) { version = true; response_id = true }) rest
                refl u)
              next))

    -- An answer with the expected id and status parses, if its other members are walked.
    pub parse_response_reads :
        (x : X) (rest : Bytes) {r : Answer X}
        → IsText expected.request_id
        → IsText expected.status
        → Walks (begun x) rest (ok (r, []))
        → (r.version && r.response_id && r.status && r.reason && r.error) ≡ true
        → parse_response win32 expected
            (answer_head expected.request_id
              (codes ",\"status\":" ++ (json_string expected.status ++ rest)))
            x
          ≡ ok r
    unfolding parse_response
    parse_response_reads x rest t u next seen = rw (reads_head x rest t u next) (rw (end-nil, seen))
