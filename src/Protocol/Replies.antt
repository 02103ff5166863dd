-- ===== src/Protocol/Replies.antt =====
-- src/protocol/BrokerProtocol.cpp: error answers, from BuildErrorResponse to ParseErrorResponse.
use launch_as.Base.{
  ℕ, ◌^◌, ◌≤◌, ◌<◌, ◌≡◌, refl, sym, ap, Bool, true, not, ◌&&◌, none, [], ◌∷◌, ◌++◌, append_assoc,
  arith, ltb, ◌==◌, within, Bytes, Wide, codes, length, all_of, text_eq, Outcome, ok,
}
use launch_as.Utf8.{Win32Text}
use launch_as.Utf8.Encoding.{IsStrict}
use launch_as.Json.Writer.{json_string, json_chars, json_char, to_string}
use launch_as.Json.Progress.{Ends, took, refused, Ends-guard, Ends-bind}
use launch_as.Json.Texts.{IsText, literal-IsText}
use launch_as.Protocol.Response.{
  Extra, Expected, extra_field, is_reason, parse_error_response, no_field,
}
use launch_as.Protocol.Answers.{answer_head, build_error_response}
use launch_as.Protocol.Exchange.{walk_reason_and_error, begun, parse_response_reads}

-- A reason code that needs no escape: printable ASCII with neither quotes nor backslashes.
abbrev pub is_plain : ℕ → Bool
is_plain c = within 0x20 0x7E c && not (c == b'"') && not (c == b'\\')

plain_chars : (v : Wide) → all_of is_plain v ≡ true → json_chars v ≡ v
unfolding json_chars json_char
plain_chars [] h = refl
plain_chars (c ∷ v) h = ground (arith, plain_chars v)

plain_literal : (v : Wide) → all_of is_plain v ≡ true → all_of (λ c. ltb c 0x80) v ≡ true
plain_literal [] h = refl
plain_literal (c ∷ v) h = ground (arith, plain_literal v)

plain-IsText : (v : Wide) → all_of is_plain v ≡ true → length v ≤ 2 ^ 16 → IsText v
plain-IsText v h k = literal-IsText v (ground (arith, plain_literal v h))

plain_string :
    (v : Wide) (rest : Bytes)
    → all_of is_plain v ≡ true
    → b'"' ∷ (v ++ b'"' ∷ rest) ≡ json_string v ++ rest
unfolding json_string
plain_string v rest h = rw (plain_chars v h) (ap (◌∷◌ b'"') (sym (append_assoc v (b'"' ∷ []) rest)))

pub no_field-Ends :
    (win32 : Win32Text) (x : Unit {0}) (name : Wide) (s : Bytes)
    → Ends (length s) (no_field win32 x name s)
unfolding no_field
no_field-Ends win32 x name s = refused

pub extra_field-Ends {ℓ} :
    {A : Type ℓ} (key : Wide) (read : Bytes → Outcome (A × Bytes))
    → ((s : Bytes) → Ends (length s) (read s))
    → (x : Extra A) (name : Wide) (s : Bytes) → Ends (length s) (extra_field key read x name s)
unfolding extra_field
extra_field-Ends key read ends x name s =
    Ends-guard (text_eq name key) _
      λ _. Ends-guard (not x.seen) _ λ _. Ends-bind _ (ends s) λ value rest k. took {rest = rest} k

-- The other conditions of the clients on an answer.
abbrev error_answer : Win32Text → Wide → Expected (Unit {0})
error_answer win32 id = record {
  request_id = id;
  status = codes "error";
  reason = [];
  error = none;
  additional = no_field win32;
}

error_text :
    (request_id : Wide) (reason_code : Bytes) (n : ℕ)
    → all_of is_plain reason_code ≡ true
    → build_error_response request_id reason_code n
      ≡ answer_head request_id (
          codes ",\"status\":"
          ++ (json_string (codes "error")
              ++ (codes ",\"reasonCode\":"
                  ++ (json_string reason_code
                      ++ (codes ",\"win32Error\":" ++ (to_string n ++ codes "}"))))))
unfolding build_error_response
error_text request_id reason_code n plain =
    rw (← plain_string reason_code (codes ",\"win32Error\":" ++ (to_string n ++ codes "}")) plain)
      (unfold json_string json_chars json_char in refl)

plain_reason : (v : Wide) → 0 < length v → is_reason [] v ≡ true
plain_reason [] h = absurd (omega arith)
plain_reason (c ∷ v) h = refl

module _ (win32 : Win32Text) (strict : IsStrict win32) where
  -- Where the Win32 conversions are strict, a client that expects an error reads the Win32 error
  -- of every error answer to its request, whose id is a short well-formed text, whatever the
  -- reason code, as long as that has 1 to 65536 printable characters that need no escape.
  pub parse-build_error_response :
      (request_id : Wide) (reason_code : Bytes) (win32_error : ℕ)
      → IsText request_id
      → all_of is_plain reason_code ≡ true
      → 0 < length reason_code
      → length reason_code ≤ 2 ^ 16
      → win32_error < 2 ^ 32
      → parse_error_response win32
          (build_error_response request_id reason_code win32_error)
          request_id
        ≡ ok win32_error
  unfolding parse_error_response
  parse-build_error_response request_id reason_code win32_error t plain pos short h =
      rw (error_text request_id reason_code win32_error plain) (
        rw (
          parse_response_reads win32 (error_answer win32 request_id) (no_field-Ends win32) strict tt
            _ t (literal-IsText (codes "error") refl)
            (walk_reason_and_error win32 (error_answer win32 request_id) (no_field-Ends win32)
              strict (begun win32 (error_answer win32 request_id) (no_field-Ends win32) strict tt)
              reason_code win32_error refl refl (plain-IsText reason_code plain short)
              (plain_reason reason_code pos) h refl)
            refl))
