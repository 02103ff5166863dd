-- ===== src/Protocol/Values.antt =====
-- How an answer that carries one value besides is read.
use launch_as.Base.{
  ◌≡◌, refl, Bool, true, false, not, ◌&&◌, some, [], ◌∷◌, ◌++◌, arith, Bytes, Wide, codes, length,
  is_empty, text_eq, text_eq_refl, Outcome, ok,
}
use launch_as.Utf8.{Win32Text}
use launch_as.Utf8.Encoding.{IsStrict}
use launch_as.Json.Writer.{json_string, to_string, decimal}
use launch_as.Json.Progress.{Ends}
use launch_as.Json.Texts.{IsText, is_literal, literal-IsText}
use launch_as.Protocol.Response.{
  Answer, Extra, Expected, extra_field, is_reason, response_field, parse_response, read_additional,
}
use launch_as.Protocol.Answers.{answer_head}
use launch_as.Protocol.Exchange.{walk, walk_reason_and_error, parse_response_reads}
use launch_as.Protocol.Replies.{extra_field-Ends}

-- A name that ParseResponse leaves to its caller.
abbrev pub is_other : Wide → Bool
is_other key =
    not (text_eq key (codes "version"))
    && not (text_eq key (codes "requestId"))
    && not (text_eq key (codes "status"))
    && not (text_eq key (codes "reasonCode"))
    && not (text_eq key (codes "win32Error"))

pub additional_written {ℓ} :
    (win32 : Win32Text) {X : Type ℓ} (expected : Expected X) (r : Answer X) (key : Wide) (s : Bytes)
    {x : X} {rest : Bytes}
    → is_other key ≡ true
    → expected.additional r.more key s ≡ ok (x, rest)
    → response_field win32 expected r key s ≡ ok (record r { more = x }, rest)
unfolding response_field read_additional
additional_written win32 expected r key s other e = ground arith

extra_written {ℓ} :
    {A : Type ℓ} (key : Wide) (read : Bytes → Outcome (A × Bytes)) (x : Extra A) (s : Bytes) {v : A}
    {rest : Bytes}
    → x.seen ≡ false
    → read s ≡ ok (v, rest)
    → extra_field key read x key s ≡ ok (record { value = v; seen = true }, rest)
unfolding extra_field
extra_written key read x s first e = rw (text_eq_refl key) (rw (first, e))

-- An answer of success with one value.
abbrev pub value_answer {ℓ} :
    {A : Type ℓ} → Wide → Wide → (Bytes → Outcome (A × Bytes)) → Wide → Expected (Extra A)
value_answer id key read reason = record {
  request_id = id;
  status = codes "ok";
  reason = reason;
  error = some 0;
  additional = extra_field key read;
}

abbrev pub start {ℓ} : {A : Type ℓ} → A → Extra A
start a = record { value = a; seen = false }

-- A reason code that is a literal.
abbrev pub is_code : Wide → Bool
is_code v = not (is_empty v) && is_literal v

pub is_reason_self : (v : Wide) → is_code v ≡ true → is_reason v v ≡ true
is_reason_self [] h = cc
is_reason_self (c ∷ v) h = text_eq_refl (c ∷ v)

pub code-IsText : (v : Wide) → is_code v ≡ true → IsText v
code-IsText v h = literal-IsText v (ground arith)

-- The variables behind an answer with the value `v`.
abbrev pub read_answer {ℓ} : {A : Type ℓ} → A → Answer (Extra A)
read_answer v = record {
  parsed_error = 0;
  version = true;
  response_id = true;
  status = true;
  reason = true;
  error = true;
  more = record { value = v; seen = true };
}

module _ {ℓ} (win32 : Win32Text) (strict : IsStrict win32) {A : Type ℓ} (id key reason : Wide)
    (read : Bytes → Outcome (A × Bytes)) (read_ends : (s : Bytes) → Ends (length s) (read s)) where
  -- Such an answer is read, if its value is.
  pub value_answer_reads :
      (a v : A) (text : Bytes)
      → IsText id
      → is_literal key ≡ true
      → is_other key ≡ true
      → is_code reason ≡ true
      → read
          (text ++ (codes ",\"reasonCode\":" ++ (json_string reason ++ codes ",\"win32Error\":0}")))
        ≡ ok (v, codes ",\"reasonCode\":" ++ (json_string reason ++ codes ",\"win32Error\":0}"))
      → parse_response win32
          (value_answer id key read reason)
          (answer_head id (
            codes ",\"status\":"
            ++ (json_string (codes "ok")
                ++ (b','
                    ∷ (json_string key
                        ++ b':'
                          ∷ (text
                              ++ (codes ",\"reasonCode\":"
                                  ++ (json_string reason ++ codes ",\"win32Error\":0}"))))))))
          (start a)
        ≡ ok (read_answer v)
  unfolding to_string decimal
  value_answer_reads a v text t lit other lit_reason e =
      parse_response_reads win32 (value_answer id key read reason)
        (extra_field-Ends key read read_ends) strict (start a) _ t
        (literal-IsText (codes "ok") refl)
        (walk win32 (value_answer id key read reason) (extra_field-Ends key read read_ends) strict
          key _ _ lit
          (additional_written win32 (value_answer id key read reason) _ key _ other
            (extra_written key read (start a) _ refl e))
          (walk_reason_and_error win32 (value_answer id key read reason)
            (extra_field-Ends key read read_ends) strict _ reason 0 refl refl
            (code-IsText reason lit_reason) (is_reason_self reason lit_reason) (omega arith) refl))
        refl
