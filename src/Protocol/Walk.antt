-- ===== src/Protocol/Walk.antt =====
-- The walk of ReadObject over a written request, from one member to the next.
use launch_as.Base.{
  ◌≤◌, ◌<◌, ◌≡◌, refl, sym, subst, Bool, true, false, [], ◌∷◌, ◌++◌, arith, leb, Bytes, Wide, codes,
  length, Outcome, ok,
}
use launch_as.Json.Members.{end-nil}
use launch_as.Protocol.Parse.{parse_broker_request, finish}
use launch_as.Protocol.Request.{no_reading}
use launch_as.Protocol.{BrokerRequest, maximum_message_bytes}
use launch_as.Utf8.{Win32Text}
use launch_as.Utf8.Encoding.{IsStrict}
use launch_as.Json.Writer.{json_string, json_chars, json_char}
use launch_as.Json.Texts.{is_literal}
use launch_as.Json.Members.{Continues, Continues-end, Continues-member, read_object-member, member}
use launch_as.Json.Objects.{read_object}
use launch_as.Protocol.Request.{Reading}
use launch_as.Protocol.Fields.{request_field}
use launch_as.Protocol.Termination.{request_field-Ends}
use launch_as.Protocol.Build.{optional}
use launch_as.Protocol.Written.{
  force_written, log_written, restrict_access_written, low_integrity_written,
}

-- From the variables `r` with `s` left, the loop comes to the end with `result`.
abbrev pub Walks :
    (win32 : Win32Text) → IsStrict win32 → Reading → Bytes → Outcome (Reading × Bytes) → Type 0
Walks win32 strict = Continues win32 strict (request_field win32) (request_field-Ends win32)

module _ (win32 : Win32Text) (strict : IsStrict win32) where
  pub walk :
      (key : Wide) (r : Reading) (value : Bytes) {r' : Reading} {rest : Bytes}
      {result : Outcome (Reading × Bytes)}
      → is_literal key ≡ true
      → request_field win32 r key value ≡ ok (r', rest)
      → Walks win32 strict r' rest result
      → Walks win32 strict r (b',' ∷ member key value) result
  walk = Continues-member win32 strict (request_field win32) (request_field-Ends win32)

  pub walk_end : (r : Reading) (rest : Bytes) → Walks win32 strict r (b'}' ∷ rest) (ok (r, rest))
  walk_end = Continues-end win32 strict (request_field win32) (request_field-Ends win32)

  pub walk_first :
      (key : Wide) (r : Reading) (value : Bytes) {r' : Reading} {rest : Bytes}
      {result : Outcome (Reading × Bytes)}
      → is_literal key ≡ true
      → request_field win32 r key value ≡ ok (r', rest)
      → Walks win32 strict r' rest result
      → read_object win32 (request_field win32) r (b'{' ∷ member key value) ≡ result
  walk_first = read_object-member win32 strict (request_field win32) (request_field-Ends win32)

  -- A flag that is written only if it is set.
  pub force_flag :
      (b : Bool) (r : Reading) (rest : Bytes) {result : Outcome (Reading × Bytes)}
      → r.force ≡ false
      → r.request.force ≡ false
      → Walks win32 strict
          (record r { request = record (r.request) { force = b }; force = b })
          rest
          result
      → Walks win32 strict r (optional b (codes ",\"force\":true") ++ rest) result
  unfolding json_string json_chars json_char
  force_flag true r rest first unset next =
      walk (codes "force") r (codes "true" ++ rest) refl
        (force_written win32 strict r rest true first) next
  force_flag false r rest {result} first unset next =
      subst (λ x. Walks win32 strict x rest result)
        (λ i. record r {
          request = record (r.request) { force = sym unset i };
          force = sym first i;
        })
        next

  -- A flag that is written only if it is set.
  pub log_flag :
      (b : Bool) (r : Reading) (rest : Bytes) {result : Outcome (Reading × Bytes)}
      → r.log ≡ false
      → r.request.log ≡ false
      → Walks win32 strict
          (record r { request = record (r.request) { log = b }; log = b })
          rest
          result
      → Walks win32 strict r (optional b (codes ",\"log\":true") ++ rest) result
  unfolding json_string json_chars json_char
  log_flag true r rest first unset next =
      walk (codes "log") r (codes "true" ++ rest) refl (log_written win32 strict r rest true first)
        next
  log_flag false r rest {result} first unset next =
      subst (λ x. Walks win32 strict x rest result)
        (λ i. record r { request = record (r.request) { log = sym unset i }; log = sym first i })
        next

  -- A flag that is written only if it is set.
  pub restrict_access_flag :
      (b : Bool) (r : Reading) (rest : Bytes) {result : Outcome (Reading × Bytes)}
      → r.restrict_access ≡ false
      → r.request.restrict_access ≡ false
      → Walks win32 strict
          (record r { request = record (r.request) { restrict_access = b }; restrict_access = b })
          rest
          result
      → Walks win32 strict r (optional b (codes ",\"restrictAccess\":true") ++ rest) result
  unfolding json_string json_chars json_char
  restrict_access_flag true r rest first unset next =
      walk (codes "restrictAccess") r (codes "true" ++ rest) refl
        (restrict_access_written win32 strict r rest true first) next
  restrict_access_flag false r rest {result} first unset next =
      subst (λ x. Walks win32 strict x rest result)
        (λ i. record r {
          request = record (r.request) { restrict_access = sym unset i };
          restrict_access = sym first i;
        })
        next

  -- A flag that is written only if it is set.
  pub low_integrity_flag :
      (b : Bool) (r : Reading) (rest : Bytes) {result : Outcome (Reading × Bytes)}
      → r.low_integrity ≡ false
      → r.request.low_integrity ≡ false
      → Walks win32 strict
          (record r { request = record (r.request) { low_integrity = b }; low_integrity = b })
          rest
          result
      → Walks win32 strict r (optional b (codes ",\"lowIntegrity\":true") ++ rest) result
  unfolding json_string json_chars json_char
  low_integrity_flag true r rest first unset next =
      walk (codes "lowIntegrity") r (codes "true" ++ rest) refl
        (low_integrity_written win32 strict r rest true first) next
  low_integrity_flag false r rest {result} first unset next =
      subst (λ x. Walks win32 strict x rest result)
        (λ i. record r {
          request = record (r.request) { low_integrity = sym unset i };
          low_integrity = sym first i;
        })
        next

-- A message that was read to its end is what the checks behind the reader make of it.
pub parse_broker_request_reads :
    (win32 : Win32Text) (message : Bytes) {r : Reading} {q : BrokerRequest}
    → 0 < length message
    → length message ≤ maximum_message_bytes
    → read_object win32 (request_field win32) no_reading message ≡ ok (r, [])
    → finish r ≡ ok q
    → parse_broker_request win32 message ≡ ok q
unfolding parse_broker_request
parse_broker_request_reads win32 [] h k e f = absurd (omega arith)
parse_broker_request_reads win32 (c ∷ message) h k e f = rw (small, e) (rw (end-nil, f))
  where
    small : leb (length (c ∷ message)) maximum_message_bytes ≡ true
    small = ground arith
