-- ===== src/Protocol/Lease.antt =====
-- src/protocol/BrokerProtocol.cpp: the messages between the broker and the launcher about the
-- lease on the caller's desktop.
pub mod Exchange
pub mod Answer
pub mod Nonce
use launch_as.Base.{
  ℕ, Bool, true, false, not, ◌&&◌, ◌||◌, [], ◌++◌, leb, ◌==◌, if◌then◌else◌, Bytes, Wide, codes,
  length, is_empty, text_eq, Outcome, ok, rejected, ◌>>=◌, ◌>>◌, guard,
}
use launch_as.Utf8.{Win32Text}
use launch_as.Json.{string, unsigned, end}
use launch_as.Json.Objects.{first_seen, read_object}
use launch_as.Json.Writer.{json_string, to_string}
use launch_as.Protocol.{
  InteractiveLeaseOperation, acquire, release, InteractiveLeaseRequest, is_request_id, is_logon_sid,
  interactive_lease_operation_name, maximum_message_bytes,
}

unfoldable pub build_interactive_lease_acquire_request : Wide → Wide → Bytes
build_interactive_lease_acquire_request nonce child_logon_sid =
    if not (is_request_id nonce) || not (is_logon_sid child_logon_sid)
    then []
    else codes "{\"version\":1,\"operation\":\"acquire\",\"nonce\":"
      ++ (json_string nonce
          ++ (codes ",\"childLogonSid\":" ++ (json_string child_logon_sid ++ codes "}")))

unfoldable pub build_interactive_lease_release_request : Wide → Bytes
build_interactive_lease_release_request nonce =
    if not (is_request_id nonce)
    then []
    else codes "{\"version\":1,\"operation\":\"release\",\"nonce\":"
      ++ (json_string nonce ++ codes "}")

unfoldable pub build_interactive_lease_response : InteractiveLeaseOperation → Wide → ℕ → Bytes
build_interactive_lease_response operation nonce win32_error =
    if not (is_request_id nonce)
    then []
    else codes "{\"version\":1,\"operation\":"
      ++ (json_string (interactive_lease_operation_name operation)
          ++ (codes ",\"nonce\":"
              ++ (json_string nonce
                  ++ ((if win32_error == 0
                        then codes ",\"status\":\"ok\",\"win32Error\":"
                        else codes ",\"status\":\"error\",\"win32Error\":")
                      ++ (to_string win32_error ++ codes "}")))))

-- The variables of ParseInteractiveLeaseRequest.
pub record LeaseReading : Type 0 where
  pub request : InteractiveLeaseRequest
  pub operation_name : Wide
  pub version : Bool
  pub operation : Bool
  pub nonce : Bool
  pub child_logon_sid : Bool

abbrev pub no_lease_reading : LeaseReading
no_lease_reading = record {
  request = record { operation = acquire; nonce = []; child_logon_sid = [] };
  operation_name = [];
  version = false;
  operation = false;
  nonce = false;
  child_logon_sid = false;
}

module _ (win32 : Win32Text) (expected_nonce : Wide) where
  unfoldable pub read_lease_version : LeaseReading → Bytes → Outcome (LeaseReading × Bytes)
  read_lease_version r s = do
    first_seen r.version
    (value, rest) ← unsigned s
    guard (value == 1)
    ok (record r { version = true }, rest)

  unfoldable pub read_lease_operation : LeaseReading → Bytes → Outcome (LeaseReading × Bytes)
  read_lease_operation r s = do
    first_seen r.operation
    (value, rest) ← string win32 s
    guard (text_eq value (codes "acquire") || text_eq value (codes "release"))
    ok (record r { operation_name = value; operation = true }, rest)

  unfoldable pub read_lease_nonce : LeaseReading → Bytes → Outcome (LeaseReading × Bytes)
  read_lease_nonce r s = do
    first_seen r.nonce
    (value, rest) ← string win32 s
    guard (text_eq value expected_nonce)
    ok (record r { request = record (r.request) { nonce = value }; nonce = true }, rest)

  unfoldable pub read_child_logon_sid : LeaseReading → Bytes → Outcome (LeaseReading × Bytes)
  read_child_logon_sid r s = do
    first_seen r.child_logon_sid
    (value, rest) ← string win32 s
    guard (is_logon_sid value)
    ok (
      record r { request = record (r.request) { child_logon_sid = value }; child_logon_sid = true },
      rest,
    )

  unfoldable pub lease_field : LeaseReading → Wide → Bytes → Outcome (LeaseReading × Bytes)
  lease_field r name s =
      if text_eq name (codes "version")
      then read_lease_version r s
      else if text_eq name (codes "operation")
      then read_lease_operation r s
      else if text_eq name (codes "nonce")
      then read_lease_nonce r s
      else if text_eq name (codes "childLogonSid")
      then read_child_logon_sid r s
      else rejected

abbrev pub same : Bool → Bool → Bool
same true b = b
same false b = not b

-- Acquire requires the child logon SID; release must not carry one.
unfoldable pub finish_lease : LeaseReading → Outcome InteractiveLeaseRequest
finish_lease r = do
  guard (r.version && r.operation && r.nonce)
  guard (same r.child_logon_sid (text_eq r.operation_name (codes "acquire")))
  ok (record (r.request) { operation = if r.child_logon_sid then acquire else release })

unfoldable pub parse_interactive_lease_request :
    Win32Text → Bytes → Wide → Outcome InteractiveLeaseRequest
parse_interactive_lease_request win32 message expected_nonce = do
  guard (
      not (is_empty message)
      && leb (length message) maximum_message_bytes
      && is_request_id expected_nonce)
  (r, rest) ← read_object win32 (lease_field win32 expected_nonce) no_lease_reading message
  guard (end rest)
  finish_lease r

-- The variables of ParseInteractiveLeaseResponse. ERROR_INVALID_DATA is 13.
pub record LeaseAnswer : Type 0 where
  pub parsed_error : ℕ
  pub status_is_ok : Bool
  pub version : Bool
  pub operation : Bool
  pub nonce : Bool
  pub status : Bool
  pub error : Bool

abbrev pub no_lease_answer : LeaseAnswer
no_lease_answer = record {
  parsed_error = 13;
  status_is_ok = false;
  version = false;
  operation = false;
  nonce = false;
  status = false;
  error = false;
}

module _ (win32 : Win32Text) (expected_operation : InteractiveLeaseOperation)
    (expected_nonce : Wide) where
  unfoldable pub read_answer_version : LeaseAnswer → Bytes → Outcome (LeaseAnswer × Bytes)
  read_answer_version r s = do
    first_seen r.version
    (value, rest) ← unsigned s
    guard (value == 1)
    ok (record r { version = true }, rest)

  unfoldable pub read_answer_operation : LeaseAnswer → Bytes → Outcome (LeaseAnswer × Bytes)
  read_answer_operation r s = do
    first_seen r.operation
    (value, rest) ← string win32 s
    guard (text_eq value (interactive_lease_operation_name expected_operation))
    ok (record r { operation = true }, rest)

  unfoldable pub read_answer_nonce : LeaseAnswer → Bytes → Outcome (LeaseAnswer × Bytes)
  read_answer_nonce r s = do
    first_seen r.nonce
    (value, rest) ← string win32 s
    guard (text_eq value expected_nonce)
    ok (record r { nonce = true }, rest)

  unfoldable pub read_answer_status : LeaseAnswer → Bytes → Outcome (LeaseAnswer × Bytes)
  read_answer_status r s = do
    first_seen r.status
    (value, rest) ← string win32 s
    guard (text_eq value (codes "ok") || text_eq value (codes "error"))
    ok (record r { status_is_ok = text_eq value (codes "ok"); status = true }, rest)

  unfoldable pub read_answer_error : LeaseAnswer → Bytes → Outcome (LeaseAnswer × Bytes)
  read_answer_error r s = do
    first_seen r.error
    (value, rest) ← unsigned s
    ok (record r { parsed_error = value; error = true }, rest)

  unfoldable pub answer_field : LeaseAnswer → Wide → Bytes → Outcome (LeaseAnswer × Bytes)
  answer_field r name s =
      if text_eq name (codes "version")
      then read_answer_version r s
      else if text_eq name (codes "operation")
      then read_answer_operation r s
      else if text_eq name (codes "nonce")
      then read_answer_nonce r s
      else if text_eq name (codes "status")
      then read_answer_status r s
      else if text_eq name (codes "win32Error")
      then read_answer_error r s
      else rejected

unfoldable pub finish_answer : LeaseAnswer → Outcome ℕ
finish_answer r = do
  guard (r.version && r.operation && r.nonce && r.status && r.error)
  guard (same r.status_is_ok (r.parsed_error == 0))
  ok r.parsed_error

-- The result is the Win32 error of the answer.
unfoldable pub parse_interactive_lease_response :
    Win32Text → Bytes → InteractiveLeaseOperation → Wide → Outcome ℕ
parse_interactive_lease_response win32 response expected_operation expected_nonce = do
  guard (
      not (is_empty response)
      && leb (length response) maximum_message_bytes
      && is_request_id expected_nonce)
  (r, rest) ←
      read_object win32 (answer_field win32 expected_operation expected_nonce) no_lease_answer
        response
  guard (end rest)
  finish_answer r
