-- ===== src/Protocol/Response.antt =====
-- src/protocol/BrokerProtocol.cpp: the answers of the broker, as it writes them and as its clients
-- parse them.
use launch_as.Base.{
  ℕ, Bool, true, false, not, ◌&&◌, Option, none, some, List, [], ◌==◌, if◌then◌else◌, Bytes, Wide,
  codes, is_empty, text_eq, Outcome, ok, rejected, ◌>>=◌, ◌>>◌, guard,
}
use launch_as.Utf8.{Win32Text}
use launch_as.Json.{string, unsigned, end}
use launch_as.Json.Objects.{first_seen, read_object, read_string_array}
use launch_as.Protocol.{is_valid_profile_id}

-- The variables of ParseResponse, with those of the caller in `more`.
pub record Answer {ℓ} (X : Type ℓ) : Type ℓ where
  pub parsed_error : ℕ
  pub version : Bool
  pub response_id : Bool
  pub status : Bool
  pub reason : Bool
  pub error : Bool
  pub more : X

abbrev pub no_answer {ℓ} : {X : Type ℓ} → X → Answer X
no_answer more = record {
  parsed_error = 13;
  version = false;
  response_id = false;
  status = false;
  reason = false;
  error = false;
  more = more;
}

-- `expectedReason.empty() ? !text.empty() : text == expectedReason`
abbrev pub is_reason : Wide → Wide → Bool
is_reason expected text = if is_empty expected then not (is_empty text) else text_eq text expected

-- `!(expectedWin32Error && number != *expectedWin32Error)`
abbrev pub is_error : Option ℕ → ℕ → Bool
is_error none number = true
is_error (some expected) number = number == expected

-- What a caller of ParseResponse passes.
pub record Expected {ℓ} (X : Type ℓ) : Type ℓ where
  pub request_id : Wide
  pub status : Wide
  pub reason : Wide
  pub error : Option ℕ
  pub additional : X → Wide → Bytes → Outcome (X × Bytes)

module _ {ℓ} (win32 : Win32Text) {X : Type ℓ} (expected : Expected X) where
  unfoldable pub read_version : Answer X → Bytes → Outcome (Answer X × Bytes)
  read_version r s = do
    first_seen r.version
    (value, rest) ← unsigned s
    guard (value == 1)
    ok (record r { version = true }, rest)

  unfoldable pub read_response_id : Answer X → Bytes → Outcome (Answer X × Bytes)
  read_response_id r s = do
    first_seen r.response_id
    (value, rest) ← string win32 s
    guard (text_eq value expected.request_id)
    ok (record r { response_id = true }, rest)

  unfoldable pub read_status : Answer X → Bytes → Outcome (Answer X × Bytes)
  read_status r s = do
    first_seen r.status
    (value, rest) ← string win32 s
    guard (text_eq value expected.status)
    ok (record r { status = true }, rest)

  unfoldable pub read_reason : Answer X → Bytes → Outcome (Answer X × Bytes)
  read_reason r s = do
    first_seen r.reason
    (value, rest) ← string win32 s
    guard (is_reason expected.reason value)
    ok (record r { reason = true }, rest)

  unfoldable pub read_error : Answer X → Bytes → Outcome (Answer X × Bytes)
  read_error r s = do
    first_seen r.error
    (value, rest) ← unsigned s
    guard (is_error expected.error value)
    ok (record r { parsed_error = value; error = true }, rest)

  unfoldable pub read_additional : Answer X → Wide → Bytes → Outcome (Answer X × Bytes)
  read_additional r name s = do
    (more, rest) ← expected.additional r.more name s
    ok (record r { more = more }, rest)

  unfoldable pub response_field : Answer X → Wide → Bytes → Outcome (Answer X × Bytes)
  response_field r name s =
      if text_eq name (codes "version")
      then read_version r s
      else if text_eq name (codes "requestId")
      then read_response_id r s
      else if text_eq name (codes "status")
      then read_status r s
      else if text_eq name (codes "reasonCode")
      then read_reason r s
      else if text_eq name (codes "win32Error")
      then read_error r s
      else read_additional r name s

  unfoldable pub parse_response : Bytes → X → Outcome (Answer X)
  parse_response response start = do
    (r, rest) ← read_object win32 response_field (no_answer start) response
    guard (end rest)
    guard (r.version && r.response_id && r.status && r.reason && r.error)
    ok r

-- One field that a caller reads besides, with its flag.
pub record Extra {ℓ} (A : Type ℓ) : Type ℓ where
  pub value : A
  pub seen : Bool

module _ {ℓ} {A : Type ℓ} (key : Wide) (read : Bytes → Outcome (A × Bytes)) where
  -- `name == key && FirstSeen(seen) && read`
  unfoldable pub extra_field : Extra A → Wide → Bytes → Outcome (Extra A × Bytes)
  extra_field x name s = do
    guard (text_eq name key)
    first_seen x.seen
    (value, rest) ← read s
    ok (record { value = value; seen = true }, rest)

-- `reader.Unsigned(processId) && processId != 0`
unfoldable pub read_process_id : Bytes → Outcome (ℕ × Bytes)
read_process_id s = do (value, rest) ← unsigned s; guard (not (value == 0)); ok (value, rest)

module _ (win32 : Win32Text) where
  unfoldable pub parse_list_response : Bytes → Wide → Outcome (List Wide)
  parse_list_response response request_id = do
    r ←
        parse_response win32
          (record {
            request_id = request_id;
            status = codes "ok";
            reason = codes "listed";
            error = some 0;
            additional =
                extra_field (codes "accounts") (read_string_array win32 is_valid_profile_id);
          })
          response (record { value = []; seen = false })
    guard r.more.seen
    ok r.more.value

  unfoldable pub no_field : Unit {0} → Wide → Bytes → Outcome (Unit {0} × Bytes)
  no_field x name s = rejected

  -- The result is the Win32 error of the answer.
  unfoldable pub parse_error_response : Bytes → Wide → Outcome ℕ
  parse_error_response response request_id = do
    r ←
        parse_response win32
          (record {
            request_id = request_id;
            status = codes "error";
            reason = [];
            error = none;
            additional = no_field;
          })
          response tt
    ok r.parsed_error

  unfoldable pub parse_number_response :
      Wide → Wide → (Bytes → Outcome (ℕ × Bytes)) → Bytes → Wide → Outcome ℕ
  parse_number_response reason key read response request_id = do
    r ←
        parse_response win32
          (record {
            request_id = request_id;
            status = codes "ok";
            reason = reason;
            error = some 0;
            additional = extra_field key read;
          })
          response (record { value = 0; seen = false })
    guard r.more.seen
    ok r.more.value

  unfoldable pub parse_launch_success_response : Bytes → Wide → Outcome ℕ
  parse_launch_success_response =
      parse_number_response (codes "launched") (codes "processId") read_process_id

  unfoldable pub parse_launch_exit_response : Bytes → Wide → Outcome ℕ
  parse_launch_exit_response = parse_number_response (codes "exited") (codes "exitCode") unsigned

-- The variables of ParseLaunchHostFailureResponse.
pub record HostFailure : Type 0 where
  pub host_exit_code : ℕ
  pub diagnostics : Wide
  pub host_exit : Bool
  pub diagnostic : Bool

module _ (win32 : Win32Text) where
  unfoldable pub host_failure_field : HostFailure → Wide → Bytes → Outcome (HostFailure × Bytes)
  host_failure_field x name s =
      let code : Outcome (HostFailure × Bytes) = do
        first_seen x.host_exit
        (value, rest) ← unsigned s
        ok (record x { host_exit_code = value; host_exit = true }, rest)
      in let text : Outcome (HostFailure × Bytes) = do
        guard (text_eq name (codes "diagnostic"))
        first_seen x.diagnostic
        (value, rest) ← string win32 s
        ok (record x { diagnostics = value; diagnostic = true }, rest)
        in if text_eq name (codes "hostExitCode") then code else text

  -- ERROR_GEN_FAILURE is 31.
  unfoldable pub parse_launch_host_failure_response : Bytes → Wide → Outcome (ℕ × Wide)
  parse_launch_host_failure_response response request_id = do
    r ←
        parse_response win32
          (record {
            request_id = request_id;
            status = codes "error";
            reason = codes "host_failed";
            error = some 31;
            additional = host_failure_field;
          })
          response
          (record { host_exit_code = 0; diagnostics = []; host_exit = false; diagnostic = false })
    guard (r.more.host_exit && r.more.diagnostic)
    ok (r.more.host_exit_code, r.more.diagnostics)
