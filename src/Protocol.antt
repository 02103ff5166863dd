-- ===== src/Protocol.antt =====
-- src/protocol/BrokerProtocol.h and .cpp: the data of the protocol between the launcher and the
-- broker, the names of the operations, and the tests on the parts of a message.
pub mod Request
pub mod Fields
pub mod Parse
pub mod Admission
pub mod Build
pub mod Lease
pub mod Response
pub mod Exchange
pub mod Replies
pub mod Values
pub mod Results
pub mod Foreign
pub mod Answers
pub mod Written
pub mod Walk
pub mod Management
pub mod Launch
pub mod Policy
pub mod Termination
use launch_as.Base.{
  ℕ, ◌+◌, ◌*◌, Bool, true, false, not, ◌&&◌, ◌||◌, Option, none, some, List, [], ◌∷◌, ltb, leb,
  ◌==◌, within, if◌then◌else◌, Bytes, Wide, codes, length, is_empty, all_of, drop, mem, starts_with,
}
use launch_as.AppContainer.{AppContainerOptions}

-- 64 * 1024
abbrev pub maximum_message_bytes : ℕ
maximum_message_bytes = 64 * 1024

pub data RequestOperation : Type 0 where
  console_launch interactive_launch create take_over list forget delete : RequestOperation

pub record ConsoleRequest : Type 0 where
  pub pipe_in : Wide
  pub pipe_out : Wide
  pub pipe_resize : Wide
  pub inherit_cursor : Bool

pub record InteractiveLaunchRequest : Type 0 where
  pub lease_pipe : Wide
  pub nonce : Wide

pub record BrokerRequest : Type 0 where
  pub operation : RequestOperation
  pub request_id : Wide
  pub profile_id : Wide
  pub force : Bool
  pub restrict_access : Bool
  pub low_integrity : Bool
  pub log : Bool
  pub app_container : AppContainerOptions
  pub arguments : List Wide
  pub working_directory : Wide
  pub console : ConsoleRequest
  pub interactive : InteractiveLaunchRequest

abbrev pub empty_console : ConsoleRequest
empty_console = record { pipe_in = []; pipe_out = []; pipe_resize = []; inherit_cursor = false }

abbrev pub empty_interactive : InteractiveLaunchRequest
empty_interactive = record { lease_pipe = []; nonce = [] }

-- `BrokerRequest {}`
abbrev pub empty_request : BrokerRequest
empty_request = record {
  operation = console_launch;
  request_id = [];
  profile_id = [];
  force = false;
  restrict_access = false;
  low_integrity = false;
  log = false;
  app_container = record { enabled = false; capabilities = [] };
  arguments = [];
  working_directory = [];
  console = empty_console;
  interactive = empty_interactive;
}

pub data InteractiveLeaseOperation : Type 0 where
  acquire release : InteractiveLeaseOperation

pub record InteractiveLeaseRequest : Type 0 where
  pub operation : InteractiveLeaseOperation
  pub nonce : Wide
  pub child_logon_sid : Wide

abbrev is_hex : ℕ → Bool
is_hex c = within b'0' b'9' c || within b'a' b'f' c || within b'A' b'F' c

-- The loop, from `index` on.
request_id_loop : ℕ → Wide → Bool
request_id_loop index [] = true
request_id_loop index (c ∷ value) =
    let rest = request_id_loop (index + 1) value in
    if index == 8 || index == 13 || index == 18 || index == 23
    then c == b'-' && rest
    else is_hex c && rest

unfoldable pub is_request_id : Wide → Bool
unfolding request_id_loop
is_request_id value = length value == 36 && request_id_loop 0 value

-- `value.find(L'-')` splits: what stands before the first dash, and what follows it.
find_dash : Wide → Option (Wide × Wide)
find_dash [] = none
find_dash (c ∷ value) =
    let later : Option (Wide × Wide) = elim (find_dash value) [
      | none ↦ none
      | some (front, back) ↦ some (c ∷ front, back)
    ] in
    if c == b'-' then some ([], value) else later

are_digits : Wide → Bool
are_digits = all_of (within b'0' b'9')

-- The two numbers behind the prefix "S-1-5-5-".
is_sid_tail : Option (Wide × Wide) → Bool
is_sid_tail none = false
is_sid_tail (some (front, back)) =
    not (is_empty front || is_empty back || mem b'-' back) && are_digits front && are_digits back

unfoldable pub is_logon_sid : Wide → Bool
unfolding find_dash are_digits is_sid_tail
is_logon_sid value = starts_with (codes "S-1-5-5-") value && is_sid_tail (find_dash (drop 8 value))

-- `value.find_first_of(L"\\/") == npos`
abbrev no_separator : Wide → Bool
no_separator = all_of (λ c. not (mem c (codes "\\/")))

is_pipe_name : Wide → Wide → Bool
is_pipe_name front value =
    ltb (length front) (length value)
    && starts_with front value
    && leb (length value) 256
    && no_separator (drop (length front) value)

unfoldable pub is_console_pipe_name : Wide → Bool
unfolding is_pipe_name
is_console_pipe_name = is_pipe_name (codes "\\\\.\\pipe\\launch-as-")

unfoldable pub is_interactive_lease_pipe_name : Wide → Bool
unfolding is_pipe_name
is_interactive_lease_pipe_name = is_pipe_name (codes "\\\\.\\pipe\\launch-as-interactive-")

-- UNLEN is 256.
unfoldable pub is_valid_profile_id : Wide → Bool
is_valid_profile_id value =
    not (is_empty value)
    && leb (length value) 256
    && all_of (λ c. not (mem c (codes "\\/[]:;|=,+*?<>\""))) value
    && all_of (leb b' ') value

unfoldable pub request_operation_name : RequestOperation → Wide
request_operation_name console_launch = codes "launch"
request_operation_name interactive_launch = codes "launch"
request_operation_name create = codes "create"
request_operation_name take_over = codes "takeover"
request_operation_name list = codes "list"
request_operation_name forget = codes "forget"
request_operation_name delete = codes "delete"

unfoldable pub is_management_operation : RequestOperation → Bool
is_management_operation console_launch = false
is_management_operation interactive_launch = false
is_management_operation _ = true

unfoldable pub request_operation_success_reason : RequestOperation → Bytes
request_operation_success_reason create = codes "created"
request_operation_success_reason take_over = codes "taken_over"
request_operation_success_reason list = codes "listed"
request_operation_success_reason forget = codes "forgotten"
request_operation_success_reason delete = codes "deleted"
request_operation_success_reason _ = codes "unknown"

unfoldable pub request_operation_failure_reason : RequestOperation → Bytes
request_operation_failure_reason create = codes "create_failed"
request_operation_failure_reason take_over = codes "takeover_failed"
request_operation_failure_reason list = codes "list_failed"
request_operation_failure_reason forget = codes "forget_failed"
request_operation_failure_reason delete = codes "delete_failed"
request_operation_failure_reason _ = codes "invalid_request"

unfoldable pub interactive_lease_operation_name : InteractiveLeaseOperation → Wide
interactive_lease_operation_name acquire = codes "acquire"
interactive_lease_operation_name release = codes "release"
