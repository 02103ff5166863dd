-- ===== src/Protocol/Fields.antt =====
-- src/protocol/BrokerProtocol.cpp: the members of a request, as ParseBrokerRequest reads them.
use launch_as.Base.{
  true, not, ◌==◌, if◌then◌else◌, Bytes, Wide, codes, text_eq, Outcome, ok, rejected, ◌>>=◌, ◌>>◌,
  guard,
}
use launch_as.Utf8.{Win32Text}
use launch_as.AppContainer.{is_app_container_capability}
use launch_as.Json.{string, unsigned, boolean}
use launch_as.Json.Objects.{first_seen, read_string_array}
use launch_as.Protocol.{is_request_id, is_valid_profile_id}
use launch_as.Protocol.Request.{
  Reading, launch_mode_of, is_missing, is_argument, is_working_directory, read_console,
  read_interactive_launch,
}

module _ (win32 : Win32Text) where
  unfoldable pub read_version : Reading → Bytes → Outcome (Reading × Bytes)
  read_version r s = do
    first_seen r.version
    (value, rest) ← unsigned s
    guard (value == 1)
    ok (record r { version = true }, rest)

  unfoldable pub read_request_id : Reading → Bytes → Outcome (Reading × Bytes)
  read_request_id r s = do
    first_seen r.request_id
    (value, rest) ← string win32 s
    guard (is_request_id value)
    ok (record r { request = record (r.request) { request_id = value }; request_id = true }, rest)

  unfoldable pub read_operation : Reading → Bytes → Outcome (Reading × Bytes)
  read_operation r s = do
    first_seen r.operation
    (value, rest) ← string win32 s
    ok (record r { operation_name = value; operation = true }, rest)

  unfoldable pub read_profile_id : Reading → Bytes → Outcome (Reading × Bytes)
  read_profile_id r s = do
    first_seen r.profile
    (value, rest) ← string win32 s
    guard (is_valid_profile_id value)
    ok (record r { request = record (r.request) { profile_id = value }; profile = true }, rest)

  unfoldable pub read_mode : Reading → Bytes → Outcome (Reading × Bytes)
  read_mode r s = do
    first_seen r.mode
    (value, rest) ← string win32 s
    guard (not (is_missing (launch_mode_of value)))
    ok (record r { launch_mode = launch_mode_of value; mode = true }, rest)

  unfoldable pub read_arguments : Reading → Bytes → Outcome (Reading × Bytes)
  read_arguments r s = do
    first_seen r.arguments
    (value, rest) ← read_string_array win32 is_argument s
    ok (record r { request = record (r.request) { arguments = value }; arguments = true }, rest)

  unfoldable pub read_working_directory : Reading → Bytes → Outcome (Reading × Bytes)
  read_working_directory r s = do
    first_seen r.working_directory
    (value, rest) ← string win32 s
    guard (is_working_directory value)
    ok (
      record r {
        request = record (r.request) { working_directory = value };
        working_directory = true;
      },
      rest,
    )

  unfoldable pub read_console_member : Reading → Bytes → Outcome (Reading × Bytes)
  read_console_member r s = do
    first_seen r.console
    (value, rest) ← read_console win32 r.request.console s
    ok (record r { request = record (r.request) { console = value }; console = true }, rest)

  unfoldable pub read_interactive_member : Reading → Bytes → Outcome (Reading × Bytes)
  read_interactive_member r s = do
    first_seen r.interactive
    (value, rest) ← read_interactive_launch win32 r.request.interactive s
    ok (record r { request = record (r.request) { interactive = value }; interactive = true }, rest)

  unfoldable pub read_force : Reading → Bytes → Outcome (Reading × Bytes)
  read_force r s = do
    first_seen r.force
    (value, rest) ← boolean s
    ok (record r { request = record (r.request) { force = value }; force = true }, rest)

  unfoldable pub read_restrict_access : Reading → Bytes → Outcome (Reading × Bytes)
  read_restrict_access r s = do
    first_seen r.restrict_access
    (value, rest) ← boolean s
    ok (
      record r { request = record (r.request) { restrict_access = value }; restrict_access = true },
      rest,
    )

  unfoldable pub read_low_integrity : Reading → Bytes → Outcome (Reading × Bytes)
  read_low_integrity r s = do
    first_seen r.low_integrity
    (value, rest) ← boolean s
    ok (
      record r { request = record (r.request) { low_integrity = value }; low_integrity = true },
      rest,
    )

  unfoldable pub read_log : Reading → Bytes → Outcome (Reading × Bytes)
  read_log r s = do
    first_seen r.log
    (value, rest) ← boolean s
    ok (record r { request = record (r.request) { log = value }; log = true }, rest)

  unfoldable pub read_app_container : Reading → Bytes → Outcome (Reading × Bytes)
  read_app_container r s = do
    first_seen r.app_container
    (value, rest) ← boolean s
    ok (
      record r {
        request = record (r.request) {
          app_container = record (r.request.app_container) { enabled = value };
        };
        app_container = true;
      },
      rest,
    )

  unfoldable pub read_capabilities : Reading → Bytes → Outcome (Reading × Bytes)
  read_capabilities r s = do
    first_seen r.capabilities
    (value, rest) ← read_string_array win32 is_app_container_capability s
    ok (
      record r {
        request = record (r.request) {
          app_container = record (r.request.app_container) { capabilities = value };
        };
        capabilities = true;
      },
      rest,
    )

  -- The lambda that ParseBrokerRequest hands to ReadObject.
  unfoldable pub request_field : Reading → Wide → Bytes → Outcome (Reading × Bytes)
  request_field r name s =
      if text_eq name (codes "version")
      then read_version r s
      else if text_eq name (codes "requestId")
      then read_request_id r s
      else if text_eq name (codes "operation")
      then read_operation r s
      else if text_eq name (codes "profileId")
      then read_profile_id r s
      else if text_eq name (codes "mode")
      then read_mode r s
      else if text_eq name (codes "arguments")
      then read_arguments r s
      else if text_eq name (codes "workingDirectory")
      then read_working_directory r s
      else if text_eq name (codes "console")
      then read_console_member r s
      else if text_eq name (codes "interactive")
      then read_interactive_member r s
      else if text_eq name (codes "force")
      then read_force r s
      else if text_eq name (codes "restrictAccess")
      then read_restrict_access r s
      else if text_eq name (codes "lowIntegrity")
      then read_low_integrity r s
      else if text_eq name (codes "log")
      then read_log r s
      else if text_eq name (codes "appContainer")
      then read_app_container r s
      else if text_eq name (codes "capabilities")
      then read_capabilities r s
      else rejected
