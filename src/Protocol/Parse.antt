-- ===== src/Protocol/Parse.antt =====
-- src/protocol/BrokerProtocol.cpp: ParseBrokerRequest, behind the reader and as a whole.
use launch_as.Base.{
  Bool, not, ◌&&◌, ◌||◌, leb, if◌then◌else◌, Bytes, Wide, codes, length, is_empty, text_eq, Outcome,
  ok, rejected, ◌>>=◌, ◌>>◌, guard,
}
use launch_as.Utf8.{Win32Text}
use launch_as.AppContainer.{is_valid_app_container_options}
use launch_as.Json.{end}
use launch_as.Json.Objects.{read_object}
use launch_as.Protocol.{
  RequestOperation, console_launch, interactive_launch, create, take_over, list, forget, delete,
  BrokerRequest, is_request_id, is_console_pipe_name, is_interactive_lease_pipe_name,
  maximum_message_bytes,
}
use launch_as.Protocol.Request.{LaunchMode, missing, Reading, no_reading}
use launch_as.Protocol.Fields.{request_field}

-- The first condition behind the reader: what every request must have.
unfoldable pub is_sound : Reading → Bool
is_sound r =
    r.version
    && r.request_id
    && r.operation
    && is_valid_app_container_options r.request.app_container
    && not (r.capabilities && not r.request.app_container.enabled)
    && not
        (r.request.app_container.enabled && (r.request.low_integrity || r.request.restrict_access))

-- Members of a launch only.
unfoldable pub has_launch_member : Reading → Bool
has_launch_member r =
    r.mode || r.arguments || r.working_directory || r.console || r.interactive || r.restrict_access
    || r.low_integrity || r.log || r.app_container || r.capabilities

unfoldable pub finish_list : Reading → Outcome BrokerRequest
finish_list r = do
  guard (not (r.profile || r.force || has_launch_member r))
  ok (record (r.request) { operation = list })

unfoldable pub is_account_operation : Wide → Bool
is_account_operation name =
    text_eq name (codes "create")
    || text_eq name (codes "takeover")
    || text_eq name (codes "forget")
    || text_eq name (codes "delete")

unfoldable pub account_operation : Wide → RequestOperation
account_operation name =
    if text_eq name (codes "create")
    then create
    else if text_eq name (codes "takeover")
    then take_over
    else if text_eq name (codes "forget")
    then forget
    else delete

unfoldable pub finish_account : Reading → Outcome BrokerRequest
finish_account r = do
  guard (not (has_launch_member r))
  ok (record (r.request) { operation = account_operation r.operation_name })

unfoldable pub finish_interactive : Reading → Outcome BrokerRequest
finish_interactive r = do
  guard (not (r.app_container || r.capabilities || r.console || not r.interactive))
  guard (is_interactive_lease_pipe_name r.request.interactive.lease_pipe)
  guard (is_request_id r.request.interactive.nonce)
  ok (record (r.request) { operation = interactive_launch })

unfoldable pub are_console_pipes : Wide → Wide → Wide → Bool
are_console_pipes pipe_in pipe_out pipe_resize =
    is_console_pipe_name pipe_in
    && is_console_pipe_name pipe_out
    && is_console_pipe_name pipe_resize
    && not (text_eq pipe_in pipe_out)
    && not (text_eq pipe_in pipe_resize)
    && not (text_eq pipe_out pipe_resize)

unfoldable pub finish_console : Reading → Outcome BrokerRequest
finish_console r = do
  guard (r.console && not r.interactive)
  guard (
      are_console_pipes r.request.console.pipe_in r.request.console.pipe_out
        r.request.console.pipe_resize)
  ok (record (r.request) { operation = console_launch })

unfoldable pub finish_mode : LaunchMode → Reading → Outcome BrokerRequest
finish_mode missing r = rejected
finish_mode LaunchMode.console r = finish_console r
finish_mode LaunchMode.interactive r = finish_interactive r

unfoldable pub finish_launch : Reading → Outcome BrokerRequest
finish_launch r = do
  guard (text_eq r.operation_name (codes "launch") && r.arguments && r.working_directory)
  finish_mode r.launch_mode r

-- An operation on an account; `force` belongs to a takeover alone.
unfoldable pub finish_profile : Reading → Outcome BrokerRequest
finish_profile r = do
  guard (r.profile && not (r.force && not (text_eq r.operation_name (codes "takeover"))))
  let account = is_account_operation r.operation_name
  if account then finish_account r else finish_launch r

-- What ParseBrokerRequest does behind the reader, in its order.
unfoldable pub finish : Reading → Outcome BrokerRequest
finish r = do
  guard (is_sound r)
  let listed = text_eq r.operation_name (codes "list")
  if listed then finish_list r else finish_profile r

-- `rejected` is ParseResult::InvalidRequest. What the request then holds is not modelled: the pipe
-- server answers without it.
unfoldable pub parse_broker_request : Win32Text → Bytes → Outcome BrokerRequest
parse_broker_request win32 message = do
  guard (not (is_empty message) && leb (length message) maximum_message_bytes)
  (r, rest) ← read_object win32 (request_field win32) no_reading message
  guard (end rest)
  finish r
