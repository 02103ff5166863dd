-- ===== src/Protocol/Termination.antt =====
-- src/protocol/BrokerProtocol.cpp: the fuel of ParseBrokerRequest.
use launch_as.Base.{
  ◌≢◌, not, ◌&&◌, ◌||◌, leb, ◌==◌, Bytes, Wide, codes, length, is_empty, text_eq, stuck,
}
use launch_as.Utf8.{Win32Text}
use launch_as.AppContainer.{is_app_container_capability}
use launch_as.Json.Progress.{
  Ends, took, refused, Ends-if, Ends-guard, Ends-bind, Ends-ne-stuck, string-Ends, unsigned-Ends,
  boolean-Ends,
}
use launch_as.Json.Termination.{read_object-Ends, read_string_array-Ends}
use launch_as.Json.Objects.{read_object}
use launch_as.Protocol.{
  ConsoleRequest, InteractiveLaunchRequest, is_request_id, is_valid_profile_id,
  maximum_message_bytes,
}
use launch_as.Protocol.Request.{
  Reading, ConsoleReading, InteractiveReading, launch_mode_of, is_missing, is_argument,
  is_working_directory, no_reading, read_pipe_in, read_pipe_out, read_pipe_resize,
  read_inherit_cursor, console_field, read_console, read_lease_pipe, read_nonce, interactive_field,
  read_interactive_launch,
}
use launch_as.Protocol.Fields
use launch_as.Protocol.Fields.{request_field}
use launch_as.Protocol.Parse.{
  finish, finish_mode, finish_list, finish_profile, finish_account, finish_launch, finish_console,
  finish_interactive, parse_broker_request, is_sound, has_launch_member, is_account_operation,
  are_console_pipes,
}
use launch_as.Protocol.Request.{LaunchMode, missing}
use launch_as.Protocol.{is_interactive_lease_pipe_name}
use launch_as.Json.{end}
use launch_as.Base.{guard-ne-stuck, if-ne-stuck, >>=-ne-stuck}

finish_mode-ne-stuck : (m : LaunchMode) (r : Reading) → finish_mode m r ≢ stuck
unfolding finish_mode finish_console finish_interactive
finish_mode-ne-stuck missing r = λ e. cc
finish_mode-ne-stuck LaunchMode.console r = guard-ne-stuck (r.console && not r.interactive) _ (
    guard-ne-stuck
      (are_console_pipes r.request.console.pipe_in r.request.console.pipe_out
        r.request.console.pipe_resize)
      _ (λ e. cc))
finish_mode-ne-stuck LaunchMode.interactive r =
    guard-ne-stuck (not (r.app_container || r.capabilities || r.console || not r.interactive)) _ (
      guard-ne-stuck (is_interactive_lease_pipe_name r.request.interactive.lease_pipe) _
        (guard-ne-stuck (is_request_id r.request.interactive.nonce) _ (λ e. cc)))

finish-ne-stuck : (r : Reading) → finish r ≢ stuck
unfolding finish finish_list finish_profile finish_account finish_launch
finish-ne-stuck r = guard-ne-stuck (is_sound r) _ (
    if-ne-stuck (text_eq r.operation_name (codes "list"))
      (guard-ne-stuck (not (r.profile || r.force || has_launch_member r)) _ (λ e. cc))
      (guard-ne-stuck
        (r.profile && not (r.force && not (text_eq r.operation_name (codes "takeover")))) _
        (if-ne-stuck (is_account_operation r.operation_name)
          (guard-ne-stuck (not (has_launch_member r)) _ (λ e. cc))
          (guard-ne-stuck
            (text_eq r.operation_name (codes "launch") && r.arguments && r.working_directory) _
            (finish_mode-ne-stuck r.launch_mode r)))))

module _ (win32 : Win32Text) where
  read_pipe_in-Ends : (r : ConsoleReading) (s : Bytes) → Ends (length s) (read_pipe_in win32 r s)
  unfolding read_pipe_in
  read_pipe_in-Ends r s =
      Ends-guard (not r.pipe_in) _
        λ _. Ends-bind _ (string-Ends win32 s) λ value rest k. took {rest = rest} k

  read_pipe_out-Ends : (r : ConsoleReading) (s : Bytes) → Ends (length s) (read_pipe_out win32 r s)
  unfolding read_pipe_out
  read_pipe_out-Ends r s =
      Ends-guard (not r.pipe_out) _
        λ _. Ends-bind _ (string-Ends win32 s) λ value rest k. took {rest = rest} k

  read_pipe_resize-Ends :
      (r : ConsoleReading) (s : Bytes) → Ends (length s) (read_pipe_resize win32 r s)
  unfolding read_pipe_resize
  read_pipe_resize-Ends r s =
      Ends-guard (not r.pipe_resize) _
        λ _. Ends-bind _ (string-Ends win32 s) λ value rest k. took {rest = rest} k

  read_inherit_cursor-Ends :
      (r : ConsoleReading) (s : Bytes) → Ends (length s) (read_inherit_cursor win32 r s)
  unfolding read_inherit_cursor
  read_inherit_cursor-Ends r s =
      Ends-guard (not r.inherit_cursor) _
        λ _. Ends-bind _ (boolean-Ends s) λ value rest k. took {rest = rest} k

  pub console_field-Ends :
      (r : ConsoleReading) (name : Wide) (s : Bytes)
      → Ends (length s) (console_field win32 r name s)
  unfolding console_field
  console_field-Ends r name s = Ends-if (text_eq name (codes "pipeIn")) (read_pipe_in-Ends r s) (
      Ends-if (text_eq name (codes "pipeOut")) (read_pipe_out-Ends r s) (
        Ends-if (text_eq name (codes "pipeResize")) (read_pipe_resize-Ends r s) (
          Ends-if (text_eq name (codes "inheritCursor")) (read_inherit_cursor-Ends r s) (refused))))

  read_console-Ends : (c : ConsoleRequest) (s : Bytes) → Ends (length s) (read_console win32 c s)
  unfolding read_console
  read_console-Ends c s =
      Ends-bind _ (read_object-Ends win32 (console_field win32) console_field-Ends _ s) λ r rest k.
        Ends-guard (r.pipe_in && r.pipe_out && r.pipe_resize) _ λ _. took {rest = rest} k

  read_lease_pipe-Ends :
      (r : InteractiveReading) (s : Bytes) → Ends (length s) (read_lease_pipe win32 r s)
  unfolding read_lease_pipe
  read_lease_pipe-Ends r s =
      Ends-guard (not r.lease_pipe) _
        λ _. Ends-bind _ (string-Ends win32 s) λ value rest k. took {rest = rest} k

  read_nonce-Ends : (r : InteractiveReading) (s : Bytes) → Ends (length s) (read_nonce win32 r s)
  unfolding read_nonce
  read_nonce-Ends r s =
      Ends-guard (not r.nonce) _
        λ _. Ends-bind _ (string-Ends win32 s) λ value rest k. took {rest = rest} k

  pub interactive_field-Ends :
      (r : InteractiveReading) (name : Wide) (s : Bytes)
      → Ends (length s) (interactive_field win32 r name s)
  unfolding interactive_field
  interactive_field-Ends r name s =
      Ends-if (text_eq name (codes "leasePipe")) (read_lease_pipe-Ends r s)
        (Ends-if (text_eq name (codes "nonce")) (read_nonce-Ends r s) (refused))

  read_interactive_launch-Ends :
      (i : InteractiveLaunchRequest) (s : Bytes)
      → Ends (length s) (read_interactive_launch win32 i s)
  unfolding read_interactive_launch
  read_interactive_launch-Ends i s =
      Ends-bind _ (read_object-Ends win32 (interactive_field win32) interactive_field-Ends _ s)
        λ r rest k. Ends-guard (r.lease_pipe && r.nonce) _ λ _. took {rest = rest} k

  read_version-Ends : (r : Reading) (s : Bytes) → Ends (length s) (Fields.read_version win32 r s)
  unfolding Fields.read_version
  read_version-Ends r s = Ends-guard (not r.version) _ λ _.
      Ends-bind _ (unsigned-Ends s)
        λ value rest k. Ends-guard (value == 1) _ λ _. took {rest = rest} k

  read_request_id-Ends :
      (r : Reading) (s : Bytes) → Ends (length s) (Fields.read_request_id win32 r s)
  unfolding Fields.read_request_id
  read_request_id-Ends r s = Ends-guard (not r.request_id) _ λ _.
      Ends-bind _ (string-Ends win32 s)
        λ value rest k. Ends-guard (is_request_id value) _ λ _. took {rest = rest} k

  read_operation-Ends :
      (r : Reading) (s : Bytes) → Ends (length s) (Fields.read_operation win32 r s)
  unfolding Fields.read_operation
  read_operation-Ends r s =
      Ends-guard (not r.operation) _
        λ _. Ends-bind _ (string-Ends win32 s) λ value rest k. took {rest = rest} k

  read_profile_id-Ends :
      (r : Reading) (s : Bytes) → Ends (length s) (Fields.read_profile_id win32 r s)
  unfolding Fields.read_profile_id
  read_profile_id-Ends r s = Ends-guard (not r.profile) _ λ _.
      Ends-bind _ (string-Ends win32 s)
        λ value rest k. Ends-guard (is_valid_profile_id value) _ λ _. took {rest = rest} k

  read_mode-Ends : (r : Reading) (s : Bytes) → Ends (length s) (Fields.read_mode win32 r s)
  unfolding Fields.read_mode
  read_mode-Ends r s = Ends-guard (not r.mode) _ λ _.
      Ends-bind _ (string-Ends win32 s) λ value rest k.
        Ends-guard (not (is_missing (launch_mode_of value))) _ λ _. took {rest = rest} k

  read_arguments-Ends :
      (r : Reading) (s : Bytes) → Ends (length s) (Fields.read_arguments win32 r s)
  unfolding Fields.read_arguments
  read_arguments-Ends r s = Ends-guard (not r.arguments) _ λ _.
      Ends-bind _ (read_string_array-Ends win32 is_argument s) λ value rest k. took {rest = rest} k

  read_working_directory-Ends :
      (r : Reading) (s : Bytes) → Ends (length s) (Fields.read_working_directory win32 r s)
  unfolding Fields.read_working_directory
  read_working_directory-Ends r s = Ends-guard (not r.working_directory) _ λ _.
      Ends-bind _ (string-Ends win32 s)
        λ value rest k. Ends-guard (is_working_directory value) _ λ _. took {rest = rest} k

  read_console_member-Ends :
      (r : Reading) (s : Bytes) → Ends (length s) (Fields.read_console_member win32 r s)
  unfolding Fields.read_console_member
  read_console_member-Ends r s =
      Ends-guard (not r.console) _ λ _.
        Ends-bind _ (read_console-Ends r.request.console s) λ value rest k. took {rest = rest} k

  read_interactive_member-Ends :
      (r : Reading) (s : Bytes) → Ends (length s) (Fields.read_interactive_member win32 r s)
  unfolding Fields.read_interactive_member
  read_interactive_member-Ends r s = Ends-guard (not r.interactive) _ λ _.
      Ends-bind _ (read_interactive_launch-Ends r.request.interactive s)
        λ value rest k. took {rest = rest} k

  read_force-Ends : (r : Reading) (s : Bytes) → Ends (length s) (Fields.read_force win32 r s)
  unfolding Fields.read_force
  read_force-Ends r s =
      Ends-guard (not r.force) _
        λ _. Ends-bind _ (boolean-Ends s) λ value rest k. took {rest = rest} k

  read_restrict_access-Ends :
      (r : Reading) (s : Bytes) → Ends (length s) (Fields.read_restrict_access win32 r s)
  unfolding Fields.read_restrict_access
  read_restrict_access-Ends r s =
      Ends-guard (not r.restrict_access) _
        λ _. Ends-bind _ (boolean-Ends s) λ value rest k. took {rest = rest} k

  read_low_integrity-Ends :
      (r : Reading) (s : Bytes) → Ends (length s) (Fields.read_low_integrity win32 r s)
  unfolding Fields.read_low_integrity
  read_low_integrity-Ends r s =
      Ends-guard (not r.low_integrity) _
        λ _. Ends-bind _ (boolean-Ends s) λ value rest k. took {rest = rest} k

  read_log-Ends : (r : Reading) (s : Bytes) → Ends (length s) (Fields.read_log win32 r s)
  unfolding Fields.read_log
  read_log-Ends r s =
      Ends-guard (not r.log) _
        λ _. Ends-bind _ (boolean-Ends s) λ value rest k. took {rest = rest} k

  read_app_container-Ends :
      (r : Reading) (s : Bytes) → Ends (length s) (Fields.read_app_container win32 r s)
  unfolding Fields.read_app_container
  read_app_container-Ends r s =
      Ends-guard (not r.app_container) _
        λ _. Ends-bind _ (boolean-Ends s) λ value rest k. took {rest = rest} k

  read_capabilities-Ends :
      (r : Reading) (s : Bytes) → Ends (length s) (Fields.read_capabilities win32 r s)
  unfolding Fields.read_capabilities
  read_capabilities-Ends r s = Ends-guard (not r.capabilities) _ λ _.
      Ends-bind _ (read_string_array-Ends win32 is_app_container_capability s)
        λ value rest k. took {rest = rest} k

  pub request_field-Ends :
      (r : Reading) (name : Wide) (s : Bytes) → Ends (length s) (request_field win32 r name s)
  unfolding request_field
  request_field-Ends r name s = Ends-if (text_eq name (codes "version")) (read_version-Ends r s) (
      Ends-if (text_eq name (codes "requestId")) (read_request_id-Ends r s) (
        Ends-if (text_eq name (codes "operation")) (read_operation-Ends r s) (
          Ends-if (text_eq name (codes "profileId")) (read_profile_id-Ends r s) (
            Ends-if (text_eq name (codes "mode")) (read_mode-Ends r s) (
              Ends-if (text_eq name (codes "arguments")) (read_arguments-Ends r s) (
                Ends-if (text_eq name (codes "workingDirectory")) (read_working_directory-Ends r s)
                  (Ends-if (text_eq name (codes "console")) (read_console_member-Ends r s) (
                    Ends-if (text_eq name (codes "interactive")) (read_interactive_member-Ends r s)
                      (Ends-if (text_eq name (codes "force")) (read_force-Ends r s) (
                        Ends-if (text_eq name (codes "restrictAccess"))
                          (read_restrict_access-Ends r s)
                          (Ends-if (text_eq name (codes "lowIntegrity"))
                            (read_low_integrity-Ends r s)
                            (Ends-if (text_eq name (codes "log")) (read_log-Ends r s) (
                              Ends-if (text_eq name (codes "appContainer"))
                                (read_app_container-Ends r s)
                                (Ends-if (text_eq name (codes "capabilities"))
                                  (read_capabilities-Ends r s) (refused)))))))))))))))

  -- ParseBrokerRequest decides every message: its loops never run out of the fuel that the model
  -- gives them.
  pub parse_broker_request-ne-stuck : (message : Bytes) → parse_broker_request win32 message ≢ stuck
  unfolding parse_broker_request
  parse_broker_request-ne-stuck message =
      guard-ne-stuck (not (is_empty message) && leb (length message) maximum_message_bytes) _ (
        >>=-ne-stuck (read_object win32 (request_field win32) no_reading message) _
          (Ends-ne-stuck
            (read_object-Ends win32 (request_field win32) request_field-Ends no_reading message))
          λ (r, rest). guard-ne-stuck (end rest) _ (finish-ne-stuck r))
