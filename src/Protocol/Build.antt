-- ===== src/Protocol/Build.antt =====
-- src/protocol/BrokerProtocol.cpp: the requests that the launcher and the administration tool
-- write.
use launch_as.Base.{
  Bool, true, false, not, ◌&&◌, ◌||◌, Option, none, some, List, [], ◌++◌, leb, if◌then◌else◌, Bytes,
  Wide, codes, length, is_empty, all_of,
}
use launch_as.Utf8.{Win32Text, is_valid_utf16}
use launch_as.AppContainer.{AppContainerOptions, is_valid_app_container_options}
use launch_as.Json.Writer.{json_string, json_strings, boolean_text}
use launch_as.Protocol.{RequestOperation, list, request_operation_name, maximum_message_bytes}

unfoldable pub is_list : RequestOperation → Bool
is_list list = true
is_list _ = false

-- `if (flag) request += text;`
abbrev pub optional : Bool → Bytes → Bytes
optional true text = text
optional false text = []

unfoldable pub build_management_request : RequestOperation → Wide → Wide → Bool → Bytes
unfolding is_list
build_management_request operation request_id profile_id force =
    codes "{\"version\":1,\"requestId\":"
    ++ (json_string request_id
        ++ (codes ",\"operation\":"
            ++ (json_string (request_operation_name operation)
                ++ (optional (not (is_list operation))
                      (codes ",\"profileId\":" ++ json_string profile_id)
                    ++ (optional force (codes ",\"force\":true") ++ codes "}")))))

-- BeginLaunchRequest writes this part of the request, if its conditions hold.
unfoldable pub launch_head : Wide → Wide → Bytes → List Wide → Wide → Bytes → Bytes
launch_head request_id profile_id mode arguments working_directory more =
    codes "{\"version\":1,\"requestId\":"
    ++ (json_string request_id
        ++ (codes ",\"operation\":\"launch\",\"profileId\":"
            ++ (json_string profile_id
                ++ (codes ",\"mode\":\""
                    ++ (mode
                        ++ (codes "\",\"arguments\":["
                            ++ (json_strings arguments
                                ++ (codes "],\"workingDirectory\":"
                                    ++ (json_string working_directory ++ more)))))))))

unfoldable pub begin_launch_request :
    Win32Text → Wide → Wide → Bytes → List Wide → Wide → Bytes → Option Bytes
begin_launch_request win32 request_id profile_id mode arguments working_directory more =
    if is_empty request_id
      || is_empty profile_id
      || is_empty arguments
      || is_empty working_directory
      || not (is_valid_utf16 win32 request_id)
      || not (is_valid_utf16 win32 profile_id)
      || not (is_valid_utf16 win32 working_directory)
      || not (all_of (is_valid_utf16 win32) arguments)
    then none
    else some (launch_head request_id profile_id mode arguments working_directory more)

abbrev pub flags : Bool → Bool → Bool → Bytes → Bytes
flags log restrict_access low_integrity more =
    optional log (codes ",\"log\":true")
    ++ (optional restrict_access (codes ",\"restrictAccess\":true")
        ++ (optional low_integrity (codes ",\"lowIntegrity\":true") ++ more))

-- `return request.size() <= MaximumMessageBytes;`
abbrev pub within_message : Option Bytes → Option Bytes
within_message none = none
within_message (some request) =
    if leb (length request) maximum_message_bytes then some request else none

-- What BuildConsoleLaunchRequest appends behind the head.
unfoldable pub console_tail :
    Wide → Wide → Wide → Bool → Bool → Bool → Bool → AppContainerOptions → Bytes
console_tail pipe_in pipe_out pipe_resize inherit_cursor restrict_access low_integrity log
      app_container =
    flags log restrict_access low_integrity (
      optional app_container.enabled (
        codes ",\"appContainer\":true,\"capabilities\":["
        ++ (json_strings app_container.capabilities ++ codes "]"))
      ++ (codes ",\"console\":{\"pipeIn\":"
          ++ (json_string pipe_in
              ++ (codes ",\"pipeOut\":"
                  ++ (json_string pipe_out
                      ++ (codes ",\"pipeResize\":"
                          ++ (json_string pipe_resize
                              ++ (codes ",\"inheritCursor\":"
                                  ++ (boolean_text inherit_cursor ++ codes "}}")))))))))

unfoldable pub build_console_launch_request :
    Win32Text
    → Wide
    → Wide
    → List Wide
    → Wide
    → Wide
    → Wide
    → Wide
    → Bool
    → Bool
    → Bool
    → Bool
    → AppContainerOptions
    → Option Bytes
build_console_launch_request win32 request_id profile_id arguments working_directory pipe_in
      pipe_out pipe_resize inherit_cursor restrict_access low_integrity log app_container =
    if not (is_valid_app_container_options app_container)
      || app_container.enabled && (restrict_access || low_integrity)
      || is_empty pipe_in
      || is_empty pipe_out
      || is_empty pipe_resize
      || not (is_valid_utf16 win32 pipe_in)
      || not (is_valid_utf16 win32 pipe_out)
      || not (is_valid_utf16 win32 pipe_resize)
    then none
    else within_message (
        begin_launch_request win32 request_id profile_id (codes "console") arguments
          working_directory
          (console_tail pipe_in pipe_out pipe_resize inherit_cursor restrict_access low_integrity
            log app_container))

-- What BuildInteractiveLaunchRequest appends behind the head.
unfoldable pub interactive_tail : Wide → Wide → Bool → Bool → Bool → Bytes
interactive_tail lease_pipe nonce restrict_access low_integrity log =
    flags log restrict_access low_integrity (
      codes ",\"interactive\":{\"leasePipe\":"
      ++ (json_string lease_pipe ++ (codes ",\"nonce\":" ++ (json_string nonce ++ codes "}}"))))

unfoldable pub build_interactive_launch_request :
    Win32Text → Wide → Wide → List Wide → Wide → Wide → Wide → Bool → Bool → Bool → Option Bytes
build_interactive_launch_request win32 request_id profile_id arguments working_directory lease_pipe
      nonce restrict_access low_integrity log =
    if is_empty lease_pipe
      || is_empty nonce
      || not (is_valid_utf16 win32 lease_pipe)
      || not (is_valid_utf16 win32 nonce)
    then none
    else within_message (
        begin_launch_request win32 request_id profile_id (codes "interactive") arguments
          working_directory (interactive_tail lease_pipe nonce restrict_access low_integrity log))
