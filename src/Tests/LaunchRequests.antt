-- ===== src/Tests/LaunchRequests.antt =====
-- Launch requests at concrete inputs, and the console host's command line.
use launch_as.Base.{◌≡◌, refl, true, some, List, [], ◌∷◌, arith, Bytes, Wide, codes, ok}
use launch_as.Utf8.{is_valid_utf16}
use launch_as.Json.Writer.{json_string, json_strings, json_chars, json_char}
use launch_as.AppContainer.{
  is_valid_app_container_options, are_capabilities, is_app_container_capability,
}
use launch_as.Protocol.{
  BrokerRequest, empty_request, is_request_id, is_valid_profile_id, is_console_pipe_name,
  is_interactive_lease_pipe_name,
}
use launch_as.Protocol.Parse.{parse_broker_request, are_console_pipes}
use launch_as.Protocol.Admission.{IsAdmissible}
use launch_as.Protocol.Build.{
  launch_head, console_tail, interactive_tail, begin_launch_request, build_console_launch_request,
  build_interactive_launch_request,
}
use launch_as.Protocol.Launch.Console.{console_request, parse-build_console_launch_request}
use launch_as.Protocol.Launch.Interactive.{
  interactive_request, parse-build_interactive_launch_request,
}
use launch_as.Host.{
  parse_pseudo_console_host_invocation, capability_arguments, conhost_arguments,
  conhost_command_line,
}
use launch_as.Host.Lines.{parse-conhost_command_line}
use launch_as.CommandLine.Rules.{IsCommandLine}
use launch_as.Host.Handed.{invocation_of}
use launch_as.Tests.Converter.{converter, converter-IsStrict}

abbrev launch : BrokerRequest
launch = record empty_request {
  request_id = codes "3f2504e0-4f89-41d3-9a0c-0305e82c3301";
  profile_id = codes "agent";
  log = true;
  app_container = record { enabled = true; capabilities = codes "internetClient" ∷ [] };
  arguments = codes "C:\\a.exe" ∷ codes "say \"hi\"" ∷ [];
  working_directory = codes "C:\\work";
  console = record {
    pipe_in = codes "\\\\.\\pipe\\launch-as-in";
    pipe_out = codes "\\\\.\\pipe\\launch-as-out";
    pipe_resize = codes "\\\\.\\pipe\\launch-as-size";
    inherit_cursor = true;
  };
}

launch-IsAdmissible : IsAdmissible (console_request launch)
unfolding is_request_id is_valid_app_container_options are_capabilities is_app_container_capability
    is_valid_profile_id are_console_pipes is_console_pipe_name
launch-IsAdmissible = record {
  request_id = refl;
  container = refl;
  container_alone = refl;
  fits = (
    record {
      account = refl;
      no_force = refl;
      arguments_short = refl;
      arguments_few = omega arith;
      directory = refl;
    },
    refl,
    refl,
  );
}

console_message : Bytes
unfolding launch_head console_tail
console_message =
    launch_head launch.request_id launch.profile_id (codes "console") launch.arguments
      launch.working_directory
      (console_tail launch.console.pipe_in launch.console.pipe_out launch.console.pipe_resize
        launch.console.inherit_cursor launch.restrict_access launch.low_integrity launch.log
        launch.app_container)

console_message_lem :
    build_console_launch_request converter launch.request_id launch.profile_id launch.arguments
      launch.working_directory launch.console.pipe_in launch.console.pipe_out
      launch.console.pipe_resize launch.console.inherit_cursor launch.restrict_access
      launch.low_integrity launch.log launch.app_container
    ≡ some console_message
unfolding build_console_launch_request begin_launch_request console_message is_valid_utf16 converter
    is_valid_app_container_options are_capabilities is_app_container_capability launch_head
    console_tail json_string json_strings json_chars json_char
console_message_lem = refl

parse-build_console_launch_request_example :
    parse_broker_request converter console_message ≡ ok (console_request launch)
parse-build_console_launch_request_example =
    parse-build_console_launch_request converter converter-IsStrict launch launch-IsAdmissible
      console_message console_message_lem

parse-conhost_command_line_example :
    (line : Wide) × ((arguments : List Wide) × ((conhost_command_line
            (codes "C:\\launch-as\\launch-as-conhost.exe")
            (console_request launch)
          ≡ some line)
        × (IsCommandLine line (codes "C:\\launch-as\\launch-as-conhost.exe") arguments
            × (parse_pseudo_console_host_invocation
                  (codes "C:\\launch-as\\launch-as-conhost.exe" ∷ arguments)
                ≡ ok (
                    invocation_of
                      (console_request launch)
                      (codes "C:\\a.exe")
                      (codes "say \"hi\"" ∷ []))))))
unfolding conhost_arguments capability_arguments
parse-conhost_command_line_example =
    parse-conhost_command_line converter console_message (console_request launch)
      (codes "C:\\launch-as\\launch-as-conhost.exe") (codes "C:\\a.exe") (codes "say \"hi\"" ∷ [])
      parse-build_console_launch_request_example refl refl refl refl refl

abbrev desktop_launch : BrokerRequest
desktop_launch = record empty_request {
  request_id = codes "3f2504e0-4f89-41d3-9a0c-0305e82c3301";
  profile_id = codes "agent";
  low_integrity = true;
  arguments = codes "C:\\a.exe" ∷ [];
  working_directory = codes "C:\\work";
  interactive = record {
    lease_pipe = codes "\\\\.\\pipe\\launch-as-interactive-1";
    nonce = codes "3f2504e0-4f89-41d3-9a0c-0305e82c3302";
  };
}

desktop_launch-IsAdmissible : IsAdmissible (interactive_request desktop_launch)
unfolding is_request_id is_valid_app_container_options are_capabilities is_valid_profile_id
    is_interactive_lease_pipe_name
desktop_launch-IsAdmissible = record {
  request_id = refl;
  container = refl;
  container_alone = refl;
  fits = (
    record {
      account = refl;
      no_force = refl;
      arguments_short = refl;
      arguments_few = omega arith;
      directory = refl;
    },
    refl,
    refl,
    refl,
    refl,
    refl,
  );
}

interactive_message : Bytes
unfolding launch_head interactive_tail
interactive_message =
    launch_head desktop_launch.request_id desktop_launch.profile_id (codes "interactive")
      desktop_launch.arguments desktop_launch.working_directory
      (interactive_tail desktop_launch.interactive.lease_pipe desktop_launch.interactive.nonce
        desktop_launch.restrict_access desktop_launch.low_integrity desktop_launch.log)

interactive_message_lem :
    build_interactive_launch_request converter desktop_launch.request_id desktop_launch.profile_id
      desktop_launch.arguments desktop_launch.working_directory
      desktop_launch.interactive.lease_pipe desktop_launch.interactive.nonce
      desktop_launch.restrict_access desktop_launch.low_integrity desktop_launch.log
    ≡ some interactive_message
unfolding build_interactive_launch_request begin_launch_request interactive_message is_valid_utf16
    converter launch_head interactive_tail json_string json_strings json_chars json_char
interactive_message_lem = refl

parse-build_interactive_launch_request_example :
    parse_broker_request converter interactive_message ≡ ok (interactive_request desktop_launch)
parse-build_interactive_launch_request_example =
    parse-build_interactive_launch_request converter converter-IsStrict desktop_launch
      desktop_launch-IsAdmissible interactive_message interactive_message_lem
