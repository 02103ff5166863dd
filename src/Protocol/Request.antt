-- ===== src/Protocol/Request.antt =====
-- src/protocol/BrokerProtocol.cpp: ReadConsole, ReadInteractiveLaunch and ParseBrokerRequest.
use launch_as.Base.{
  ◌*◌, Bool, true, false, not, ◌&&◌, [], leb, if◌then◌else◌, Bytes, Wide, codes, length, is_empty,
  text_eq, Outcome, ok, rejected, ◌>>=◌, ◌>>◌, guard,
}
use launch_as.Utf8.{Win32Text}
use launch_as.Json.{string, boolean}
use launch_as.Json.Objects.{first_seen, read_object}
use launch_as.Protocol.{ConsoleRequest, InteractiveLaunchRequest, BrokerRequest, empty_request}

pub data LaunchMode : Type 0 where
  missing console interactive : LaunchMode

pub record ConsoleReading : Type 0 where
  pub console : ConsoleRequest
  pub pipe_in : Bool
  pub pipe_out : Bool
  pub pipe_resize : Bool
  pub inherit_cursor : Bool

pub record InteractiveReading : Type 0 where
  pub interactive : InteractiveLaunchRequest
  pub lease_pipe : Bool
  pub nonce : Bool

-- The variables of ParseBrokerRequest that its lambda captures; the flags say which members have
-- been seen.
pub record Reading : Type 0 where
  pub request : BrokerRequest
  pub operation_name : Wide
  pub launch_mode : LaunchMode
  pub version : Bool
  pub request_id : Bool
  pub operation : Bool
  pub profile : Bool
  pub mode : Bool
  pub arguments : Bool
  pub working_directory : Bool
  pub console : Bool
  pub interactive : Bool
  pub force : Bool
  pub restrict_access : Bool
  pub low_integrity : Bool
  pub log : Bool
  pub app_container : Bool
  pub capabilities : Bool

abbrev pub no_reading : Reading
no_reading = record {
  request = empty_request;
  operation_name = [];
  launch_mode = missing;
  version = false;
  request_id = false;
  operation = false;
  profile = false;
  mode = false;
  arguments = false;
  working_directory = false;
  console = false;
  interactive = false;
  force = false;
  restrict_access = false;
  low_integrity = false;
  log = false;
  app_container = false;
  capabilities = false;
}

unfoldable pub launch_mode_of : Wide → LaunchMode
launch_mode_of value =
    if text_eq value (codes "console")
    then LaunchMode.console
    else if text_eq value (codes "interactive")
    then LaunchMode.interactive
    else missing

abbrev pub is_missing : LaunchMode → Bool
is_missing missing = true
is_missing _ = false

-- The bounds on an argument and on the working directory.
abbrev pub is_argument : Wide → Bool
is_argument value = leb (length value) (8 * 1024)

abbrev pub is_working_directory : Wide → Bool
is_working_directory value = not (is_empty value) && leb (length value) (32 * 1024)

module _ (win32 : Win32Text) where
  unfoldable pub read_pipe_in : ConsoleReading → Bytes → Outcome (ConsoleReading × Bytes)
  read_pipe_in r s = do
    first_seen r.pipe_in
    (value, rest) ← string win32 s
    ok (record r { console = record (r.console) { pipe_in = value }; pipe_in = true }, rest)

  unfoldable pub read_pipe_out : ConsoleReading → Bytes → Outcome (ConsoleReading × Bytes)
  read_pipe_out r s = do
    first_seen r.pipe_out
    (value, rest) ← string win32 s
    ok (record r { console = record (r.console) { pipe_out = value }; pipe_out = true }, rest)

  unfoldable pub read_pipe_resize : ConsoleReading → Bytes → Outcome (ConsoleReading × Bytes)
  read_pipe_resize r s = do
    first_seen r.pipe_resize
    (value, rest) ← string win32 s
    ok (record r { console = record (r.console) { pipe_resize = value }; pipe_resize = true }, rest)

  unfoldable pub read_inherit_cursor : ConsoleReading → Bytes → Outcome (ConsoleReading × Bytes)
  read_inherit_cursor r s = do
    first_seen r.inherit_cursor
    (value, rest) ← boolean s
    ok (
      record r { console = record (r.console) { inherit_cursor = value }; inherit_cursor = true },
      rest,
    )

  unfoldable pub console_field : ConsoleReading → Wide → Bytes → Outcome (ConsoleReading × Bytes)
  console_field r name s =
      if text_eq name (codes "pipeIn")
      then read_pipe_in r s
      else if text_eq name (codes "pipeOut")
      then read_pipe_out r s
      else if text_eq name (codes "pipeResize")
      then read_pipe_resize r s
      else if text_eq name (codes "inheritCursor")
      then read_inherit_cursor r s
      else rejected

  unfoldable pub read_console : ConsoleRequest → Bytes → Outcome (ConsoleRequest × Bytes)
  read_console start s = do
    (r, rest) ←
        read_object win32 console_field
          (record {
            console = start;
            pipe_in = false;
            pipe_out = false;
            pipe_resize = false;
            inherit_cursor = false;
          })
          s
    guard (r.pipe_in && r.pipe_out && r.pipe_resize)
    ok (r.console, rest)

  unfoldable pub read_lease_pipe : InteractiveReading → Bytes → Outcome (InteractiveReading × Bytes)
  read_lease_pipe r s = do
    first_seen r.lease_pipe
    (value, rest) ← string win32 s
    ok (
      record r { interactive = record (r.interactive) { lease_pipe = value }; lease_pipe = true },
      rest,
    )

  unfoldable pub read_nonce : InteractiveReading → Bytes → Outcome (InteractiveReading × Bytes)
  read_nonce r s = do
    first_seen r.nonce
    (value, rest) ← string win32 s
    ok (record r { interactive = record (r.interactive) { nonce = value }; nonce = true }, rest)

  unfoldable pub interactive_field :
      InteractiveReading → Wide → Bytes → Outcome (InteractiveReading × Bytes)
  interactive_field r name s =
      if text_eq name (codes "leasePipe")
      then read_lease_pipe r s
      else if text_eq name (codes "nonce")
      then read_nonce r s
      else rejected

  unfoldable pub read_interactive_launch :
      InteractiveLaunchRequest → Bytes → Outcome (InteractiveLaunchRequest × Bytes)
  read_interactive_launch start s = do
    (r, rest) ←
        read_object win32 interactive_field
          (record { interactive = start; lease_pipe = false; nonce = false }) s
    guard (r.lease_pipe && r.nonce)
    ok (r.interactive, rest)
