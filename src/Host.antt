-- ===== src/Host.antt =====
-- src/conhost/PseudoConsoleHostInvocation.cpp: the command line of the console host, and the part
-- of BrokerApplication::Launch in src/broker/BrokerApplication.cpp that writes it.
pub mod Handed
pub mod Lines
use launch_as.Base.{
  ℕ, zero, suc, ◌+◌, ◌-◌, ◌*◌, ◌/◌, ◌%◌, ◌^◌, ◌≤◌, ◌<◌, bit_or, String, ◌≡◌, refl, sym, ap, ◌∙◌,
  subst, ◌≢◌, ◌↔◌, ◌⊎◌, inl, inr, Bool, true, false, not, ◌&&◌, ◌||◌, Option, none, some, List, [],
  ◌∷◌, ◌++◌, map, append_assoc, append-nil, arith, ltb, leb, ◌==◌, within, if◌then◌else◌, ==_iff,
  Bool-cases, Option-cases, Bytes, Wide, codes, length, is_empty, all_of, any_of, filter, drop, All,
  length-append, first_error, text_eq, mem, starts_with, text_eq_refl, text_eq_sound, Outcome, ok,
  rejected, stuck, ◌>>=◌, ◌>>◌, guard, or_reject,
}
use launch_as.CommandLine.{build_windows_command_line}
use launch_as.AppContainer.{AppContainerOptions, is_valid_app_container_options}
use launch_as.Protocol.{BrokerRequest}

pub record PseudoConsoleHostInvocation : Type 0 where
  pub inherit_cursor : Bool
  pub app_container : AppContainerOptions
  pub executable : Wide
  pub process_arguments : List Wide
  pub pipe_in : Wide
  pub pipe_out : Wide
  pub pipe_resize : Wide

abbrev pub no_invocation : PseudoConsoleHostInvocation
no_invocation = record {
  inherit_cursor = false;
  app_container = record { enabled = false; capabilities = [] };
  executable = [];
  process_arguments = [];
  pipe_in = [];
  pipe_out = [];
  pipe_resize = [];
}

abbrev pub host_argument : Wide
host_argument = codes "--internal-pseudoconsole-host"

unfoldable pub is_pseudo_console_host_invocation : List Wide → Bool
is_pseudo_console_host_invocation (program ∷ first ∷ rest) = text_eq first host_argument
is_pseudo_console_host_invocation _ = false

-- An option with its value.
unfoldable pub set_host_option :
    Wide → Wide → PseudoConsoleHostInvocation → Outcome PseudoConsoleHostInvocation
set_host_option name value r =
    if is_empty value
    then rejected
    else if text_eq name (codes "--appcontainer-capability")
    then ok (record r {
      app_container = record (r.app_container) {
        capabilities = r.app_container.capabilities ++ value ∷ [];
      };
    })
    else if text_eq name (codes "--pipe-in") && is_empty r.pipe_in
    then ok (record r { pipe_in = value })
    else if text_eq name (codes "--pipe-out") && is_empty r.pipe_out
    then ok (record r { pipe_out = value })
    else if text_eq name (codes "--pipe-resize") && is_empty r.pipe_resize
    then ok (record r { pipe_resize = value })
    else rejected

abbrev pub enable_container : PseudoConsoleHostInvocation → PseudoConsoleHostInvocation
enable_container r = record r { app_container = record (r.app_container) { enabled = true } }

abbrev pub is_container_flag : Wide → PseudoConsoleHostInvocation → Bool
is_container_flag name r =
    text_eq name (codes "--appcontainer-experimental") && not r.app_container.enabled

-- The loop: it stops in front of "--" or at the end.
unfoldable pub host_options :
    List Wide → PseudoConsoleHostInvocation → Outcome (PseudoConsoleHostInvocation × List Wide)
unfolding set_host_option
host_options [] r = ok (r, [])
host_options (name ∷ []) r = elim (text_eq name (codes "--")) [
  | true ↦ ok (r, name ∷ [])
  | false ↦ elim (is_container_flag name r) [
    | true ↦ ok (enable_container r, [])
    | false ↦ rejected
  ]
]
host_options (name ∷ value ∷ rest) r = elim (text_eq name (codes "--")) [
  | true ↦ ok (r, name ∷ value ∷ rest)
  | false ↦ elim (is_container_flag name r) [
    | true ↦ host_options (value ∷ rest) (enable_container r)
    | false ↦ set_host_option name value r >>= host_options rest
  ]
]

-- The command behind "--" and the conditions on the whole.
unfoldable pub host_command :
    PseudoConsoleHostInvocation → List Wide → Outcome PseudoConsoleHostInvocation
host_command r (separator ∷ executable ∷ rest) = do
  guard (text_eq separator (codes "--"))
  guard (
      is_valid_app_container_options r.app_container
      && not (is_empty r.pipe_in)
      && not (is_empty r.pipe_out)
      && not (is_empty r.pipe_resize))
  ok (record r { executable = executable; process_arguments = rest })
host_command r _ = rejected

unfoldable pub parse_pseudo_console_host_invocation :
    List Wide → Outcome PseudoConsoleHostInvocation
unfolding host_options host_command
parse_pseudo_console_host_invocation (program ∷ host ∷ first ∷ second ∷ rest) = do
  guard (text_eq host host_argument)
  let inherit_cursor = text_eq first (codes "--inherit-cursor")
  (r, behind) ←
      host_options (if inherit_cursor then second ∷ rest else first ∷ second ∷ rest)
        (record no_invocation { inherit_cursor = inherit_cursor })
  host_command r behind
parse_pseudo_console_host_invocation _ = rejected

unfoldable pub capability_arguments : List Wide → List Wide
capability_arguments [] = []
capability_arguments (capability ∷ rest) =
    codes "--appcontainer-capability" ∷ capability ∷ capability_arguments rest

-- The arguments that BrokerApplication::Launch hands to the console host.
unfoldable pub conhost_arguments : BrokerRequest → List Wide
unfolding capability_arguments
conhost_arguments request =
    host_argument
    ∷ ((if request.console.inherit_cursor then codes "--inherit-cursor" ∷ [] else [])
        ++ ((if request.app_container.enabled
              then codes "--appcontainer-experimental"
                ∷ capability_arguments request.app_container.capabilities
              else [])
            ++ (codes "--pipe-in"
                ∷ request.console.pipe_in
                ∷ codes "--pipe-out"
                ∷ request.console.pipe_out
                ∷ codes "--pipe-resize"
                ∷ request.console.pipe_resize
                ∷ codes "--"
                ∷ request.arguments)))

-- What CreateProcess reads of the buffer, which ends at the first NUL.
abbrev pub until_nul : Wide → Wide
until_nul [] = []
until_nul (c ∷ line) = if c == 0 then [] else c ∷ until_nul line

abbrev pub terminated : Option Wide → Option Wide
terminated none = none
terminated (some line) = some (until_nul line)

-- The command line that the console host is started with.
unfoldable pub conhost_command_line : Wide → BrokerRequest → Option Wide
unfolding conhost_arguments build_windows_command_line
conhost_command_line conhost_path request =
    terminated (build_windows_command_line conhost_path (conhost_arguments request))
