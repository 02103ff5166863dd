-- ===== src/Launcher.antt =====
-- src/launcher/LauncherOptions.h and LauncherOptions.cpp: the command line of launch-as.exe.
pub mod Written
use launch_as.Base.{
  ℕ, zero, suc, ◌+◌, ◌-◌, ◌*◌, ◌/◌, ◌%◌, ◌^◌, ◌≤◌, ◌<◌, bit_or, String, ◌≡◌, refl, sym, ap, ◌∙◌,
  subst, ◌≢◌, ◌↔◌, ◌⊎◌, inl, inr, Bool, true, false, not, ◌&&◌, ◌||◌, Option, none, some, List, [],
  ◌∷◌, ◌++◌, map, append_assoc, append-nil, arith, ltb, leb, ◌==◌, within, if◌then◌else◌, ==_iff,
  Bool-cases, Option-cases, Bytes, Wide, codes, length, is_empty, all_of, drop, All, length-append,
  text_eq, mem, starts_with, text_eq_refl, text_eq_sound, Outcome, ok, rejected, stuck, ◌>>=◌, ◌>>◌,
  guard, or_reject,
}
use launch_as.AppContainer.{AppContainerOptions, is_valid_app_container_options}

pub data SessionMode : Type 0 where
  console interactive : SessionMode

pub record Options : Type 0 where
  pub username : Wide
  pub working_directory : Wide
  pub executable_path : Wide
  pub process_arguments : List Wide
  pub session_mode : SessionMode
  pub restrict_access : Bool
  pub low_integrity : Bool
  pub log : Bool
  pub app_container : AppContainerOptions

abbrev pub default_options : Options
default_options = record {
  username = [];
  working_directory = [];
  executable_path = [];
  process_arguments = [];
  session_mode = SessionMode.console;
  restrict_access = false;
  low_integrity = false;
  log = false;
  app_container = record { enabled = false; capabilities = [] };
}

-- The variables of the loop.
pub record Scan : Type 0 where
  pub options : Options
  pub process_arguments_started : Bool
  pub mode_seen : Bool

abbrev pub first_scan : Scan
first_scan = record {
  options = default_options;
  process_arguments_started = false;
  mode_seen = false;
}

unfoldable pub is_flag : Wide → Bool
is_flag name =
    text_eq name (codes "--appcontainer-experimental")
    || text_eq name (codes "--log")
    || text_eq name (codes "--restrict-access")
    || text_eq name (codes "--low-integrity")

-- An option without a value, which may be given once.
unfoldable pub set_flag : Wide → Scan → Outcome Scan
set_flag name r =
    if text_eq name (codes "--appcontainer-experimental")
    then (do
      guard (not r.options.app_container.enabled)
      ok (record r {
        options = record (r.options) {
          app_container = record (r.options.app_container) { enabled = true };
        };
      }))
    else if text_eq name (codes "--log")
    then (do
      guard (not r.options.log)
      ok (record r { options = record (r.options) { log = true } }))
    else if text_eq name (codes "--restrict-access")
    then (do
      guard (not r.options.restrict_access)
      ok (record r { options = record (r.options) { restrict_access = true } }))
    else do
      guard (not r.options.low_integrity)
      ok (record r { options = record (r.options) { low_integrity = true } })

unfoldable pub mode_of : Wide → Outcome SessionMode
mode_of value =
    if text_eq value (codes "console")
    then ok SessionMode.console
    else if text_eq value (codes "interactive")
    then ok SessionMode.interactive
    else rejected

-- An option with a value.
unfoldable pub set_value : Wide → Wide → Scan → Outcome Scan
unfolding mode_of
set_value name value r =
    if text_eq name (codes "--user")
    then ok (record r { options = record (r.options) { username = value } })
    else if text_eq name (codes "--appcontainer-capability")
    then ok (record r {
      options = record (r.options) {
        app_container = record (r.options.app_container) {
          capabilities = r.options.app_container.capabilities ++ value ∷ [];
        };
      };
    })
    else if text_eq name (codes "--working-directory")
    then ok (record r { options = record (r.options) { working_directory = value } })
    else if text_eq name (codes "--mode") && not r.mode_seen
    then (do
      mode ← mode_of value
      ok (record r { options = record (r.options) { session_mode = mode }; mode_seen = true }))
    else rejected

-- Behind "--": the rest is the program and its arguments, whatever it looks like.
abbrev pub start_process : List Wide → Scan → Scan
start_process rest r = record r {
  options = record (r.options) { process_arguments = r.options.process_arguments ++ rest };
  process_arguments_started = true;
}

-- The loop over the arguments.
unfoldable pub scan : List Wide → Scan → Outcome Scan
unfolding is_flag set_flag set_value
scan [] r = ok r
scan (name ∷ []) r = elim (text_eq name (codes "--")) [
  | true ↦ ok (start_process [] r)
  | false ↦ elim (is_flag name) [ true ↦ set_flag name r | false ↦ rejected ]
]
scan (name ∷ value ∷ rest) r = elim (text_eq name (codes "--")) [
  | true ↦ ok (start_process (value ∷ rest) r)
  | false ↦ elim (is_flag name) [
    | true ↦ set_flag name r >>= scan (value ∷ rest)
    | false ↦ set_value name value r >>= scan rest
  ]
]

unfoldable pub is_console : SessionMode → Bool
is_console SessionMode.console = true
is_console SessionMode.interactive = false

unfoldable pub is_account_name : Wide → Bool
is_account_name username =
    not (is_empty username) && all_of (λ c. not (mem c (codes "\\/@"))) username

-- The conditions behind the loop.
unfoldable pub are_sound : Options → Bool
unfolding is_console is_account_name
are_sound options =
    is_valid_app_container_options options.app_container
    && not (
        options.app_container.enabled
        && (not (is_console options.session_mode)
            || options.low_integrity
            || options.restrict_access))
    && is_account_name options.username

-- The first argument behind "--" is the executable.
unfoldable pub split_command : Options → List Wide → Outcome Options
split_command options [] = rejected
split_command options (executable ∷ rest) =
    ok (record options { executable_path = executable; process_arguments = rest })

unfoldable pub parse_options : List Wide → Outcome Options
unfolding scan are_sound split_command
parse_options [] = rejected
parse_options (program ∷ []) = rejected
parse_options (program ∷ first ∷ rest) = do
  r ← scan (if text_eq first (codes "run") then rest else first ∷ rest) first_scan
  guard (are_sound r.options)
  guard r.process_arguments_started
  split_command r.options r.options.process_arguments
