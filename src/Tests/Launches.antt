-- ===== src/Tests/Launches.antt =====
-- The launcher's options and the broker's sessions at concrete inputs.
use launch_as.Base.{
  ℕ, ◌+◌, ◌≡◌, refl, Bool, true, false, [], ◌∷◌, map, arith, within, if◌then◌else◌, Wide, codes,
  text_eq, text_eq_refl, ok,
}
use launch_as.AppContainer.{
  is_valid_app_container_options, is_app_container_capability, are_capabilities,
}
use launch_as.Protocol.{BrokerRequest, empty_request}
use launch_as.Launcher.{SessionMode, Options, are_sound, parse_options}
use launch_as.Launcher.Written.{command_line, parse_options-command_line}
use launch_as.Sessions.{
  Application, no_application, try_reserve_session, release_session, has_active_session,
}
use launch_as.Sessions.Limits.{
  IsLimited, starts, continues, reserves, releases, Reachable-IsLimited,
}
use launch_as.Sessions.Release.{release_session-try_reserve_session}

abbrev options : Options
options = record {
  username = codes "build agent";
  working_directory = codes "C:\\work";
  executable_path = codes "C:\\tools\\run.exe";
  process_arguments = codes "--user" ∷ codes "--" ∷ codes "--log" ∷ [];
  session_mode = SessionMode.console;
  restrict_access = false;
  low_integrity = false;
  log = true;
  app_container = record {
    enabled = true;
    capabilities = codes "internetClient" ∷ codes "S-1-15-3-1" ∷ [];
  };
}

options_sound : are_sound options ≡ true
unfolding are_sound is_valid_app_container_options are_capabilities is_app_container_capability
options_sound = refl

parse_options-command_line_example :
    parse_options (codes "launch-as.exe" ∷ codes "run" ∷ command_line options) ≡ ok options
    × parse_options (codes "launch-as.exe" ∷ command_line options) ≡ ok options
parse_options-command_line_example =
    parse_options-command_line (codes "launch-as.exe") options options_sound

lower : ℕ → ℕ
lower c = if within b'A' b'Z' c then c + 32 else c

-- Names are compared without regard to the case of ASCII letters.
pub same_name : Wide → Wide → Bool
unfolding lower
same_name a b = text_eq (map lower a) (map lower b)

text_eq_comm : (a b : Wide) → text_eq a b ≡ text_eq b a
text_eq_comm [] [] = refl
text_eq_comm [] (c ∷ b) = refl
text_eq_comm (c ∷ a) [] = refl
text_eq_comm (c ∷ a) (d ∷ b) = ground (arith, text_eq_comm a b)

same_name_comm : (a b : Wide) → same_name a b ≡ same_name b a
unfolding same_name
same_name_comm a b = text_eq_comm (map lower a) (map lower b)

pub same_name_refl : (a : Wide) → same_name a a ≡ true
unfolding same_name
same_name_refl a = text_eq_refl (map lower a)

abbrev pub request : BrokerRequest
request = record empty_request {
  request_id = codes "3f2504e0-4f89-41d3-9a0c-0305e82c3301";
  profile_id = codes "Agent";
  restrict_access = true;
  log = true;
}

abbrev other_request : BrokerRequest
other_request = record request { profile_id = codes "AGENT" }

abbrev pub one_session : Application
one_session = (try_reserve_session same_name 0 request no_application).1

abbrev two_sessions : Application
two_sessions = (try_reserve_session same_name 5 other_request one_session).1

-- The last release fails to restore the folders.
abbrev blocked : Application
blocked =
    (release_session same_name 5 request (release_session same_name 0 request two_sessions).1).1

Reachable-IsLimited_example : IsLimited same_name blocked
Reachable-IsLimited_example = Reachable-IsLimited same_name same_name_comm blocked (
    continues
      (continues
        (continues (continues starts (reserves 0 request no_application))
          (reserves 5 other_request one_session))
        (releases 0 request two_sessions))
      (releases 5 request (release_session same_name 0 request two_sessions).1))

release_session-try_reserve_session_example :
    ((try_reserve_session same_name 0 request no_application).0 ≡ true)
    × (release_session same_name 0 request one_session ≡ (0, no_application))
unfolding has_active_session
release_session-try_reserve_session_example =
    release_session-try_reserve_session same_name same_name_refl request no_application refl
      (omega arith)
