-- ===== src/Tests/Configured.antt =====
-- A deletion by an elevated caller while a session of the account is reserved.
use launch_as.Base.{◌≡◌, refl, true, false, []}
use launch_as.Protocol.{BrokerRequest, delete}
use launch_as.Sessions.{no_application, try_reserve_session}
use launch_as.Sessions.Configure.{
  BrokerCallerIdentity, configure, refusal, configure-try_reserve_session,
}
use launch_as.CallerPolicy.{is_authorized_caller, is_complete_sid}
use launch_as.Tests.Callers.{sids}
use launch_as.Tests.Enrolled.{windows, fine, agent_sid}
use launch_as.Tests.Launches.{same_name, same_name_refl, request, one_session}
use launch_as.Tests.Registrations.{provisioner, machine}

abbrev elevated : BrokerCallerIdentity
elevated = record { user_sid = agent_sid; logon_sid = []; session_id = 1; is_elevated = true }

abbrev deletion : BrokerRequest
deletion = record request { operation = delete; log = false; restrict_access = false }

configure-try_reserve_session_example :
    configure sids agent_sid same_name windows provisioner fine fine
      (0, [])
      deletion
      elevated
      one_session
      machine
    ≡ (refusal sids agent_sid elevated, ([], machine))
unfolding try_reserve_session
configure-try_reserve_session_example =
    configure-try_reserve_session sids agent_sid same_name windows provisioner fine fine (0, [])
      same_name_refl 0 request deletion elevated no_application machine refl refl refl

refusal_of_deletion : refusal sids agent_sid elevated ≡ 170
unfolding is_authorized_caller is_complete_sid
refusal_of_deletion = refl
