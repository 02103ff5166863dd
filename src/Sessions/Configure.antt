-- ===== src/Sessions/Configure.antt =====
-- src/broker/BrokerApplication.cpp: Configure, behind the locks. The audit is a log and left out.
use launch_as.Base.{
  ℕ, ◌≡◌, refl, sym, subst, inl, inr, Bool, true, not, List, [], if◌then◌else◌, Bool-cases, Wide,
}
use launch_as.Accounts.{Sid, error_access_denied, error_invalid_parameter}
use launch_as.CallerPolicy.{SidChecks, is_authorized_caller}
use launch_as.Enrollments.{Windows, FileCalls}
use launch_as.Protocol.{RequestOperation, create, take_over, list, forget, delete, BrokerRequest}
use launch_as.Registration
use launch_as.Registration.{AccountProvisioner, Machine}
use launch_as.Sessions.{Application, try_reserve_session, has_active_session}
use launch_as.Sessions.Release.{has_active_session-try_reserve_session}

abbrev pub error_busy : ℕ
error_busy = 170

abbrev pub error_elevation_required : ℕ
error_elevation_required = 740

pub record BrokerCallerIdentity : Type 0 where
  pub user_sid : Sid
  pub logon_sid : Sid
  pub session_id : ℕ
  pub is_elevated : Bool

-- The error, the accounts of a list, and the machine.
abbrev pub Configured : Type 0 → Type 0
Configured S = ℕ × (List Wide × Machine S)

abbrev pub without_accounts : {S : Type 0} → ℕ × Machine S → Configured S
without_accounts (error, machine) = (error, ([], machine))

-- The error of a deletion that is refused while the account has a session.
abbrev pub refusal : SidChecks → Sid → BrokerCallerIdentity → ℕ
refusal sids authorized caller =
    if not (is_authorized_caller sids authorized caller.user_sid)
    then error_access_denied
    else if not caller.is_elevated
    then error_elevation_required
    else error_busy

-- `found` is what EnrollmentStore::List finds in the directory.
module _ {S : Type 0} (sids : SidChecks) (authorized : Sid) (same_name : Wide → Wide → Bool)
    (windows : Windows) (provisioner : AccountProvisioner S) (reading writing : FileCalls)
    (found : ℕ × List Wide) where
  -- The operations that need an elevated caller.
  unfoldable pub configure_account :
      RequestOperation → BrokerRequest → Application → Machine S → ℕ × Machine S
  unfolding has_active_session
  configure_account create request application m =
      Registration.create windows provisioner reading writing request.profile_id m
  configure_account take_over request application m =
      Registration.take_over windows provisioner reading writing request.profile_id request.force m
  configure_account forget request application m =
      Registration.forget windows provisioner reading writing request.profile_id m
  configure_account delete request application m =
      if has_active_session same_name request.profile_id application
      then (error_busy, m)
      else Registration.delete windows provisioner reading writing request.profile_id m
  configure_account _ request application m = (error_invalid_parameter, m)

  unfoldable pub configure_elevated :
      RequestOperation
      → BrokerRequest
      → BrokerCallerIdentity
      → Application
      → Machine S
      → Configured S
  unfolding configure_account
  configure_elevated list request caller application m =
      Registration.list windows provisioner reading writing found m
  configure_elevated operation request caller application m =
      if not caller.is_elevated
      then (error_elevation_required, ([], m))
      else without_accounts (configure_account operation request application m)

  unfoldable pub configure :
      BrokerRequest → BrokerCallerIdentity → Application → Machine S → Configured S
  unfolding configure_elevated is_authorized_caller
  configure request caller application m =
      if not (is_authorized_caller sids authorized caller.user_sid)
      then (error_access_denied, ([], m))
      else configure_elevated request.operation request caller application m

  configure-active :
      (account : Wide) (request : BrokerRequest) (caller : BrokerCallerIdentity)
      (application : Application) (m : Machine S)
      → has_active_session same_name account application ≡ true
      → request.operation ≡ delete
      → request.profile_id ≡ account
      → configure request caller application m ≡ (refusal sids authorized caller, ([], m))
  unfolding configure configure_elevated configure_account
  configure-active account request caller application m active deletes named =
      let busy : has_active_session same_name request.profile_id application ≡ true =
        subst (λ a. has_active_session same_name a application ≡ true) (sym named) active in
      rw deletes (elim (Bool-cases (is_authorized_caller sids authorized caller.user_sid)) [
        | inr e ↦ rw e refl
        | inl e ↦ elim (Bool-cases caller.is_elevated) [
          | inr f ↦ rw (e, f) refl
          | inl f ↦ rw (e, f, busy) refl
        ]
      ])

  -- Where the comparison of names is reflexive: after a reservation that succeeds, Configure
  -- refuses to delete the account, with ERROR_BUSY for an authorized and elevated caller and the
  -- error of the missing right for others, and changes neither the accounts nor the enrollments.
  pub configure-try_reserve_session :
      ((a : Wide) → same_name a a ≡ true)
      → (restore_error : ℕ) (launch deletion : BrokerRequest) (caller : BrokerCallerIdentity)
        (application : Application) (m : Machine S)
      → (try_reserve_session same_name restore_error launch application).0 ≡ true
      → deletion.operation ≡ delete
      → deletion.profile_id ≡ launch.profile_id
      → configure deletion caller
          ((try_reserve_session same_name restore_error launch application).1)
          m
        ≡ (refusal sids authorized caller, ([], m))
  configure-try_reserve_session reflexive restore_error launch deletion caller application m h =
      configure-active launch.profile_id deletion caller
        ((try_reserve_session same_name restore_error launch application).1) m
        (has_active_session-try_reserve_session same_name reflexive restore_error launch application
          h)
