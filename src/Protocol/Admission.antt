-- ===== src/Protocol/Admission.antt =====
-- src/protocol/BrokerProtocol.cpp: the requests that ParseBrokerRequest accepts.
use launch_as.Base.{
  ◌≤◌, ◌≡◌, inl, inr, true, false, not, ◌&&◌, ◌||◌, arith, leb, Bool-cases, Bytes, Wide, codes,
  length, is_empty, all_of, text_eq, text_eq_sound, ok,
}
use launch_as.Base.{Ensures, holds, no_value, Ensures-if, Ensures-guard, Ensures-bind, Ensures-ok}
use launch_as.Utf8.{Win32Text}
use launch_as.Json.{end}
use launch_as.Json.Objects.{read_object, maximum_arguments}
use launch_as.Json.Invariants.{Value}
use launch_as.AppContainer.{is_valid_app_container_options}
use launch_as.Protocol.{
  RequestOperation, console_launch, interactive_launch, take_over, list, BrokerRequest,
  is_request_id, is_valid_profile_id, is_interactive_lease_pipe_name, maximum_message_bytes,
}
use launch_as.Protocol.Request.{
  Reading, no_reading, LaunchMode, missing, is_argument, is_working_directory,
}
use launch_as.Protocol.Fields.{request_field}
use launch_as.Protocol.Parse.{
  is_sound, has_launch_member, finish_list, is_account_operation, account_operation, finish_account,
  finish_interactive, are_console_pipes, finish_console, finish_mode, finish_launch, finish_profile,
  finish, parse_broker_request,
}
use launch_as.Protocol.Policy.{is_no_console, is_no_lease, IsConsistent, read_object-IsConsistent}

-- None of what only a launch may carry.
pub record IsPlain (q : BrokerRequest) : Type 0 where
  pub no_arguments : is_empty q.arguments ≡ true
  pub no_directory : is_empty q.working_directory ≡ true
  pub no_restriction : q.restrict_access ≡ false
  pub no_low_integrity : q.low_integrity ≡ false
  pub no_log : q.log ≡ false
  pub no_container : q.app_container.enabled ≡ false
  pub no_capabilities : is_empty q.app_container.capabilities ≡ true
  pub no_console : is_no_console q.console ≡ true
  pub no_lease : is_no_lease q.interactive ≡ true

-- A command that may be launched for an account.
pub record IsLaunch (q : BrokerRequest) : Type 0 where
  pub account : is_valid_profile_id q.profile_id ≡ true
  pub no_force : q.force ≡ false
  pub arguments_short : all_of is_argument q.arguments ≡ true
  pub arguments_few : length q.arguments ≤ maximum_arguments
  pub directory : is_working_directory q.working_directory ≡ true

abbrev pub FitsOperation : RequestOperation → BrokerRequest → Type 0
FitsOperation list q = (is_empty q.profile_id ≡ true) × (q.force ≡ false) × IsPlain q
FitsOperation take_over q = (is_valid_profile_id q.profile_id ≡ true) × IsPlain q
FitsOperation console_launch q =
    IsLaunch q
    × (are_console_pipes q.console.pipe_in q.console.pipe_out q.console.pipe_resize ≡ true)
    × (is_no_lease q.interactive ≡ true)
FitsOperation interactive_launch q =
    IsLaunch q
    × (q.app_container.enabled ≡ false)
    × (is_interactive_lease_pipe_name q.interactive.lease_pipe ≡ true)
    × (is_request_id q.interactive.nonce ≡ true)
    × (is_empty q.app_container.capabilities ≡ true)
    × (is_no_console q.console ≡ true)
FitsOperation _ q = (is_valid_profile_id q.profile_id ≡ true) × (q.force ≡ false) × IsPlain q

pub record IsAdmissible (q : BrokerRequest) : Type 0 where
  pub request_id : is_request_id q.request_id ≡ true
  pub container : is_valid_app_container_options q.app_container ≡ true
  pub container_alone : (q.app_container.enabled && (q.low_integrity || q.restrict_access)) ≡ false
  pub fits : FitsOperation q.operation q

abbrev Sound : Reading → Type 0
Sound r = is_sound r ≡ true

finish_list-admits : (r : Reading) → IsConsistent r → Sound r → Ensures IsAdmissible (finish_list r)
unfolding finish_list is_sound has_launch_member
finish_list-admits r v e = Ensures-guard (not (r.profile || r.force || has_launch_member r)) _ λ h.
    holds (record {
      request_id = ground arith;
      container = ground arith;
      container_alone = ground arith;
      fits = (ground arith, ground arith, ground arith);
    })

launch_is_no_takeover :
    (name : Wide) → text_eq name (codes "launch") ≡ true → text_eq name (codes "takeover") ≡ false
launch_is_no_takeover name h = rw (text_eq_sound name (codes "launch") h)

create_is_no_takeover :
    (name : Wide) → text_eq name (codes "create") ≡ true → text_eq name (codes "takeover") ≡ false
create_is_no_takeover name h = rw (text_eq_sound name (codes "create") h)

-- `force` may be set for a takeover only.
account_operation-fits :
    (name : Wide) (q : BrokerRequest)
    → is_valid_profile_id q.profile_id ≡ true
    → IsPlain q
    → (text_eq name (codes "takeover") ≡ false → q.force ≡ false)
    → FitsOperation (account_operation name) q
unfolding account_operation
account_operation-fits name q p plain force = elim (Bool-cases (text_eq name (codes "create"))) [
  | inl c ↦ rw c (p, force (create_is_no_takeover name c), plain)
  | inr c ↦ elim (Bool-cases (text_eq name (codes "takeover"))) [
    | inl t ↦ rw (c, t) (p, plain)
    | inr t ↦ elim (Bool-cases (text_eq name (codes "forget"))) [
      | inl f ↦ rw (c, t, f) (p, force t, plain)
      | inr f ↦ rw (c, t, f) (p, force t, plain)
    ]
  ]
]

abbrev MayForce : Reading → Type 0
MayForce r =
    (r.profile && not (r.force && not (text_eq r.operation_name (codes "takeover")))) ≡ true

finish_account-admits :
    (r : Reading) → IsConsistent r → Sound r → MayForce r → Ensures IsAdmissible (finish_account r)
unfolding finish_account is_sound has_launch_member
finish_account-admits r v e p = Ensures-guard (not (has_launch_member r)) _ λ h. holds (record {
  request_id = ground arith;
  container = ground arith;
  container_alone = ground arith;
  fits =
      account_operation-fits r.operation_name _ (ground arith) (ground arith) (λ t. ground arith);
})

abbrev Launches : Reading → Type 0
Launches r =
    (text_eq r.operation_name (codes "launch") && r.arguments && r.working_directory) ≡ true

module _ (r : Reading) (v : IsConsistent r) (e : Sound r) (p : MayForce r) (l : Launches r) where
  launch-no_force : r.request.force ≡ false
  launch-no_force = ground (arith, launch_is_no_takeover r.operation_name)

  finish_console-admits : Ensures IsAdmissible (finish_console r)
  unfolding finish_console is_sound
  finish_console-admits = Ensures-guard (r.console && not r.interactive) _ λ h.
      Ensures-guard
        (are_console_pipes r.request.console.pipe_in r.request.console.pipe_out
          r.request.console.pipe_resize)
        _
        λ k. holds (record {
          request_id = ground arith;
          container = ground arith;
          container_alone = ground arith;
          fits = (ground (arith, launch-no_force), k, ground arith);
        })

  finish_interactive-admits : Ensures IsAdmissible (finish_interactive r)
  unfolding finish_interactive is_sound
  finish_interactive-admits =
      Ensures-guard (not (r.app_container || r.capabilities || r.console || not r.interactive)) _
        λ h. Ensures-guard (is_interactive_lease_pipe_name r.request.interactive.lease_pipe) _ λ k.
          Ensures-guard (is_request_id r.request.interactive.nonce) _ λ n. holds (record {
            request_id = ground arith;
            container = ground arith;
            container_alone = ground arith;
            fits =
                (ground (arith, launch-no_force), ground arith, k, n, ground arith, ground arith);
          })

  finish_mode-admits : (m : LaunchMode) → Ensures IsAdmissible (finish_mode m r)
  unfolding finish_mode
  finish_mode-admits missing = no_value
  finish_mode-admits LaunchMode.console = finish_console-admits
  finish_mode-admits LaunchMode.interactive = finish_interactive-admits

finish-admits : (r : Reading) → IsConsistent r → Ensures IsAdmissible (finish r)
unfolding finish finish_profile finish_launch
finish-admits r v = Ensures-guard (is_sound r) _ λ e.
    Ensures-if (text_eq r.operation_name (codes "list")) (λ _. finish_list-admits r v e)
      λ _.
        Ensures-guard
          (r.profile && not (r.force && not (text_eq r.operation_name (codes "takeover")))) _
          λ p.
            Ensures-if (is_account_operation r.operation_name) (λ _. finish_account-admits r v e p)
              λ _.
                Ensures-guard
                  (text_eq r.operation_name (codes "launch") && r.arguments && r.working_directory)
                  _ λ l. finish_mode-admits r v e p l r.launch_mode

-- Whatever bytes the broker receives, a request that ParseBrokerRequest accepts has a well-formed
-- request id and valid AppContainer options, which are not combined with the other restrictions;
-- and it carries what its operation may carry: a launch has a valid account, short arguments and a
-- working directory, is not forced, and has either valid distinct console pipes and no lease, or a
-- valid lease, no console pipes and no AppContainer; an account operation has a valid account and
-- is forced for a takeover only, a list has no account and is not forced, and neither has
-- arguments, a working directory, console pipes, a lease, a restriction of access, low integrity,
-- a log, an AppContainer or capabilities.
pub parse_broker_request-IsAdmissible :
    (win32 : Win32Text) (message : Bytes) {q : BrokerRequest}
    → parse_broker_request win32 message ≡ ok q
    → IsAdmissible q
unfolding parse_broker_request
parse_broker_request-IsAdmissible win32 message = Ensures-ok (
    Ensures-guard (not (is_empty message) && leb (length message) maximum_message_bytes) _ λ _.
      Ensures-bind (Value IsConsistent) (read_object win32 (request_field win32) no_reading message)
        _ (read_object-IsConsistent win32 message)
        λ (r, rest) _ v. Ensures-guard (end rest) _ λ _. finish-admits r v)
