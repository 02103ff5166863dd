-- ===== src/Protocol/Policy.antt =====
-- src/protocol/BrokerProtocol.cpp: the invariant of the callbacks of ParseBrokerRequest.
use launch_as.Base.{
  ◌≤◌, ◌≡◌, refl, Bool, true, not, ◌&&◌, ◌||◌, arith, ◌==◌, Bytes, Wide, codes, length, is_empty,
  all_of, text_eq,
}
use launch_as.Base.{Ensures, holds, no_value, Ensures-if, Ensures-guard, Ensures-any, Ensures-bind}
use launch_as.Utf8.{Win32Text}
use launch_as.AppContainer.{is_app_container_capability}
use launch_as.Json.{string, unsigned, boolean}
use launch_as.Json.Objects.{read_object, read_string_array, maximum_arguments}
use launch_as.Json.Invariants.{Value, ValidArray, read_object-keeps, read_string_array-ValidArray}
use launch_as.Protocol.{
  ConsoleRequest, InteractiveLaunchRequest, is_request_id, is_valid_profile_id,
}
use launch_as.Protocol.Request.{
  Reading, no_reading, launch_mode_of, is_missing, is_argument, is_working_directory, read_console,
  read_interactive_launch,
}
use launch_as.Protocol.Fields
use launch_as.Protocol.Fields.{request_field}

abbrev pub is_no_console : ConsoleRequest → Bool
is_no_console console =
    is_empty console.pipe_in
    && is_empty console.pipe_out
    && is_empty console.pipe_resize
    && not console.inherit_cursor

abbrev pub is_no_lease : InteractiveLaunchRequest → Bool
is_no_lease interactive = is_empty interactive.lease_pipe && is_empty interactive.nonce

-- A member that has been seen has passed its test; one that has not is as in `BrokerRequest {}`.
pub record IsConsistent (r : Reading) : Type 0 where
  pub id_valid : (not r.request_id || is_request_id r.request.request_id) ≡ true
  pub profile_valid : (not r.profile || is_valid_profile_id r.request.profile_id) ≡ true
  pub arguments_valid : all_of is_argument r.request.arguments ≡ true
  pub arguments_few : length r.request.arguments ≤ maximum_arguments
  pub directory_valid :
      (not r.working_directory || is_working_directory r.request.working_directory) ≡ true
  pub profile_absent : (r.profile || is_empty r.request.profile_id) ≡ true
  pub arguments_absent : (r.arguments || is_empty r.request.arguments) ≡ true
  pub directory_absent : (r.working_directory || is_empty r.request.working_directory) ≡ true
  pub force_absent : (r.force || not r.request.force) ≡ true
  pub restrict_absent : (r.restrict_access || not r.request.restrict_access) ≡ true
  pub integrity_absent : (r.low_integrity || not r.request.low_integrity) ≡ true
  pub log_absent : (r.log || not r.request.log) ≡ true
  pub container_absent : (r.app_container || not r.request.app_container.enabled) ≡ true
  pub capabilities_absent : (r.capabilities || is_empty r.request.app_container.capabilities) ≡ true
  pub console_absent : (r.console || is_no_console r.request.console) ≡ true
  pub interactive_absent : (r.interactive || is_no_lease r.request.interactive) ≡ true

no_reading-IsConsistent : IsConsistent no_reading
no_reading-IsConsistent = record {
  id_valid = refl;
  profile_valid = refl;
  arguments_valid = refl;
  arguments_few = omega arith;
  directory_valid = refl;
  profile_absent = refl;
  arguments_absent = refl;
  directory_absent = refl;
  force_absent = refl;
  restrict_absent = refl;
  integrity_absent = refl;
  log_absent = refl;
  container_absent = refl;
  capabilities_absent = refl;
  console_absent = refl;
  interactive_absent = refl;
}

module _ (win32 : Win32Text) where
  read_version-keeps :
      (r : Reading) (s : Bytes)
      → IsConsistent r
      → Ensures (Value IsConsistent) (Fields.read_version win32 r s)
  unfolding Fields.read_version
  read_version-keeps r s v = Ensures-guard (not r.version) _ λ _.
      Ensures-any (unsigned s) _
        λ (value, rest) _. Ensures-guard (value == 1) _ λ e. holds (ground arith)

  read_request_id-keeps :
      (r : Reading) (s : Bytes)
      → IsConsistent r
      → Ensures (Value IsConsistent) (Fields.read_request_id win32 r s)
  unfolding Fields.read_request_id
  read_request_id-keeps r s v = Ensures-guard (not r.request_id) _ λ _.
      Ensures-any (string win32 s) _
        λ (value, rest) _. Ensures-guard (is_request_id value) _ λ e. holds (ground arith)

  read_operation-keeps :
      (r : Reading) (s : Bytes)
      → IsConsistent r
      → Ensures (Value IsConsistent) (Fields.read_operation win32 r s)
  unfolding Fields.read_operation
  read_operation-keeps r s v =
      Ensures-guard (not r.operation) _
        λ _. Ensures-any (string win32 s) _ λ (value, rest) _. holds (ground arith)

  read_profile_id-keeps :
      (r : Reading) (s : Bytes)
      → IsConsistent r
      → Ensures (Value IsConsistent) (Fields.read_profile_id win32 r s)
  unfolding Fields.read_profile_id
  read_profile_id-keeps r s v = Ensures-guard (not r.profile) _ λ _.
      Ensures-any (string win32 s) _
        λ (value, rest) _. Ensures-guard (is_valid_profile_id value) _ λ e. holds (ground arith)

  read_mode-keeps :
      (r : Reading) (s : Bytes)
      → IsConsistent r
      → Ensures (Value IsConsistent) (Fields.read_mode win32 r s)
  unfolding Fields.read_mode
  read_mode-keeps r s v = Ensures-guard (not r.mode) _ λ _.
      Ensures-any (string win32 s) _ λ (value, rest) _.
        Ensures-guard (not (is_missing (launch_mode_of value))) _ λ e. holds (ground arith)

  read_arguments-keeps :
      (r : Reading) (s : Bytes)
      → IsConsistent r
      → Ensures (Value IsConsistent) (Fields.read_arguments win32 r s)
  unfolding Fields.read_arguments
  read_arguments-keeps r s v = Ensures-guard (not r.arguments) _ λ _.
      Ensures-bind (Value (ValidArray win32 is_argument)) (read_string_array win32 is_argument s) _
        (read_string_array-ValidArray win32 is_argument s) λ (value, rest) _ h. holds (ground arith)

  read_working_directory-keeps :
      (r : Reading) (s : Bytes)
      → IsConsistent r
      → Ensures (Value IsConsistent) (Fields.read_working_directory win32 r s)
  unfolding Fields.read_working_directory
  read_working_directory-keeps r s v = Ensures-guard (not r.working_directory) _ λ _.
      Ensures-any (string win32 s) _
        λ (value, rest) _. Ensures-guard (is_working_directory value) _ λ e. holds (ground arith)

  read_console_member-keeps :
      (r : Reading) (s : Bytes)
      → IsConsistent r
      → Ensures (Value IsConsistent) (Fields.read_console_member win32 r s)
  unfolding Fields.read_console_member
  read_console_member-keeps r s v = Ensures-guard (not r.console) _ λ _.
      Ensures-any (read_console win32 r.request.console s) _ λ (value, rest) _. holds (ground arith)

  read_interactive_member-keeps :
      (r : Reading) (s : Bytes)
      → IsConsistent r
      → Ensures (Value IsConsistent) (Fields.read_interactive_member win32 r s)
  unfolding Fields.read_interactive_member
  read_interactive_member-keeps r s v = Ensures-guard (not r.interactive) _ λ _.
      Ensures-any (read_interactive_launch win32 r.request.interactive s) _
        λ (value, rest) _. holds (ground arith)

  read_force-keeps :
      (r : Reading) (s : Bytes)
      → IsConsistent r
      → Ensures (Value IsConsistent) (Fields.read_force win32 r s)
  unfolding Fields.read_force
  read_force-keeps r s v =
      Ensures-guard (not r.force) _
        λ _. Ensures-any (boolean s) _ λ (value, rest) _. holds (ground arith)

  read_restrict_access-keeps :
      (r : Reading) (s : Bytes)
      → IsConsistent r
      → Ensures (Value IsConsistent) (Fields.read_restrict_access win32 r s)
  unfolding Fields.read_restrict_access
  read_restrict_access-keeps r s v =
      Ensures-guard (not r.restrict_access) _
        λ _. Ensures-any (boolean s) _ λ (value, rest) _. holds (ground arith)

  read_low_integrity-keeps :
      (r : Reading) (s : Bytes)
      → IsConsistent r
      → Ensures (Value IsConsistent) (Fields.read_low_integrity win32 r s)
  unfolding Fields.read_low_integrity
  read_low_integrity-keeps r s v =
      Ensures-guard (not r.low_integrity) _
        λ _. Ensures-any (boolean s) _ λ (value, rest) _. holds (ground arith)

  read_log-keeps :
      (r : Reading) (s : Bytes)
      → IsConsistent r
      → Ensures (Value IsConsistent) (Fields.read_log win32 r s)
  unfolding Fields.read_log
  read_log-keeps r s v =
      Ensures-guard (not r.log) _
        λ _. Ensures-any (boolean s) _ λ (value, rest) _. holds (ground arith)

  read_app_container-keeps :
      (r : Reading) (s : Bytes)
      → IsConsistent r
      → Ensures (Value IsConsistent) (Fields.read_app_container win32 r s)
  unfolding Fields.read_app_container
  read_app_container-keeps r s v =
      Ensures-guard (not r.app_container) _
        λ _. Ensures-any (boolean s) _ λ (value, rest) _. holds (ground arith)

  read_capabilities-keeps :
      (r : Reading) (s : Bytes)
      → IsConsistent r
      → Ensures (Value IsConsistent) (Fields.read_capabilities win32 r s)
  unfolding Fields.read_capabilities
  read_capabilities-keeps r s v = Ensures-guard (not r.capabilities) _ λ _.
      Ensures-any (read_string_array win32 is_app_container_capability s) _
        λ (value, rest) _. holds (ground arith)

  request_field-keeps :
      (r : Reading) (name : Wide) (s : Bytes)
      → IsConsistent r
      → Ensures (Value IsConsistent) (request_field win32 r name s)
  unfolding request_field
  request_field-keeps r name s v =
      Ensures-if (text_eq name (codes "version")) (λ _. read_version-keeps r s v)
        (λ _.
          Ensures-if (text_eq name (codes "requestId")) (λ _. read_request_id-keeps r s v)
            (λ _.
              Ensures-if (text_eq name (codes "operation")) (λ _. read_operation-keeps r s v)
                (λ _.
                  Ensures-if (text_eq name (codes "profileId")) (λ _. read_profile_id-keeps r s v)
                    (λ _.
                      Ensures-if (text_eq name (codes "mode")) (λ _. read_mode-keeps r s v)
                        (λ _.
                          Ensures-if (text_eq name (codes "arguments"))
                            (λ _. read_arguments-keeps r s v)
                            (λ _.
                              Ensures-if (text_eq name (codes "workingDirectory"))
                                (λ _. read_working_directory-keeps r s v)
                                (λ _.
                                  Ensures-if (text_eq name (codes "console"))
                                    (λ _. read_console_member-keeps r s v)
                                    (λ _.
                                      Ensures-if (text_eq name (codes "interactive"))
                                        (λ _. read_interactive_member-keeps r s v)
                                        (λ _.
                                          Ensures-if (text_eq name (codes "force"))
                                            (λ _. read_force-keeps r s v)
                                            (λ _.
                                              Ensures-if (text_eq name (codes "restrictAccess"))
                                                (λ _. read_restrict_access-keeps r s v)
                                                (λ _.
                                                  Ensures-if (text_eq name (codes "lowIntegrity"))
                                                    (λ _. read_low_integrity-keeps r s v)
                                                    (λ _.
                                                      Ensures-if (text_eq name (codes "log"))
                                                        (λ _. read_log-keeps r s v)
                                                        (λ _.
                                                          Ensures-if
                                                            (text_eq name (codes "appContainer"))
                                                            (λ _. read_app_container-keeps r s v)
                                                            (λ _.
                                                            Ensures-if
                                                            (text_eq name (codes "capabilities"))
                                                            (λ _. read_capabilities-keeps r s v)
                                                            (λ _. no_value)))))))))))))))

  -- Whatever object was read, the variables are consistent behind it.
  pub read_object-IsConsistent :
      (s : Bytes)
      → Ensures (Value IsConsistent) (read_object win32 (request_field win32) no_reading s)
  read_object-IsConsistent s =
      read_object-keeps win32 IsConsistent (request_field win32) request_field-keeps no_reading s
        no_reading-IsConsistent
