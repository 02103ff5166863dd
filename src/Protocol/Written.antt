-- ===== src/Protocol/Written.antt =====
-- The members of a request, read back as the builders write them.
use launch_as.Base.{
  ◌≤◌, ◌≡◌, refl, Bool, true, false, not, List, ◌∷◌, ◌++◌, Bytes, Wide, codes, length, all_of, All,
  ok,
}
use launch_as.Utf8.{Win32Text}
use launch_as.Utf8.Encoding.{IsStrict}
use launch_as.AppContainer.{is_app_container_capability}
use launch_as.Json.Writer.{json_string, json_strings, boolean_text}
use launch_as.Json.Numbers.{unsigned_one, boolean-boolean_text}
use launch_as.Json.Arrays.{read_string_array-written}
use launch_as.Json.Objects.{maximum_arguments}
use launch_as.Json.Texts.{IsText, string-written}
use launch_as.Protocol.{is_request_id, is_valid_profile_id}
use launch_as.Protocol.Request.{
  Reading, launch_mode_of, is_missing, is_argument, is_working_directory,
}
use launch_as.Protocol.Fields
use launch_as.Protocol.Fields.{request_field}

-- What `request_field` returns for a member that it stores.
abbrev Stores : Win32Text → Reading → Wide → Bytes → Reading → Bytes → Type 0
Stores win32 r key value r' rest = request_field win32 r key value ≡ ok (r', rest)

module _ (win32 : Win32Text) (strict : IsStrict win32) (r : Reading) (rest : Bytes) where
  pub version_written :
      r.version ≡ false
      → Stores win32 r
          (codes "version")
          (codes "1," ++ rest)
          (record r { version = true })
          (b',' ∷ rest)
  unfolding request_field Fields.read_version
  version_written first = rw (first, unsigned_one b',' rest refl)

  pub request_id_written :
      (v : Wide)
      → r.request_id ≡ false
      → IsText v
      → is_request_id v ≡ true
      → Stores win32 r
          (codes "requestId")
          (json_string v ++ rest)
          (record r { request = record (r.request) { request_id = v }; request_id = true })
          rest
  unfolding request_field Fields.read_request_id
  request_id_written v first t valid = rw (first, string-written win32 strict v rest t) (rw valid)

  pub operation_written :
      (v : Wide)
      → r.operation ≡ false
      → IsText v
      → Stores win32 r
          (codes "operation")
          (json_string v ++ rest)
          (record r { operation_name = v; operation = true })
          rest
  unfolding request_field Fields.read_operation
  operation_written v first t = rw (first, string-written win32 strict v rest t)

  pub profile_id_written :
      (v : Wide)
      → r.profile ≡ false
      → IsText v
      → is_valid_profile_id v ≡ true
      → Stores win32 r
          (codes "profileId")
          (json_string v ++ rest)
          (record r { request = record (r.request) { profile_id = v }; profile = true })
          rest
  unfolding request_field Fields.read_profile_id
  profile_id_written v first t valid = rw (first, string-written win32 strict v rest t) (rw valid)

  pub mode_written :
      (v : Wide)
      → r.mode ≡ false
      → IsText v
      → not (is_missing (launch_mode_of v)) ≡ true
      → Stores win32 r
          (codes "mode")
          (json_string v ++ rest)
          (record r { launch_mode = launch_mode_of v; mode = true })
          rest
  unfolding request_field Fields.read_mode
  mode_written v first t valid = rw (first, string-written win32 strict v rest t) (rw valid)

  pub working_directory_written :
      (v : Wide)
      → r.working_directory ≡ false
      → IsText v
      → is_working_directory v ≡ true
      → Stores win32 r
          (codes "workingDirectory")
          (json_string v ++ rest)
          (record r {
            request = record (r.request) { working_directory = v };
            working_directory = true;
          })
          rest
  unfolding request_field Fields.read_working_directory
  working_directory_written v first t valid =
      rw (first, string-written win32 strict v rest t) (rw valid)

  pub arguments_written :
      (vs : List Wide)
      → r.arguments ≡ false
      → All IsText vs
      → all_of is_argument vs ≡ true
      → length vs ≤ maximum_arguments
      → Stores win32 r
          (codes "arguments")
          (b'[' ∷ (json_strings vs ++ b']' ∷ rest))
          (record r { request = record (r.request) { arguments = vs }; arguments = true })
          rest
  unfolding request_field Fields.read_arguments
  arguments_written vs first t valid few =
      rw (first, read_string_array-written win32 strict is_argument vs rest t valid few)

  pub capabilities_written :
      (vs : List Wide)
      → r.capabilities ≡ false
      → All IsText vs
      → all_of is_app_container_capability vs ≡ true
      → length vs ≤ maximum_arguments
      → Stores win32 r
          (codes "capabilities")
          (b'[' ∷ (json_strings vs ++ b']' ∷ rest))
          (record r {
            request = record (r.request) {
              app_container = record (r.request.app_container) { capabilities = vs };
            };
            capabilities = true;
          })
          rest
  unfolding request_field Fields.read_capabilities
  capabilities_written vs first t valid few = rw (
    first,
    read_string_array-written win32 strict is_app_container_capability vs rest t valid few,
  )

  pub force_written :
      (b : Bool)
      → r.force ≡ false
      → Stores win32 r
          (codes "force")
          (boolean_text b ++ rest)
          (record r { request = record (r.request) { force = b }; force = true })
          rest
  unfolding request_field Fields.read_force
  force_written b first = rw (first, boolean-boolean_text b rest)

  pub restrict_access_written :
      (b : Bool)
      → r.restrict_access ≡ false
      → Stores win32 r
          (codes "restrictAccess")
          (boolean_text b ++ rest)
          (record r {
            request = record (r.request) { restrict_access = b };
            restrict_access = true;
          })
          rest
  unfolding request_field Fields.read_restrict_access
  restrict_access_written b first = rw (first, boolean-boolean_text b rest)

  pub low_integrity_written :
      (b : Bool)
      → r.low_integrity ≡ false
      → Stores win32 r
          (codes "lowIntegrity")
          (boolean_text b ++ rest)
          (record r { request = record (r.request) { low_integrity = b }; low_integrity = true })
          rest
  unfolding request_field Fields.read_low_integrity
  low_integrity_written b first = rw (first, boolean-boolean_text b rest)

  pub log_written :
      (b : Bool)
      → r.log ≡ false
      → Stores win32 r
          (codes "log")
          (boolean_text b ++ rest)
          (record r { request = record (r.request) { log = b }; log = true })
          rest
  unfolding request_field Fields.read_log
  log_written b first = rw (first, boolean-boolean_text b rest)

  pub app_container_written :
      (b : Bool)
      → r.app_container ≡ false
      → Stores win32 r
          (codes "appContainer")
          (boolean_text b ++ rest)
          (record r {
            request = record (r.request) {
              app_container = record (r.request.app_container) { enabled = b };
            };
            app_container = true;
          })
          rest
  unfolding request_field Fields.read_app_container
  app_container_written b first = rw (first, boolean-boolean_text b rest)
