-- ===== src/Protocol/Management.antt =====
-- src/protocol/BrokerProtocol.cpp: management requests, from the builder to ParseBrokerRequest.
use launch_as.AppContainer.{is_valid_app_container_options, are_capabilities}
use launch_as.Base.{
  ℕ, ◌+◌, ◌≤◌, ◌<◌, ◌≡◌, refl, sym, subst, Bool, true, false, not, ◌||◌, [], ◌∷◌, ◌++◌, arith,
  if◌then◌else◌, Bytes, Wide, codes, length, all_of, length-append, Outcome, ok,
}
use launch_as.Utf8.{Win32Text}
use launch_as.Utf8.Encoding.{IsStrict, IsUtf16}
use launch_as.Json.Writer.{json_string, json_chars, json_char}
use launch_as.Json.Texts.{IsText, literal-IsText, length-json_string, ascii-IsUtf16, is_ascii}
use launch_as.Json.Objects.{read_object}
use launch_as.Protocol.{
  RequestOperation, console_launch, interactive_launch, create, take_over, list, forget, delete,
  BrokerRequest, empty_request, is_request_id, is_valid_profile_id, is_management_operation,
  maximum_message_bytes, request_operation_name, request_id_loop,
}
use launch_as.Protocol.Request.{Reading, no_reading}
use launch_as.Protocol.Fields.{request_field}
use launch_as.Protocol.Parse.{
  parse_broker_request, finish, finish_list, finish_profile, finish_account, is_sound,
  has_launch_member, is_account_operation, account_operation,
}
use launch_as.Protocol.Build.{build_management_request, is_list, optional}
use launch_as.Protocol.Written.{
  version_written, request_id_written, operation_written, profile_id_written,
}
use launch_as.Protocol.Walk.{
  Walks, walk, walk_end, walk_first, force_flag, parse_broker_request_reads,
}

-- The variables behind the whole object.
abbrev management_reading : Wide → Wide → RequestOperation → Bool → Reading
management_reading request_id profile_id operation force = record no_reading {
  request = record empty_request {
    request_id = request_id;
    profile_id = profile_id;
    force = force;
  };
  operation_name = request_operation_name operation;
  version = true;
  request_id = true;
  operation = true;
  profile = not (is_list operation);
  force = force;
}

-- The request that the broker is to see.
abbrev pub management_request : RequestOperation → Wide → Wide → Bool → BrokerRequest
management_request operation request_id profile_id force = record empty_request {
  operation = operation;
  request_id = request_id;
  profile_id = if is_list operation then [] else profile_id;
  force = force;
}

is_hex-ascii : (index : ℕ) (v : Wide) → request_id_loop index v ≡ true → all_of is_ascii v ≡ true
unfolding request_id_loop
is_hex-ascii index [] h = refl
is_hex-ascii index (c ∷ v) h = ground (arith, is_hex-ascii (index + 1) v)

pub request_id-IsText : (v : Wide) → is_request_id v ≡ true → IsText v
unfolding is_request_id
request_id-IsText v h = (ascii-IsUtf16 v (is_hex-ascii 0 v (ground arith)), ground arith)

pub profile_id-IsText : (v : Wide) → IsUtf16 v → is_valid_profile_id v ≡ true → IsText v
unfolding is_valid_profile_id
profile_id-IsText v u h = (u, ground arith)

operation_name-IsText : (o : RequestOperation) → IsText (request_operation_name o)
unfolding request_operation_name
operation_name-IsText create = literal-IsText _ refl
operation_name-IsText _ = literal-IsText _ refl

module _ (win32 : Win32Text) (strict : IsStrict win32) where
  -- The members in front of the operation, which every request begins with.
  pub reads_version_and_id :
      (request_id : Wide) (rest : Bytes) {result : Outcome (Reading × Bytes)}
      → is_request_id request_id ≡ true
      → Walks win32 strict
          (record no_reading {
            request = record empty_request { request_id = request_id };
            version = true;
            request_id = true;
          })
          rest
          result
      → read_object win32
          (request_field win32)
          no_reading
          (codes "{\"version\":1,\"requestId\":" ++ (json_string request_id ++ rest))
        ≡ result
  unfolding json_string json_chars json_char
  reads_version_and_id request_id rest valid next =
      walk_first win32 strict (codes "version") no_reading _ refl
        (version_written win32 strict no_reading _ refl)
        (walk win32 strict (codes "requestId") (record no_reading { version = true }) _ refl
          (request_id_written win32 strict (record no_reading { version = true }) rest request_id
            refl (request_id-IsText request_id valid) valid)
          next)

  -- The account, which a list request does not name.
  profile_part :
      (listed : Bool) (r : Reading) (profile_id : Wide) (rest : Bytes)
      {result : Outcome (Reading × Bytes)}
      → r.profile ≡ false
      → r.request.profile_id ≡ []
      → (listed ≡ false → IsText profile_id)
      → (listed || is_valid_profile_id profile_id) ≡ true
      → Walks win32 strict
          (record r {
            request = record (r.request) { profile_id = if listed then [] else profile_id };
            profile = not listed;
          })
          rest
          result
      → Walks win32 strict r
          (optional (not listed) (codes ",\"profileId\":" ++ json_string profile_id) ++ rest)
          result
  unfolding json_string json_chars json_char
  profile_part true r profile_id rest {result} first unset t valid next =
      subst (λ x. Walks win32 strict x rest result)
        (λ i. record r {
          request = record (r.request) { profile_id = sym unset i };
          profile = sym first i;
        })
        next
  profile_part false r profile_id rest first unset t valid next =
      walk win32 strict (codes "profileId") r _ refl
        (profile_id_written win32 strict r rest profile_id first (t refl) valid) next

  reads_management :
      (operation : RequestOperation) (request_id profile_id : Wide) (force : Bool)
      → is_request_id request_id ≡ true
      → (is_list operation ≡ false → IsText profile_id)
      → (is_list operation || is_valid_profile_id profile_id) ≡ true
      → read_object win32
          (request_field win32)
          no_reading
          (build_management_request operation request_id profile_id force)
        ≡ ok (
          management_reading request_id
              (if is_list operation then [] else profile_id)
              operation
              force,
          [],
        )
  unfolding build_management_request json_string json_chars json_char
  reads_management operation request_id profile_id force id_valid t p_valid =
      reads_version_and_id request_id _ id_valid (
        walk win32 strict (codes "operation") _ _ refl
          (operation_written win32 strict _ _ (request_operation_name operation) refl
            (operation_name-IsText operation))
          (profile_part (is_list operation) _ profile_id _ refl refl t p_valid
            (force_flag win32 strict force _ _ refl refl (walk_end win32 strict _ []))))

abbrev pub MayForce : RequestOperation → Bool → Type 0
MayForce take_over force = Unit
MayForce _ force = force ≡ false

-- What the checks behind the reader make of it.
finish_management :
    (operation : RequestOperation) (request_id profile_id : Wide) (force : Bool)
    → is_management_operation operation ≡ true
    → MayForce operation force
    → finish (
        management_reading request_id
          (if is_list operation then [] else profile_id)
          operation
          force)
      ≡ ok (management_request operation request_id profile_id force)
unfolding finish is_sound finish_list finish_profile finish_account has_launch_member
    is_account_operation account_operation request_operation_name is_valid_app_container_options
    is_management_operation is_list are_capabilities
finish_management console_launch request_id profile_id force m f = cc
finish_management interactive_launch request_id profile_id force m f = cc
finish_management create request_id profile_id force m f = rw f
finish_management take_over request_id profile_id true m f = refl
finish_management take_over request_id profile_id false m f = refl
finish_management list request_id profile_id force m f = rw f
finish_management forget request_id profile_id force m f = rw f
finish_management delete request_id profile_id force m f = rw f

length-optional : (b : Bool) (text : Bytes) → length (optional b text) ≤ length text
length-optional true text = omega arith
length-optional false text = omega arith

pub length-request_id : (v : Wide) → is_request_id v ≡ true → length v ≡ 36
unfolding is_request_id
length-request_id v h = ground arith

pub length-profile_id : (v : Wide) → is_valid_profile_id v ≡ true → length v ≤ 256
unfolding is_valid_profile_id
length-profile_id v h = ground arith

length-operation_name : (o : RequestOperation) → length (request_operation_name o) ≤ 8
unfolding request_operation_name
length-operation_name create = omega arith
length-operation_name _ = omega arith

-- The part of the account, which a list request does not have.
length-profile_part :
    (listed : Bool) (profile_id : Wide)
    → (listed || is_valid_profile_id profile_id) ≡ true
    → length (optional (not listed) (codes ",\"profileId\":" ++ json_string profile_id)) ≤ 2000
length-profile_part true profile_id w = omega arith
length-profile_part false profile_id w =
    omega (arith, length-append {0}, length-json_string, length-profile_id profile_id w)

request_is_small :
    (operation : RequestOperation) (request_id profile_id : Wide) (force : Bool)
    → is_request_id request_id ≡ true
    → (is_list operation || is_valid_profile_id profile_id) ≡ true
    → length (build_management_request operation request_id profile_id force)
      ≤ maximum_message_bytes
unfolding build_management_request
request_is_small operation request_id profile_id force v w = omega (
  arith,
  length-append {0},
  length-optional,
  length-json_string,
  length-request_id request_id v,
  length-profile_part (is_list operation) profile_id w,
  length-operation_name operation,
)

request_pos :
    (operation : RequestOperation) (request_id profile_id : Wide) (force : Bool)
    → 0 < length (build_management_request operation request_id profile_id force)
unfolding build_management_request
request_pos operation request_id profile_id force = omega arith

-- Where the Win32 conversions are strict, the broker reads back every management request that the
-- administration tool writes: with a valid request id and with force for a takeover only, and, but
-- for a list, with a valid account whose name is well-formed UTF-16. A list request, for which any
-- account may be given, arrives without one.
pub parse-build_management_request :
    (win32 : Win32Text)
    → IsStrict win32
    → (operation : RequestOperation) (request_id profile_id : Wide) (force : Bool)
    → is_management_operation operation ≡ true
    → is_request_id request_id ≡ true
    → (is_list operation ≡ false → IsUtf16 profile_id)
    → (is_list operation || is_valid_profile_id profile_id) ≡ true
    → MayForce operation force
    → parse_broker_request win32 (build_management_request operation request_id profile_id force)
      ≡ ok (management_request operation request_id profile_id force)
parse-build_management_request win32 strict operation request_id profile_id force m v u w f =
    parse_broker_request_reads win32 _ (request_pos operation request_id profile_id force)
      (request_is_small operation request_id profile_id force v w)
      (reads_management win32 strict operation request_id profile_id force v
        (λ e.
          profile_id-IsText profile_id (u e)
            (subst (λ b. (b || is_valid_profile_id profile_id) ≡ true) e w))
        w)
      (finish_management operation request_id profile_id force m f)
