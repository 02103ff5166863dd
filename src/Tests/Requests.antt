-- ===== src/Tests/Requests.antt =====
-- The requests of the administration tool at concrete inputs.
use launch_as.Base.{◌≡◌, refl, ◌≢◌, true, false, [], arith, Wide, codes, ok, stuck}
use launch_as.Json.Texts.{ascii-IsUtf16}
use launch_as.Protocol.{
  list, take_over, is_management_operation, is_request_id, is_valid_profile_id,
}
use launch_as.Protocol.Parse.{parse_broker_request}
use launch_as.Protocol.Build.{is_list, build_management_request}
use launch_as.Protocol.Management.{management_request, parse-build_management_request}
use launch_as.Protocol.Termination.{parse_broker_request-ne-stuck}
use launch_as.Protocol.Admission.{IsAdmissible, parse_broker_request-IsAdmissible}
use launch_as.Tests.Converter.{converter, converter-IsStrict}

abbrev request_id : Wide
request_id = codes "3f2504e0-4f89-41d3-9a0c-0305e82c3301"

parse-build_management_request_example :
    parse_broker_request converter
      (build_management_request take_over request_id (codes "build agent") true)
    ≡ ok (management_request take_over request_id (codes "build agent") true)
unfolding is_management_operation is_request_id is_valid_profile_id is_list
parse-build_management_request_example =
    parse-build_management_request converter converter-IsStrict take_over request_id
      (codes "build agent") true refl refl (λ e. ascii-IsUtf16 (codes "build agent") refl) refl
      (ground arith)

-- The list request as the administration tool writes it, without an account.
list_request_is_read :
    parse_broker_request converter (build_management_request list request_id [] false)
    ≡ ok (management_request list request_id [] false)
unfolding is_management_operation is_request_id is_list
list_request_is_read =
    parse-build_management_request converter converter-IsStrict list request_id [] false refl refl
      (λ e. cc) refl refl

parse_broker_request-ne-stuck_example :
    parse_broker_request converter (codes "{\"version\":1,\"requestId\":\"\\u00") ≢ stuck
parse_broker_request-ne-stuck_example =
    parse_broker_request-ne-stuck converter (codes "{\"version\":1,\"requestId\":\"\\u00")

parse_broker_request-IsAdmissible_example :
    IsAdmissible (management_request take_over request_id (codes "build agent") true)
parse_broker_request-IsAdmissible_example =
    parse_broker_request-IsAdmissible converter
      (build_management_request take_over request_id (codes "build agent") true)
      parse-build_management_request_example
