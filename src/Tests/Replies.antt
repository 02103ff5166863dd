-- ===== src/Tests/Replies.antt =====
-- The answers of the broker at concrete inputs.
use launch_as.Base.{◌≡◌, refl, none, [], ◌∷◌, ◌++◌, arith, Wide, codes, ok, rejected}
use launch_as.Json.Writer.{json_string}
use launch_as.Json.Texts.{IsText, literal-IsText}
use launch_as.Protocol.{is_valid_profile_id}
use launch_as.Protocol.Response.{
  Expected, no_field, parse_response, parse_error_response, parse_launch_exit_response,
  parse_launch_success_response, parse_list_response, parse_launch_host_failure_response,
}
use launch_as.Protocol.Answers.{
  answer_head, build_error_response, build_launch_exit_response, build_launch_success_response,
  build_list_response, build_launch_host_failure_response,
}
use launch_as.Protocol.Replies.{no_field-Ends}
use launch_as.Protocol.Replies.{parse-build_error_response}
use launch_as.Protocol.Results.{
  parse-build_launch_exit_response, parse-build_launch_success_response, parse-build_list_response,
  parse-build_launch_host_failure_response,
}
use launch_as.Protocol.Foreign.{parse_response_of_other_request, parse_response_of_other_status}
use launch_as.Tests.Converter.{converter, converter-IsStrict}

abbrev request_id : Wide
request_id = codes "3f2504e0-4f89-41d3-9a0c-0305e82c3301"

request_id-IsText : IsText request_id
request_id-IsText = literal-IsText request_id refl

parse-build_error_response_example :
    parse_error_response converter
      (build_error_response request_id (codes "session_limit") 1816)
      request_id
    ≡ ok 1816
parse-build_error_response_example =
    parse-build_error_response converter converter-IsStrict request_id (codes "session_limit") 1816
      request_id-IsText refl (omega arith) (omega arith) (omega arith)

parse-build_launch_exit_response_example :
    parse_launch_exit_response converter
      (build_launch_exit_response request_id 3221225786)
      request_id
    ≡ ok 3221225786
parse-build_launch_exit_response_example =
    parse-build_launch_exit_response converter converter-IsStrict request_id 3221225786
      request_id-IsText (omega arith)

parse-build_launch_success_response_example :
    parse_launch_success_response converter
      (build_launch_success_response request_id 4711)
      request_id
    ≡ ok 4711
parse-build_launch_success_response_example =
    parse-build_launch_success_response converter converter-IsStrict request_id 4711
      request_id-IsText (omega arith) (omega arith)

parse-build_list_response_example :
    parse_list_response converter
      (build_list_response request_id (codes "agent" ∷ codes "build" ∷ []))
      request_id
    ≡ ok (codes "agent" ∷ codes "build" ∷ [])
unfolding is_valid_profile_id
parse-build_list_response_example =
    parse-build_list_response converter converter-IsStrict request_id
      (codes "agent" ∷ codes "build" ∷ []) request_id-IsText
      (literal-IsText (codes "agent") refl, (literal-IsText (codes "build") refl, tt)) refl
      (omega arith)

parse-build_launch_host_failure_response_example :
    parse_launch_host_failure_response converter
      (build_launch_host_failure_response request_id 3 (codes "The \"console\" host failed."))
      request_id
    ≡ ok (3, codes "The \"console\" host failed.")
parse-build_launch_host_failure_response_example =
    parse-build_launch_host_failure_response converter converter-IsStrict request_id 3
      (codes "The \"console\" host failed.") request_id-IsText (omega arith)
      (literal-IsText (codes "The \"console\" host failed.") refl)

abbrev awaited : Expected (Unit {0})
awaited = record {
  request_id = request_id;
  status = codes "error";
  reason = [];
  error = none;
  additional = no_field converter;
}

parse_response_of_other_request_example :
    parse_response converter awaited (answer_head (codes "other") (codes "}")) tt ≡ rejected
parse_response_of_other_request_example =
    parse_response_of_other_request converter converter-IsStrict awaited (no_field-Ends converter)
      tt (codes "other") (codes "}") (literal-IsText (codes "other") refl) (ground arith)

parse_response_of_other_status_example :
    parse_response converter awaited
      (answer_head request_id (codes ",\"status\":" ++ (json_string (codes "ok") ++ codes "}")))
      tt
    ≡ rejected
parse_response_of_other_status_example =
    parse_response_of_other_status converter converter-IsStrict awaited (no_field-Ends converter) tt
      (codes "ok") (codes "}") request_id-IsText (literal-IsText (codes "ok") refl) (ground arith)
