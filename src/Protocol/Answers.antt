-- ===== src/Protocol/Answers.antt =====
-- src/protocol/BrokerProtocol.cpp: the answers that the broker writes.
use launch_as.Base.{ℕ, List, ◌++◌, Bytes, Wide, codes}
use launch_as.Json.Writer.{json_string, json_strings, to_string}

-- Every answer begins so.
abbrev pub answer_head : Wide → Bytes → Bytes
answer_head request_id more =
    codes "{\"version\":1,\"requestId\":" ++ (json_string request_id ++ more)

unfoldable pub build_error_response : Wide → Bytes → ℕ → Bytes
build_error_response request_id reason_code win32_error = answer_head request_id (
    codes ",\"status\":\"error\",\"reasonCode\":\""
    ++ (reason_code ++ (codes "\",\"win32Error\":" ++ (to_string win32_error ++ codes "}"))))

unfoldable pub build_success_response : Wide → Bytes → Bytes
build_success_response request_id reason_code =
    answer_head request_id (
      codes ",\"status\":\"ok\",\"reasonCode\":\"" ++ (reason_code ++ codes "\",\"win32Error\":0}"))

unfoldable pub build_list_response : Wide → List Wide → Bytes
build_list_response request_id accounts = answer_head request_id (
    codes ",\"status\":\"ok\",\"accounts\":["
    ++ (json_strings accounts ++ codes "],\"reasonCode\":\"listed\",\"win32Error\":0}"))

unfoldable pub build_launch_success_response : Wide → ℕ → Bytes
build_launch_success_response request_id process_id = answer_head request_id (
    codes ",\"status\":\"ok\",\"processId\":"
    ++ (to_string process_id ++ codes ",\"reasonCode\":\"launched\",\"win32Error\":0}"))

unfoldable pub build_launch_exit_response : Wide → ℕ → Bytes
build_launch_exit_response request_id exit_code = answer_head request_id (
    codes ",\"status\":\"ok\",\"exitCode\":"
    ++ (to_string exit_code ++ codes ",\"reasonCode\":\"exited\",\"win32Error\":0}"))

unfoldable pub build_launch_host_failure_response : Wide → ℕ → Wide → Bytes
build_launch_host_failure_response request_id host_exit_code diagnostics = answer_head request_id (
    codes ",\"status\":\"error\",\"hostExitCode\":"
    ++ (to_string host_exit_code
        ++ (codes ",\"diagnostic\":"
            ++ (json_string diagnostics
                ++ codes ",\"reasonCode\":\"host_failed\",\"win32Error\":31}"))))
