-- ===== src/Protocol/Results.antt =====
-- src/protocol/BrokerProtocol.cpp: the answers that carry a value, from their builders to their
-- parsers: the accounts, the id of the process, its exit code, the failure of the console host.
use launch_as.Base.{
  ℕ, ◌^◌, ◌≤◌, ◌<◌, ◌≡◌, refl, true, false, not, some, List, [], ◌∷◌, ◌++◌, append_assoc, arith,
  ◌==◌, Bytes, Wide, codes, length, all_of, All, text_eq, ok,
}
use launch_as.Utf8.{Win32Text}
use launch_as.Utf8.Encoding.{IsStrict}
use launch_as.Json.{unsigned}
use launch_as.Json.Writer.{json_string, json_strings, json_chars, json_char, to_string, decimal}
use launch_as.Json.Numbers.{unsigned-to_string}
use launch_as.Json.Progress.{Ends, took, Ends-if, Ends-guard, Ends-bind, string-Ends, unsigned-Ends}
use launch_as.Json.Termination.{read_string_array-Ends}
use launch_as.Json.Arrays.{read_string_array-written}
use launch_as.Json.Texts.{IsText, literal-IsText, string-written}
use launch_as.Json.Objects.{read_string_array, maximum_arguments}
use launch_as.Protocol.{is_valid_profile_id}
use launch_as.Protocol.Response.{
  Expected, parse_list_response, parse_number_response, parse_launch_success_response,
  parse_launch_exit_response, read_process_id, HostFailure, host_failure_field,
  parse_launch_host_failure_response,
}
use launch_as.Protocol.Answers.{
  build_list_response, build_launch_success_response, build_launch_exit_response,
  build_launch_host_failure_response,
}
use launch_as.Protocol.Exchange.{walk, walk_reason_and_error, parse_response_reads}
use launch_as.Protocol.Values.{value_answer_reads, additional_written}

read_process_id-Ends : (s : Bytes) → Ends (length s) (read_process_id s)
unfolding read_process_id
read_process_id-Ends s =
    Ends-bind _ (unsigned-Ends s)
      λ value rest k. Ends-guard (not (value == 0)) _ λ _. took {rest = rest} k

read_process_id_written :
    (n : ℕ) (rest s : Bytes) → 0 < n → unsigned s ≡ ok (n, rest) → read_process_id s ≡ ok (n, rest)
unfolding read_process_id
read_process_id_written n rest s pos e = ground arith

module _ (win32 : Win32Text) (strict : IsStrict win32) where
  -- Where the Win32 conversions are strict, the launcher reads back the exit code of the process,
  -- a DWORD, from the answer to its request, whose id is a short well-formed text.
  pub parse-build_launch_exit_response :
      (request_id : Wide) (exit_code : ℕ)
      → IsText request_id
      → exit_code < 2 ^ 32
      → parse_launch_exit_response win32
          (build_launch_exit_response request_id exit_code)
          request_id
        ≡ ok exit_code
  unfolding parse_launch_exit_response parse_number_response build_launch_exit_response json_string
      json_chars json_char
  parse-build_launch_exit_response request_id exit_code t h = rw (
      value_answer_reads win32 strict request_id (codes "exitCode") (codes "exited") unsigned
        unsigned-Ends 0 exit_code (to_string exit_code) t refl refl refl
        (unsigned-to_string exit_code b',' _ h refl))

  -- Where the Win32 conversions are strict, the launcher reads back the id of the process, a DWORD
  -- other than 0, from the answer to its request, whose id is a short well-formed text.
  pub parse-build_launch_success_response :
      (request_id : Wide) (process_id : ℕ)
      → IsText request_id
      → 0 < process_id
      → process_id < 2 ^ 32
      → parse_launch_success_response win32
          (build_launch_success_response request_id process_id)
          request_id
        ≡ ok process_id
  unfolding parse_launch_success_response parse_number_response build_launch_success_response
      json_string json_chars json_char
  parse-build_launch_success_response request_id process_id t pos h = rw (
      value_answer_reads win32 strict request_id (codes "processId") (codes "launched")
        read_process_id read_process_id-Ends 0 process_id (to_string process_id) t refl refl refl
        (read_process_id_written process_id _ _ pos (unsigned-to_string process_id b',' _ h refl)))

  -- Where the Win32 conversions are strict, the administration tool reads back the accounts from
  -- the answer to its request, whose id is a short well-formed text: up to 64 of them, each a
  -- valid and well-formed name.
  pub parse-build_list_response :
      (request_id : Wide) (accounts : List Wide)
      → IsText request_id
      → All IsText accounts
      → all_of is_valid_profile_id accounts ≡ true
      → length accounts ≤ maximum_arguments
      → parse_list_response win32 (build_list_response request_id accounts) request_id ≡ ok accounts
  unfolding parse_list_response build_list_response json_string json_chars json_char
  parse-build_list_response request_id accounts t ts valid few =
      rw (← append_assoc (json_strings accounts) (b']' ∷ []) list_end) (
        rw (
          value_answer_reads win32 strict request_id (codes "accounts") (codes "listed")
            (read_string_array win32 is_valid_profile_id)
            (read_string_array-Ends win32 is_valid_profile_id) [] accounts
            (b'[' ∷ (json_strings accounts ++ b']' ∷ [])) t refl refl refl
            (rw (append_assoc (json_strings accounts) (b']' ∷ []) list_end) (
              read_string_array-written win32 strict is_valid_profile_id accounts list_end ts valid
                few))))
    where
      list_end : Bytes
      list_end =
          codes ",\"reasonCode\":" ++ (json_string (codes "listed") ++ codes ",\"win32Error\":0}")

host_failure_field-Ends :
    (win32 : Win32Text) (x : HostFailure) (name : Wide) (s : Bytes)
    → Ends (length s) (host_failure_field win32 x name s)
unfolding host_failure_field
host_failure_field-Ends win32 x name s =
    Ends-if (text_eq name (codes "hostExitCode"))
      (Ends-guard (not x.host_exit) _
        λ _. Ends-bind _ (unsigned-Ends s) λ value rest k. took {rest = rest} k)
      (Ends-guard (text_eq name (codes "diagnostic")) _ λ _.
        Ends-guard (not x.diagnostic) _
          λ _. Ends-bind _ (string-Ends win32 s) λ value rest k. took {rest = rest} k)

abbrev host_answer : Win32Text → Wide → Expected HostFailure
host_answer win32 id = record {
  request_id = id;
  status = codes "error";
  reason = codes "host_failed";
  error = some 31;
  additional = host_failure_field win32;
}

abbrev no_failure : HostFailure
no_failure = record { host_exit_code = 0; diagnostics = []; host_exit = false; diagnostic = false }

module _ (win32 : Win32Text) (strict : IsStrict win32) where
  host_exit_written :
      (n : ℕ) (rest : Bytes)
      → n < 2 ^ 32
      → host_failure_field win32 no_failure (codes "hostExitCode") (to_string n ++ b',' ∷ rest)
        ≡ ok (record no_failure { host_exit_code = n; host_exit = true }, b',' ∷ rest)
  unfolding host_failure_field
  host_exit_written n rest h = rw (unsigned-to_string n b',' rest h refl)

  diagnostic_written :
      (x : HostFailure) (v : Wide) (rest : Bytes)
      → x.diagnostic ≡ false
      → IsText v
      → host_failure_field win32 x (codes "diagnostic") (json_string v ++ rest)
        ≡ ok (record x { diagnostics = v; diagnostic = true }, rest)
  unfolding host_failure_field
  diagnostic_written x v rest first t = rw (first, string-written win32 strict v rest t)

  -- Where the Win32 conversions are strict, the launcher reads back the exit code of a console
  -- host that failed, a DWORD, and what it printed, a well-formed text of at most 65536 code
  -- units, from the answer to its request, whose id is such a text too.
  pub parse-build_launch_host_failure_response :
      (request_id : Wide) (host_exit_code : ℕ) (diagnostics : Wide)
      → IsText request_id
      → host_exit_code < 2 ^ 32
      → IsText diagnostics
      → parse_launch_host_failure_response win32
          (build_launch_host_failure_response request_id host_exit_code diagnostics)
          request_id
        ≡ ok (host_exit_code, diagnostics)
  unfolding parse_launch_host_failure_response build_launch_host_failure_response json_string
      json_chars json_char to_string decimal
  parse-build_launch_host_failure_response request_id host_exit_code diagnostics t h u = rw (
      parse_response_reads win32 (host_answer win32 request_id) (host_failure_field-Ends win32)
        strict no_failure _ t (literal-IsText (codes "error") refl)
        (walk win32 (host_answer win32 request_id) (host_failure_field-Ends win32) strict
          (codes "hostExitCode") _ _ refl
          (additional_written win32 (host_answer win32 request_id) _ (codes "hostExitCode") _ refl
            (host_exit_written host_exit_code _ h))
          (walk win32 (host_answer win32 request_id) (host_failure_field-Ends win32) strict
            (codes "diagnostic") _ _ refl
            (additional_written win32 (host_answer win32 request_id) _ (codes "diagnostic") _ refl
              (diagnostic_written _ diagnostics _ refl u))
            (walk_reason_and_error win32 (host_answer win32 request_id)
              (host_failure_field-Ends win32) strict _ (codes "host_failed") 31 refl refl
              (literal-IsText (codes "host_failed") refl) refl (omega arith) refl)))
        refl)
