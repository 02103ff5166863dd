-- ===== src/Tests/Leases.antt =====
-- The lease requests and their answers at concrete inputs.
use launch_as.Base.{◌≡◌, refl, true, [], arith, Wide, codes, ok}
use launch_as.Json.Texts.{literal-IsText}
use launch_as.Protocol.{acquire, release, is_request_id, is_logon_sid}
use launch_as.Protocol.Lease.{
  build_interactive_lease_acquire_request, build_interactive_lease_release_request,
  build_interactive_lease_response, parse_interactive_lease_request,
  parse_interactive_lease_response,
}
use launch_as.Protocol.Lease.Exchange.{
  parse-build_interactive_lease_acquire_request, parse-build_interactive_lease_release_request,
}
use launch_as.Protocol.Lease.Answer.{parse-build_interactive_lease_response}
use launch_as.Protocol.Lease.Nonce.{IsForNonce, parse_interactive_lease_request-IsForNonce}
use launch_as.Tests.Converter.{converter, converter-IsStrict}

abbrev nonce : Wide
nonce = codes "3f2504e0-4f89-41d3-9a0c-0305e82c3301"

nonce_valid : is_request_id nonce ≡ true
unfolding is_request_id
nonce_valid = refl

parse-build_interactive_lease_acquire_request_example :
    parse_interactive_lease_request converter
      (build_interactive_lease_acquire_request nonce (codes "S-1-5-5-0-987654"))
      nonce
    ≡ ok (record { operation = acquire; nonce = nonce; child_logon_sid = codes "S-1-5-5-0-987654" })
unfolding is_logon_sid
parse-build_interactive_lease_acquire_request_example =
    parse-build_interactive_lease_acquire_request converter converter-IsStrict nonce nonce_valid
      (codes "S-1-5-5-0-987654") (literal-IsText (codes "S-1-5-5-0-987654") refl) (omega arith) refl

parse-build_interactive_lease_release_request_example :
    parse_interactive_lease_request converter (build_interactive_lease_release_request nonce) nonce
    ≡ ok (record { operation = release; nonce = nonce; child_logon_sid = [] })
parse-build_interactive_lease_release_request_example =
    parse-build_interactive_lease_release_request converter converter-IsStrict nonce nonce_valid

parse-build_interactive_lease_response_example :
    parse_interactive_lease_response converter
      (build_interactive_lease_response acquire nonce 5)
      acquire
      nonce
    ≡ ok 5
parse-build_interactive_lease_response_example =
    parse-build_interactive_lease_response converter converter-IsStrict acquire nonce nonce_valid 5
      (omega arith)

parse_interactive_lease_request-IsForNonce_example :
    IsForNonce nonce
      (record { operation = acquire; nonce = nonce; child_logon_sid = codes "S-1-5-5-0-987654" })
parse_interactive_lease_request-IsForNonce_example =
    parse_interactive_lease_request-IsForNonce converter
      (build_interactive_lease_acquire_request nonce (codes "S-1-5-5-0-987654")) nonce
      parse-build_interactive_lease_acquire_request_example
