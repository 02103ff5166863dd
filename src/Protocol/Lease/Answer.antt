-- ===== src/Protocol/Lease/Answer.antt =====
-- src/protocol/BrokerProtocol.cpp: the answer to a lease request, from the builder to the parser.
use launch_as.Base.{
  ℕ, zero, suc, ◌+◌, ◌/◌, ◌%◌, ◌^◌, ◌≤◌, ◌<◌, ◌≡◌, refl, inl, inr, true, false, not, ◌||◌, [], ◌∷◌,
  ◌++◌, arith, leb, ◌==◌, if◌then◌else◌, Bool-cases, Bytes, Wide, codes, length, length-append,
  text_eq, text_eq_refl, Outcome, ok,
}
use launch_as.Utf8.{Win32Text}
use launch_as.Utf8.Encoding.{IsStrict}
use launch_as.Json.Writer.{json_string, json_chars, json_char, to_string, decimal}
use launch_as.Json.Numbers.{unsigned_one, unsigned-to_string}
use launch_as.Json.Progress.{
  Ends, took, refused, Ends-if, Ends-guard, Ends-bind, string-Ends, unsigned-Ends,
}
use launch_as.Json.Texts.{IsText, is_literal, literal-IsText, string-written, length-json_string}
use launch_as.Json.Members.{
  Continues, Continues-end, Continues-member, read_object-member, end-nil, member,
}
use launch_as.Json.Objects.{read_object}
use launch_as.Protocol.{
  InteractiveLeaseOperation, acquire, release, is_request_id, interactive_lease_operation_name,
  maximum_message_bytes,
}
use launch_as.Protocol.Management.{request_id-IsText, length-request_id}
use launch_as.Protocol.Lease
use launch_as.Protocol.Lease.{
  LeaseAnswer, no_lease_answer, answer_field, finish_answer, parse_interactive_lease_response,
  build_interactive_lease_response, same,
}

length-decimal : (fuel n : ℕ) → length (decimal fuel n) ≤ fuel + 1
unfolding decimal
length-decimal zero n = omega arith
length-decimal (suc fuel) n = ground (
  arith,
  length-append (decimal fuel (n / 10)) ((b'0' + n % 10) ∷ []),
  length-decimal fuel (n / 10),
)

length-to_string : (n : ℕ) → length (to_string n) ≤ 10
unfolding to_string
length-to_string n = length-decimal 9 n

operation_name-IsText :
    (o : InteractiveLeaseOperation) → IsText (interactive_lease_operation_name o)
unfolding interactive_lease_operation_name
operation_name-IsText acquire = literal-IsText _ refl
operation_name-IsText release = literal-IsText _ refl

length-operation_name :
    (o : InteractiveLeaseOperation) → length (interactive_lease_operation_name o) ≤ 7
unfolding interactive_lease_operation_name
length-operation_name acquire = omega arith
length-operation_name release = omega arith

abbrev status_name : ℕ → Wide
status_name n = if n == 0 then codes "ok" else codes "error"

length-status_name : (n : ℕ) → length (status_name n) ≤ 5
length-status_name n = ground arith

module _ (win32 : Win32Text) (strict : IsStrict win32) (operation : InteractiveLeaseOperation)
    (nonce : Wide) (valid : is_request_id nonce ≡ true) where
  answer_field-Ends :
      (r : LeaseAnswer) (name : Wide) (s : Bytes)
      → Ends (length s) (answer_field win32 operation nonce r name s)
  unfolding answer_field Lease.read_answer_version Lease.read_answer_operation
      Lease.read_answer_nonce Lease.read_answer_status Lease.read_answer_error
  answer_field-Ends r name s =
      Ends-if (text_eq name (codes "version"))
        (Ends-guard (not r.version) _ λ _.
          Ends-bind _ (unsigned-Ends s)
            λ value rest k. Ends-guard (value == 1) _ λ _. took {rest = rest} k)
        (Ends-if (text_eq name (codes "operation"))
          (Ends-guard (not r.operation) _ λ _. Ends-bind _ (string-Ends win32 s) λ value rest k.
            Ends-guard (text_eq value (interactive_lease_operation_name operation)) _
              λ _. took {rest = rest} k)
          (Ends-if (text_eq name (codes "nonce"))
            (Ends-guard (not r.nonce) _ λ _.
              Ends-bind _ (string-Ends win32 s)
                λ value rest k. Ends-guard (text_eq value nonce) _ λ _. took {rest = rest} k)
            (Ends-if (text_eq name (codes "status"))
              (Ends-guard (not r.status) _ λ _. Ends-bind _ (string-Ends win32 s) λ value rest k.
                Ends-guard (text_eq value (codes "ok") || text_eq value (codes "error")) _
                  λ _. took {rest = rest} k)
              (Ends-if (text_eq name (codes "win32Error"))
                (Ends-guard (not r.error) _
                  λ _. Ends-bind _ (unsigned-Ends s) λ value rest k. took {rest = rest} k)
                refused))))

  abbrev Walks : LeaseAnswer → Bytes → Outcome (LeaseAnswer × Bytes) → Type 0
  Walks = Continues win32 strict (answer_field win32 operation nonce) answer_field-Ends

  walk :
      (key : Wide) (r : LeaseAnswer) (value : Bytes) {r' : LeaseAnswer} {rest : Bytes}
      {result : Outcome (LeaseAnswer × Bytes)}
      → is_literal key ≡ true
      → answer_field win32 operation nonce r key value ≡ ok (r', rest)
      → Walks r' rest result
      → Walks r (b',' ∷ member key value) result
  walk = Continues-member win32 strict (answer_field win32 operation nonce) answer_field-Ends

  version_written :
      (rest : Bytes)
      → answer_field win32 operation nonce no_lease_answer (codes "version") (codes "1," ++ rest)
        ≡ ok (record no_lease_answer { version = true }, b',' ∷ rest)
  unfolding answer_field Lease.read_answer_version
  version_written rest = rw (unsigned_one b',' rest refl)

  operation_written :
      (r : LeaseAnswer) (rest : Bytes)
      → r.operation ≡ false
      → answer_field win32 operation nonce r
          (codes "operation")
          (json_string (interactive_lease_operation_name operation) ++ rest)
        ≡ ok (record r { operation = true }, rest)
  unfolding answer_field Lease.read_answer_operation
  operation_written r rest first =
      rw
        (
          first,
          string-written win32 strict (interactive_lease_operation_name operation) rest
              (operation_name-IsText operation),
        )
        (rw (text_eq_refl (interactive_lease_operation_name operation)))

  nonce_written :
      (r : LeaseAnswer) (rest : Bytes)
      → r.nonce ≡ false
      → answer_field win32 operation nonce r (codes "nonce") (json_string nonce ++ rest)
        ≡ ok (record r { nonce = true }, rest)
  unfolding answer_field Lease.read_answer_nonce
  nonce_written r rest first =
      rw (first, string-written win32 strict nonce rest (request_id-IsText nonce valid))
        (rw (text_eq_refl nonce))

  status_written :
      (r : LeaseAnswer) (n : ℕ) (rest : Bytes)
      → r.status ≡ false
      → answer_field win32 operation nonce r (codes "status") (json_string (status_name n) ++ rest)
        ≡ ok (record r { status_is_ok = n == 0; status = true }, rest)
  unfolding answer_field Lease.read_answer_status
  status_written r n rest first = elim (Bool-cases (n == 0)) [
    | inl e ↦ rw e (
        rw
          (first, string-written win32 strict (codes "ok") rest (literal-IsText (codes "ok") refl)))
    | inr e ↦ rw e (
        rw (
          first,
          string-written win32 strict (codes "error") rest (literal-IsText (codes "error") refl),
        ))
  ]

  error_written :
      (r : LeaseAnswer) (n : ℕ) (rest : Bytes)
      → r.error ≡ false
      → n < 2 ^ 32
      → answer_field win32 operation nonce r (codes "win32Error") (to_string n ++ b'}' ∷ rest)
        ≡ ok (record r { parsed_error = n; error = true }, b'}' ∷ rest)
  unfolding answer_field Lease.read_answer_error
  error_written r n rest first h = rw (first, unsigned-to_string n b'}' rest h refl)

  answer_text : ℕ → Bytes
  answer_text n =
      codes "{\"version\":1,\"operation\":"
      ++ (json_string (interactive_lease_operation_name operation)
          ++ (codes ",\"nonce\":"
              ++ (json_string nonce
                  ++ (codes ",\"status\":"
                      ++ (json_string (status_name n)
                          ++ (codes ",\"win32Error\":" ++ (to_string n ++ codes "}")))))))

  reads_answer :
      (n : ℕ)
      → n < 2 ^ 32
      → read_object win32 (answer_field win32 operation nonce) no_lease_answer (answer_text n)
        ≡ ok (
          record {
            parsed_error = n;
            status_is_ok = n == 0;
            version = true;
            operation = true;
            nonce = true;
            status = true;
            error = true;
          },
          [],
        )
  unfolding answer_text
  reads_answer n h =
      unfold json_string json_chars json_char in
      read_object-member win32 strict (answer_field win32 operation nonce) answer_field-Ends
        (codes "version") no_lease_answer _ refl (version_written _)
        (walk (codes "operation") (record no_lease_answer { version = true }) _ refl
          (operation_written (record no_lease_answer { version = true }) _ refl)
          (walk (codes "nonce") _ _ refl (nonce_written _ _ refl) (
            walk (codes "status") _ _ refl (status_written _ n _ refl) (
              walk (codes "win32Error") _ _ refl (error_written _ n [] refl h) (
                Continues-end win32 strict (answer_field win32 operation nonce) answer_field-Ends _
                  [])))))

  answer_is_small :
      (n : ℕ) → (0 < length (answer_text n)) × (length (answer_text n) ≤ maximum_message_bytes)
  unfolding answer_text
  answer_is_small n = omega (
    arith,
    length-append {0},
    length-json_string,
    length-request_id nonce valid,
    length-operation_name operation,
    length-to_string n,
    length-status_name n,
  )

  build_is_text : (n : ℕ) → build_interactive_lease_response operation nonce n ≡ answer_text n
  unfolding build_interactive_lease_response answer_text
  build_is_text n = elim (Bool-cases (n == 0)) [
    | inl e ↦ rw (valid, e) (unfold json_string json_chars json_char in refl)
    | inr e ↦ rw (valid, e) (unfold json_string json_chars json_char in refl)
  ]

  parses :
      (message : Bytes) {r : LeaseAnswer} {n : ℕ}
      → 0 < length message
      → length message ≤ maximum_message_bytes
      → read_object win32 (answer_field win32 operation nonce) no_lease_answer message ≡ ok (r, [])
      → finish_answer r ≡ ok n
      → parse_interactive_lease_response win32 message operation nonce ≡ ok n
  unfolding parse_interactive_lease_response
  parses [] h k e f = absurd (omega arith)
  parses (c ∷ message) h k e f = rw (small, valid, e) (rw (end-nil, f))
    where
      small : leb (length (c ∷ message)) maximum_message_bytes ≡ true
      small = ground arith

  -- Where the Win32 conversions are strict and the nonce is valid, the broker reads back the
  -- launcher's answer: the Win32 error of the operation that it asked for, which is 0 for success.
  pub parse-build_interactive_lease_response :
      (win32_error : ℕ)
      → win32_error < 2 ^ 32
      → parse_interactive_lease_response win32
          (build_interactive_lease_response operation nonce win32_error)
          operation
          nonce
        ≡ ok win32_error
  parse-build_interactive_lease_response n h =
      let small = answer_is_small n in
      rw (build_is_text n) (
        parses (answer_text n) small.0 small.1 (reads_answer n h)
          (unfold finish_answer in ground arith))
