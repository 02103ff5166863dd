-- ===== src/Protocol/Lease/Exchange.antt =====
-- src/protocol/BrokerProtocol.cpp: the lease requests, from the builders to the parser.
use launch_as.Base.{
  ◌≤◌, ◌<◌, ◌≡◌, refl, true, false, not, ◌||◌, [], ◌∷◌, ◌++◌, arith, leb, ◌==◌, Bytes, Wide, codes,
  length, length-append, text_eq, text_eq_refl, Outcome, ok,
}
use launch_as.Utf8.{Win32Text}
use launch_as.Utf8.Encoding.{IsStrict}
use launch_as.Json.Writer.{json_string, json_chars, json_char}
use launch_as.Json.Numbers.{unsigned_one}
use launch_as.Json.Progress.{
  Ends, took, refused, Ends-if, Ends-guard, Ends-bind, string-Ends, unsigned-Ends,
}
use launch_as.Json.Texts.{IsText, is_literal, literal-IsText, string-written, length-json_string}
use launch_as.Json.Members.{
  Continues, Continues-end, Continues-member, read_object-member, end-nil, member,
}
use launch_as.Json.Objects.{read_object}
use launch_as.Protocol.{
  acquire, release, InteractiveLeaseRequest, is_request_id, is_logon_sid, maximum_message_bytes,
}
use launch_as.Protocol.Management.{request_id-IsText, length-request_id}
use launch_as.Protocol.Lease
use launch_as.Protocol.Lease.{
  LeaseReading, no_lease_reading, lease_field, finish_lease, parse_interactive_lease_request,
  build_interactive_lease_acquire_request, build_interactive_lease_release_request,
}

module _ (win32 : Win32Text) (strict : IsStrict win32) (nonce : Wide)
    (valid : is_request_id nonce ≡ true) where
  lease_field-Ends :
      (r : LeaseReading) (name : Wide) (s : Bytes)
      → Ends (length s) (lease_field win32 nonce r name s)
  unfolding lease_field Lease.read_lease_version Lease.read_lease_operation Lease.read_lease_nonce
      Lease.read_child_logon_sid
  lease_field-Ends r name s =
      Ends-if (text_eq name (codes "version"))
        (Ends-guard (not r.version) _ λ _.
          Ends-bind _ (unsigned-Ends s)
            λ value rest k. Ends-guard (value == 1) _ λ _. took {rest = rest} k)
        (Ends-if (text_eq name (codes "operation"))
          (Ends-guard (not r.operation) _ λ _. Ends-bind _ (string-Ends win32 s) λ value rest k.
            Ends-guard (text_eq value (codes "acquire") || text_eq value (codes "release")) _
              λ _. took {rest = rest} k)
          (Ends-if (text_eq name (codes "nonce"))
            (Ends-guard (not r.nonce) _ λ _.
              Ends-bind _ (string-Ends win32 s)
                λ value rest k. Ends-guard (text_eq value nonce) _ λ _. took {rest = rest} k)
            (Ends-if (text_eq name (codes "childLogonSid"))
              (Ends-guard (not r.child_logon_sid) _ λ _.
                Ends-bind _ (string-Ends win32 s)
                  λ value rest k. Ends-guard (is_logon_sid value) _ λ _. took {rest = rest} k)
              refused)))

  abbrev Walks : LeaseReading → Bytes → Outcome (LeaseReading × Bytes) → Type 0
  Walks = Continues win32 strict (lease_field win32 nonce) lease_field-Ends

  walk :
      (key : Wide) (r : LeaseReading) (value : Bytes) {r' : LeaseReading} {rest : Bytes}
      {result : Outcome (LeaseReading × Bytes)}
      → is_literal key ≡ true
      → lease_field win32 nonce r key value ≡ ok (r', rest)
      → Walks r' rest result
      → Walks r (b',' ∷ member key value) result
  walk = Continues-member win32 strict (lease_field win32 nonce) lease_field-Ends

  version_written :
      (rest : Bytes)
      → lease_field win32 nonce no_lease_reading (codes "version") (codes "1," ++ rest)
        ≡ ok (record no_lease_reading { version = true }, b',' ∷ rest)
  unfolding lease_field Lease.read_lease_version
  version_written rest = rw (unsigned_one b',' rest refl)

  operation_written :
      (r : LeaseReading) (v : Wide) (rest : Bytes)
      → r.operation ≡ false
      → IsText v
      → (text_eq v (codes "acquire") || text_eq v (codes "release")) ≡ true
      → lease_field win32 nonce r (codes "operation") (json_string v ++ rest)
        ≡ ok (record r { operation_name = v; operation = true }, rest)
  unfolding lease_field Lease.read_lease_operation
  operation_written r v rest first t known =
      rw (first, string-written win32 strict v rest t) (rw known)

  nonce_written :
      (r : LeaseReading) (rest : Bytes)
      → r.nonce ≡ false
      → lease_field win32 nonce r (codes "nonce") (json_string nonce ++ rest)
        ≡ ok (record r { request = record (r.request) { nonce = nonce }; nonce = true }, rest)
  unfolding lease_field Lease.read_lease_nonce
  nonce_written r rest first =
      rw (first, string-written win32 strict nonce rest (request_id-IsText nonce valid))
        (rw (text_eq_refl nonce))

  sid_written :
      (r : LeaseReading) (v : Wide) (rest : Bytes)
      → r.child_logon_sid ≡ false
      → IsText v
      → is_logon_sid v ≡ true
      → lease_field win32 nonce r (codes "childLogonSid") (json_string v ++ rest)
        ≡ ok (
          record r { request = record (r.request) { child_logon_sid = v }; child_logon_sid = true },
          rest,
        )
  unfolding lease_field Lease.read_child_logon_sid
  sid_written r v rest first t h = rw (first, string-written win32 strict v rest t) (rw h)

  -- The members that both requests begin with.
  reads_head :
      (operation : Wide) (rest : Bytes) {result : Outcome (LeaseReading × Bytes)}
      → is_literal operation ≡ true
      → (text_eq operation (codes "acquire") || text_eq operation (codes "release")) ≡ true
      → Walks
          (record no_lease_reading {
            request = record (no_lease_reading.request) { nonce = nonce };
            operation_name = operation;
            version = true;
            operation = true;
            nonce = true;
          })
          rest
          result
      → read_object win32 (lease_field win32 nonce) no_lease_reading (
          codes "{\"version\":1,\"operation\":"
          ++ (json_string operation ++ (codes ",\"nonce\":" ++ (json_string nonce ++ rest))))
        ≡ result
  unfolding json_string json_chars json_char
  reads_head operation rest lit known next =
      read_object-member win32 strict (lease_field win32 nonce) lease_field-Ends (codes "version")
        no_lease_reading _ refl (version_written _)
        (walk (codes "operation") (record no_lease_reading { version = true }) _ refl
          (operation_written (record no_lease_reading { version = true }) operation _ refl
            (literal-IsText operation lit) known)
          (walk (codes "nonce") _ _ refl (nonce_written _ rest refl) next))

  parses :
      (message : Bytes) {r : LeaseReading} {q : InteractiveLeaseRequest}
      → 0 < length message
      → length message ≤ maximum_message_bytes
      → read_object win32 (lease_field win32 nonce) no_lease_reading message ≡ ok (r, [])
      → finish_lease r ≡ ok q
      → parse_interactive_lease_request win32 message nonce ≡ ok q
  unfolding parse_interactive_lease_request
  parses [] h k e f = absurd (omega arith)
  parses (c ∷ message) h k e f = rw (small, valid, e) (rw (end-nil, f))
    where
      small : leb (length (c ∷ message)) maximum_message_bytes ≡ true
      small = ground arith

  acquire_text : Wide → Bytes
  acquire_text sid =
      codes "{\"version\":1,\"operation\":\"acquire\",\"nonce\":"
      ++ (json_string nonce ++ (codes ",\"childLogonSid\":" ++ (json_string sid ++ codes "}")))

  -- The variables behind the head of a request.
  abbrev head_reading : Wide → LeaseReading
  head_reading operation = record no_lease_reading {
    request = record (no_lease_reading.request) { nonce = nonce };
    operation_name = operation;
    version = true;
    operation = true;
    nonce = true;
  }

  reads_acquire :
      (sid : Wide)
      → IsText sid
      → is_logon_sid sid ≡ true
      → read_object win32 (lease_field win32 nonce) no_lease_reading (acquire_text sid)
        ≡ ok (
          record (head_reading (codes "acquire")) {
            request = record { operation = acquire; nonce = nonce; child_logon_sid = sid };
            child_logon_sid = true;
          },
          [],
        )
  unfolding acquire_text json_string json_chars json_char
  reads_acquire sid t h = reads_head (codes "acquire") _ refl refl (
      walk (codes "childLogonSid") _ _ refl (sid_written _ sid _ refl t h)
        (Continues-end win32 strict (lease_field win32 nonce) lease_field-Ends _ []))

  acquire_is_small :
      (sid : Wide)
      → length sid ≤ 1024
      → (0 < length (acquire_text sid)) × (length (acquire_text sid) ≤ maximum_message_bytes)
  unfolding acquire_text
  acquire_is_small sid short =
      omega (arith, length-append {0}, length-json_string, length-request_id nonce valid)

  -- Where the Win32 conversions are strict, the launcher reads back the broker's request to
  -- acquire the lease, with a valid nonce and for a child's logon SID, a valid well-formed text of
  -- at most 1024 code units.
  pub parse-build_interactive_lease_acquire_request :
      (child_logon_sid : Wide)
      → IsText child_logon_sid
      → length child_logon_sid ≤ 1024
      → is_logon_sid child_logon_sid ≡ true
      → parse_interactive_lease_request win32
          (build_interactive_lease_acquire_request nonce child_logon_sid)
          nonce
        ≡ ok (record { operation = acquire; nonce = nonce; child_logon_sid = child_logon_sid })
  unfolding build_interactive_lease_acquire_request finish_lease acquire_text
  parse-build_interactive_lease_acquire_request child_logon_sid t short sid =
      let small = acquire_is_small child_logon_sid short in
      rw (valid, sid)
        (parses (acquire_text child_logon_sid) small.0 small.1 (reads_acquire child_logon_sid t sid)
          refl)

  release_text : Bytes
  release_text =
      codes "{\"version\":1,\"operation\":\"release\",\"nonce\":"
      ++ (json_string nonce ++ codes "}")

  reads_release :
      read_object win32 (lease_field win32 nonce) no_lease_reading release_text
      ≡ ok (head_reading (codes "release"), [])
  unfolding release_text json_string json_chars json_char
  reads_release =
      reads_head (codes "release") _ refl refl
        (Continues-end win32 strict (lease_field win32 nonce) lease_field-Ends _ [])

  release_is_small : (0 < length release_text) × (length release_text ≤ maximum_message_bytes)
  unfolding release_text
  release_is_small =
      omega (arith, length-append {0}, length-json_string, length-request_id nonce valid)

  -- Where the Win32 conversions are strict, the launcher reads back the broker's request to
  -- release the lease, with a valid nonce.
  pub parse-build_interactive_lease_release_request :
      parse_interactive_lease_request win32 (build_interactive_lease_release_request nonce) nonce
      ≡ ok (record { operation = release; nonce = nonce; child_logon_sid = [] })
  unfolding build_interactive_lease_release_request finish_lease release_text
  parse-build_interactive_lease_release_request =
      rw valid (parses release_text release_is_small.0 release_is_small.1 reads_release refl)
