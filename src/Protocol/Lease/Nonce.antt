-- ===== src/Protocol/Lease/Nonce.antt =====
-- src/protocol/BrokerProtocol.cpp: the requests that ParseInteractiveLeaseRequest accepts.
use launch_as.Base.{
  ◌≡◌, refl, true, not, ◌&&◌, ◌||◌, arith, leb, ◌==◌, Bytes, Wide, codes, length, is_empty, text_eq,
  text_eq_sound, ok,
}
use launch_as.Base.{
  Ensures, holds, no_value, Ensures-if, Ensures-guard, Ensures-any, Ensures-bind, Ensures-ok,
}
use launch_as.Utf8.{Win32Text}
use launch_as.Json.{string, unsigned, end}
use launch_as.Json.Objects.{read_object}
use launch_as.Json.Invariants.{Value, read_object-keeps}
use launch_as.Protocol.{
  InteractiveLeaseOperation, acquire, release, InteractiveLeaseRequest, is_request_id, is_logon_sid,
  maximum_message_bytes,
}
use launch_as.Protocol.Lease
use launch_as.Protocol.Lease.{
  LeaseReading, no_lease_reading, lease_field, finish_lease, parse_interactive_lease_request, same,
}

record IsConsistent (nonce : Wide) (r : LeaseReading) : Type 0 where
  pub nonce_equal : (not r.nonce || text_eq r.request.nonce nonce) ≡ true
  pub sid_valid : (not r.child_logon_sid || is_logon_sid r.request.child_logon_sid) ≡ true
  pub sid_absent : (r.child_logon_sid || is_empty r.request.child_logon_sid) ≡ true

-- The SID fits the operation.
abbrev pub FitsLease : InteractiveLeaseOperation → Wide → Type 0
FitsLease acquire sid = is_logon_sid sid ≡ true
FitsLease release sid = is_empty sid ≡ true

abbrev pub IsForNonce : Wide → InteractiveLeaseRequest → Type 0
IsForNonce nonce q = (q.nonce ≡ nonce) × FitsLease q.operation q.child_logon_sid

module _ (win32 : Win32Text) (nonce : Wide) where
  lease_field-keeps :
      (r : LeaseReading) (name : Wide) (s : Bytes)
      → IsConsistent nonce r
      → Ensures (Value (IsConsistent nonce)) (lease_field win32 nonce r name s)
  unfolding lease_field Lease.read_lease_version Lease.read_lease_operation Lease.read_lease_nonce
      Lease.read_child_logon_sid
  lease_field-keeps r name s v =
      Ensures-if (text_eq name (codes "version"))
        (λ _. Ensures-guard (not r.version) _ λ _.
          Ensures-any (unsigned s) _
            λ (value, rest) _. Ensures-guard (value == 1) _ λ _. holds (ground arith))
        (λ _.
          Ensures-if (text_eq name (codes "operation"))
            (λ _. Ensures-guard (not r.operation) _ λ _.
              Ensures-any (string win32 s) _ λ (value, rest) _.
                Ensures-guard (text_eq value (codes "acquire") || text_eq value (codes "release")) _
                  λ _. holds (ground arith))
            (λ _.
              Ensures-if (text_eq name (codes "nonce"))
                (λ _. Ensures-guard (not r.nonce) _ λ _.
                  Ensures-any (string win32 s) _ λ (value, rest) _.
                    Ensures-guard (text_eq value nonce) _ λ e. holds (ground arith))
                (λ _.
                  Ensures-if (text_eq name (codes "childLogonSid"))
                    (λ _. Ensures-guard (not r.child_logon_sid) _ λ _.
                      Ensures-any (string win32 s) _ λ (value, rest) _.
                        Ensures-guard (is_logon_sid value) _ λ e. holds (ground arith))
                    (λ _. no_value))))

finish_lease-IsForNonce :
    (nonce : Wide) (r : LeaseReading)
    → IsConsistent nonce r
    → Ensures (IsForNonce nonce) (finish_lease r)
unfolding finish_lease
finish_lease-IsForNonce nonce r v = Ensures-guard (r.version && r.operation && r.nonce) _ λ seen.
    Ensures-guard (same r.child_logon_sid (text_eq r.operation_name (codes "acquire"))) _
      λ _. holds (text_eq_sound r.request.nonce nonce (ground arith), ground arith)

-- Whatever bytes the launcher receives, a lease request that it accepts carries the nonce that it
-- expects; one to acquire carries a valid logon SID, and one to release carries none.
pub parse_interactive_lease_request-IsForNonce :
    (win32 : Win32Text) (message : Bytes) (expected_nonce : Wide) {q : InteractiveLeaseRequest}
    → parse_interactive_lease_request win32 message expected_nonce ≡ ok q
    → IsForNonce expected_nonce q
unfolding parse_interactive_lease_request
parse_interactive_lease_request-IsForNonce win32 message nonce = Ensures-ok (
    Ensures-guard
      (not (is_empty message) && leb (length message) maximum_message_bytes && is_request_id nonce)
      _
      λ _.
        Ensures-bind (Value (IsConsistent nonce))
          (read_object win32 (lease_field win32 nonce) no_lease_reading message) _
          (read_object-keeps win32 (IsConsistent nonce) (lease_field win32 nonce)
            (lease_field-keeps win32 nonce) no_lease_reading message
            (record { nonce_equal = refl; sid_valid = refl; sid_absent = refl }))
          λ (r, rest) _ v. Ensures-guard (end rest) _ λ _. finish_lease-IsForNonce nonce r v)
