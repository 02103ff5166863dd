-- ===== src/Enrollments/Codec.antt =====
-- src/broker/BrokerEnrollmentStore.cpp: what Load reads of the bytes that Store writes.
use launch_as.Base.{
  ℕ, ◌≤◌, ◌<◌, ◌≡◌, refl, subst, Bool, true, false, [], ◌∷◌, ◌++◌, append-nil, arith, ◌==◌,
  if◌then◌else◌, Bytes, length,
}
use launch_as.Accounts.{Sid}
use launch_as.Enrollments.{
  success, ◌then◌, Windows, dword, dword_bytes, record_magic, record_version, record_header,
  security_max_sid_size, record_tag_bytes, is_prefix, read_exactly, read_flags, read_body,
  read_record,
}

pub read_exactly-append :
    (front rest : Bytes) → read_exactly (length front) (front ++ rest) ≡ success (front, rest)
unfolding read_exactly
read_exactly-append [] rest = refl
read_exactly-append (b ∷ front) rest = rw (read_exactly-append front rest) refl

abbrev flag_of : Bool → ℕ
flag_of broker_managed = if broker_managed then 1 else 0

abbrev pub prefix_of : Sid → Bytes
prefix_of sid = dword_bytes record_magic ++ (dword_bytes record_version ++ dword_bytes (length sid))

read_body-written :
    (windows : Windows) (sid tag flags : Bytes)
    → windows.is_valid_sid sid ≡ true
    → windows.length_sid sid ≡ length sid
    → length sid ≤ security_max_sid_size
    → length tag ≡ record_tag_bytes
    → read_body windows (prefix_of sid) flags (sid ++ tag)
      ≡ success (record {
        signed_header = prefix_of sid ++ flags;
        version = record_version;
        flags = dword flags;
        sid = sid;
        tag = tag;
      })
unfolding read_body
read_body-written windows sid tag flags valid same short long =
    let size : dword (dword_bytes (length sid)) ≡ length sid = omega arith in
    let tagged : read_exactly record_tag_bytes tag ≡ success (tag, []) =
      subst (λ n. read_exactly n tag ≡ success (tag, [])) long
        (subst (λ t. read_exactly (length tag) t ≡ success (tag, [])) (append-nil tag)
          (read_exactly-append tag [])) in
    let whole : (length sid == length sid) ≡ true = ground arith in
    rw (size, read_exactly-append sid tag, tagged, valid, same, whole) refl

is_prefix-prefix_of :
    (sid : Sid)
    → 0 < length sid
    → length sid ≤ security_max_sid_size
    → is_prefix (prefix_of sid) ≡ true
is_prefix-prefix_of sid given short =
    let size : dword (dword_bytes (length sid)) ≡ length sid = omega arith in rw size (ground arith)

pub read_record-written :
    (windows : Windows) (sid tag : Bytes) (broker_managed : Bool)
    → windows.is_valid_sid sid ≡ true
    → windows.length_sid sid ≡ length sid
    → 0 < length sid
    → length sid ≤ security_max_sid_size
    → length tag ≡ record_tag_bytes
    → read_record windows (record_header sid broker_managed ++ (sid ++ tag))
      ≡ success (record {
        signed_header = record_header sid broker_managed;
        version = record_version;
        flags = flag_of broker_managed;
        sid = sid;
        tag = tag;
      })
unfolding read_record read_flags read_exactly
read_record-written windows sid tag true valid same given short long =
    rw (is_prefix-prefix_of sid given short)
      (read_body-written windows sid tag (dword_bytes 1) valid same short long)
read_record-written windows sid tag false valid same given short long =
    rw (is_prefix-prefix_of sid given short)
      (read_body-written windows sid tag (dword_bytes 0) valid same short long)
