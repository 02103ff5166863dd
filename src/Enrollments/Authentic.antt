-- ===== src/Enrollments/Authentic.antt =====
-- src/broker/BrokerEnrollmentStore.cpp: the files that Load accepts.
use launch_as.Base.{
  ℕ, zero, suc, ◌/◌, ◌≡◌, refl, sym, ap, ◌∙◌, subst, inl, inr, true, ◌&&◌, [], ◌∷◌, ◌++◌,
  append_assoc, ◌==◌, if◌then◌else◌, Bool-cases, Bytes, length, drop,
}
use launch_as.Accounts.{Sid}
use launch_as.Enrollments.{
  Result, success, failure, ◌then◌, require, Windows, StoredRecord, record_version,
  record_tag_bytes, dword, is_prefix, read_exactly, read_flags, read_body, read_record,
}
use launch_as.Enrollments.Stored.{require-success}

pub then-success :
    {A B : Type 0} (r : Result A) (next : A → Result B) (b : B)
    → (r then next) ≡ success b
    → (a : A) × ((r ≡ success a) × (next a ≡ success b))
then-success (success a) next b h = (a, (refl, h))
then-success (failure error) next b h = cc

abbrev with_byte : ℕ → Bytes × Bytes → Result (Bytes × Bytes)
with_byte b (front, rest) = success (b ∷ front, rest)

read_exactly_sound :
    (n : ℕ) (file front rest : Bytes)
    → read_exactly n file ≡ success (front, rest)
    → (file ≡ front ++ rest) × (length front ≡ n)
unfolding read_exactly
read_exactly_sound zero file front rest h =
    let e : Path (Result (Bytes × Bytes)) (success ([], file)) (success (front, rest)) = h in
    let f : [] ≡ front = cc in
    let r : file ≡ rest = cc in (r ∙ ap (λ x. x ++ rest) f, ap length (sym f))
read_exactly_sound (suc n) [] front rest h = cc
read_exactly_sound (suc n) (b ∷ file) front rest h =
    let ((more, behind), (first, second)) =
      then-success (read_exactly n file) (with_byte b) (front, rest) h in
    let inner = read_exactly_sound n file more behind first in
    let e : Path (Result (Bytes × Bytes)) (success (b ∷ more, behind)) (success (front, rest)) =
      second in
    let f : b ∷ more ≡ front = cc in
    let r : behind ≡ rest = cc in
    (
      ap (λ t. b ∷ t) inner.0 ∙ (ap (λ x. b ∷ more ++ x) r ∙ ap (λ x. x ++ rest) f),
      ap length (sym f) ∙ ap suc inner.1,
    )

abbrev checked_flags : Bytes × Bytes → Result (Bytes × Bytes)
checked_flags (flags, rest) = require (dword flags / 2 == 0) 13 (success (flags, rest))

-- The flags of a record of the current version.
abbrev pub flags_bytes : ℕ → ℕ
flags_bytes version = if version == record_version then 4 else 0

read_flags_sound :
    (version : ℕ) (file flags rest : Bytes)
    → read_flags version file ≡ success (flags, rest)
    → (file ≡ flags ++ rest) × (length flags ≡ flags_bytes version)
unfolding read_flags
read_flags_sound version file flags rest h = elim (Bool-cases (version == record_version)) [
  | inl e ↦
      let read : (read_exactly 4 file then checked_flags) ≡ success (flags, rest) =
        subst
          (λ b.
            (if b then read_exactly 4 file then checked_flags else success ([], file))
            ≡ success (flags, rest))
          e h in
      let ((front, behind), (first, second)) =
        then-success (read_exactly 4 file) checked_flags (flags, rest) read in
      let same : Path (Result (Bytes × Bytes)) (success (front, behind)) (success (flags, rest)) =
        (require-success (dword front / 2 == 0) 13 _ (flags, rest) second).1 in
      let f : front ≡ flags = cc in
      let r : behind ≡ rest = cc in
      let sound = read_exactly_sound 4 file front behind first in
      rw e
        (sound.0 ∙ (ap (λ x. x ++ behind) f ∙ ap (λ x. flags ++ x) r), ap length (sym f) ∙ sound.1)
  | inr e ↦
      let same : Path (Result (Bytes × Bytes)) (success ([], file)) (success (flags, rest)) =
        subst
          (λ b.
            (if b then read_exactly 4 file then checked_flags else success ([], file))
            ≡ success (flags, rest))
          e h in
      let f : [] ≡ flags = cc in
      let r : file ≡ rest = cc in rw e (r ∙ ap (λ x. x ++ rest) f, ap length (sym f))
]

-- A file that begins with a record: twelve bytes, the flags where the version has them, the SID
-- and the tag. Anything may follow.
pub record IsRead (stored : StoredRecord) (file : Bytes) : Type 0 where
  pub prefix : Bytes
  pub flags : Bytes
  pub rest : Bytes
  pub contents : file ≡ stored.signed_header ++ (stored.sid ++ (stored.tag ++ rest))
  pub header : stored.signed_header ≡ prefix ++ flags
  pub known : is_prefix prefix ≡ true
  pub prefix_size : length prefix ≡ 12
  pub flags_size : length flags ≡ flags_bytes (dword (drop 4 prefix))
  pub sid_size : length stored.sid ≡ dword (drop 8 prefix)
  pub tag_size : length stored.tag ≡ record_tag_bytes
  pub version_read : stored.version ≡ dword (drop 4 prefix)
  pub flags_read : stored.flags ≡ dword flags

module _ (windows : Windows) where
  abbrev body_of : Bytes → Bytes → Sid → Bytes → StoredRecord
  body_of prefix flags sid tag = record {
    signed_header = prefix ++ flags;
    version = dword (drop 4 prefix);
    flags = dword flags;
    sid = sid;
    tag = tag;
  }

  abbrev checked_tag : Bytes → Bytes → Sid → Bytes × Bytes → Result StoredRecord
  checked_tag prefix flags sid (tag, rest) =
      require (windows.is_valid_sid sid && windows.length_sid sid == length sid) 1337
        (success (body_of prefix flags sid tag))

  abbrev checked_sid : Bytes → Bytes → Bytes × Bytes → Result StoredRecord
  checked_sid prefix flags (sid, behind) =
      read_exactly record_tag_bytes behind then checked_tag prefix flags sid

  abbrev with_flags : Bytes → Bytes × Bytes → Result StoredRecord
  with_flags prefix (flags, rest) = read_body windows prefix flags rest

  abbrev with_prefix : Bytes × Bytes → Result StoredRecord
  with_prefix (prefix, behind) =
      require (is_prefix prefix) 13
        (read_flags (dword (drop 4 prefix)) behind then with_flags prefix)

  -- The body behind a prefix and flags that have been read.
  read_body-IsRead :
      (prefix flags file start : Bytes) (stored : StoredRecord)
      → read_body windows prefix flags file ≡ success stored
      → start ≡ prefix ++ (flags ++ file)
      → is_prefix prefix ≡ true
      → length prefix ≡ 12
      → length flags ≡ flags_bytes (dword (drop 4 prefix))
      → IsRead stored start
  unfolding read_body
  read_body-IsRead prefix flags file start stored h e known size flags_size =
      let ((sid, behind), (first, second)) =
        then-success (read_exactly (dword (drop 8 prefix)) file) (checked_sid prefix flags) stored
          h in
      let ((tag, rest), (third, fourth)) =
        then-success (read_exactly record_tag_bytes behind) (checked_tag prefix flags sid) stored
          second in
      let same : Path (Result StoredRecord) (success (body_of prefix flags sid tag))
          (success stored) =
        (require-success (windows.is_valid_sid sid && windows.length_sid sid == length sid) 1337 _
          stored fourth).1 in
      let s : body_of prefix flags sid tag ≡ stored = cc in
      let read_sid = read_exactly_sound (dword (drop 8 prefix)) file sid behind first in
      let read_tag = read_exactly_sound record_tag_bytes behind tag rest third in
      let body = read_sid.0 ∙ ap (λ t. sid ++ t) read_tag.0 in
      subst (λ stored. IsRead stored start) s
        (record {
          prefix = prefix;
          flags = flags;
          rest = rest;
          contents =
              e
              ∙ (ap (λ t. prefix ++ (flags ++ t)) body
                  ∙ sym (append_assoc prefix flags (sid ++ (tag ++ rest))));
          header = refl;
          known = known;
          prefix_size = size;
          flags_size = flags_size;
          sid_size = read_sid.1;
          tag_size = read_tag.1;
          version_read = refl;
          flags_read = refl;
        })

  pub read_record_sound :
      (file : Bytes) (stored : StoredRecord)
      → read_record windows file ≡ success stored
      → IsRead stored file
  unfolding read_record
  read_record_sound file stored h =
      let ((prefix, behind), (first, second)) =
        then-success (read_exactly 12 file) with_prefix stored h in
      let (known, flagged) = require-success (is_prefix prefix) 13 _ stored second in
      let ((flags, more), (third, fourth)) =
        then-success (read_flags (dword (drop 4 prefix)) behind) (with_flags prefix) stored
          flagged in
      let start = read_exactly_sound 12 file prefix behind first in
      let flags_read = read_flags_sound (dword (drop 4 prefix)) behind flags more third in
      read_body-IsRead prefix flags more file stored fourth
        (start.0 ∙ ap (λ t. prefix ++ t) flags_read.0) known start.1 flags_read.1
