-- ===== src/Enrollments/Stored.antt =====
-- src/broker/BrokerEnrollmentStore.cpp: Load after Store, and what Load authenticates.
use launch_as.Base.{
  first_error, ℕ, zero, suc, ◌%◌, ◌≤◌, ◌<◌, ◌≡◌, refl, sym, subst, inl, inr, Bool, true, false,
  ◌&&◌, Option, none, some, [], ◌∷◌, ◌++◌, append-nil, arith, ◌==◌, if◌then◌else◌, Bool-cases,
  Bytes, Wide, length, is_empty, text_eq_refl,
}
use launch_as.Accounts.{Sid, EnrollmentRecord, is_valid_broker_account_name}
use launch_as.Enrollments.{
  Result, success, failure, ◌then◌, require, Windows, Directory, FileCalls, record_header,
  record_version, security_max_sid_size, record_tag_bytes, read_exactly, load_or_create_machine_key,
  store_with_key, store_keyed, store, check_record, load_file, load_found, load,
}
use launch_as.Enrollments.Codec.{read_exactly-append, read_record-written}
use launch_as.Enrollments.Tags.{constant_time_equal_iff}

pub require-success :
    {A : Type 0} (b : Bool) (error : ℕ) (next : Result A) (a : A)
    → require b error next ≡ success a
    → (b ≡ true) × (next ≡ success a)
require-success true error next a h = (refl, h)
require-success false error next a h = cc

abbrev with_file : Bytes → Bytes × Bytes → Result (Bytes × Option Bytes)
with_file file (front, rest) = success (front, some file)

key_of_file :
    (file : Bytes) (read : Result (Bytes × Bytes)) (key : Bytes) (after : Option Bytes)
    → (read then with_file file) ≡ success (key, after)
    → after ≡ some file
key_of_file file (success (front, rest)) key after h = cc
key_of_file file (failure error) key after h = cc

-- The key of an operation is the key of the next one.
key_again :
    (calls later : FileCalls) (before after : Option Bytes) (key : Bytes)
    → load_or_create_machine_key calls before ≡ success (key, after)
    → length calls.new_key ≡ 32
    → later.key_open_error ≡ 0
    → load_or_create_machine_key later after ≡ success (key, after)
unfolding load_or_create_machine_key
key_again calls later (some file) after key h long opens =
    let read = (require-success (calls.key_open_error == 0) calls.key_open_error _ _ h).1 in
    let same = key_of_file file (read_exactly 32 file) key after read in
    subst (λ o. load_or_create_machine_key later o ≡ success (key, after)) (sym same)
      (rw opens read)
key_again calls later none after key h long opens =
    let made : Path (Result (Bytes × Option Bytes)) (success (calls.new_key, some (calls.new_key)))
        (success (key, after)) =
      (require-success (calls.key_write_error == 0) calls.key_write_error _ _
        ((require-success (calls.generate_error == 0) calls.generate_error _ _ h).1)).1 in
    let same : after ≡ some (calls.new_key) = cc in
    let whole : read_exactly 32 (calls.new_key) ≡ success (calls.new_key, []) =
      subst (λ n. read_exactly n (calls.new_key) ≡ success (calls.new_key, [])) long
        (subst (λ t. read_exactly (length calls.new_key) t ≡ success (calls.new_key, []))
          (append-nil (calls.new_key)) (read_exactly-append (calls.new_key) [])) in
    subst (λ o. load_or_create_machine_key later o ≡ success (key, after)) (sym same)
      (rw (opens, whole) (made))

-- An operation never fails with the code for success.
abbrev fails_with_0 : {A : Type 0} → Result A → Bool
fails_with_0 (success a) = false
fails_with_0 (failure error) = error == 0

then-fails_with_0 :
    {A B : Type 0} (r : Result A) (next : A → Result B)
    → fails_with_0 r ≡ false
    → ((a : A) → fails_with_0 (next a) ≡ false)
    → fails_with_0 (r then next) ≡ false
then-fails_with_0 (success a) next h k = k a
then-fails_with_0 (failure error) next h k = h

require-fails_with_0 :
    {A : Type 0} (error : ℕ) (next : Result A)
    → fails_with_0 next ≡ false
    → fails_with_0 (require (error == 0) error next) ≡ false
require-fails_with_0 error next h = elim (Bool-cases (error == 0)) [
  | inl e ↦ rw e h
  | inr e ↦ rw e e
]

read_exactly-fails_with_0 : (n : ℕ) (file : Bytes) → fails_with_0 (read_exactly n file) ≡ false
unfolding read_exactly
read_exactly-fails_with_0 zero file = refl
read_exactly-fails_with_0 (suc n) [] = refl
read_exactly-fails_with_0 (suc n) (b ∷ file) =
    then-fails_with_0 (read_exactly n file) _ (read_exactly-fails_with_0 n file) (λ a. refl)

key-fails_with_0 :
    (calls : FileCalls) (file : Option Bytes)
    → fails_with_0 (load_or_create_machine_key calls file) ≡ false
unfolding load_or_create_machine_key
key-fails_with_0 calls (some file) =
    require-fails_with_0 calls.key_open_error _
      (then-fails_with_0 (read_exactly 32 file) _ (read_exactly-fails_with_0 32 file) (λ a. refl))
key-fails_with_0 calls none =
    require-fails_with_0 calls.generate_error _ (require-fails_with_0 calls.key_write_error _ refl)

given_length : (sid : Sid) → is_empty sid ≡ false → 0 < length sid
given_length [] h = cc
given_length (b ∷ sid) h = omega arith

-- What the store relies on: tags of 32 bytes.
pub record IsWindows (windows : Windows) : Type 0 where
  pub length-hmac : (key signed : Bytes) → length (windows.hmac key signed) ≡ record_tag_bytes

-- The calls of a Load that succeed.
pub record IsQuiet (later : FileCalls) : Type 0 where
  pub opens : later.open_error ≡ 0
  pub opens_key : later.key_open_error ≡ 0
  pub tags : later.tag_error ≡ 0

module _ (windows : Windows) (law : IsWindows windows) (sid : Sid) (broker_managed : Bool)
    (same : windows.length_sid sid ≡ length sid) (short : length sid ≤ security_max_sid_size)
    (later : FileCalls) (quiet : IsQuiet later) where
  abbrev stored_as : EnrollmentRecord
  stored_as = record { account_sid = sid; broker_managed = broker_managed }

  abbrev file_with : Bytes → Bytes
  file_with key =
      let header = record_header sid broker_managed in
      header ++ (sid ++ windows.hmac key (header ++ sid))

  check_record-written :
      (key : Bytes)
      → check_record windows later key (record {
        signed_header = record_header sid broker_managed;
        version = record_version;
        flags = if broker_managed then 1 else 0;
        sid = sid;
        tag = windows.hmac key (record_header sid broker_managed ++ sid);
      })
        ≡ success stored_as
  unfolding check_record
  check_record-written key =
      let tag = windows.hmac key (record_header sid broker_managed ++ sid) in
      rw (quiet.tags, (constant_time_equal_iff tag tag refl).1 refl)
        (elim broker_managed
          as (λ b.
            success (record {
              account_sid = sid;
              broker_managed = record_version == record_version && (if b then 1 else 0) % 2 == 1;
            })
            ≡ success (record { account_sid = sid; broker_managed = b })) [
              | true ↦ refl
              | false ↦ refl
            ])

  load_file-written :
      (key : Bytes) (directory : Directory)
      → windows.is_valid_sid sid ≡ true
      → 0 < length sid
      → load_or_create_machine_key later directory.key ≡ success (key, directory.key)
      → load_file windows later directory (file_with key) ≡ success (stored_as, directory)
  unfolding load_file
  load_file-written key directory valid given h =
      let tag = windows.hmac key (record_header sid broker_managed ++ sid) in
      rw
        (
          read_record-written windows sid tag broker_managed valid same given short
              (law.length-hmac key _),
          h,
          check_record-written key,
        )
        refl

  -- The file of an account, found again.
  load-written :
      (name : Wide) (key : Bytes) (directory : Directory)
      → is_valid_broker_account_name name ≡ true
      → windows.is_valid_sid sid ≡ true
      → 0 < length sid
      → directory.files name ≡ some (file_with key)
      → load_or_create_machine_key later directory.key ≡ success (key, directory.key)
      → load windows later name directory ≡ success (stored_as, directory)
  unfolding load load_found
  load-written name key directory named valid given file h =
      rw (named, file, quiet.opens) (load_file-written key directory valid given h)

  module _ (calls : FileCalls) (long : length calls.new_key ≡ 32) (name : Wide)
      (named : is_valid_broker_account_name name ≡ true) (valid : windows.is_valid_sid sid ≡ true)
      (given : 0 < length sid) where
    store_with_key-load :
        (key : Bytes) (directory : Directory)
        → load_or_create_machine_key later directory.key ≡ success (key, directory.key)
        → (store_with_key windows calls name sid broker_managed key directory).0 ≡ 0
        → load windows later name
            ((store_with_key windows calls name sid broker_managed key directory).1)
          ≡ success
              (stored_as, (store_with_key windows calls name sid broker_managed key directory).1)
    unfolding store_with_key
    store_with_key-load key directory h done =
        let fine : first_error
              (calls.tag_error ∷ calls.create_error ∷ calls.write_error ∷ calls.move_error ∷ [])
            ≡ 0 =
          ground arith in
        rw fine (load-written name key _ named valid given (rw (text_eq_refl name) refl) h)

    store_keyed-load :
        (directory : Directory) (keyed : Result (Bytes × Option Bytes))
        → load_or_create_machine_key calls directory.key ≡ keyed
        → (store_keyed windows calls name sid broker_managed directory keyed).0 ≡ 0
        → load windows later name
            ((store_keyed windows calls name sid broker_managed directory keyed).1)
          ≡ success
              (stored_as, (store_keyed windows calls name sid broker_managed directory keyed).1)
    unfolding store_keyed
    store_keyed-load directory (failure error) h done =
        let fine : (error == 0) ≡ false =
          subst (λ r. fails_with_0 r ≡ false) h (key-fails_with_0 calls directory.key) in
        ground arith
    store_keyed-load directory (success (key, file)) h done =
        store_with_key-load key (record directory { key = file })
          (key_again calls later directory.key file key h long quiet.opens_key) done

  -- Where the tags of the HMAC have 32 bytes, the SID has the length that Windows reports of it,
  -- at most 68 bytes, a new key has 32 bytes and the calls of Load succeed: after a Store that
  -- succeeds, Load gives the SID and the flag back and changes nothing.
  pub load-store :
      (calls : FileCalls) (name : Wide) (directory : Directory)
      → length calls.new_key ≡ 32
      → (store windows calls name sid broker_managed directory).0 ≡ 0
      → load windows later name ((store windows calls name sid broker_managed directory).1)
        ≡ success (stored_as, (store windows calls name sid broker_managed directory).1)
  unfolding store
  load-store calls name directory long done =
      let named : is_valid_broker_account_name name ≡ true = ground arith in
      let valid : windows.is_valid_sid sid ≡ true = ground arith in
      let given : is_empty sid ≡ false = ground arith in
      rw (named, given, valid)
        (store_keyed-load calls long name named valid (given_length sid given) directory
          (load_or_create_machine_key calls directory.key) refl (ground arith))
