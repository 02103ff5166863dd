-- ===== src/Enrollments.antt =====
-- src/broker/BrokerEnrollmentStore.cpp: the records of the enrollment store, as the bytes of their
-- files, with Store, Load and Remove. The HMAC and the checks of a SID, which Windows computes, are
-- arguments, and so are the errors of the calls on files.
pub mod Codec
pub mod Tags
pub mod Stored
pub mod Authentic
pub mod Loaded
use launch_as.Base.{
  first_error, ℕ, zero, suc, ◌+◌, ◌-◌, ◌*◌, ◌/◌, ◌%◌, ◌^◌, ◌≤◌, ◌<◌, bit_or, String, ◌≡◌, refl, sym,
  ap, ◌∙◌, subst, ◌≢◌, ◌↔◌, ◌⊎◌, inl, inr, Bool, true, false, not, ◌&&◌, ◌||◌, Option, none, some,
  List, [], ◌∷◌, ◌++◌, map, append_assoc, append-nil, arith, ltb, leb, ◌==◌, within, if◌then◌else◌,
  ==_iff, Bool-cases, Option-cases, Bytes, Wide, codes, length, is_empty, all_of, any_of, filter,
  drop, All, length-append, text_eq, mem, starts_with, text_eq_refl, text_eq_sound, Outcome, ok,
  rejected, stuck, ◌>>=◌, ◌>>◌, guard, or_reject,
}
use Prim.Native.Nat.{bit_xor}
use launch_as.Accounts.{
  Sid, EnrollmentRecord, is_valid_broker_account_name, error_file_not_found, error_access_denied,
  error_invalid_parameter, error_not_found,
}

abbrev pub record_magic : ℕ
record_magic = 0x4553414C

abbrev pub legacy_record_version : ℕ
legacy_record_version = 2

abbrev pub record_version : ℕ
record_version = 3

abbrev pub security_max_sid_size : ℕ
security_max_sid_size = 68

abbrev pub record_tag_bytes : ℕ
record_tag_bytes = 32

abbrev pub error_invalid_data : ℕ
error_invalid_data = 13

abbrev pub error_handle_eof : ℕ
error_handle_eof = 38

abbrev pub error_invalid_sid : ℕ
error_invalid_sid = 1337

pub data Result {ℓ} (A : Type ℓ) : Type ℓ where
  success : A → Result A
  failure : ℕ → Result A

infixl 5 ◌then◌
abbrev pub ◌then◌ {ℓ κ} : {A : Type ℓ} {B : Type κ} → Result A → (A → Result B) → Result B
success a then f = f a
failure error then f = failure error

abbrev pub require {ℓ} : {A : Type ℓ} → Bool → ℕ → Result A → Result A
require true error next = next
require false error next = failure error

-- A DWORD in the order of its bytes in memory.
abbrev pub dword_bytes : ℕ → Bytes
dword_bytes n = n % 256 ∷ n / 256 % 256 ∷ n / 65536 % 256 ∷ n / 16777216 % 256 ∷ []

abbrev pub dword : Bytes → ℕ
dword (a ∷ b ∷ c ∷ d ∷ rest) = a + b * 256 + c * 65536 + d * 16777216
dword _ = 0

-- ReadExactly: the bytes that are read, and the rest of the file.
unfoldable pub read_exactly : ℕ → Bytes → Result (Bytes × Bytes)
read_exactly zero file = success ([], file)
read_exactly (suc n) [] = failure error_handle_eof
read_exactly (suc n) (b ∷ file) =
    read_exactly n file then λ (front, rest). success (b ∷ front, rest)

-- What Load reads of a file: the header that is signed, the flags, the SID and the tag.
pub record StoredRecord : Type 0 where
  pub signed_header : Bytes
  pub version : ℕ
  pub flags : ℕ
  pub sid : Sid
  pub tag : Bytes

abbrev pub is_prefix : Bytes → Bool
is_prefix prefix =
    dword prefix == record_magic
    && (dword (drop 4 prefix) == legacy_record_version || dword (drop 4 prefix) == record_version)
    && not (dword (drop 8 prefix) == 0)
    && leb (dword (drop 8 prefix)) security_max_sid_size

-- The flags of a version 3 record, with the rest of the file; no other flag than the first is known.
unfoldable pub read_flags : ℕ → Bytes → Result (Bytes × Bytes)
unfolding read_exactly
read_flags version file =
    let read = read_exactly 4 file then λ (flags, rest).
    require (dword flags / 2 == 0) error_invalid_data (success (flags, rest)) in
    if version == record_version then read else success ([], file)

pub record Windows : Type 0 where
  pub is_valid_sid : Sid → Bool
  pub length_sid : Sid → ℕ
  pub hmac : Bytes → Bytes → Bytes

module _ (windows : Windows) where
  unfoldable pub read_body : Bytes → Bytes → Bytes → Result StoredRecord
  unfolding read_exactly
  read_body prefix flags file = read_exactly (dword (drop 8 prefix)) file then λ (sid, behind).
      read_exactly record_tag_bytes behind then λ (tag, rest).
      require (windows.is_valid_sid sid && windows.length_sid sid == length sid) error_invalid_sid (
        success (record {
          signed_header = prefix ++ flags;
          version = dword (drop 4 prefix);
          flags = dword flags;
          sid = sid;
          tag = tag;
        }))

  unfoldable pub read_record : Bytes → Result StoredRecord
  unfolding read_flags read_body
  read_record file = read_exactly 12 file then λ (prefix, behind).
      require (is_prefix prefix) error_invalid_data (
        read_flags (dword (drop 4 prefix)) behind then λ (flags, rest). read_body prefix flags rest)

-- The difference of a pair of bytes is a byte.
difference_of : ℕ → Bytes → Bytes → ℕ
difference_of difference (x ∷ a) (y ∷ b) = difference_of (bit_or difference (bit_xor x y)) a b
difference_of difference _ _ = difference

unfoldable pub constant_time_equal : Bytes → Bytes → Bool
unfolding difference_of
constant_time_equal a b = difference_of 0 a b == 0

-- A record of the current version, as Store writes it.
abbrev pub record_header : Sid → Bool → Bytes
record_header sid broker_managed =
    dword_bytes record_magic
    ++ (dword_bytes record_version
        ++ (dword_bytes (length sid) ++ dword_bytes (if broker_managed then 1 else 0)))

-- The directory of the store: the file of each account, and that of the key.
pub record Directory : Type 0 where
  pub files : Wide → Option Bytes
  pub key : Option Bytes

-- What the calls of an operation report, 0 for success.
pub record FileCalls : Type 0 where
  pub open_error : ℕ
  pub key_open_error : ℕ
  pub generate_error : ℕ
  pub new_key : Bytes
  pub key_write_error : ℕ
  pub tag_error : ℕ
  pub create_error : ℕ
  pub write_error : ℕ
  pub move_error : ℕ
  pub delete_error : ℕ

-- LoadOrCreateMachineKey, with the file of the key afterwards.
unfoldable pub load_or_create_machine_key : FileCalls → Option Bytes → Result (Bytes × Option Bytes)
unfolding read_exactly
load_or_create_machine_key calls (some file) =
    require (calls.key_open_error == 0) calls.key_open_error
      (read_exactly 32 file then λ (key, rest). success (key, some file))
load_or_create_machine_key calls none = require (calls.generate_error == 0) calls.generate_error (
    require (calls.key_write_error == 0) calls.key_write_error
      (success (calls.new_key, some (calls.new_key))))

abbrev pub replace_file : Wide → Option Bytes → (Wide → Option Bytes) → Wide → Option Bytes
replace_file name file files other = if text_eq other name then file else files other

-- The part of Store behind the key.
unfoldable pub store_with_key :
    Windows → FileCalls → Wide → Sid → Bool → Bytes → Directory → ℕ × Directory
store_with_key windows calls name sid broker_managed key directory =
    let header = record_header sid broker_managed in
    let error =
      first_error
        (calls.tag_error ∷ calls.create_error ∷ calls.write_error ∷ calls.move_error ∷ []) in
    if error == 0
    then (
      0,
      record directory {
        files =
            replace_file name (some (header ++ (sid ++ windows.hmac key (header ++ sid))))
              (directory.files);
      },
    )
    else (error, directory)

unfoldable pub store_keyed :
    Windows
    → FileCalls
    → Wide
    → Sid
    → Bool
    → Directory
    → Result (Bytes × Option Bytes)
    → ℕ × Directory
unfolding store_with_key
store_keyed windows calls name sid broker_managed directory (failure error) = (error, directory)
store_keyed windows calls name sid broker_managed directory (success (key, file)) =
    store_with_key windows calls name sid broker_managed key (record directory { key = file })

unfoldable pub store : Windows → FileCalls → Wide → Sid → Bool → Directory → ℕ × Directory
unfolding store_keyed load_or_create_machine_key is_valid_broker_account_name
store windows calls name sid broker_managed directory =
    if not (is_valid_broker_account_name name) || is_empty sid || not (windows.is_valid_sid sid)
    then (error_invalid_parameter, directory)
    else store_keyed windows calls name sid broker_managed directory
        (load_or_create_machine_key calls directory.key)

-- The part of Load behind the key: the tag, and the record.
unfoldable pub check_record : Windows → FileCalls → Bytes → StoredRecord → Result EnrollmentRecord
unfolding constant_time_equal
check_record windows calls key stored = require (calls.tag_error == 0) calls.tag_error (
    require (constant_time_equal stored.tag (windows.hmac key (stored.signed_header ++ stored.sid)))
      error_access_denied
      (success (record {
        account_sid = stored.sid;
        broker_managed = stored.version == record_version && stored.flags % 2 == 1;
      })))

unfoldable pub load_file :
    Windows → FileCalls → Directory → Bytes → Result (EnrollmentRecord × Directory)
unfolding read_record load_or_create_machine_key check_record
load_file windows calls directory file = read_record windows file then λ stored.
    load_or_create_machine_key calls directory.key then λ (key, file_of_key).
    check_record windows calls key stored then λ loaded.
    success (loaded, record directory { key = file_of_key })

unfoldable pub load_found :
    Windows → FileCalls → Directory → Option Bytes → Result (EnrollmentRecord × Directory)
unfolding load_file
load_found windows calls directory none = failure error_file_not_found
load_found windows calls directory (some file) =
    require (calls.open_error == 0) calls.open_error (load_file windows calls directory file)

unfoldable pub load : Windows → FileCalls → Wide → Directory → Result (EnrollmentRecord × Directory)
unfolding load_found is_valid_broker_account_name
load windows calls name directory =
    require (is_valid_broker_account_name name) error_invalid_parameter
      (load_found windows calls directory (directory.files name))

-- The directory when Load has ended, also where it fails: a key that was made stays.
unfoldable pub directory_of_load : Windows → FileCalls → Wide → Directory → Directory
unfolding read_record load_or_create_machine_key is_valid_broker_account_name
directory_of_load windows calls name directory =
    elim (require (is_valid_broker_account_name name) error_invalid_parameter
        (elim (directory.files name) [
          | none ↦ failure error_file_not_found
          | some file ↦ require (calls.open_error == 0) calls.open_error (read_record windows file)
        ])
      then λ stored. load_or_create_machine_key calls directory.key) [
        | success (key, file) ↦ record directory { key = file }
        | failure error ↦ directory
      ]

unfoldable pub remove : FileCalls → Wide → Directory → ℕ × Directory
unfolding is_valid_broker_account_name
remove calls name directory =
    if not (is_valid_broker_account_name name)
    then (error_invalid_parameter, directory)
    else elim (directory.files name) [
      | none ↦ (error_not_found, directory)
      | some file ↦
          if calls.delete_error == 0
          then (0, record directory { files = replace_file name none (directory.files) })
          else (calls.delete_error, directory)
    ]
