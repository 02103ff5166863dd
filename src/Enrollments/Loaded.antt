-- ===== src/Enrollments/Loaded.antt =====
-- src/broker/BrokerEnrollmentStore.cpp: what Load has checked of a file that it accepts.
use launch_as.Base.{
  ◌%◌, ◌≡◌, refl, sym, ap, ◌∙◌, subst, true, ◌&&◌, Option, none, some, ◌++◌, ◌==◌, if◌then◌else◌,
  Bytes, Wide, length, drop,
}
use launch_as.Accounts.{EnrollmentRecord, is_valid_broker_account_name}
use launch_as.Enrollments.{
  is_prefix, Result, success, ◌then◌, Windows, StoredRecord, Directory, FileCalls, record_version,
  record_tag_bytes, dword, read_record, load_or_create_machine_key, check_record, load_file,
  load_found, load, constant_time_equal,
}
use launch_as.Enrollments.Tags.{constant_time_equal_iff}
use launch_as.Enrollments.Stored.{IsWindows, require-success}
use launch_as.Enrollments.Authentic.{flags_bytes, then-success, read_record_sound}

-- A file of the store begins with the prefix, whose magic, version and length of the SID are known,
-- the flags where the version has them, the SID, and the tag that the key of the store gives them
-- all; `rest` follows, which Load does not read.
pub record IsSigned (windows : Windows) (calls : FileCalls) (directory : Directory)
    (loaded : EnrollmentRecord) (file : Bytes) : Type 0 where
  pub prefix : Bytes
  pub flags : Bytes
  pub key : Bytes
  pub key_file : Option Bytes
  pub own_key : load_or_create_machine_key calls directory.key ≡ success (key, key_file)
  pub rest : Bytes
  pub contents :
      file
      ≡ (prefix ++ flags)
        ++ (loaded.account_sid
            ++ (windows.hmac key ((prefix ++ flags) ++ loaded.account_sid) ++ rest))
  pub known : is_prefix prefix ≡ true
  pub prefix_size : length prefix ≡ 12
  pub flags_size : length flags ≡ flags_bytes (dword (drop 4 prefix))
  pub sid_size : length loaded.account_sid ≡ dword (drop 8 prefix)
  pub managed :
      loaded.broker_managed ≡ (dword (drop 4 prefix) == record_version && dword flags % 2 == 1)

module _ (windows : Windows) (law : IsWindows windows) where
  abbrev record_of : StoredRecord → EnrollmentRecord
  record_of stored = record {
    account_sid = stored.sid;
    broker_managed = stored.version == record_version && stored.flags % 2 == 1;
  }

  check_record_sound :
      (calls : FileCalls) (key : Bytes) (stored : StoredRecord) (loaded : EnrollmentRecord)
      → length stored.tag ≡ record_tag_bytes
      → check_record windows calls key stored ≡ success loaded
      → (stored.tag ≡ windows.hmac key (stored.signed_header ++ stored.sid))
        × (record_of stored ≡ loaded)
  unfolding check_record
  check_record_sound calls key stored loaded size h =
      let tag = windows.hmac key (stored.signed_header ++ stored.sid) in
      let untagged = (require-success (calls.tag_error == 0) calls.tag_error _ loaded h).1 in
      let (equal, e) =
        require-success (constant_time_equal stored.tag tag) 5 (success (record_of stored)) loaded
          untagged in
      ((constant_time_equal_iff stored.tag tag (size ∙ sym (law.length-hmac key _))).0 equal, cc)

  abbrev with_record :
      Directory → Option Bytes → EnrollmentRecord → Result (EnrollmentRecord × Directory)
  with_record directory key loaded = success (loaded, record directory { key = key })

  abbrev with_key :
      FileCalls
      → Directory
      → StoredRecord
      → Bytes × Option Bytes
      → Result (EnrollmentRecord × Directory)
  with_key calls directory stored (key, file_of_key) =
      check_record windows calls key stored then with_record directory file_of_key

  abbrev with_stored : FileCalls → Directory → StoredRecord → Result (EnrollmentRecord × Directory)
  with_stored calls directory stored =
      load_or_create_machine_key calls directory.key then with_key calls directory stored

  load_file-IsSigned :
      (calls : FileCalls) (directory after : Directory) (file : Bytes) (loaded : EnrollmentRecord)
      → load_file windows calls directory file ≡ success (loaded, after)
      → IsSigned windows calls directory loaded file
  unfolding load_file
  load_file-IsSigned calls directory after file loaded h =
      let (stored, (first, second)) =
        then-success (read_record windows file) (with_stored calls directory) (loaded, after) h in
      let ((key, file_of_key), (third, fourth)) =
        then-success (load_or_create_machine_key calls directory.key)
          (with_key calls directory stored) (loaded, after) second in
      let (checked, (fifth, sixth)) =
        then-success (check_record windows calls key stored) (with_record directory file_of_key)
          (loaded, after) fourth in
      let read = read_record_sound windows file stored first in
      let (tagged, same) = check_record_sound calls key stored checked (read.tag_size) fifth in
      let e : checked ≡ loaded = cc in
      let tag_of : Bytes → Bytes = λ header. windows.hmac key (header ++ stored.sid) in
      subst (λ r. IsSigned windows calls directory r file) (same ∙ e)
        (record {
          prefix = read.prefix;
          flags = read.flags;
          key = key;
          key_file = file_of_key;
          own_key = third;
          rest = read.rest;
          contents =
              read.contents
              ∙ (ap (λ tag. stored.signed_header ++ (stored.sid ++ (tag ++ read.rest))) tagged
                  ∙ ap (λ header. header ++ (stored.sid ++ (tag_of header ++ read.rest)))
                      (read.header));
          known = read.known;
          prefix_size = read.prefix_size;
          flags_size = read.flags_size;
          sid_size = read.sid_size;
          managed =
              ap (λ v. v == record_version && stored.flags % 2 == 1) (read.version_read)
              ∙ ap (λ f. dword (drop 4 read.prefix) == record_version && f % 2 == 1)
                  (read.flags_read);
        })

  load_found-IsSigned :
      (calls : FileCalls) (directory after : Directory) (found : Option Bytes)
      (loaded : EnrollmentRecord)
      → load_found windows calls directory found ≡ success (loaded, after)
      → (file : Bytes) × ((found ≡ some file) × IsSigned windows calls directory loaded file)
  unfolding load_found
  load_found-IsSigned calls directory after none loaded h = cc
  load_found-IsSigned calls directory after (some file) loaded h = (
    file,
    (
      refl,
      load_file-IsSigned calls directory after file loaded
          ((require-success (calls.open_error == 0) calls.open_error _ (loaded, after) h).1),
    ),
  )

  -- Where the tags of the HMAC have 32 bytes: a record that Load accepts stands in a file that
  -- begins with a prefix of twelve bytes, whose magic and version are known, the flags where the
  -- version has them, the SID of the record, as long as the prefix says, and the tag of these
  -- under the key of the store; anything may follow. Its account is managed by the broker exactly
  -- if the version is the current one and the flags say so.
  pub load-IsSigned :
      (calls : FileCalls) (name : Wide) (directory after : Directory) (loaded : EnrollmentRecord)
      → load windows calls name directory ≡ success (loaded, after)
      → (file : Bytes) × ((directory.files name ≡ some file)
          × IsSigned windows calls directory loaded file)
  unfolding load
  load-IsSigned calls name directory after loaded h =
      load_found-IsSigned calls directory after (directory.files name) loaded
        ((require-success (is_valid_broker_account_name name) 87 _ (loaded, after) h).1)
