-- ===== src/Registration/Managed.antt =====
-- src/broker/BrokerRegistration.cpp: the accounts that the broker manages, and what it does to the
-- others.
use launch_as.Base.{
  ◌≤◌, ◌≡◌, refl, Bool, true, false, ◌&&◌, arith, ◌==◌, Wide, length, text_eq, text_eq_refl,
}
use launch_as.Accounts.{Sid, EnrollmentRecord}
use launch_as.Enrollments.{
  Result, success, failure, Windows, Directory, FileCalls, security_max_sid_size, store,
}
use launch_as.Enrollments.Stored.{IsWindows, IsQuiet, load-store}
use launch_as.Registration.{
  AccountProvisioner, Machine, loading, load_enrollment, enroll, create_with_password, create,
  take_over, take_over_with_password, take_over_or_create, reset_password, delete,
}

-- The account has an enrollment that says that the broker manages it, for the SID that it has.
abbrev pub manages :
    {S : Type 0} → Windows → AccountProvisioner S → FileCalls → Machine S → Wide → Bool
manages windows provisioner reading m name =
    let existing = load_enrollment windows reading name m in
    let sid = provisioner.account_sid name (existing.machine).accounts in
    existing.error == 0
    && (existing.enrollment).broker_managed
    && sid.0 == 0
    && text_eq (existing.enrollment).account_sid sid.1

-- A SID that Windows gives for an account is complete.
pub record HasSids {S : Type 0} (windows : Windows) (provisioner : AccountProvisioner S)
    : Type 0 where
  pub whole :
      (name : Wide) (accounts : S)
      → (provisioner.account_sid name accounts).0 ≡ 0
      → windows.length_sid ((provisioner.account_sid name accounts).1)
        ≡ length ((provisioner.account_sid name accounts).1)
  pub short :
      (name : Wide) (accounts : S)
      → (provisioner.account_sid name accounts).0 ≡ 0
      → length ((provisioner.account_sid name accounts).1) ≤ security_max_sid_size

loading-accounts :
    {S : Type 0} (behind : Directory) (m : Machine S) (r : Result (EnrollmentRecord × Directory))
    → ((loading behind m r).machine).accounts ≡ m.accounts
loading-accounts behind m (success (enrollment, directory)) = refl
loading-accounts behind m (failure error) = refl

load_enrollment-accounts :
    {S : Type 0} (windows : Windows) (reading : FileCalls) (name : Wide) (m : Machine S)
    → ((load_enrollment windows reading name m).machine).accounts ≡ m.accounts
unfolding load_enrollment
load_enrollment-accounts windows reading name m = loading-accounts _ m _

module _ {S : Type 0} (windows : Windows) (provisioner : AccountProvisioner S)
    (reading writing : FileCalls) where
  -- Delete changes none of the accounts unless the given one has an enrollment that Load accepts,
  -- that is managed by the broker and that has the SID that the account has.
  pub delete-unmanaged :
      (name : Wide) (m : Machine S)
      → manages windows provisioner reading m name ≡ false
      → ((delete windows provisioner reading writing name m).1).accounts ≡ m.accounts
  unfolding delete
  delete-unmanaged name m h = ground (arith, load_enrollment-accounts windows reading name m)

  -- ResetPassword fails and changes no account where the given one has no enrollment that Load
  -- accepts, that is managed by the broker and that has the SID that the account has.
  pub reset_password-unmanaged :
      (name password : Wide) (m : Machine S)
      → manages windows provisioner reading m name ≡ false
      → (((reset_password windows provisioner reading writing name password m).1).accounts
          ≡ m.accounts)
        × (((reset_password windows provisioner reading writing name password m).0 == 0) ≡ false)
  unfolding reset_password
  reset_password-unmanaged name password m h =
      let same = load_enrollment-accounts windows reading name m in
      (ground (arith, same), ground arith)

  module _ (law : IsWindows windows) (sids : HasSids windows provisioner) (later : FileCalls)
      (quiet : IsQuiet later) (long : length writing.new_key ≡ 32) where
    stored_is_loaded :
        (name : Wide) (sid : Sid) (m : Machine S)
        → windows.length_sid sid ≡ length sid
        → length sid ≤ security_max_sid_size
        → (store windows writing name sid true m.directory).0 ≡ 0
        → load_enrollment windows later name
            (record m { directory = (store windows writing name sid true m.directory).1 })
          ≡ record {
            error = 0;
            enrollment = record { account_sid = sid; broker_managed = true };
            machine = record m { directory = (store windows writing name sid true m.directory).1 };
          }
    unfolding load_enrollment
    stored_is_loaded name sid m whole short h =
        rw (load-store windows law sid true whole short later quiet writing name m.directory long h)
          refl

    enroll-manages :
        (name : Wide) (m : Machine S)
        → (enroll windows provisioner reading writing name m).0 ≡ 0
        → manages windows provisioner later
            ((enroll windows provisioner reading writing name m).1)
            name
          ≡ true
    unfolding enroll
    enroll-manages name m h =
        let sid = provisioner.account_sid name m.accounts in
        let found : sid.0 ≡ 0 = ground arith in
        let stored : (store windows writing name sid.1 true m.directory).0 ≡ 0 = ground arith in
        rw
          (
            found,
            stored_is_loaded name sid.1 m (sids.whole name m.accounts found)
                (sids.short name m.accounts found) stored,
            found,
          )
          (text_eq_refl sid.1)

    create_with_password-manages :
        (name : Wide) (m : Machine S)
        → (create_with_password windows provisioner reading writing name m).0 ≡ 0
        → manages windows provisioner later
            ((create_with_password windows provisioner reading writing name m).1)
            name
          ≡ true
    unfolding create_with_password
    create_with_password-manages name m h =
        let password = (provisioner.generate_password m.accounts).1 in
        ground (
          arith,
          enroll-manages name
              (record m { accounts = (provisioner.create_account name password m.accounts).1 }),
        )

    -- Where the tags of the HMAC have 32 bytes, the SIDs of accounts are complete and at most 68
    -- bytes long, a new key has 32 bytes and the calls of the later Load succeed: after a Create
    -- that succeeds, the account is one that the broker manages, with the SID that it has.
    pub create-manages :
        (name : Wide) (m : Machine S)
        → (create windows provisioner reading writing name m).0 ≡ 0
        → manages windows provisioner later
            ((create windows provisioner reading writing name m).1)
            name
          ≡ true
    unfolding create
    create-manages name m h = ground (
      arith,
      create_with_password-manages name ((load_enrollment windows reading name m).machine),
    )

    take_over_with_password-manages :
        (name : Wide) (allow_enable : Bool) (m : Machine S)
        → (take_over_with_password windows provisioner reading writing name allow_enable m).0 ≡ 0
        → manages windows provisioner later
            ((take_over_with_password windows provisioner reading writing name allow_enable m).1)
            name
          ≡ true
    unfolding take_over_with_password
    take_over_with_password-manages name allow_enable m h =
        let password = (provisioner.generate_password m.accounts).1 in
        ground (
          arith,
          enroll-manages name (record m {
            accounts =
                (take_over_or_create windows provisioner reading writing name password allow_enable
                  m.accounts).1;
          }),
        )

    -- Where the tags of the HMAC have 32 bytes, the SIDs of accounts are complete and at most 68
    -- bytes long, a new key has 32 bytes and the calls of the later Load succeed: after a TakeOver
    -- that succeeds, the account is one that the broker manages, with the SID that it has.
    pub take_over-manages :
        (name : Wide) (allow_enable : Bool) (m : Machine S)
        → (take_over windows provisioner reading writing name allow_enable m).0 ≡ 0
        → manages windows provisioner later
            ((take_over windows provisioner reading writing name allow_enable m).1)
            name
          ≡ true
    unfolding take_over
    take_over-manages name allow_enable m h = ground (
      arith,
      take_over_with_password-manages name allow_enable
          ((load_enrollment windows reading name m).machine),
    )
