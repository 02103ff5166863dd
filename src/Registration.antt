-- ===== src/Registration.antt =====
-- src/broker/BrokerRegistration.cpp: which accounts the broker creates, takes over, resets, forgets,
-- deletes and lists, over the enrollment store as Enrollments models it. The accounts of Windows
-- (src/broker/BrokerAccountProvisioner.h, Win32 calls) are an interface over a state of their own.
pub mod Managed
use launch_as.Base.{
  ℕ, Bool, true, false, not, ◌&&◌, ◌||◌, List, [], ◌∷◌, ◌==◌, if◌then◌else◌, Wide, is_empty,
  text_eq,
}
use launch_as.Accounts.{
  Sid, EnrollmentRecord, is_valid_broker_account_name, error_file_not_found, error_access_denied,
  error_invalid_parameter, error_already_exists, error_not_found, error_none_mapped,
  error_user_not_found, error_user_exists,
}
use launch_as.Enrollments.{
  Result, success, failure, Windows, Directory, FileCalls, load, directory_of_load, store, remove,
}

-- The functions on Windows accounts, and the source of passwords: the Win32 error first.
pub record AccountProvisioner (S : Type 0) : Type 0 where
  pub generate_password : S → ℕ × Wide
  pub account_sid : Wide → S → ℕ × Sid
  pub create_account : Wide → Wide → S → ℕ × S
  pub take_over_account : Wide → Wide → Bool → S → ℕ × S
  pub set_password : Wide → Wide → S → ℕ × S
  pub delete_account : Wide → S → ℕ × S

-- The accounts of Windows and the directory of the enrollments.
pub record Machine (S : Type 0) : Type 0 where
  pub accounts : S
  pub directory : Directory

-- What Load reports, and the machine afterwards: it may have written the file of the key.
pub record Loading (S : Type 0) : Type 0 where
  pub error : ℕ
  pub enrollment : EnrollmentRecord
  pub machine : Machine S

abbrev pub no_enrollment : EnrollmentRecord
no_enrollment = record { account_sid = []; broker_managed = false }

abbrev pub loading :
    {S : Type 0} → Directory → Machine S → Result (EnrollmentRecord × Directory) → Loading S
loading behind machine (success (enrollment, directory)) = record {
  error = 0;
  enrollment = enrollment;
  machine = record machine { directory = directory };
}
loading behind machine (failure error) = record {
  error = error;
  enrollment = no_enrollment;
  machine = record machine { directory = behind };
}

abbrev pub on_directory : {S : Type 0} → Machine S → ℕ × Directory → ℕ × Machine S
on_directory machine (error, directory) = (error, record machine { directory = directory })

abbrev pub on_accounts : {S : Type 0} → Machine S → ℕ × S → ℕ × Machine S
on_accounts machine (error, accounts) = (error, record machine { accounts = accounts })

unfoldable pub load_enrollment : {S : Type 0} → Windows → FileCalls → Wide → Machine S → Loading S
load_enrollment windows reading name machine =
    loading (directory_of_load windows reading name machine.directory) machine
      (load windows reading name machine.directory)

-- The file calls of an operation: those of its Load, and those of its Store or Remove.
module _ {S : Type 0} (windows : Windows) (provisioner : AccountProvisioner S)
    (reading writing : FileCalls) where
  -- What Create and TakeOver end with: the SID of the account is enrolled.
  unfoldable pub enroll : Wide → Machine S → ℕ × Machine S
  enroll name m =
      let sid = provisioner.account_sid name m.accounts in
      if not (sid.0 == 0)
      then (sid.0, m)
      else on_directory m (store windows writing name sid.1 true m.directory)

  unfoldable pub create_with_password : Wide → Machine S → ℕ × Machine S
  unfolding enroll
  create_with_password name m =
      let password = provisioner.generate_password m.accounts in
      let created = on_accounts m (provisioner.create_account name password.1 m.accounts) in
      if not (password.0 == 0)
      then (password.0, m)
      else if not (created.0 == 0)
      then created
      else enroll name (created.1)

  unfoldable pub create : Wide → Machine S → ℕ × Machine S
  unfolding create_with_password load_enrollment is_valid_broker_account_name
  create name m =
      let existing = load_enrollment windows reading name m in
      if not (is_valid_broker_account_name name)
      then (error_invalid_parameter, m)
      else if existing.error == 0
      then (error_already_exists, existing.machine)
      else if not (existing.error == error_file_not_found)
      then (existing.error, existing.machine)
      else create_with_password name (existing.machine)

  -- The error that keeps an enrolled account from being taken over; 0 if there is none.
  unfoldable pub takeover_error : Wide → EnrollmentRecord → Bool → S → ℕ
  takeover_error name existing allow_enable accounts =
      let sid = provisioner.account_sid name accounts in
      let is_missing = sid.0 == error_user_not_found || sid.0 == error_none_mapped in
      if not (sid.0 == 0) && (not is_missing || not allow_enable)
      then sid.0
      else if sid.0 == 0 && not (text_eq existing.account_sid sid.1) && not allow_enable
      then error_access_denied
      else 0

  -- The account is made where it is missing and may be.
  unfoldable pub take_over_or_create : Wide → Wide → Bool → S → ℕ × S
  take_over_or_create name password allow_enable accounts =
      let taken = provisioner.take_over_account name password allow_enable accounts in
      let created = provisioner.create_account name password (taken.1) in
      let again = provisioner.take_over_account name password true (created.1) in
      if taken.0 == error_user_not_found && allow_enable
      then if created.0 == error_user_exists then again else created
      else taken

  unfoldable pub take_over_with_password : Wide → Bool → Machine S → ℕ × Machine S
  unfolding enroll take_over_or_create
  take_over_with_password name allow_enable m =
      let password = provisioner.generate_password m.accounts in
      let taken = on_accounts m (take_over_or_create name password.1 allow_enable m.accounts) in
      if not (password.0 == 0)
      then (password.0, m)
      else if not (taken.0 == 0)
      then taken
      else enroll name (taken.1)

  unfoldable pub take_over : Wide → Bool → Machine S → ℕ × Machine S
  unfolding take_over_with_password takeover_error load_enrollment is_valid_broker_account_name
  take_over name allow_enable m =
      let existing = load_enrollment windows reading name m in
      let refused =
        takeover_error name existing.enrollment allow_enable (existing.machine).accounts in
      if not (is_valid_broker_account_name name)
      then (error_invalid_parameter, m)
      else if not (existing.error == 0) && not (existing.error == error_file_not_found)
      then (existing.error, existing.machine)
      else if existing.error == 0 && (existing.enrollment).broker_managed && not (refused == 0)
      then (refused, existing.machine)
      else take_over_with_password name allow_enable (existing.machine)

  unfoldable pub reset_password : Wide → Wide → Machine S → ℕ × Machine S
  unfolding load_enrollment is_valid_broker_account_name
  reset_password name password m =
      let existing = load_enrollment windows reading name m in
      let sid = provisioner.account_sid name (existing.machine).accounts in
      if not (is_valid_broker_account_name name) || is_empty password
      then (error_invalid_parameter, m)
      else if not (existing.error == 0)
      then (existing.error, existing.machine)
      else if not (existing.enrollment).broker_managed
      then (error_access_denied, existing.machine)
      else if not (sid.0 == 0)
      then (sid.0, existing.machine)
      else if not (text_eq (existing.enrollment).account_sid sid.1)
      then (error_access_denied, existing.machine)
      else on_accounts existing.machine
          (provisioner.set_password name password (existing.machine).accounts)

  abbrev pub remove_enrollment : Wide → Machine S → ℕ × Machine S
  remove_enrollment name m = on_directory m (remove writing name m.directory)

  unfoldable pub forget : Wide → Machine S → ℕ × Machine S
  unfolding is_valid_broker_account_name
  forget name m =
      let removed = remove_enrollment name m in
      if not (is_valid_broker_account_name name)
      then (error_invalid_parameter, m)
      else if removed.0 == error_file_not_found
      then (error_not_found, removed.1)
      else removed

  unfoldable pub delete : Wide → Machine S → ℕ × Machine S
  unfolding load_enrollment is_valid_broker_account_name
  delete name m =
      let existing = load_enrollment windows reading name m in
      let sid = provisioner.account_sid name (existing.machine).accounts in
      let deleted =
        on_accounts existing.machine
          (provisioner.delete_account name (existing.machine).accounts) in
      if not (is_valid_broker_account_name name)
      then (error_invalid_parameter, m)
      else if not (existing.error == 0)
      then (
        if existing.error == error_file_not_found then error_not_found else existing.error,
        existing.machine,
      )
      else if not (existing.enrollment).broker_managed
      then (error_access_denied, existing.machine)
      else if sid.0 == error_none_mapped
      then remove_enrollment name (existing.machine)
      else if not (sid.0 == 0)
      then (sid.0, existing.machine)
      else if not (text_eq (existing.enrollment).account_sid sid.1)
      then (error_access_denied, existing.machine)
      else if deleted.0 == 0
      then remove_enrollment name (deleted.1)
      else deleted

  -- The accounts that List keeps.
  unfoldable pub is_listed : Loading S → Wide → Bool
  is_listed existing name =
      let sid = provisioner.account_sid name (existing.machine).accounts in
      existing.error == 0
      && (existing.enrollment).broker_managed
      && sid.0 == 0
      && text_eq (existing.enrollment).account_sid sid.1

  unfoldable pub listed : List Wide → Machine S → List Wide × Machine S
  unfolding is_listed load_enrollment
  listed [] m = ([], m)
  listed (name ∷ names) m =
      let existing = load_enrollment windows reading name m in
      let rest = listed names (existing.machine) in
      (if is_listed existing name then name ∷ rest.0 else rest.0, rest.1)

  -- The error and the names that EnrollmentStore::List finds in the directory are an argument.
  unfoldable pub list : ℕ × List Wide → Machine S → ℕ × (List Wide × Machine S)
  unfolding listed
  list names m = if not (names.0 == 0) then (names.0, (names.1, m)) else (0, listed names.1 m)
