-- ===== src/Tests/Enrolled.antt =====
-- A record of the enrollment store, with a check sum in place of the HMAC.
use launch_as.Base.{
  ℕ, zero, suc, ◌+◌, ◌%◌, ◌≡◌, refl, true, not, none, some, [], ◌∷◌, ◌++◌, arith, Bytes, codes,
  length, is_empty,
}
use launch_as.Accounts.{Sid, EnrollmentRecord, is_valid_broker_account_name}
use launch_as.Enrollments.{
  success, Windows, Directory, FileCalls, store, store_keyed, store_with_key, load,
  load_or_create_machine_key,
}
use launch_as.Enrollments.Stored.{IsWindows, load-store}
use launch_as.Enrollments.Loaded.{IsSigned, load-IsSigned}

abbrev zeros : ℕ → Bytes
zeros zero = []
zeros (suc n) = 0 ∷ zeros n

abbrev sum : Bytes → ℕ
sum [] = 0
sum (b ∷ bytes) = (b + sum bytes) % 256

abbrev pub windows : Windows
windows = record {
  is_valid_sid = λ sid. not (is_empty sid);
  length_sid = λ sid. length sid;
  hmac = λ key signed. sum (key ++ signed) ∷ zeros 31;
}

pub windows-IsWindows : IsWindows windows
windows-IsWindows = record { length-hmac = λ key signed. refl }

abbrev pub fine : FileCalls
fine = record {
  open_error = 0;
  key_open_error = 0;
  generate_error = 0;
  new_key = zeros 32;
  key_write_error = 0;
  tag_error = 0;
  create_error = 0;
  write_error = 0;
  move_error = 0;
  delete_error = 0;
}

abbrev pub agent_sid : Sid
agent_sid = 1 ∷ 1 ∷ 0 ∷ 0 ∷ 0 ∷ 0 ∷ 0 ∷ 5 ∷ 18 ∷ 0 ∷ 0 ∷ 0 ∷ []

abbrev pub nothing : Directory
nothing = record { files = λ name. none; key = none }

abbrev agent_record : EnrollmentRecord
agent_record = record { account_sid = agent_sid; broker_managed = true }

abbrev enrolled : Directory
unfolding store
enrolled = (store windows fine (codes "agent") agent_sid true nothing).1

load-store_example : load windows fine (codes "agent") enrolled ≡ success (agent_record, enrolled)
unfolding store store_keyed store_with_key load_or_create_machine_key is_valid_broker_account_name
load-store_example =
    load-store windows windows-IsWindows agent_sid true refl (omega arith) fine
      (record { opens = refl; opens_key = refl; tags = refl }) fine (codes "agent") nothing refl
      refl

load-IsSigned_example :
    (file : Bytes) × ((enrolled.files (codes "agent") ≡ some file)
      × IsSigned windows fine enrolled agent_record file)
load-IsSigned_example =
    load-IsSigned windows windows-IsWindows fine (codes "agent") enrolled enrolled agent_record
      load-store_example
