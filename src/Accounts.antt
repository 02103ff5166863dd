-- ===== src/Accounts.antt =====
-- src/broker/BrokerEnrollmentStore.h and src/broker/BrokerAccountProvisioner.cpp: the SIDs and the
-- names of accounts, and the Win32 errors that the operations on them share.
use launch_as.Base.{ℕ, Bool, not, ◌&&◌, leb, Bytes, Wide, codes, length, is_empty, all_of, mem}

abbrev pub Sid : Type 0
Sid = Bytes

pub record EnrollmentRecord : Type 0 where
  pub account_sid : Sid
  pub broker_managed : Bool

abbrev pub error_file_not_found : ℕ
error_file_not_found = 2

abbrev pub error_access_denied : ℕ
error_access_denied = 5

abbrev pub error_invalid_parameter : ℕ
error_invalid_parameter = 87

abbrev pub error_already_exists : ℕ
error_already_exists = 183

abbrev pub error_not_found : ℕ
error_not_found = 1168

abbrev pub error_none_mapped : ℕ
error_none_mapped = 1332

abbrev pub error_user_not_found : ℕ
error_user_not_found = 2221

abbrev pub error_user_exists : ℕ
error_user_exists = 2224

unfoldable pub is_valid_broker_account_name : Wide → Bool
is_valid_broker_account_name name =
    not (is_empty name)
    && leb (length name) 256
    && all_of (λ c. not (mem c (codes "\\/[]:;|=,+*?<>\""))) name
    && all_of (leb b' ') name
