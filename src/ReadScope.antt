-- ===== src/ReadScope.antt =====
-- src/broker/BrokerReadScope.h and BrokerReadScope.cpp: the constants, the entries of the scope and
-- the access control entries that it works on. A SID is its bytes; an access control list is its
-- entries in their order, and none where the object has a null list.
pub mod Access
pub mod Leased
pub mod Changed
pub mod Restored
pub mod Entries
pub mod Scope
pub mod Pinned
pub mod Walked
pub mod Returned
pub mod Roots
pub mod Reached
pub mod Users
pub mod Namespace
pub mod Sequences
pub mod Denied
pub mod Broadest
pub mod Blocked
pub mod Visit
use launch_as.Base.{
  ℕ, zero, suc, ◌+◌, ◌-◌, ◌*◌, ◌/◌, ◌%◌, ◌^◌, ◌≤◌, ◌<◌, bit_or, String, ◌≡◌, refl, sym, ap, ◌∙◌,
  subst, ◌≢◌, ◌↔◌, ◌⊎◌, inl, inr, Bool, true, false, not, ◌&&◌, ◌||◌, Option, none, some, List, [],
  ◌∷◌, ◌++◌, map, append_assoc, append-nil, arith, ltb, leb, ◌==◌, within, if◌then◌else◌, ==_iff,
  Bool-cases, Option-cases, Bytes, Wide, codes, length, is_empty, all_of, any_of, filter, drop, All,
  length-append, text_eq, mem, starts_with, text_eq_refl, text_eq_sound, Outcome, ok, rejected,
  stuck, ◌>>=◌, ◌>>◌, guard, or_reject,
}

abbrev pub file_traverse : ℕ
file_traverse = 32

abbrev pub write_dac : ℕ
write_dac = 262144

abbrev pub file_all_access : ℕ
file_all_access = 2032127

-- FILE_ADD_FILE, FILE_ADD_SUBDIRECTORY, FILE_DELETE_CHILD, DELETE, WRITE_DAC and WRITE_OWNER
abbrev pub ancestor_deny : ℕ
ancestor_deny = 2 + 4 + 64 + 65536 + write_dac + 524288

abbrev pub directory_traverse : ℕ
directory_traverse = 2

abbrev pub access_allowed : ℕ
access_allowed = 0

abbrev pub access_denied : ℕ
access_denied = 1

abbrev pub error_access_denied : ℕ
error_access_denied = 5

abbrev pub error_directory : ℕ
error_directory = 267

abbrev pub error_timeout : ℕ
error_timeout = 1460

abbrev pub error_invalid_acl : ℕ
error_invalid_acl = 1336

abbrev pub error_not_enough_quota : ℕ
error_not_enough_quota = 1816

abbrev pub Sid : Type 0
Sid = Bytes

-- An entry of an access control list: its header, its mask, and the SID behind it.
pub record Ace : Type 0 where
  pub ace_type : ℕ
  pub ace_flags : ℕ
  pub mask : ℕ
  pub sid : Sid

abbrev pub Acl : Type 0
Acl = List Ace

-- `value & bit` is not zero.
abbrev pub has_bit : ℕ → ℕ → Bool
has_bit bit value = (value / bit) % 2 == 1

unfoldable pub is_within : Wide → Wide → Bool
is_within path root = text_eq path root || starts_with (root ++ 92 ∷ []) path

-- What is open behind an entry: the object, and whether its handle may write the list.
pub record Entry : Type 0 where
  pub is_open : Bool
  pub added_mask : ℕ
  pub added_owner_deny : Bool
  pub namespace_directory : Bool
  pub added_traverse_grant : Bool
  pub writable : Bool

abbrev pub new_entry : Entry
new_entry = record {
  is_open = false;
  added_mask = 0;
  added_owner_deny = false;
  namespace_directory = false;
  added_traverse_grant = false;
  writable = false;
}

unfoldable pub is_access_ace : Sid → ℕ → Bool → Ace → Bool
is_access_ace sid mask grant ace =
    ace.ace_type == (if grant then access_allowed else access_denied)
    && ace.ace_flags == 0
    && ace.mask == mask
    && text_eq ace.sid sid
