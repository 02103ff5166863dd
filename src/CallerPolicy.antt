-- ===== src/CallerPolicy.antt =====
-- src/broker/BrokerCallerPolicy.cpp: the account that may call the broker, in a file that holds its
-- SID. The checks of a SID, which Windows computes, and what the calls on the file report are
-- arguments; a write that fails leaves what it has written. The path is the caller's and not empty.
pub mod Kept
use launch_as.Base.{
  ℕ, zero, suc, ◌+◌, ◌-◌, ◌*◌, ◌/◌, ◌%◌, ◌^◌, ◌≤◌, ◌<◌, bit_or, String, ◌≡◌, refl, sym, ap, ◌∙◌,
  subst, ◌≢◌, ◌↔◌, ◌⊎◌, inl, inr, Bool, true, false, not, ◌&&◌, ◌||◌, Option, none, some, List, [],
  ◌∷◌, ◌++◌, map, append_assoc, append-nil, arith, ltb, leb, ◌==◌, within, if◌then◌else◌, ==_iff,
  Bool-cases, Option-cases, Bytes, Wide, codes, length, is_empty, all_of, any_of, filter, drop, All,
  length-append, first_error, text_eq, mem, starts_with, text_eq_refl, text_eq_sound, Outcome, ok,
  rejected, stuck, ◌>>=◌, ◌>>◌, guard, or_reject,
}

abbrev pub Sid : Type 0
Sid = Bytes

pub record SidChecks : Type 0 where
  pub is_valid_sid : Sid → Bool
  pub length_sid : Sid → ℕ

pub record PolicyCalls : Type 0 where
  pub create_error : ℕ
  pub write_error : ℕ
  pub written : Bytes
  pub open_error : ℕ
  pub size_error : ℕ
  pub read_error : ℕ

pub data AuthorizedCallerPolicyUpdate : Type 0 where
  preserve replace : AuthorizedCallerPolicyUpdate

abbrev pub error_file_not_found : ℕ
error_file_not_found = 2

abbrev pub error_path_not_found : ℕ
error_path_not_found = 3

abbrev pub error_invalid_data : ℕ
error_invalid_data = 13

abbrev pub error_invalid_sid : ℕ
error_invalid_sid = 1337

abbrev pub security_max_sid_size : ℕ
security_max_sid_size = 68

-- `WriteFile` with a number of bytes.
abbrev pub take : ℕ → Bytes → Bytes
take zero bytes = []
take (suc n) [] = []
take (suc n) (b ∷ bytes) = b ∷ take n bytes

module _ (sids : SidChecks) where
  unfoldable pub is_complete_sid : Sid → Bool
  is_complete_sid sid =
      not (is_empty sid) && sids.is_valid_sid sid && sids.length_sid sid == length sid

  -- The file afterwards, with the error.
  unfoldable pub store_authorized_caller_sid : PolicyCalls → Sid → Option Bytes → ℕ × Option Bytes
  store_authorized_caller_sid calls caller file =
      if not (sids.is_valid_sid caller)
      then (error_invalid_sid, file)
      else if not (calls.create_error == 0)
      then (calls.create_error, file)
      else if not (calls.write_error == 0)
      then (calls.write_error, some (calls.written))
      else (0, some (take (sids.length_sid caller) caller))

  unfoldable pub load_authorized_caller_sid : PolicyCalls → Option Bytes → ℕ × Sid
  unfolding is_complete_sid
  load_authorized_caller_sid calls none = (error_file_not_found, [])
  load_authorized_caller_sid calls (some file) =
      if not (calls.open_error == 0)
      then (calls.open_error, [])
      else if not (calls.size_error == 0)
      then (calls.size_error, [])
      else if not (within 1 security_max_sid_size (length file))
      then (error_invalid_data, [])
      else if not (calls.read_error == 0)
      then (calls.read_error, [])
      else if not (is_complete_sid file)
      then (error_invalid_data, [])
      else (0, file)

  unfoldable pub update_authorized_caller_policy :
      PolicyCalls → Sid → AuthorizedCallerPolicyUpdate → Option Bytes → ℕ × Option Bytes
  unfolding store_authorized_caller_sid load_authorized_caller_sid
  update_authorized_caller_policy calls caller replace file =
      store_authorized_caller_sid calls caller file
  update_authorized_caller_policy calls caller preserve file =
      let existing = load_authorized_caller_sid calls file in
      if existing.0 == 0
      then (0, file)
      else if not (existing.0 == error_file_not_found) && not (existing.0 == error_path_not_found)
      then (existing.0, file)
      else store_authorized_caller_sid calls caller file

  unfoldable pub is_authorized_caller : Sid → Sid → Bool
  unfolding is_complete_sid
  is_authorized_caller authorized caller =
      is_complete_sid authorized && is_complete_sid caller && text_eq authorized caller
