-- ===== src/ReadScope/Scope.antt =====
-- src/broker/BrokerReadScope.h and BrokerReadScope.cpp: the state of the scope, and Restore. An
-- object is named by its path: the scope keeps its directories open without sharing deletion, so
-- that the name stays. What the Win32 calls report is an argument, given for each moment; a call
-- takes a moment.
use launch_as.Base.{
  ℕ, suc, Bool, true, false, not, Option, none, some, List, [], ◌∷◌, ◌==◌, if◌then◌else◌, Wide,
  text_eq,
}
use launch_as.ReadScope.{Sid, Acl, Entry, new_entry}
use launch_as.ReadScope.Access.{Token, Group, AccessCalls, Access, is_untouched, set_access}
use launch_as.ReadScope.Entries.{Entries, find_entry, put_entry, keys}

pub record Child : Type 0 where
  pub name : Wide
  pub is_directory : Bool

-- GetFileInformationByHandleEx with FileAttributeTagInfo.
pub record Attributes : Type 0 where
  pub error : ℕ
  pub is_directory : Bool
  pub is_reparse_point : Bool

-- The buffers of an enumeration, and the error that ends it.
pub record Listing : Type 0 where
  pub buffers : List (List Child)
  pub error : ℕ

pub record Disk : Type 0 where
  pub owner_rights : Sid
  pub calls : ℕ → AccessCalls
  pub is_late : ℕ → Bool
  pub attributes : ℕ → Wide → Attributes
  pub listing : ℕ → Wide → Listing
  pub open_relative : ℕ → Wide → ℕ

pub record Scope : Type 0 where
  pub user_sid : Sid
  pub groups : List Group
  pub allowed : List Wide
  pub entries : Entries
  pub volumes : List (Wide × Wide)
  pub failure_path : Wide

abbrev pub new_scope : Scope
new_scope = record {
  user_sid = [];
  groups = [];
  allowed = [];
  entries = [];
  volumes = [];
  failure_path = [];
}

-- The scope with the objects, the moment, and the visits that are left.
pub record State : Type 0 where
  pub scope : Scope
  pub dacls : Wide → Option Acl
  pub moment : ℕ
  pub remaining : ℕ

abbrev pub tick : State → State
tick s = record s { moment = suc (s.moment) }

abbrev pub with_entries : Entries → State → State
with_entries entries s = record s { scope = record (s.scope) { entries = entries } }

abbrev pub failing_at : Wide → State → State
failing_at path s = record s { scope = record (s.scope) { failure_path = path } }

abbrev pub replace_at : Wide → Option Acl → (Wide → Option Acl) → Wide → Option Acl
replace_at path dacl dacls other = if text_eq other path then dacl else dacls other

abbrev pub error_invalid_handle : ℕ
error_invalid_handle = 6

-- The calls on an entry fail without a handle.
abbrev pub calls_on : Entry → AccessCalls → AccessCalls
calls_on entry calls = record calls {
  get_security_info = if entry.is_open then calls.get_security_info else error_invalid_handle;
}

abbrev pub is_found : Option Entry → Bool
is_found none = false
is_found (some entry) = true

-- `entries_.contains(path)`
abbrev pub is_known : Wide → Entries → Bool
is_known path entries = is_found (find_entry path entries)

-- The entry that try_emplace finds or makes.
unfoldable pub emplace : Wide → Bool → State → State
emplace path is_open s =
    if is_known path s.scope.entries
    then s
    else with_entries (put_entry path (record new_entry { is_open = is_open }) s.scope.entries) s

module _ (disk : Disk) where
  abbrev pub token_of : Scope → Token
  token_of scope = record {
    user_sid = scope.user_sid;
    groups = scope.groups;
    owner_rights = disk.owner_rights;
  }

  abbrev pub access_entry : Wide → ℕ → Bool → Entry → State → Access
  access_entry path mask readable_root entry s =
      set_access (calls_on entry (disk.calls s.moment)) (token_of s.scope) entry mask readable_root
        (s.dacls path)

  abbrev pub store_access : Wide → Access → State → State
  store_access path result s =
      record (with_entries (put_entry path (result.entry) s.scope.entries) s) {
        dacls = replace_at path (result.dacl) s.dacls;
        moment = suc (s.moment);
      }

  -- SetAccess on the entry behind a key.
  unfoldable pub access_found : Wide → ℕ → Bool → Option Entry → State → ℕ × State
  access_found path mask readable_root none s = (error_invalid_handle, s)
  access_found path mask readable_root (some entry) s =
      let result = access_entry path mask readable_root entry s in
      (result.error, store_access path result s)

  unfoldable pub access_at : Wide → ℕ → Bool → State → ℕ × State
  unfolding access_found
  access_at path mask readable_root s =
      access_found path mask readable_root (find_entry path s.scope.entries) s

  -- What the scope has added to an object.
  abbrev pub is_touched : Option Entry → Bool
  is_touched none = false
  is_touched (some entry) = not (is_untouched entry)

  -- The loop of Restore over the keys: the first error is the one that counts.
  unfoldable pub restore_entries : List Wide → State → ℕ × State
  unfolding access_at
  restore_entries [] s = (0, s)
  restore_entries (path ∷ rest) s =
      let here = access_at path 0 false s in
      let skipped = restore_entries rest s in
      let behind = restore_entries rest (here.1) in
      if is_touched (find_entry path s.scope.entries)
      then (if here.0 == 0 then behind.0 else here.0, behind.1)
      else skipped

  unfoldable pub restore : State → ℕ × State
  unfolding restore_entries
  restore s =
      let (error, after) = restore_entries (keys s.scope.entries) s in
      if error == 0
      then (
        0,
        record after { scope = record new_scope { failure_path = after.scope.failure_path } },
      )
      else (error, after)
