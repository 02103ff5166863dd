-- ===== src/ReadScope/Access.antt =====
-- src/broker/BrokerReadScope.cpp: SetAccess, which replaces what the scope has added to the list of
-- one object. What the Win32 calls report is an argument, the error of each, 0 for success.
use launch_as.Base.{
  first_error, ℕ, Bool, true, false, not, ◌&&◌, ◌||◌, Option, none, some, List, [], ◌∷◌, ◌++◌, ◌==◌,
  if◌then◌else◌, any_of, filter, text_eq,
}
use launch_as.ReadScope.{
  Sid, Ace, Acl, Entry, is_access_ace, has_bit, access_allowed, access_denied, write_dac,
  file_traverse, ancestor_deny, error_invalid_acl,
}

pub record Group : Type 0 where
  pub attributes : ℕ
  pub sid : Sid

-- The user of the token, its groups, and the well-known SID of owner rights.
pub record Token : Type 0 where
  pub user_sid : Sid
  pub groups : List Group
  pub owner_rights : Sid

pub record AccessCalls : Type 0 where
  pub owner : Option Sid
  pub get_security_info : ℕ
  pub create_well_known_sid : ℕ
  pub initialize_acl : ℕ
  pub get_ace : ℕ
  pub add_access_denied_ace : ℕ
  pub add_ace : ℕ
  pub add_access_allowed_ace : ℕ
  pub get_security_descriptor_control : ℕ
  pub reopen_pinned_file : ℕ
  pub set_object_dacl : ℕ

pub record Access : Type 0 where
  pub error : ℕ
  pub entry : Entry
  pub dacl : Option Acl

abbrev pub denied : ℕ → Sid → Ace
denied mask sid = record { ace_type = access_denied; ace_flags = 0; mask = mask; sid = sid }

abbrev pub allowed : ℕ → Sid → Ace
allowed mask sid = record { ace_type = access_allowed; ace_flags = 0; mask = mask; sid = sid }

abbrev pub is_untouched : Entry → Bool
is_untouched entry =
    entry.added_mask == 0 && not entry.added_owner_deny && not entry.added_traverse_grant

abbrev pub want_traverse : Entry → ℕ → Bool → Bool
want_traverse entry mask readable_root =
    not entry.namespace_directory && (readable_root || mask == ancestor_deny)

abbrev pub one_if : Bool → Ace → Acl
one_if b ace = if b then ace ∷ [] else []

module _ (token : Token) (entry : Entry) where
  -- An entry of the list that the scope has added.
  unfoldable pub is_added : Ace → Bool
  is_added ace =
      (not (entry.added_mask == 0)
        && is_access_ace token.user_sid entry.added_mask entry.namespace_directory ace)
      || (entry.added_owner_deny && is_access_ace token.owner_rights write_dac false ace)
      || (entry.added_traverse_grant && is_access_ace token.user_sid file_traverse true ace)

  unfoldable pub preserved : Acl → Acl
  preserved original = filter (λ ace. not (is_added ace)) original

  -- An entry that lets the user or one of its enabled groups traverse.
  unfoldable pub is_traverse_grant : Ace → Bool
  is_traverse_grant ace =
      ace.ace_type == access_allowed
      && not (has_bit 8 ace.ace_flags)
      && has_bit file_traverse ace.mask
      && (text_eq ace.sid token.user_sid
          || any_of
              (λ group.
                has_bit 4 group.attributes
                && not (has_bit 16 group.attributes)
                && text_eq ace.sid group.sid)
              token.groups)

  unfoldable pub deny_owner : Option Sid → ℕ → Bool
  deny_owner none mask = false
  deny_owner (some owner) mask =
      not entry.namespace_directory && not (mask == 0) && text_eq owner token.user_sid

  unfoldable pub add_user : ℕ → Acl → Bool
  add_user mask kept =
      not (mask == 0)
      && not (any_of (is_access_ace token.user_sid mask entry.namespace_directory) kept)

  unfoldable pub add_owner : Option Sid → ℕ → Acl → Bool
  unfolding deny_owner
  add_owner owner mask kept =
      deny_owner owner mask && not (any_of (is_access_ace token.owner_rights write_dac false) kept)

  unfoldable pub add_traverse : ℕ → Bool → Acl → Bool
  unfolding is_traverse_grant
  add_traverse mask readable_root kept =
      want_traverse entry mask readable_root && not (any_of is_traverse_grant kept)

  -- The new list: denies of the scope first, grants of the scope last.
  unfoldable pub updated : ℕ → Bool → Bool → Bool → Acl → Acl
  updated mask user owner traverse kept =
      one_if (user && not entry.namespace_directory) (denied mask token.user_sid)
      ++ (one_if owner (denied write_dac token.owner_rights)
          ++ (kept
              ++ (one_if (user && entry.namespace_directory) (allowed mask token.user_sid)
                  ++ one_if traverse (allowed file_traverse token.user_sid))))

-- The part from ReopenPinnedFile on.
unfoldable pub store_dacl : AccessCalls → Entry → Entry → Acl → Acl → Access
store_dacl calls entry changed original acl =
    let reopens = not entry.namespace_directory && not entry.writable in
    if reopens && not (calls.reopen_pinned_file == 0)
    then record { error = calls.reopen_pinned_file; entry = entry; dacl = some original }
    else if not (calls.set_object_dacl == 0)
    then record {
      error = calls.set_object_dacl;
      entry = record entry { writable = entry.writable || reopens };
      dacl = some original;
    }
    else record {
      error = 0;
      entry = record changed { writable = entry.writable || reopens };
      dacl = some acl;
    }

abbrev pub prepared : AccessCalls → ℕ
prepared calls =
    first_error (calls.create_well_known_sid ∷ calls.initialize_acl ∷ calls.get_ace ∷ [])

abbrev pub built : AccessCalls → Entry → Bool → Bool → Bool → ℕ
built calls entry user owner traverse = first_error (
    (if (user && not entry.namespace_directory) || owner then calls.add_access_denied_ace else 0)
    ∷ calls.add_ace
    ∷ (if (user && entry.namespace_directory) || traverse then calls.add_access_allowed_ace else 0)
    ∷ calls.get_security_descriptor_control
    ∷ [])

-- The changes to what is kept of the original list.
unfoldable pub change_dacl : AccessCalls → Token → Entry → ℕ → Bool → Acl → Acl → Access
unfolding add_user add_owner add_traverse updated store_dacl
change_dacl calls token entry mask readable_root original kept =
    let user = add_user token entry mask kept in
    let owner = add_owner token entry calls.owner mask kept in
    let traverse = add_traverse token entry mask readable_root kept in
    if not (prepared calls == 0)
    then record { error = prepared calls; entry = entry; dacl = some original }
    else if mask == 0 && is_untouched entry && not traverse
    then record { error = 0; entry = entry; dacl = some original }
    else if not (built calls entry user owner traverse == 0)
    then record {
      error = built calls entry user owner traverse;
      entry = entry;
      dacl = some original;
    }
    else store_dacl calls entry
        (record entry {
          added_mask = if user then mask else 0;
          added_owner_deny = owner;
          added_traverse_grant = traverse;
        })
        original (updated token entry mask user owner traverse kept)

unfoldable pub set_access : AccessCalls → Token → Entry → ℕ → Bool → Option Acl → Access
unfolding change_dacl preserved
set_access calls token entry mask readable_root dacl =
    if mask == 0 && is_untouched entry && not (want_traverse entry mask readable_root)
    then record { error = 0; entry = entry; dacl = dacl }
    else if not (calls.get_security_info == 0)
    then record { error = calls.get_security_info; entry = entry; dacl = dacl }
    else elim dacl [
      | none ↦ record { error = error_invalid_acl; entry = entry; dacl = none }
      | some original ↦
          change_dacl calls token entry mask readable_root original (preserved token entry original)
    ]
