-- ===== src/ReadScope/Denied.antt =====
-- src/broker/BrokerReadScope.cpp: what a list denies after SetAccess.
use launch_as.Base.{ℕ, ◌≡◌, Bool, true, false, Option, none, some, [], ◌∷◌, arith, ◌==◌, any_of}
use launch_as.ReadScope.{Sid, Acl, Entry, is_access_ace}
use launch_as.ReadScope.Access.{
  Token, AccessCalls, preserved, add_user, add_owner, add_traverse, updated, store_dacl,
  change_dacl, set_access,
}
use launch_as.ReadScope.Leased.{denied-matches}

-- The first entry of the list denies the mask to the user, so that no entry behind it can grant
-- it.
abbrev pub starts_with_deny : Sid → ℕ → Option Acl → Bool
starts_with_deny sid mask none = false
starts_with_deny sid mask (some []) = false
starts_with_deny sid mask (some (ace ∷ acl)) = is_access_ace sid mask false ace

-- The object's own list, without what the scope has added, denies the mask to the user already.
abbrev pub denies_itself : Token → Entry → ℕ → Option Acl → Bool
denies_itself token entry mask none = false
denies_itself token entry mask (some original) =
    any_of (is_access_ace token.user_sid mask false) (preserved token entry original)

module _ (token : Token) (entry : Entry) (mask : ℕ) (folder : entry.namespace_directory ≡ false)
    (denies : (mask == 0) ≡ false) where
  updated-starts_with_deny :
      (owner traverse : Bool) (kept : Acl)
      → any_of (is_access_ace token.user_sid mask false) kept ≡ false
      → starts_with_deny token.user_sid mask
          (some (updated token entry mask (add_user token entry mask kept) owner traverse kept))
        ≡ true
  unfolding updated add_user
  updated-starts_with_deny owner traverse kept e =
      rw (folder, denies, e) (denied-matches token.user_sid mask)

  change_dacl-starts_with_deny :
      (calls : AccessCalls) (readable_root : Bool) (original kept : Acl)
      → any_of (is_access_ace token.user_sid mask false) kept ≡ false
      → (change_dacl calls token entry mask readable_root original kept).error ≡ 0
      → starts_with_deny token.user_sid mask
          ((change_dacl calls token entry mask readable_root original kept).dacl)
        ≡ true
  unfolding change_dacl store_dacl
  change_dacl-starts_with_deny calls readable_root original kept e h = ground (
    arith,
    denies,
    updated-starts_with_deny (add_owner token entry calls.owner mask kept)
        (add_traverse token entry mask readable_root kept) kept e,
  )

  pub set_access-starts_with_deny :
      (calls : AccessCalls) (readable_root : Bool) (dacl : Option Acl)
      → denies_itself token entry mask dacl ≡ false
      → (set_access calls token entry mask readable_root dacl).error ≡ 0
      → starts_with_deny token.user_sid mask
          ((set_access calls token entry mask readable_root dacl).dacl)
        ≡ true
  unfolding set_access
  set_access-starts_with_deny calls readable_root none e h = ground (arith, denies)
  set_access-starts_with_deny calls readable_root (some original) e h = ground (
    arith,
    denies,
    change_dacl-starts_with_deny calls readable_root original (preserved token entry original) e,
  )
