-- ===== src/ReadScope/Changed.antt =====
-- src/broker/BrokerReadScope.cpp: a change by SetAccess, with the account that its entry keeps.
use launch_as.Base.{
  ℕ, ◌≡◌, refl, Bool, true, false, not, ◌&&◌, ◌||◌, Option, List, [], ◌∷◌, arith, ◌==◌,
  if◌then◌else◌, any_of,
}
use launch_as.ReadScope.{Sid, Ace, Acl, Entry, is_access_ace, write_dac, file_traverse}
use launch_as.ReadScope.Access.{
  Token, is_added, is_traverse_grant, add_user, add_owner, add_traverse, updated,
}
use launch_as.ReadScope.Leased.{leased}

module _ {ℓ} {A : Type ℓ} where
  any_of-implies :
      (p q : A → Bool) (xs : List A)
      → ((x : A) → q x ≡ true → p x ≡ true)
      → any_of p xs ≡ false
      → any_of q xs ≡ false
  any_of-implies p q [] f h = refl
  any_of-implies p q (x ∷ xs) f h = ground (arith, f x, any_of-implies p q xs f)

  any_of-guard :
      (b : Bool) (p : A → Bool) (xs : List A)
      → (b ≡ true → any_of p xs ≡ false)
      → any_of (λ x. b && p x) xs ≡ false
  any_of-guard b p [] h = refl
  any_of-guard true p (x ∷ xs) h = h refl
  any_of-guard false p (x ∷ xs) h = any_of-guard false p xs (λ e. cc)

  any_of-or :
      (p q r : A → Bool) (xs : List A)
      → any_of p xs ≡ false
      → any_of q xs ≡ false
      → any_of r xs ≡ false
      → any_of (λ x. p x || q x || r x) xs ≡ false
  any_of-or p q r [] hp hq hr = refl
  any_of-or p q r (x ∷ xs) hp hq hr = ground (arith, any_of-or p q r xs)

-- The entry after a change to `mask`, from an object whose own list is `base`.
abbrev pub changed : Token → Entry → ℕ → Bool → Bool → Bool → Entry
changed token entry mask user owner traverse = record entry {
  added_mask = if user then mask else 0;
  added_owner_deny = owner;
  added_traverse_grant = traverse;
}

module _ (token : Token) (entry : Entry) (mask : ℕ) (base : Acl) where
  user_part :
      (user : Bool)
      → (user ≡ true
          → any_of (is_access_ace token.user_sid mask entry.namespace_directory) base ≡ false)
      → any_of
          (λ ace.
            not ((if user then mask else 0) == 0)
            && is_access_ace token.user_sid
                (if user then mask else 0)
                entry.namespace_directory
                ace)
          base
        ≡ false
  user_part true h =
      any_of-guard (not (mask == 0)) (is_access_ace token.user_sid mask entry.namespace_directory)
        base (λ e. h refl)
  user_part false h =
      any_of-guard false (is_access_ace token.user_sid 0 entry.namespace_directory) base (λ e. cc)

  pub changed-apart :
      (user owner traverse : Bool)
      → (user ≡ true
          → any_of (is_access_ace token.user_sid mask entry.namespace_directory) base ≡ false)
      → (owner ≡ true → any_of (is_access_ace token.owner_rights write_dac false) base ≡ false)
      → (traverse ≡ true → any_of (is_access_ace token.user_sid file_traverse true) base ≡ false)
      → any_of (is_added token (changed token entry mask user owner traverse)) base ≡ false
  unfolding is_added
  changed-apart user owner traverse hu ho ht =
      any_of-or _ _ _ base (user_part user hu)
        (any_of-guard owner (is_access_ace token.owner_rights write_dac false) base ho)
        (any_of-guard traverse (is_access_ace token.user_sid file_traverse true) base ht)

  pub leased-changed :
      (user owner traverse : Bool)
      → (user ≡ true → (mask == 0) ≡ false)
      → leased token (changed token entry mask user owner traverse) base
        ≡ updated token entry mask user owner traverse base
  unfolding leased updated
  leased-changed true owner traverse h = rw (h refl) refl
  leased-changed false owner traverse h = refl

  -- A grant to traverse for the user itself is one that lets the user traverse.
  access_ace-is_traverse_grant :
      (ace : Ace)
      → is_access_ace token.user_sid file_traverse true ace ≡ true
      → is_traverse_grant token entry ace ≡ true
  unfolding is_access_ace is_traverse_grant
  access_ace-is_traverse_grant ace h =
      let m : ace.mask ≡ 32 = ground arith in
      let f : ace.ace_flags ≡ 0 = ground arith in rw (m, f) (ground arith)

  pub add_user-apart :
      add_user token entry mask base ≡ true
      → ((mask == 0) ≡ false)
        × (any_of (is_access_ace token.user_sid mask entry.namespace_directory) base ≡ false)
  unfolding add_user
  add_user-apart h = (ground arith, ground arith)

  pub add_owner-apart :
      (owner : Option Sid)
      → add_owner token entry owner mask base ≡ true
      → any_of (is_access_ace token.owner_rights write_dac false) base ≡ false
  unfolding add_owner
  add_owner-apart owner h = ground arith

  pub add_traverse-apart :
      (readable_root : Bool)
      → add_traverse token entry mask readable_root base ≡ true
      → any_of (is_access_ace token.user_sid file_traverse true) base ≡ false
  unfolding add_traverse
  add_traverse-apart readable_root h =
      any_of-implies (is_traverse_grant token entry)
        (is_access_ace token.user_sid file_traverse true) base access_ace-is_traverse_grant
        (ground arith)
