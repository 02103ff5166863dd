-- ===== src/ReadScope/Leased.antt =====
-- src/broker/BrokerReadScope.cpp: what the scope has added to a list, and that SetAccess takes back
-- exactly that.
use launch_as.Base.{
  ℕ, ◌≡◌, refl, ◌∙◌, inl, inr, Bool, true, false, not, ◌&&◌, Option, none, some, List, [], ◌∷◌,
  ◌++◌, append-nil, arith, ◌==◌, Bool-cases, any_of, filter, text_eq_refl,
}
use launch_as.ReadScope.{Sid, Ace, Acl, Entry, is_access_ace, write_dac, file_traverse}
use launch_as.ReadScope.Access.{Token, denied, allowed, one_if, is_added, preserved, updated}

-- The list of an object whose own list is `base`, with what the entry records as added.
unfoldable pub leased : Token → Entry → Acl → Acl
unfolding updated
leased token entry base =
    updated token entry entry.added_mask (not (entry.added_mask == 0)) entry.added_owner_deny
      entry.added_traverse_grant base

abbrev pub leased_dacl : Token → Entry → Option Acl → Option Acl
leased_dacl token entry none = none
leased_dacl token entry (some base) = some (leased token entry base)

abbrev pub has_added : Token → Entry → Option Acl → Bool
has_added token entry none = false
has_added token entry (some base) = any_of (is_added token entry) base

pub record IsLeased (token : Token) (entry : Entry) (base dacl : Option Acl) : Type 0 where
  pub apart : has_added token entry base ≡ false
  pub current : dacl ≡ leased_dacl token entry base

module _ {ℓ} {A : Type ℓ} (p : A → Bool) where
  filter-append : (xs ys : List A) → filter p (xs ++ ys) ≡ filter p xs ++ filter p ys
  filter-append [] ys = refl
  filter-append (x ∷ xs) ys = elim (Bool-cases (p x)) [
    | inl e ↦ rw (e, filter-append xs ys) refl
    | inr e ↦ rw (e, filter-append xs ys) refl
  ]

  filter-none : (xs : List A) → any_of p xs ≡ false → filter (λ x. not (p x)) xs ≡ xs
  filter-none [] h = refl
  filter-none (x ∷ xs) h =
      let here : p x ≡ false = ground arith in rw (here, filter-none xs (ground arith)) refl

filter-one_if :
    (p : Ace → Bool) (b : Bool) (ace : Ace)
    → (b ≡ true → p ace ≡ true)
    → filter (λ x. not (p x)) (one_if b ace) ≡ []
filter-one_if p true ace h = rw (h refl) refl
filter-one_if p false ace h = refl

pub denied-matches : (sid : Sid) (mask : ℕ) → is_access_ace sid mask false (denied mask sid) ≡ true
unfolding is_access_ace
denied-matches sid mask = ground (arith, text_eq_refl sid)

allowed-matches : (sid : Sid) (mask : ℕ) → is_access_ace sid mask true (allowed mask sid) ≡ true
unfolding is_access_ace
allowed-matches sid mask = ground (arith, text_eq_refl sid)

filter-around :
    (p : Ace → Bool) (a b xs c d : Acl)
    → filter p a ≡ []
    → filter p b ≡ []
    → filter p c ≡ []
    → filter p d ≡ []
    → filter p (a ++ (b ++ (xs ++ (c ++ d)))) ≡ filter p xs
filter-around p a b xs c d ha hb hc hd =
    rw
      (
        filter-append p a (b ++ (xs ++ (c ++ d))),
        filter-append p b (xs ++ (c ++ d)),
        filter-append p xs (c ++ d),
        filter-append p c d,
        ha,
        hb,
        hc,
        hd,
      )
      (append-nil (filter p xs))

module _ (token : Token) (entry : Entry) where
  own_deny-is_added :
      (not (entry.added_mask == 0) && not entry.namespace_directory) ≡ true
      → is_added token entry (denied entry.added_mask token.user_sid) ≡ true
  unfolding is_added
  own_deny-is_added h =
      let e : entry.namespace_directory ≡ false = ground arith in
      rw e (ground (arith, denied-matches token.user_sid entry.added_mask))

  own_grant-is_added :
      (not (entry.added_mask == 0) && entry.namespace_directory) ≡ true
      → is_added token entry (allowed entry.added_mask token.user_sid) ≡ true
  unfolding is_added
  own_grant-is_added h =
      let e : entry.namespace_directory ≡ true = ground arith in
      rw e (ground (arith, allowed-matches token.user_sid entry.added_mask))

  owner_deny-is_added :
      entry.added_owner_deny ≡ true
      → is_added token entry (denied write_dac token.owner_rights) ≡ true
  unfolding is_added
  owner_deny-is_added h = ground (arith, denied-matches token.owner_rights write_dac)

  traverse-is_added :
      entry.added_traverse_grant ≡ true
      → is_added token entry (allowed file_traverse token.user_sid) ≡ true
  unfolding is_added
  traverse-is_added h = ground (arith, allowed-matches token.user_sid file_traverse)

  -- What SetAccess keeps of the list is the list of the object itself.
  pub preserved-leased :
      (base : Acl)
      → any_of (is_added token entry) base ≡ false
      → preserved token entry (leased token entry base) ≡ base
  unfolding preserved leased updated
  preserved-leased base h =
      filter-around _ _ _ base _ _ (filter-one_if (is_added token entry) _ _ own_deny-is_added)
        (filter-one_if (is_added token entry) _ _ owner_deny-is_added)
        (filter-one_if (is_added token entry) _ _ own_grant-is_added)
        (filter-one_if (is_added token entry) _ _ traverse-is_added)
      ∙ filter-none (is_added token entry) base h
