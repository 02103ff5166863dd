-- ===== src/ReadScope/Restored.antt =====
-- src/broker/BrokerReadScope.cpp: SetAccess keeps account of what it adds, whatever the Win32 calls
-- report, and takes it back.
use launch_as.Base.{
  ℕ, ◌≡◌, refl, sym, ap, ◌∙◌, subst, Bool, true, false, not, ◌&&◌, ◌||◌, Option, none, some,
  append-nil, arith, ◌==◌, if◌then◌else◌,
}
use launch_as.ReadScope.{Sid, Acl, Entry}
use launch_as.ReadScope.Access.{
  Token, AccessCalls, Access, is_untouched, want_traverse, is_added, preserved, add_user, add_owner,
  deny_owner, add_traverse, updated, store_dacl, change_dacl, set_access, prepared, built,
}
use launch_as.ReadScope.Leased.{IsLeased, leased, preserved-leased}
use launch_as.ReadScope.Changed.{
  changed, changed-apart, leased-changed, add_user-apart, add_owner-apart, add_traverse-apart,
}

if-holds :
    {A : Type 0} (P : A → Type 0) (b : Bool) {x y : A}
    → (b ≡ true → P x)
    → (b ≡ false → P y)
    → P (if b then x else y)
if-holds P true hx hy = hx refl
if-holds P false hx hy = hy refl

-- The entry after an operation accounts for the list after it.
pub record Accounted (token : Token) (base : Option Acl) (result : Access) : Type 0 where
  pub accounts : IsLeased token (result.entry) base (result.dacl)

module _ (token : Token) (base : Option Acl) where
  writable-Accounted :
      (entry : Entry) (dacl : Option Acl) (error : ℕ) (writable : Bool)
      → IsLeased token entry base dacl
      → Accounted token base
          (record { error = error; entry = record entry { writable = writable }; dacl = dacl })
  unfolding is_added leased
  writable-Accounted entry dacl error writable h = record {
    accounts = record { apart = h.apart; current = h.current };
  }

  store_dacl-IsLeased :
      (calls : AccessCalls) (entry changed_entry : Entry) (original acl : Acl)
      → IsLeased token entry base (some original)
      → IsLeased token changed_entry base (some acl)
      → Accounted token base (store_dacl calls entry changed_entry original acl)
  unfolding store_dacl
  store_dacl-IsLeased calls entry changed_entry original acl h k =
      let reopens = not entry.namespace_directory && not entry.writable in
      if-holds (Accounted token base) (reopens && not (calls.reopen_pinned_file == 0))
        (λ e. record { accounts = h })
        (λ e.
          if-holds (Accounted token base) (not (calls.set_object_dacl == 0))
            (λ e.
              writable-Accounted entry (some original) calls.set_object_dacl
                (entry.writable || reopens) h)
            (λ e. writable-Accounted changed_entry (some acl) 0 (entry.writable || reopens) k))

module _ (token : Token) where
  change_dacl-IsLeased :
      (calls : AccessCalls) (entry : Entry) (mask : ℕ) (readable_root : Bool) (original base : Acl)
      → IsLeased token entry (some base) (some original)
      → Accounted token (some base) (change_dacl calls token entry mask readable_root original base)
  unfolding change_dacl
  change_dacl-IsLeased calls entry mask readable_root original base h =
      let user = add_user token entry mask base in
      let owner = add_owner token entry calls.owner mask base in
      let traverse = add_traverse token entry mask readable_root base in
      let user_apart = add_user-apart token entry mask base in
      if-holds (Accounted token (some base)) (not (prepared calls == 0))
        (λ e. record { accounts = h })
        (λ e.
          if-holds (Accounted token (some base)) (mask == 0 && is_untouched entry && not traverse)
            (λ e. record { accounts = h })
            (λ e.
              if-holds (Accounted token (some base))
                (not (built calls entry user owner traverse == 0)) (λ e. record { accounts = h })
                (λ e.
                  store_dacl-IsLeased token (some base) calls entry
                    (changed token entry mask user owner traverse) original
                    (updated token entry mask user owner traverse base) h
                    (record {
                      apart =
                          changed-apart token entry mask base user owner traverse
                            (λ u. (user_apart u).1)
                            (add_owner-apart token entry mask base calls.owner)
                            (add_traverse-apart token entry mask base readable_root);
                      current = ap some (
                          sym (
                            leased-changed token entry mask base user owner traverse
                              (λ u. (user_apart u).0)));
                    }))))

  -- SetAccess keeps account of what it adds.
  pub set_access-IsLeased :
      (calls : AccessCalls) (entry : Entry) (mask : ℕ) (readable_root : Bool)
      (base dacl : Option Acl)
      → IsLeased token entry base dacl
      → Accounted token base (set_access calls token entry mask readable_root dacl)
  unfolding set_access
  set_access-IsLeased calls entry mask readable_root none (some original) h =
      let e = h.current in cc
  set_access-IsLeased calls entry mask readable_root (some base) none h = let e = h.current in cc
  set_access-IsLeased calls entry mask readable_root none none h =
      if-holds (Accounted token none)
        (mask == 0 && is_untouched entry && not (want_traverse entry mask readable_root))
        (λ e. record { accounts = h })
        (λ e.
          if-holds (Accounted token none) (not (calls.get_security_info == 0))
            (λ e. record { accounts = h }) (λ e. record { accounts = h }))
  set_access-IsLeased calls entry mask readable_root (some base) (some original) h =
      let e : original ≡ leased token entry base = (let e = h.current in cc) in
      let kept : preserved token entry original ≡ base =
        ap (preserved token entry) e ∙ preserved-leased token entry base h.apart in
      if-holds (Accounted token (some base))
        (mask == 0 && is_untouched entry && not (want_traverse entry mask readable_root))
        (λ e. record { accounts = h })
        (λ e.
          if-holds (Accounted token (some base)) (not (calls.get_security_info == 0))
            (λ e. record { accounts = h })
            (λ e.
              subst
                (λ keep.
                  Accounted token (some base)
                    (change_dacl calls token entry mask readable_root original keep))
                (sym kept) (change_dacl-IsLeased calls entry mask readable_root original base h)))

  add_owner-0 :
      (entry : Entry) (owner : Option Sid) (kept : Acl) → add_owner token entry owner 0 kept ≡ false
  unfolding add_owner deny_owner
  add_owner-0 entry none kept = refl
  add_owner-0 entry (some owner) kept = ground arith

  -- A mask of 0 that SetAccess sets leaves nothing of the scope.
  change_dacl-0 :
      (calls : AccessCalls) (entry : Entry) (original kept : Acl)
      → (change_dacl calls token entry 0 false original kept).error ≡ 0
      → is_untouched ((change_dacl calls token entry 0 false original kept).entry) ≡ true
  unfolding change_dacl store_dacl add_user add_traverse
  change_dacl-0 calls entry original kept h = ground (arith, add_owner-0 entry calls.owner kept)

  pub set_access-0 :
      (calls : AccessCalls) (entry : Entry) (dacl : Option Acl)
      → (set_access calls token entry 0 false dacl).error ≡ 0
      → is_untouched ((set_access calls token entry 0 false dacl).entry) ≡ true
  unfolding set_access
  set_access-0 calls entry none h = ground arith
  set_access-0 calls entry (some original) h =
      ground (arith, change_dacl-0 calls entry original (preserved token entry original))

  abbrev pub has_no_deny : Entry → Bool
  has_no_deny entry = entry.added_mask == 0 && not entry.added_owner_deny

  change_dacl-has_no_deny :
      (calls : AccessCalls) (entry : Entry) (readable_root : Bool) (original kept : Acl)
      → (change_dacl calls token entry 0 readable_root original kept).error ≡ 0
      → has_no_deny ((change_dacl calls token entry 0 readable_root original kept).entry) ≡ true
  unfolding change_dacl store_dacl add_user
  change_dacl-has_no_deny calls entry readable_root original kept h =
      ground (arith, add_owner-0 entry calls.owner kept)

  -- A mask of 0 that SetAccess sets leaves no deny of the scope, on a readable folder too.
  pub set_access-has_no_deny :
      (calls : AccessCalls) (entry : Entry) (readable_root : Bool) (dacl : Option Acl)
      → (set_access calls token entry 0 readable_root dacl).error ≡ 0
      → has_no_deny ((set_access calls token entry 0 readable_root dacl).entry) ≡ true
  unfolding set_access
  set_access-has_no_deny calls entry readable_root none h = ground arith
  set_access-has_no_deny calls entry readable_root (some original) h = ground (
    arith,
    change_dacl-has_no_deny calls entry readable_root original (preserved token entry original),
  )

  -- An entry without additions has an object with its own list.
  pub untouched-IsLeased :
      (entry : Entry) (base dacl : Option Acl)
      → IsLeased token entry base dacl
      → is_untouched entry ≡ true
      → dacl ≡ base
  unfolding leased updated
  untouched-IsLeased entry none dacl h u = h.current
  untouched-IsLeased entry (some base) dacl h u =
      let m : entry.added_mask ≡ 0 = ground arith in
      let o : entry.added_owner_deny ≡ false = ground arith in
      let t : entry.added_traverse_grant ≡ false = ground arith in
      h.current ∙ rw (m, o, t) (ap some (append-nil base))
