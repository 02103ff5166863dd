-- ===== src/ReadScope/Pinned.antt =====
-- src/broker/BrokerReadScope.cpp: every object has its own list, with what its entry records.
use launch_as.Base.{
  ℕ, ◌≡◌, refl, sym, ap, ◌∙◌, subst, inl, inr, Bool, true, false, Option, none, some, [], ◌∷◌,
  append-nil, arith, Bool-cases, Wide, any_of,
}
use launch_as.ReadScope.{Sid, Acl, Entry, new_entry}
use launch_as.ReadScope.Access.{Token, is_untouched, is_added, updated}
use launch_as.ReadScope.Leased.{IsLeased, leased}
use launch_as.ReadScope.Restored.{set_access-IsLeased, untouched-IsLeased}
use launch_as.ReadScope.Entries.{
  find_entry, put_entry, erase_entry, find_entry-put_entry, find_entry-put_entry_other,
  find_entry-erase_entry, find_entry-erase_entry_other, text_eq-cases,
}
use launch_as.ReadScope.Scope.{
  Disk, State, access_at, access_found, emplace, is_found, is_known, replace_at, with_entries,
  token_of, calls_on, is_touched,
}

-- An object that the scope does not hold has its own list.
abbrev pub Stands : Token → Option Entry → Option Acl → Option Acl → Type 0
Stands token none base dacl = dacl ≡ base
Stands token (some entry) base dacl = IsLeased token entry base dacl

pub record IsPinned (disk : Disk) (user : Sid) (base : Wide → Option Acl) (s : State) : Type 0 where
  pub user_stays : s.scope.user_sid ≡ user
  pub stands :
      (path : Wide)
      → Stands (token_of disk s.scope) (find_entry path s.scope.entries) (base path) (s.dacls path)

none_added :
    (token : Token) (entry : Entry) (acl : Acl)
    → is_untouched entry ≡ true
    → any_of (is_added token entry) acl ≡ false
unfolding is_added
none_added token entry [] h = refl
none_added token entry (ace ∷ rest) h = ground (arith, none_added token entry rest h)

-- An entry that records nothing, of an object with its own list.
pub untouched_entry-IsLeased :
    (token : Token) (entry : Entry) (base dacl : Option Acl)
    → is_untouched entry ≡ true
    → dacl ≡ base
    → IsLeased token entry base dacl
unfolding leased updated
untouched_entry-IsLeased token entry none dacl u h = record { apart = refl; current = h }
untouched_entry-IsLeased token entry (some base) dacl u h =
    let m : entry.added_mask ≡ 0 = ground arith in
    let o : entry.added_owner_deny ≡ false = ground arith in
    let t : entry.added_traverse_grant ≡ false = ground arith in
    record {
      apart = none_added token entry base u;
      current = h ∙ rw (m, o, t) (ap some (sym (append-nil base)));
    }

module _ (disk : Disk) (user : Sid) (base : Wide → Option Acl) where
  pub put_entry-IsPinned :
      (path : Wide) (entry : Entry) (dacl : Option Acl) (moment : ℕ) (s : State)
      → IsPinned disk user base s
      → IsLeased (token_of disk s.scope) entry (base path) dacl
      → IsPinned disk user base (record (with_entries (put_entry path entry s.scope.entries) s) {
        dacls = replace_at path dacl s.dacls;
        moment = moment;
      })
  put_entry-IsPinned path entry dacl moment s h new = record {
    user_stays = h.user_stays;
    stands = λ other. elim (text_eq-cases other path) [
      | inl (same, e) ↦ rw (same, e, find_entry-put_entry path entry s.scope.entries) new
      | inr differs ↦
          rw (differs, find_entry-put_entry_other other path entry s.scope.entries differs)
            (h.stands other)
    ];
  }

  access_found-IsPinned :
      (path : Wide) (mask : ℕ) (readable_root : Bool) (found : Option Entry) (s : State)
      → IsPinned disk user base s
      → Stands (token_of disk s.scope) found (base path) (s.dacls path)
      → IsPinned disk user base ((access_found disk path mask readable_root found s).1)
  unfolding access_found
  access_found-IsPinned path mask readable_root none s h held = h
  access_found-IsPinned path mask readable_root (some entry) s h held =
      put_entry-IsPinned path _ _ _ s h (
        (set_access-IsLeased (token_of disk s.scope) (calls_on entry (disk.calls s.moment)) entry
          mask readable_root (base path) (s.dacls path) held).accounts)

  pub access_at-IsPinned :
      (path : Wide) (mask : ℕ) (readable_root : Bool) (s : State)
      → IsPinned disk user base s
      → IsPinned disk user base ((access_at disk path mask readable_root s).1)
  unfolding access_at
  access_at-IsPinned path mask readable_root s h =
      access_found-IsPinned path mask readable_root (find_entry path s.scope.entries) s h
        (h.stands path)

  pub untouched-Stands :
      (found : Option Entry) (path : Wide) (s : State)
      → Stands (token_of disk s.scope) found (base path) (s.dacls path)
      → is_touched disk found ≡ false
      → s.dacls path ≡ base path
  untouched-Stands none path s h u = h
  untouched-Stands (some entry) path s h u =
      untouched-IsLeased (token_of disk s.scope) entry (base path) (s.dacls path) h (ground arith)

  pub erase_entry-IsPinned :
      (path : Wide) (s : State)
      → IsPinned disk user base s
      → is_touched disk (find_entry path s.scope.entries) ≡ false
      → IsPinned disk user base (with_entries (erase_entry path s.scope.entries) s)
  erase_entry-IsPinned path s h u = record {
    user_stays = h.user_stays;
    stands = λ other. elim (text_eq-cases other path) [
      | inl (same, e) ↦
          rw (e, find_entry-erase_entry path s.scope.entries)
            (untouched-Stands (find_entry path s.scope.entries) path s (h.stands path) u)
      | inr differs ↦
          rw (find_entry-erase_entry_other other path s.scope.entries differs) (h.stands other)
    ];
  }

  not_found-none : (found : Option Entry) → is_found found ≡ false → found ≡ none
  not_found-none none h = refl
  not_found-none (some entry) h = cc

  unknown-Stands :
      (path : Wide) (s : State)
      → Stands (token_of disk s.scope) (find_entry path s.scope.entries) (base path) (s.dacls path)
      → is_known path s.scope.entries ≡ false
      → s.dacls path ≡ base path
  unknown-Stands path s h u =
      subst (λ o. Stands (token_of disk s.scope) o (base path) (s.dacls path))
        (not_found-none (find_entry path s.scope.entries) u) h

  pub set_entry-IsPinned :
      (path : Wide) (entry : Entry) (s : State)
      → IsPinned disk user base s
      → IsLeased (token_of disk s.scope) entry (base path) (s.dacls path)
      → IsPinned disk user base (with_entries (put_entry path entry s.scope.entries) s)
  set_entry-IsPinned path entry s h new = record {
    user_stays = h.user_stays;
    stands = λ other. elim (text_eq-cases other path) [
      | inl (same, e) ↦ rw (e, find_entry-put_entry path entry s.scope.entries) new
      | inr differs ↦
          rw (find_entry-put_entry_other other path entry s.scope.entries differs) (h.stands other)
    ];
  }

  pub emplace-IsPinned :
      (path : Wide) (is_open : Bool) (s : State)
      → IsPinned disk user base s
      → IsPinned disk user base (emplace path is_open s)
  unfolding emplace
  emplace-IsPinned path is_open s h = elim (Bool-cases (is_known path s.scope.entries)) [
    | inl known ↦ rw known h
    | inr unknown ↦ rw unknown (
        set_entry-IsPinned path (record new_entry { is_open = is_open }) s h
          (untouched_entry-IsLeased (token_of disk s.scope) _ (base path) (s.dacls path) refl
            (unknown-Stands path s (h.stands path) unknown)))
  ]
