-- ===== src/ReadScope/Blocked.antt =====
-- src/broker/BrokerReadScope.cpp: the folders beside the allowed ones after Visit.
use launch_as.Base.{
  ℕ, zero, suc, ◌-◌, ◌≡◌, refl, sym, ◌∙◌, subst, inl, inr, Bool, true, false, not, Option, none,
  some, arith, Bool-cases, Option-cases, Wide, any_of, text_eq_refl,
}
use launch_as.ReadScope.{Acl, Entry, new_entry, is_within, file_all_access}
use launch_as.ReadScope.Entries.{Entries, find_entry, find_entry-put_entry}
use launch_as.ReadScope.Scope.{
  Disk, State, access_at, access_found, is_known, emplace, failing_at, tick, token_of, calls_on,
}
use launch_as.ReadScope.Visit.{Visitor, visit_entry, visit}
use launch_as.ReadScope.Access.{Token, preserved, is_added}
use launch_as.ReadScope.Denied.{starts_with_deny, denies_itself, set_access-starts_with_deny}

-- The entry behind the path, if there is one, is that of a folder.
abbrev pub is_folder : Option Entry → Bool
is_folder none = true
is_folder (some entry) = not entry.namespace_directory

-- The entry behind the path, or the one that try_emplace makes.
abbrev pub entry_or_new : Option Entry → Entry
entry_or_new none = new_entry
entry_or_new (some entry) = entry

-- The folder's own list denies the account full access already.
abbrev pub denies_already : Disk → Wide → State → Bool
denies_already disk path s =
    denies_itself (token_of disk s.scope) (entry_or_new (find_entry path s.scope.entries))
      file_all_access (s.dacls path)

denies_itself_new :
    (token : Token) (is_open : Bool) (mask : ℕ) (dacl : Option Acl)
    → denies_itself token (record new_entry { is_open = is_open }) mask dacl
      ≡ denies_itself token new_entry mask dacl
unfolding preserved is_added
denies_itself_new token is_open mask none = refl
denies_itself_new token is_open mask (some original) = refl

not_found :
    (path : Wide) (entries : Entries)
    → is_known path entries ≡ false
    → find_entry path entries ≡ none
not_found path entries h = elim (Option-cases (find_entry path entries)) [
  | inl e ↦ e
  | inr (entry, e) ↦ ground (arith, e, h)
]

module _ (disk : Disk) where
  access_found-starts_with_deny :
      (path : Wide) (found : Option Entry) (s : State)
      → is_folder found ≡ true
      → denies_itself (token_of disk s.scope) (entry_or_new found) file_all_access (s.dacls path)
        ≡ false
      → (access_found disk path file_all_access false found s).0 ≡ 0
      → starts_with_deny s.scope.user_sid file_all_access
          (((access_found disk path file_all_access false found s).1).dacls path)
        ≡ true
  unfolding access_found
  access_found-starts_with_deny path none s folder own h = ground arith
  access_found-starts_with_deny path (some entry) s folder own h = rw (text_eq_refl path) (
      set_access-starts_with_deny (token_of disk s.scope) entry file_all_access (ground arith) refl
        (calls_on entry (disk.calls s.moment)) false (s.dacls path) own h)

  access_at-starts_with_deny :
      (path : Wide) (s : State)
      → is_folder (find_entry path s.scope.entries) ≡ true
      → denies_already disk path s ≡ false
      → (access_at disk path file_all_access false s).0 ≡ 0
      → starts_with_deny s.scope.user_sid file_all_access
          (((access_at disk path file_all_access false s).1).dacls path)
        ≡ true
  unfolding access_at
  access_at-starts_with_deny path s =
      access_found-starts_with_deny path (find_entry path s.scope.entries) s

  emplace-folder :
      (path : Wide) (is_open : Bool) (s : State)
      → is_folder (find_entry path s.scope.entries) ≡ true
      → is_folder (find_entry path (emplace path is_open s).scope.entries) ≡ true
  unfolding emplace
  emplace-folder path is_open s h = elim (Bool-cases (is_known path s.scope.entries)) [
    | inl e ↦ rw e h
    | inr e ↦
        rw (e, find_entry-put_entry path (record new_entry { is_open = is_open }) s.scope.entries)
          refl
  ]

  emplace-denies_already :
      (path : Wide) (is_open : Bool) (s : State)
      → denies_already disk path (emplace path is_open s) ≡ denies_already disk path s
  unfolding emplace
  emplace-denies_already path is_open s = elim (Bool-cases (is_known path s.scope.entries)) [
    | inl e ↦ rw e refl
    | inr e ↦
        rw
          (
            e,
            find_entry-put_entry path (record new_entry { is_open = is_open }) s.scope.entries,
            not_found path s.scope.entries e,
          )
          (denies_itself_new (token_of disk s.scope) is_open file_all_access (s.dacls path))
  ]

  emplace-scope :
      (path : Wide) (is_open : Bool) (s : State)
      → ((emplace path is_open s).scope.user_sid ≡ s.scope.user_sid)
        × ((emplace path is_open s).scope.allowed ≡ s.scope.allowed)
  unfolding emplace
  emplace-scope path is_open s = elim (Bool-cases (is_known path s.scope.entries)) [
    | inl e ↦ rw e (refl, refl)
    | inr e ↦ rw e (refl, refl)
  ]

  visit_entry-starts_with_deny :
      (visitor : Visitor) (path : Wide) (s : State)
      → is_folder (find_entry path s.scope.entries) ≡ true
      → denies_already disk path s ≡ false
      → any_of (λ root. is_within path root) s.scope.allowed ≡ false
      → any_of (λ root. is_within root path) s.scope.allowed ≡ false
      → (visit_entry disk visitor path s).0 ≡ 0
      → starts_with_deny s.scope.user_sid file_all_access
          (((visit_entry disk visitor path s).1).dacls path)
        ≡ true
  unfolding visit_entry
  visit_entry-starts_with_deny visitor path s folder own apart beside h =
      ground (arith, apart, beside, access_at-starts_with_deny path (tick s) folder own)

  -- A visit that succeeds, of a folder that is neither within an allowed folder nor around one,
  -- leaves it with a list whose first entry denies the account full access, where the list of the
  -- folder without what the scope has added did not deny the account that already.
  pub visit-starts_with_deny :
      (levels : ℕ) (path : Wide) (is_open : Bool) (s : State)
      → is_folder (find_entry path s.scope.entries) ≡ true
      → denies_already disk path s ≡ false
      → any_of (λ root. is_within path root) s.scope.allowed ≡ false
      → any_of (λ root. is_within root path) s.scope.allowed ≡ false
      → (visit disk levels path is_open s).0 ≡ 0
      → starts_with_deny s.scope.user_sid file_all_access
          (((visit disk levels path is_open s).1).dacls path)
        ≡ true
  unfolding visit
  visit-starts_with_deny zero path is_open s folder own apart beside h = ground arith
  visit-starts_with_deny (suc levels) path is_open s folder own apart beside h =
      let counted = record (failing_at path (tick s)) { remaining = s.remaining - 1 } in
      let made = emplace path is_open counted in
      let same = emplace-scope path is_open counted in
      let denies : (visit_entry disk (visit disk levels) path made).0 ≡ 0
          → starts_with_deny s.scope.user_sid file_all_access
              (((visit_entry disk (visit disk levels) path made).1).dacls path)
            ≡ true =
        subst
          (λ user.
            (visit_entry disk (visit disk levels) path made).0 ≡ 0
            → starts_with_deny user file_all_access
                (((visit_entry disk (visit disk levels) path made).1).dacls path)
              ≡ true)
          same.0
          (visit_entry-starts_with_deny (visit disk levels) path made
            (emplace-folder path is_open counted folder)
            (emplace-denies_already path is_open counted ∙ own)
            (subst (λ allowed. any_of (λ root. is_within path root) allowed ≡ false) (sym same.1)
              apart)
            (subst (λ allowed. any_of (λ root. is_within root path) allowed ≡ false) (sym same.1)
              beside)) in
      ground (arith, denies)
