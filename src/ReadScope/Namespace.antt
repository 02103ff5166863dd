-- ===== src/ReadScope/Namespace.antt =====
-- src/broker/BrokerReadScope.cpp: EnsureNamespaceDirectories, whose entries are not those of folders.
use launch_as.Base.{
  ℕ, ◌≡◌, refl, ◌∙◌, subst, inl, inr, Bool, true, false, not, ◌&&◌, ◌||◌, Option, none, some, List,
  [], ◌∷◌, arith, ltb, ◌==◌, Bool-cases, Wide, length, all_of,
}
use launch_as.ReadScope.{Sid, Acl, Entry, new_entry, directory_traverse}
use launch_as.ReadScope.Access.{
  Token, AccessCalls, is_untouched, is_added, set_access, change_dacl, store_dacl,
}
use launch_as.ReadScope.Leased.{IsLeased, leased}
use launch_as.ReadScope.Restored.{untouched-IsLeased}
use launch_as.ReadScope.Entries.{
  Entries, find_entry, put_entry, find_entry-put_entry, find_entry-put_entry_other, text_eq-cases,
}
use launch_as.ReadScope.Scope.{
  Disk, State, access_at, access_found, access_entry, calls_on, with_entries, failing_at, emplace,
  token_of, is_known,
}
use launch_as.ReadScope.Visit.{maximum_entries}
use launch_as.ReadScope.Pinned.{
  IsPinned, Stands, access_at-IsPinned, emplace-IsPinned, set_entry-IsPinned,
  untouched_entry-IsLeased,
}
use launch_as.ReadScope.Walked.{Pins, if-Pins, failing_at-IsPinned}
use launch_as.ReadScope.Roots.{Launch, namespace_entry, ensure_namespace_directory, ensure_each}

-- No folder that the scope has changed goes by the name of a namespace directory.
abbrev pub is_free : Option Entry → Bool
is_free none = true
is_free (some entry) = entry.namespace_directory || is_untouched entry

opened-IsLeased :
    (token : Token) (entry : Entry) (is_open : Bool) (base dacl : Option Acl)
    → IsLeased token entry base dacl
    → IsLeased token (record entry { is_open = is_open }) base dacl
unfolding is_added leased
opened-IsLeased token entry is_open none dacl h = record { apart = refl; current = h.current }
opened-IsLeased token entry is_open (some base) dacl h = record {
  apart = h.apart;
  current = h.current;
}

namespace_entry-IsLeased :
    (token : Token) (found : Option Entry) (base dacl : Option Acl)
    → Stands token found base dacl
    → is_free found ≡ true
    → IsLeased token (namespace_entry found) base dacl
namespace_entry-IsLeased token none base dacl h free =
    untouched_entry-IsLeased token _ base dacl refl h
namespace_entry-IsLeased token (some entry) base dacl h free =
    elim (Bool-cases (entry.namespace_directory)) [
      | inl e ↦ subst (λ b. IsLeased token (record entry { namespace_directory = b }) base dacl) e h
      | inr e ↦
          let untouched : is_untouched entry ≡ true = ground arith in
          untouched_entry-IsLeased token _ base dacl untouched
            (untouched-IsLeased token entry base dacl h untouched)
    ]

set_access-namespace_directory :
    (calls : AccessCalls) (token : Token) (entry : Entry) (mask : ℕ) (readable_root : Bool)
    (dacl : Option Acl)
    → ((set_access calls token entry mask readable_root dacl).entry).namespace_directory
      ≡ entry.namespace_directory
unfolding set_access change_dacl store_dacl
set_access-namespace_directory calls token entry mask readable_root none = ground arith
set_access-namespace_directory calls token entry mask readable_root (some original) = ground arith

module _ (disk : Disk) (launch : Launch) where
  abbrev pub free_at : Wide → State → Bool
  free_at path s = is_free (find_entry path s.scope.entries)

  put_entry-free :
      (path other : Wide) (entry : Entry) (entries : Entries)
      → is_free (some entry) ≡ true
      → is_free (find_entry other entries) ≡ true
      → is_free (find_entry other (put_entry path entry entries)) ≡ true
  put_entry-free path other entry entries h k = elim (text_eq-cases other path) [
    | inl (same, e) ↦ rw (e, find_entry-put_entry path entry entries) h
    | inr differs ↦ rw (find_entry-put_entry_other other path entry entries differs) k
  ]

  emplace-free :
      (path other : Wide) (s : State)
      → free_at other s ≡ true
      → free_at other (emplace path false s) ≡ true
  unfolding emplace
  emplace-free path other s h = elim (Bool-cases (is_known path s.scope.entries)) [
    | inl e ↦ rw e h
    | inr e ↦ rw e (put_entry-free path other new_entry s.scope.entries refl h)
  ]

  access_found-free :
      (path other : Wide) (entry : Entry) (s : State)
      → entry.namespace_directory ≡ true
      → free_at other s ≡ true
      → free_at other ((access_found disk path directory_traverse false (some entry) s).1) ≡ true
  unfolding access_found
  access_found-free path other entry s h k =
      let changed = (access_entry disk path directory_traverse false entry s).entry in
      let same : changed.namespace_directory ≡ true =
        set_access-namespace_directory (calls_on entry (disk.calls s.moment))
          (token_of disk s.scope) entry directory_traverse false (s.dacls path)
        ∙ h in
      put_entry-free path other changed s.scope.entries (ground (arith, same)) k

  access_at-free :
      (path other : Wide) (entry : Entry) (s : State)
      → entry.namespace_directory ≡ true
      → find_entry path s.scope.entries ≡ some entry
      → free_at other s ≡ true
      → free_at other ((access_at disk path directory_traverse false s).1) ≡ true
  unfolding access_at
  access_at-free path other entry s h found k = rw found (access_found-free path other entry s h k)

  namespace_entry-namespace_directory :
      (found : Option Entry) → (namespace_entry found).namespace_directory ≡ true
  namespace_entry-namespace_directory none = refl
  namespace_entry-namespace_directory (some entry) = refl

  ensure_namespace_directory-free :
      (path other : Wide) (s : State)
      → free_at other s ≡ true
      → free_at other ((ensure_namespace_directory disk launch path s).1) ≡ true
  unfolding ensure_namespace_directory
  ensure_namespace_directory-free path other s h =
      let failing = failing_at path s in
      let made = emplace path false failing in
      let entry = namespace_entry (find_entry path s.scope.entries) in
      let flag = namespace_entry-namespace_directory (find_entry path s.scope.entries) in
      let opened =
        with_entries (put_entry path (record entry { is_open = true }) s.scope.entries) failing in
      let free : is_free (some entry) ≡ true = ground (arith, flag) in
      elim (Bool-cases (ltb maximum_entries (length made.scope.entries))) [
        | inl e ↦ rw e (emplace-free path other failing h)
        | inr e ↦
            rw e (elim (Bool-cases (not entry.is_open && not (launch.open_directory path == 0))) [
              | inl f ↦ rw f (put_entry-free path other entry s.scope.entries free h)
              | inr f ↦ rw f (
                  access_at-free path other (record entry { is_open = true }) opened flag
                    (find_entry-put_entry path _ s.scope.entries)
                    (put_entry-free path other (record entry { is_open = true }) s.scope.entries
                      free h))
            ])
      ]

  ensure_namespace_directory-all_free :
      (path : Wide) (others : List Wide) (s : State)
      → all_of (λ other. free_at other s) others ≡ true
      → all_of (λ other. free_at other ((ensure_namespace_directory disk launch path s).1)) others
        ≡ true
  ensure_namespace_directory-all_free path [] s h = refl
  ensure_namespace_directory-all_free path (other ∷ rest) s h = ground (
    arith,
    ensure_namespace_directory-free path other s,
    ensure_namespace_directory-all_free path rest s,
  )

  module _ (user : Sid) (base : Wide → Option Acl) where
    ensure_namespace_directory-Pins :
        (path : Wide) (s : State)
        → IsPinned disk user base s
        → free_at path s ≡ true
        → Pins disk user base (ensure_namespace_directory disk launch path s)
    unfolding ensure_namespace_directory
    ensure_namespace_directory-Pins path s h free =
        let failing = failing_at path s in
        let started = failing_at-IsPinned disk user base path s h in
        let made = emplace path false failing in
        let entry = namespace_entry (find_entry path s.scope.entries) in
        let own =
          namespace_entry-IsLeased (token_of disk s.scope) (find_entry path s.scope.entries)
            (base path) (s.dacls path) (h.stands path) free in
        let opened =
          with_entries (put_entry path (record entry { is_open = true }) s.scope.entries) failing in
        if-Pins disk user base (ltb maximum_entries (length made.scope.entries))
          (λ e. record { pins = emplace-IsPinned disk user base path false failing started })
          (λ e.
            if-Pins disk user base (not entry.is_open && not (launch.open_directory path == 0))
              (λ e. record {
                pins = set_entry-IsPinned disk user base path entry failing started own;
              })
              (λ e. record {
                pins = access_at-IsPinned disk user base path directory_traverse false opened (
                    set_entry-IsPinned disk user base path (record entry { is_open = true }) failing
                      started
                      (opened-IsLeased (token_of disk s.scope) entry true (base path) (s.dacls path)
                        own));
              }))

    -- The loop keeps account, wherever it stops.
    pub ensure_each-Pins :
        (paths : List Wide) (s : State)
        → IsPinned disk user base s
        → all_of (λ path. free_at path s) paths ≡ true
        → Pins disk user base (ensure_each disk launch paths s)
    unfolding ensure_each
    ensure_each-Pins [] s h free = record { pins = failing_at-IsPinned disk user base [] s h }
    ensure_each-Pins (path ∷ rest) s h free =
        let here = ensure_namespace_directory disk launch path s in
        let kept = ensure_namespace_directory-Pins path s h (ground arith) in
        if-Pins disk user base (here.0 == 0)
          (λ e.
            ensure_each-Pins rest (here.1) (kept.pins)
              (ensure_namespace_directory-all_free path rest s (ground arith)))
          (λ e. kept)
