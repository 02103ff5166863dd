-- ===== src/ReadScope/Users.antt =====
-- src/broker/BrokerReadScope.cpp: EnsureRoots, for the account of a token, and
-- EnsureNamespaceDirectories.
use launch_as.Base.{
  ℕ, ◌≡◌, refl, sym, subst, inl, inr, true, false, not, ◌&&◌, Option, none, some, List, [], ◌∷◌,
  ◌++◌, arith, ◌==◌, Bool-cases, Wide, is_empty, text_eq, text_eq_sound,
}
use launch_as.ReadScope.{Sid, Acl, Entry}
use launch_as.ReadScope.Access.{Token, Group, is_added}
use launch_as.ReadScope.Leased.{IsLeased, leased}
use launch_as.ReadScope.Entries.{find_entry}
use launch_as.ReadScope.Scope.{Disk, State, failing_at, token_of}
use launch_as.ReadScope.Pinned.{IsPinned, Stands}
use launch_as.ReadScope.Walked.{failing_at-IsPinned}
use launch_as.ReadScope.Reached.{ensure_allowed-Pins}
use launch_as.ReadScope.Roots.{Launch, ensure_roots, with_user, with_groups}

abbrev with_groups_of : List Group → Token → Token
with_groups_of groups token = record token { groups = groups }

-- The groups of the token have no part in what was added.
regrouped-IsLeased :
    (token : Token) (groups : List Group) (entry : Entry) (base dacl : Option Acl)
    → IsLeased token entry base dacl
    → IsLeased (with_groups_of groups token) entry base dacl
unfolding is_added leased
regrouped-IsLeased token groups entry none dacl h = record { apart = refl; current = h.current }
regrouped-IsLeased token groups entry (some base) dacl h = record {
  apart = h.apart;
  current = h.current;
}

regrouped-Stands :
    (token : Token) (groups : List Group) (found : Option Entry) (base dacl : Option Acl)
    → Stands token found base dacl
    → Stands (with_groups_of groups token) found base dacl
regrouped-Stands token groups none base dacl h = h
regrouped-Stands token groups (some entry) base dacl h =
    regrouped-IsLeased token groups entry base dacl h

-- What the scope keeps account of between its operations: `base` has the lists that the objects had
-- before it, and a scope without an account has no entries.
pub record IsKept (disk : Disk) (base : Wide → Option Acl) (s : State) : Type 0 where
  pub pinned : IsPinned disk s.scope.user_sid base s
  pub vacant : is_empty s.scope.user_sid ≡ true → s.scope.entries ≡ []

module _ (disk : Disk) (base : Wide → Option Acl) where
  with_groups-IsPinned :
      (user : Sid) (groups : List Group) (s : State)
      → IsPinned disk user base s
      → IsPinned disk user base (with_groups groups s)
  with_groups-IsPinned user groups s h = record {
    user_stays = h.user_stays;
    stands = λ path.
        regrouped-Stands (token_of disk s.scope) groups (find_entry path s.scope.entries)
          (base path) (s.dacls path) (h.stands path);
  }

  same_user-IsPinned :
      (user : Sid) (s : State)
      → s.scope.user_sid ≡ user
      → IsPinned disk (s.scope.user_sid) base s
      → IsPinned disk user base (with_user user s)
  same_user-IsPinned user s e h = record {
    user_stays = refl;
    stands = λ path.
        subst
          (λ u.
            Stands (record (token_of disk s.scope) { user_sid = u })
              (find_entry path s.scope.entries) (base path) (s.dacls path))
          e (h.stands path);
  }

  new_user-IsPinned :
      (user : Sid) (s : State)
      → s.scope.entries ≡ []
      → IsPinned disk (s.scope.user_sid) base s
      → IsPinned disk user base (with_user user s)
  unfolding find_entry
  new_user-IsPinned user s e h = record {
    user_stays = refl;
    stands = λ path.
        let own : s.dacls path ≡ base path =
          subst
            (λ es. Stands (token_of disk s.scope) (find_entry path es) (base path) (s.dacls path)) e
            (h.stands path) in
        subst
          (λ es.
            Stands (record (token_of disk s.scope) { user_sid = user }) (find_entry path es)
              (base path) (s.dacls path))
          (sym e) own;
  }

  with_user-IsPinned :
      (user : Sid) (s : State)
      → IsKept disk base s
      → (not (is_empty s.scope.user_sid) && not (text_eq s.scope.user_sid user)) ≡ false
      → IsPinned disk user base (with_user user s)
  with_user-IsPinned user s h allowed = elim (Bool-cases (is_empty s.scope.user_sid)) [
    | inl e ↦ new_user-IsPinned user s (h.vacant e) (h.pinned)
    | inr e ↦
        same_user-IsPinned user s (text_eq_sound s.scope.user_sid user (ground arith)) (h.pinned)
  ]

  pub pinned-IsKept :
      (user : Sid) (s : State)
      → is_empty user ≡ false
      → IsPinned disk user base s
      → IsKept disk base s
  pinned-IsKept user s given h = record {
    pinned = subst (λ u. IsPinned disk u base s) (sym (h.user_stays)) h;
    vacant = λ e. let u = h.user_stays in cc;
  }

module _ (disk : Disk) (launch : Launch) (base : Wide → Option Acl)
    (given : is_empty launch.user ≡ false) where
  started-IsKept :
      (path : Wide) (s : State) → IsKept disk base s → IsKept disk base (failing_at path s)
  started-IsKept path s h = record {
    pinned = failing_at-IsPinned disk s.scope.user_sid base path s (h.pinned);
    vacant = h.vacant;
  }

  -- EnsureRoots keeps account, wherever it stops.
  pub ensure_roots-IsKept :
      (volumes readable : List Wide) (profile work : Wide) (maximum_objects : ℕ) (s : State)
      → IsKept disk base s
      → IsKept disk base
          ((ensure_roots disk launch volumes readable profile work maximum_objects s).1)
  unfolding ensure_roots
  ensure_roots-IsKept volumes readable profile work maximum_objects s h =
      let started = started-IsKept [] s h in
      let begun = failing_at [] s in
      let apart = not (is_empty s.scope.user_sid) && not (text_eq s.scope.user_sid launch.user) in
      elim (Bool-cases (not (launch.user_error == 0))) [
        | inl e ↦ rw e started
        | inr e ↦ rw e (elim (Bool-cases apart) [
          | inl f ↦ rw f started
          | inr f ↦
              let known = with_user-IsPinned disk base launch.user begun started f in
              rw f (elim (Bool-cases (not (launch.groups_error == 0))) [
                | inl g ↦ rw g (pinned-IsKept disk base launch.user _ given known)
                | inr g ↦ rw g (
                    pinned-IsKept disk base launch.user _ given (
                      (ensure_allowed-Pins disk launch launch.user base volumes
                        (readable ++ profile ∷ work ∷ []) maximum_objects
                        (with_groups launch.groups (with_user launch.user begun))
                        (with_groups-IsPinned disk base launch.user launch.groups
                          (with_user launch.user begun) known)).pins))
              ])
        ])
      ]
