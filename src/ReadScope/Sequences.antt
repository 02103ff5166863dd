-- ===== src/ReadScope/Sequences.antt =====
-- src/broker/BrokerReadScope.cpp: sequences of EnsureRoots, EnsureNamespaceDirectories and Restore.
use launch_as.Base.{
  ℕ, ◌≡◌, refl, inl, inr, true, false, Option, List, [], arith, ◌==◌, Bool-cases, Wide, is_empty,
  all_of,
}
use launch_as.ReadScope.{Acl}
use launch_as.ReadScope.Entries.{find_entry}
use launch_as.ReadScope.Scope.{Disk, State, new_scope, restore, restore_entries}
use launch_as.ReadScope.Users.{IsKept, pinned-IsKept, ensure_roots-IsKept}
use launch_as.ReadScope.Namespace.{free_at, ensure_each-Pins}
use launch_as.ReadScope.Returned.{restore-returns, restore-IsPinned, restore-new_scope}
use launch_as.ReadScope.Roots.{Launch, ensure_roots, ensure_namespace_directories}

-- An operation of the scope, whatever the calls report. The SID of a token is not empty, and the
-- directories of the namespace are not folders that the scope has changed.
pub data Step (disk : Disk) : State → State → Type 0 where
  ensures_roots :
      (launch : Launch) (volumes readable : List Wide) (profile work : Wide) (maximum_objects : ℕ)
      (s : State)
      → is_empty launch.user ≡ false
      → Step disk s ((ensure_roots disk launch volumes readable profile work maximum_objects s).1)
  ensures_namespace :
      (launch : Launch) (paths : List Wide) (s : State)
      → all_of (λ path. free_at disk launch path s) paths ≡ true
      → Step disk s ((ensure_namespace_directories disk launch paths s).1)
  restores : (s : State) → Step disk s ((restore disk s).1)

-- From a new scope, with the lists that the objects have then.
pub data Reachable (disk : Disk) (base : Wide → Option Acl) : State → Type 0 where
  starts :
      (moment remaining : ℕ)
      → Reachable disk base
          (record { scope = new_scope; dacls = base; moment = moment; remaining = remaining })
  continues :
      {before after : State}
      → Reachable disk base before
      → Step disk before after
      → Reachable disk base after

restore-no_entries : (disk : Disk) (s : State) → s.scope.entries ≡ [] → (restore disk s).0 ≡ 0
unfolding restore restore_entries
restore-no_entries disk s e = rw e refl

module _ (disk : Disk) (base : Wide → Option Acl) where
  new_scope-IsKept :
      (s : State)
      → s.scope.entries ≡ []
      → ((path : Wide) → s.dacls path ≡ base path)
      → IsKept disk base s
  unfolding find_entry
  new_scope-IsKept s vacant own = record {
    pinned = record { user_stays = refl; stands = λ path. rw vacant (own path) };
    vacant = λ e. vacant;
  }

  restore-IsKept : (s : State) → IsKept disk base s → IsKept disk base ((restore disk s).1)
  restore-IsKept s h = elim (Bool-cases ((restore disk s).0 == 0)) [
    | inl e ↦
        new_scope-IsKept ((restore disk s).1) ((restore-new_scope disk s (ground arith)).0)
          (restore-returns disk s.scope.user_sid base s (h.pinned) (ground arith))
    | inr e ↦
        let left = restore-IsPinned disk s.scope.user_sid base s (h.pinned) e in
        elim (Bool-cases (is_empty s.scope.user_sid)) [
          | inl empty ↦ let done = restore-no_entries disk s (h.vacant empty) in ground arith
          | inr given ↦ pinned-IsKept disk base s.scope.user_sid _ given left
        ]
  ]

  ensure_namespace_directories-IsKept :
      (launch : Launch) (paths : List Wide) (s : State)
      → IsKept disk base s
      → all_of (λ path. free_at disk launch path s) paths ≡ true
      → IsKept disk base ((ensure_namespace_directories disk launch paths s).1)
  unfolding ensure_namespace_directories
  ensure_namespace_directories-IsKept launch paths s h free =
      elim (Bool-cases (is_empty s.scope.user_sid)) [
        | inl e ↦ rw e h
        | inr e ↦ rw e (
            pinned-IsKept disk base s.scope.user_sid _ e
              ((ensure_each-Pins disk launch s.scope.user_sid base paths s (h.pinned) free).pins))
      ]

  Step-IsKept :
      {before after : State}
      → Step disk before after
      → IsKept disk base before
      → IsKept disk base after
  Step-IsKept (ensures_roots launch volumes readable profile work maximum_objects s given) h =
      ensure_roots-IsKept disk launch base given volumes readable profile work maximum_objects s h
  Step-IsKept (ensures_namespace launch paths s free) h =
      ensure_namespace_directories-IsKept launch paths s h free
  Step-IsKept (restores s) h = restore-IsKept s h

  Reachable-IsKept : {s : State} → Reachable disk base s → IsKept disk base s
  Reachable-IsKept (starts moment remaining) = new_scope-IsKept _ refl (λ path. refl)
  Reachable-IsKept (continues r step) = Step-IsKept step (Reachable-IsKept r)

  -- Whatever sequence of EnsureRoots, EnsureNamespaceDirectories and Restore the scope runs,
  -- wherever each of them fails, a Restore that then reports success gives every object the access
  -- control list that it had before the scope: where the SIDs of the tokens are not empty, and no
  -- folder that the scope has changed goes by the name of a namespace directory.
  pub restore-Reachable :
      {s : State}
      → Reachable disk base s
      → (restore disk s).0 ≡ 0
      → (path : Wide) → ((restore disk s).1).dacls path ≡ base path
  restore-Reachable {s = s} r done path =
      restore-returns disk s.scope.user_sid base s ((Reachable-IsKept r).pinned) done path
