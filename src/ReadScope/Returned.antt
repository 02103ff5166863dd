-- ===== src/ReadScope/Returned.antt =====
-- src/broker/BrokerReadScope.cpp: Restore gives every object its own list again.
use launch_as.Base.{
  ◌≡◌, refl, sym, ap, subst, inl, inr, Bool, true, false, not, ◌||◌, Option, none, some, List, [],
  ◌∷◌, arith, ◌==◌, Bool-cases, Wide, any_of, text_eq,
}
use launch_as.ReadScope.{Sid, Acl, Entry}
use launch_as.ReadScope.Restored.{set_access-0}
use launch_as.ReadScope.Entries.{
  find_entry, keys, find_entry-put_entry, find_entry-put_entry_other, find_entry-keys,
  text_eq-cases,
}
use launch_as.ReadScope.Scope.{
  Disk, State, access_at, access_found, access_entry, is_touched, token_of, calls_on,
  restore_entries, restore,
}
use launch_as.ReadScope.Pinned.{IsPinned, access_at-IsPinned, untouched-Stands}

module _ (disk : Disk) where
  abbrev touched_at : Wide → State → Bool
  touched_at path s = is_touched disk (find_entry path s.scope.entries)

  access_found-0 :
      (path : Wide) (found : Option Entry) (s : State)
      → (access_found disk path 0 false found s).0 ≡ 0
      → touched_at path ((access_found disk path 0 false found s).1) ≡ false
  unfolding access_found
  access_found-0 path none s h = ground arith
  access_found-0 path (some entry) s h =
      let entry' = (access_entry disk path 0 false entry s).entry in
      rw (find_entry-put_entry path entry' s.scope.entries) (
        ground (
          arith,
          set_access-0 (token_of disk s.scope) (calls_on entry (disk.calls s.moment)) entry
              (s.dacls path) h,
        ))

  access_found-other :
      (path other : Wide) (found : Option Entry) (s : State)
      → text_eq other path ≡ false
      → touched_at other ((access_found disk path 0 false found s).1) ≡ touched_at other s
  unfolding access_found
  access_found-other path other none s h = refl
  access_found-other path other (some entry) s h = ap (is_touched disk) (
      find_entry-put_entry_other other path ((access_entry disk path 0 false entry s).entry)
        s.scope.entries h)

  access_at-0 :
      (path : Wide) (s : State)
      → (access_at disk path 0 false s).0 ≡ 0
      → touched_at path ((access_at disk path 0 false s).1) ≡ false
  unfolding access_at
  access_at-0 path s h = access_found-0 path (find_entry path s.scope.entries) s h

  access_at-other :
      (path other : Wide) (s : State)
      → text_eq other path ≡ false
      → touched_at other ((access_at disk path 0 false s).1) ≡ touched_at other s
  unfolding access_at
  access_at-other path other s h =
      access_found-other path other (find_entry path s.scope.entries) s h

  -- Whoever was not touched, or is among the keys, is not touched after a loop without an error.
  restore_entries-untouched :
      (paths : List Wide) (other : Wide) (s : State)
      → (restore_entries disk paths s).0 ≡ 0
      → (any_of (text_eq other) paths || not (touched_at other s)) ≡ true
      → touched_at other ((restore_entries disk paths s).1) ≡ false
  unfolding restore_entries
  restore_entries-untouched [] other s done h = ground arith
  restore_entries-untouched (path ∷ rest) other s done h =
      let here = access_at disk path 0 false s in
      elim (text_eq-cases other path) [
        | inl (same, e) ↦
            let clears : here.0 ≡ 0 → touched_at other (here.1) ≡ false =
              subst (λ p. here.0 ≡ 0 → touched_at p (here.1) ≡ false) (sym e)
                (access_at-0 path s) in
            let here_too : touched_at other s ≡ touched_at path s = ap (λ p. touched_at p s) e in
            ground (
              arith,
              clears,
              here_too,
              restore_entries-untouched rest other (here.1),
              restore_entries-untouched rest other s,
            )
        | inr differs ↦ ground (
          arith,
          access_at-other path other s differs,
          restore_entries-untouched rest other (here.1),
          restore_entries-untouched rest other s,
        )
      ]

  restore_entries-IsPinned :
      (user : Sid) (base : Wide → Option Acl) (paths : List Wide) (s : State)
      → IsPinned disk user base s
      → IsPinned disk user base ((restore_entries disk paths s).1)
  unfolding restore_entries
  restore_entries-IsPinned user base [] s h = h
  restore_entries-IsPinned user base (path ∷ rest) s h = elim (Bool-cases (touched_at path s)) [
    | inl t ↦ rw t (
        restore_entries-IsPinned user base rest ((access_at disk path 0 false s).1)
          (access_at-IsPinned disk user base path 0 false s h))
    | inr t ↦ rw t (restore_entries-IsPinned user base rest s h)
  ]

  keyed-or_untouched :
      (path : Wide) (s : State)
      → (any_of (text_eq path) (keys s.scope.entries) || not (touched_at path s)) ≡ true
  keyed-or_untouched path s = elim (Bool-cases (any_of (text_eq path) (keys s.scope.entries))) [
    | inl e ↦ ground arith
    | inr e ↦ rw (e, find_entry-keys path s.scope.entries e) refl
  ]

  -- Where the objects had the lists `base` before the scope, a Restore that reports success gives
  -- each of them that list again.
  pub restore-returns :
      (user : Sid) (base : Wide → Option Acl) (s : State)
      → IsPinned disk user base s
      → (restore disk s).0 ≡ 0
      → (path : Wide) → ((restore disk s).1).dacls path ≡ base path
  unfolding restore
  restore-returns user base s h done path =
      let all = keys s.scope.entries in
      let after = (restore_entries disk all s).1 in
      let ended : (restore_entries disk all s).0 ≡ 0 = ground arith in
      let returned : after.dacls path ≡ base path =
        untouched-Stands disk user base (find_entry path after.scope.entries) path after
          ((restore_entries-IsPinned user base all s h).stands path)
          (restore_entries-untouched all path s ended (keyed-or_untouched path s)) in
      rw ended returned

  -- A Restore that reports an error keeps account of what is left to do.
  pub restore-IsPinned :
      (user : Sid) (base : Wide → Option Acl) (s : State)
      → IsPinned disk user base s
      → ((restore disk s).0 == 0) ≡ false
      → IsPinned disk user base ((restore disk s).1)
  unfolding restore
  restore-IsPinned user base s h fails =
      let ended : ((restore_entries disk (keys s.scope.entries) s).0 == 0) ≡ false = ground arith in
      rw ended (restore_entries-IsPinned user base (keys s.scope.entries) s h)

  -- One that reports success starts anew.
  pub restore-new_scope :
      (s : State)
      → (restore disk s).0 ≡ 0
      → (((restore disk s).1).scope.entries ≡ []) × (((restore disk s).1).scope.user_sid ≡ [])
  unfolding restore
  restore-new_scope s h =
      let ended : (restore_entries disk (keys s.scope.entries) s).0 ≡ 0 = ground arith in
      rw ended (refl, refl)
