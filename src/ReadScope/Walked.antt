-- ===== src/ReadScope/Walked.antt =====
-- src/broker/BrokerReadScope.cpp: Visit and Restore keep account of what they change, wherever they
-- stop.
use launch_as.Base.{
  ℕ, zero, suc, ◌-◌, ◌≡◌, refl, subst, Bool, true, false, not, ◌||◌, Option, none, some, List, [],
  ◌∷◌, ◌++◌, arith, ltb, ◌==◌, if◌then◌else◌, Wide, codes, length, any_of, text_eq,
}
use launch_as.ReadScope.{
  Sid, Acl, Entry, is_within, ancestor_deny, file_all_access, error_access_denied, error_directory,
  error_timeout, error_not_enough_quota,
}
use launch_as.ReadScope.Restored.{set_access-has_no_deny}
use launch_as.ReadScope.Entries.{find_entry, keys, find_entry-put_entry}
use launch_as.ReadScope.Scope.{
  Disk, State, Child, access_at, access_found, tick, failing_at, is_known, emplace, is_touched,
  token_of, calls_on, access_entry,
}
use launch_as.ReadScope.Visit.{
  Visitor, keys_below, has_grant, keeps_grant, release_below, visit_readable, visit_child,
  visit_children, visit_buffers, visit_entry, visit, maximum_entries, error_no_more_files,
}
use launch_as.ReadScope.Pinned.{
  IsPinned, access_at-IsPinned, erase_entry-IsPinned, emplace-IsPinned,
}

module _ (disk : Disk) (user : Sid) (base : Wide → Option Acl) where
  pub record Pins (result : ℕ × State) : Type 0 where
    pub pins : IsPinned disk user base (result.1)

  pub if-Pins :
      (b : Bool) {x y : ℕ × State}
      → (b ≡ true → Pins x)
      → (b ≡ false → Pins y)
      → Pins (if b then x else y)
  if-Pins true hx hy = hx refl
  if-Pins false hx hy = hy refl

  pub moved-IsPinned :
      (s : State) (moment remaining : ℕ)
      → IsPinned disk user base s
      → IsPinned disk user base (record s { moment = moment; remaining = remaining })
  moved-IsPinned s moment remaining h = record { user_stays = h.user_stays; stands = h.stands }

  pub failing_at-IsPinned :
      (path : Wide) (s : State)
      → IsPinned disk user base s
      → IsPinned disk user base (failing_at path s)
  failing_at-IsPinned path s h = record { user_stays = h.user_stays; stands = h.stands }

  tick-Pins : (error : ℕ) (s : State) → IsPinned disk user base s → Pins (error, tick s)
  tick-Pins error s h = record { pins = moved-IsPinned s (suc (s.moment)) s.remaining h }

  access_at-Pins :
      (path : Wide) (mask : ℕ) (readable_root : Bool) (s : State)
      → IsPinned disk user base s
      → Pins (access_at disk path mask readable_root s)
  access_at-Pins path mask readable_root s h = record {
    pins = access_at-IsPinned disk user base path mask readable_root s h;
  }

  -- What a folder that keeps no grant has after a deny was taken back.
  access_found-untouched :
      (path : Wide) (found : Option Entry) (s : State)
      → (access_found disk path 0 true found s).0 ≡ 0
      → keeps_grant path ((access_found disk path 0 true found s).1).scope.entries ≡ false
      → is_touched disk (find_entry path ((access_found disk path 0 true found s).1).scope.entries)
        ≡ false
  unfolding access_found
  access_found-untouched path none s h keeps = ground arith
  access_found-untouched path (some entry) s h keeps =
      let entry' = (access_entry disk path 0 true entry s).entry in
      let found = find_entry-put_entry path entry' s.scope.entries in
      let grantless : entry'.added_traverse_grant ≡ false =
        subst (λ o. has_grant o ≡ false) found keeps in
      let no_deny =
        set_access-has_no_deny (token_of disk s.scope) (calls_on entry (disk.calls s.moment)) entry
          true (s.dacls path) h in
      rw found (ground (arith, no_deny, grantless))

  access_at-untouched :
      (path : Wide) (s : State)
      → not ((access_at disk path 0 true s).0 == 0) ≡ false
      → keeps_grant path ((access_at disk path 0 true s).1).scope.entries ≡ false
      → is_touched disk (find_entry path ((access_at disk path 0 true s).1).scope.entries) ≡ false
  unfolding access_at
  access_at-untouched path s h keeps =
      access_found-untouched path (find_entry path s.scope.entries) s (ground arith) keeps

  release_below-Pins :
      (paths : List Wide) (s : State)
      → IsPinned disk user base s
      → Pins (release_below disk paths s)
  unfolding release_below
  release_below-Pins [] s h = record { pins = h }
  release_below-Pins (path ∷ rest) s h =
      let here = access_at disk path 0 true s in
      let kept = access_at-IsPinned disk user base path 0 true s h in
      if-Pins (not (here.0 == 0)) (λ e. record { pins = failing_at-IsPinned path (here.1) kept })
        (λ done.
          if-Pins (keeps_grant path (here.1).scope.entries)
            (λ e. release_below-Pins rest (here.1) kept)
            (λ e. release_below-Pins rest _ (
              erase_entry-IsPinned disk user base path (here.1) kept
                (access_at-untouched path s done e))))

  visit_readable-Pins :
      (path : Wide) (s : State) → IsPinned disk user base s → Pins (visit_readable disk path s)
  unfolding visit_readable
  visit_readable-Pins path s h =
      let here = access_at disk path 0 true s in
      let kept = access_at-Pins path 0 true s h in
      if-Pins (not (here.0 == 0)) (λ e. kept)
        (λ e.
          release_below-Pins (keys_below path (keys (here.1).scope.entries)) (here.1) (kept.pins))

  abbrev Careful : Visitor → Type 0
  Careful visitor =
      (path : Wide) (is_open : Bool) (s : State)
      → IsPinned disk user base s
      → Pins (visitor path is_open s)

  module _ (visitor : Visitor) (careful : Careful visitor) (path : Wide) where
    visit_child-Pins :
        (child : Child) (s : State)
        → IsPinned disk user base s
        → Pins (visit_child disk visitor path child s)
    unfolding visit_child
    visit_child-Pins child s h =
        let child_path = path ++ 92 ∷ child.name in
        let opened = disk.open_relative s.moment child_path in
        let failing = failing_at-IsPinned child_path s h in
        if-Pins
          (text_eq child.name (codes ".")
            || text_eq child.name (codes "..")
            || not child.is_directory)
          (λ e. record { pins = h })
          (λ e.
            if-Pins (is_known child_path s.scope.entries) (λ e. careful child_path false s h)
              (λ e.
                if-Pins (not (opened == 0))
                  (λ e. tick-Pins opened (failing_at child_path s) failing)
                  (λ e. careful child_path true (tick (failing_at child_path s)) (
                    moved-IsPinned (failing_at child_path s) (suc (s.moment)) s.remaining
                      failing))))

    visit_children-Pins :
        (children : List Child) (s : State)
        → IsPinned disk user base s
        → Pins (visit_children disk visitor path children s)
    unfolding visit_children
    visit_children-Pins [] s h = record { pins = h }
    visit_children-Pins (child ∷ rest) s h =
        let started = record (tick s) { remaining = s.remaining - 1 } in
        let here = visit_child disk visitor path child started in
        let kept =
          visit_child-Pins child started (moved-IsPinned s (suc (s.moment)) (s.remaining - 1) h) in
        if-Pins (disk.is_late s.moment) (λ e. tick-Pins error_timeout s h)
          (λ e.
            if-Pins (s.remaining == 0) (λ e. tick-Pins error_not_enough_quota s h)
              (λ e.
                if-Pins (not (here.0 == 0)) (λ e. kept)
                  (λ e. visit_children-Pins rest (here.1) (kept.pins))))

    visit_buffers-Pins :
        (end_error : ℕ) (buffers : List (List Child)) (s : State)
        → IsPinned disk user base s
        → Pins (visit_buffers disk visitor path end_error buffers s)
    unfolding visit_buffers
    visit_buffers-Pins end_error [] s h =
        let ticked = moved-IsPinned s (suc (s.moment)) s.remaining h in
        if-Pins (disk.is_late s.moment) (λ e. tick-Pins error_timeout s h)
          (λ e.
            if-Pins (end_error == error_no_more_files)
              (λ e. access_at-Pins path ancestor_deny false (tick s) ticked)
              (λ e. tick-Pins end_error s h))
    visit_buffers-Pins end_error (buffer ∷ rest) s h =
        let here = visit_children disk visitor path buffer (tick s) in
        let kept =
          visit_children-Pins buffer (tick s) (moved-IsPinned s (suc (s.moment)) s.remaining h) in
        if-Pins (disk.is_late s.moment) (λ e. tick-Pins error_timeout s h)
          (λ e.
            if-Pins (not (here.0 == 0)) (λ e. kept)
              (λ e. visit_buffers-Pins end_error rest (here.1) (kept.pins)))

    visit_entry-Pins :
        (s : State) → IsPinned disk user base s → Pins (visit_entry disk visitor path s)
    unfolding visit_entry
    visit_entry-Pins s h =
        let attributes = disk.attributes s.moment path in
        let listing = disk.listing s.moment path in
        let readable = any_of (λ root. is_within path root) s.scope.allowed in
        let ancestor = any_of (λ root. is_within root path) s.scope.allowed in
        let ticked = moved-IsPinned s (suc (s.moment)) s.remaining h in
        if-Pins (not (attributes.error == 0)) (λ e. tick-Pins attributes.error s h)
          (λ e.
            if-Pins (not attributes.is_directory) (λ e. tick-Pins error_directory s h)
              (λ e.
                if-Pins readable (λ e. visit_readable-Pins path (tick s) ticked)
                  (λ e.
                    if-Pins (not ancestor)
                      (λ e. access_at-Pins path file_all_access false (tick s) ticked)
                      (λ e.
                        if-Pins attributes.is_reparse_point (λ e. tick-Pins error_access_denied s h)
                          (λ e.
                            visit_buffers-Pins listing.error listing.buffers (tick s) ticked)))))

  pub visit-Pins :
      (levels : ℕ) (path : Wide) (is_open : Bool) (s : State)
      → IsPinned disk user base s
      → Pins (visit disk levels path is_open s)
  unfolding visit
  visit-Pins zero path is_open s h =
      let started =
        failing_at-IsPinned path (tick s) (moved-IsPinned s (suc (s.moment)) s.remaining h) in
      if-Pins (disk.is_late s.moment) (λ e. record { pins = started })
        (λ e. record { pins = started })
  visit-Pins (suc levels) path is_open s h =
      let begun = failing_at path (tick s) in
      let started =
        failing_at-IsPinned path (tick s) (moved-IsPinned s (suc (s.moment)) s.remaining h) in
      let counted = record begun { remaining = s.remaining - 1 } in
      let counts = moved-IsPinned begun (suc (s.moment)) (s.remaining - 1) started in
      let closed = emplace path false counted in
      if-Pins (disk.is_late s.moment) (λ e. record { pins = started })
        (λ e.
          if-Pins (s.remaining == 0) (λ e. record { pins = started })
            (λ e.
              if-Pins (ltb maximum_entries (length closed.scope.entries))
                (λ e. record { pins = emplace-IsPinned disk user base path false counted counts })
                (λ e.
                  visit_entry-Pins (visit disk levels) (visit-Pins levels) path
                    (emplace path is_open counted)
                    (emplace-IsPinned disk user base path is_open counted counts))))
