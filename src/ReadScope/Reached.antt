-- ===== src/ReadScope/Reached.antt =====
-- src/broker/BrokerReadScope.cpp: what any sequence of Ensure and Restore keeps account of.
use launch_as.Base.{
  ℕ, suc, inl, inr, true, false, not, Option, none, some, List, [], ◌∷◌, ◌==◌, Bool-cases, Wide,
}
use launch_as.ReadScope.{Sid, Acl}
use launch_as.ReadScope.Scope.{Disk, State, failing_at}
use launch_as.ReadScope.Visit.{visit, maximum_depth}
use launch_as.ReadScope.Pinned.{IsPinned}
use launch_as.ReadScope.Walked.{Pins, if-Pins, failing_at-IsPinned, visit-Pins}
use launch_as.ReadScope.Roots.{
  Launch, add_roots, find_volume, with_volume, visit_new_volume, visit_volume, visit_volumes,
  ensure_allowed, broadest, sort_texts,
}

module _ (disk : Disk) (launch : Launch) (user : Sid) (base : Wide → Option Acl) where
  with_volume-IsPinned :
      (name path : Wide) (s : State)
      → IsPinned disk user base s
      → IsPinned disk user base (with_volume name path s)
  with_volume-IsPinned name path s h = record { user_stays = h.user_stays; stands = h.stands }

  allowed-IsPinned :
      (roots : List Wide) (remaining : ℕ) (s : State)
      → IsPinned disk user base s
      → IsPinned disk user base
          (record s { scope = record (s.scope) { allowed = roots }; remaining = remaining })
  allowed-IsPinned roots remaining s h = record { user_stays = h.user_stays; stands = h.stands }

  visit_new_volume-Pins :
      (name : Wide) (s : State)
      → IsPinned disk user base s
      → Pins disk user base (visit_new_volume disk launch name s)
  unfolding visit_new_volume
  visit_new_volume-Pins name s h =
      let volume = launch.volume name in
      let here = visit disk (suc maximum_depth) volume.name true s in
      let kept = visit-Pins disk user base (suc maximum_depth) volume.name true s h in
      if-Pins disk user base (not (volume.error == 0)) (λ e. record { pins = h })
        (λ e.
          if-Pins disk user base (not volume.has_persistent_acls) (λ e. record { pins = h })
            (λ e.
              if-Pins disk user base (not (volume.name_error == 0)) (λ e. record { pins = h })
                (λ e.
                  if-Pins disk user base (here.0 == 0)
                    (λ e. record {
                      pins = with_volume-IsPinned name volume.name (here.1) (kept.pins);
                    })
                    (λ e. kept))))

  visit_volume-Pins :
      (name : Wide) (known : Option Wide) (s : State)
      → IsPinned disk user base s
      → Pins disk user base (visit_volume disk launch name known s)
  unfolding visit_volume
  visit_volume-Pins name none s h = visit_new_volume-Pins name s h
  visit_volume-Pins name (some path) s h =
      visit-Pins disk user base (suc maximum_depth) path false s h

  visit_volumes-Pins :
      (names : List Wide) (s : State)
      → IsPinned disk user base s
      → Pins disk user base (visit_volumes disk launch names s)
  unfolding visit_volumes
  visit_volumes-Pins [] s h = record { pins = failing_at-IsPinned disk user base [] s h }
  visit_volumes-Pins (name ∷ rest) s h =
      let failing = failing_at name s in
      let here = visit_volume disk launch name (find_volume name s.scope.volumes) failing in
      let kept =
        visit_volume-Pins name (find_volume name s.scope.volumes) failing
          (failing_at-IsPinned disk user base name s h) in
      if-Pins disk user base (here.0 == 0) (λ e. visit_volumes-Pins rest (here.1) (kept.pins))
        (λ e. kept)

  add_roots-IsPinned :
      (roots allowed : List Wide) (s : State)
      → IsPinned disk user base s
      → IsPinned disk user base ((add_roots launch roots allowed s).1.1)
  unfolding add_roots
  add_roots-IsPinned [] allowed s h = h
  add_roots-IsPinned (root ∷ rest) allowed s h =
      let failing = failing_at-IsPinned disk user base root s h in
      elim (Bool-cases (launch.canonical_error root == 0)) [
        | inl e ↦ rw e (add_roots-IsPinned rest _ _ failing)
        | inr e ↦ rw e failing
      ]

  pub ensure_allowed-Pins :
      (volumes readable : List Wide) (maximum_objects : ℕ) (s : State)
      → IsPinned disk user base s
      → Pins disk user base (ensure_allowed disk launch volumes readable maximum_objects s)
  unfolding ensure_allowed
  ensure_allowed-Pins volumes readable maximum_objects s h =
      let added = add_roots launch readable s.scope.allowed s in
      let after = (added.1).1 in
      let kept = add_roots-IsPinned readable s.scope.allowed s h in
      let roots = broadest [] (sort_texts ((added.1).0)) in
      let ready = record after {
        scope = record (after.scope) { allowed = roots };
        remaining = maximum_objects;
      } in
      if-Pins disk user base (added.0 == 0)
        (λ e. visit_volumes-Pins volumes ready (allowed-IsPinned roots maximum_objects after kept))
        (λ e. record { pins = kept })
