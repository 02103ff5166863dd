-- ===== src/Sessions/Release.antt =====
-- src/broker/BrokerApplication.cpp: a reservation, HasActiveSession and the release together.
use launch_as.Base.{
  ℕ, suc, ◌-◌, ◌<◌, ◌≡◌, refl, ap, ◌∙◌, inl, inr, Bool, true, false, not, ◌&&◌, ◌||◌, none, some,
  [], ◌∷◌, arith, leb, ◌==◌, if◌then◌else◌, Bool-cases, Option-cases, Wide,
}
use launch_as.Protocol.{BrokerRequest}
use launch_as.Sessions.{
  AccountSessions, Accounts, Application, no_sessions, maximum_concurrent_sessions, find, put,
  erase, observed, reserve, may_join, try_reserve_session, finish_account, finished,
  release_session, has_active_session,
}

module _ (same_name : Wide → Wide → Bool) (reflexive : (a : Wide) → same_name a a ≡ true) where
  find-put :
      (name : Wide) (sessions : AccountSessions) (accounts : Accounts)
      → find same_name name (put same_name name sessions accounts) ≡ some sessions
  unfolding find put
  find-put name sessions [] = rw (reflexive name) refl
  find-put name sessions ((key, old) ∷ rest) =
      let later = find-put name sessions rest in
      elim (Bool-cases (same_name name key)) [
        | inl e ↦ ground (arith, e)
        | inr e ↦ ground (arith, e, later)
      ]

  erase-put :
      (name : Wide) (sessions : AccountSessions) (accounts : Accounts)
      → find same_name name accounts ≡ none
      → erase same_name name (put same_name name sessions accounts) ≡ accounts
  unfolding find put erase
  erase-put name sessions [] h = rw (reflexive name) refl
  erase-put name sessions ((key, old) ∷ rest) h = ground (arith, erase-put name sessions rest)

  put-is_active :
      (name : Wide) (sessions : AccountSessions) (accounts : Accounts) (count : ℕ)
      → has_active_session same_name name (record {
        sessions_by_account = put same_name name sessions accounts;
        session_count = count;
      })
        ≡ true
  unfolding has_active_session
  put-is_active name sessions accounts count =
      rw (find-put name sessions accounts, has_active_session) refl

  reserve-is_active :
      (restore_error : ℕ) (request : BrokerRequest) (sessions : AccountSessions)
      (application : Application)
      → has_active_session same_name request.profile_id
          (reserve same_name restore_error request sessions application).1
        ≡ true
  unfolding reserve
  reserve-is_active restore_error request sessions application =
      elim (Bool-cases (
        sessions.count == 0
        && (sessions.read_scope || request.restrict_access)
        && not (restore_error == 0))) [
          | inl b ↦ rw b (put-is_active request.profile_id _ application.sessions_by_account _)
          | inr b ↦ rw b (put-is_active request.profile_id _ application.sessions_by_account _)
        ]

  -- After a reservation that succeeds, the account has an active session.
  pub has_active_session-try_reserve_session :
      (restore_error : ℕ) (request : BrokerRequest) (application : Application)
      → (try_reserve_session same_name restore_error request application).0 ≡ true
      → has_active_session same_name request.profile_id
          (try_reserve_session same_name restore_error request application).1
        ≡ true
  unfolding try_reserve_session
  has_active_session-try_reserve_session restore_error request application h =
      elim (Bool-cases (leb maximum_concurrent_sessions application.session_count)) [
        | inl full ↦ ground (arith, full, h)
        | inr room ↦
            elim (Option-cases
              (find same_name request.profile_id application.sessions_by_account)) [
                | inl e ↦
                    rw (room, e) (reserve-is_active restore_error request no_sessions application)
                | inr (sessions, e) ↦ elim (Bool-cases (may_join request sessions)) [
                  | inl b ↦
                      rw (room, e, b) (reserve-is_active restore_error request sessions application)
                  | inr b ↦
                      rw (room, e, b) (unfold has_active_session in rw (e, has_active_session) refl)
                ]
              ]
      ]

  is_new_account :
      (name : Wide) (application : Application)
      → has_active_session same_name name application ≡ false
      → find same_name name application.sessions_by_account ≡ none
  unfolding has_active_session
  is_new_account name application h =
      elim (Option-cases (find same_name name application.sessions_by_account)) [
        | inl e ↦ e
        | inr (sessions, e) ↦ ground (arith, e, h)
      ]

  -- The entry of an account that was new.
  first_entry : BrokerRequest → AccountSessions
  first_entry request =
      record (observed request (record no_sessions { read_scope = request.restrict_access })) {
        count = 1;
      }

  reserved_first :
      (request : BrokerRequest) (application : Application)
      → find same_name request.profile_id application.sessions_by_account ≡ none
      → application.session_count < maximum_concurrent_sessions
      → try_reserve_session same_name 0 request application ≡ (
        true,
        record {
          sessions_by_account =
              put same_name request.profile_id
                (first_entry request)
                application.sessions_by_account;
          session_count = suc application.session_count;
        },
      )
  unfolding try_reserve_session reserve first_entry
  reserved_first request application e room =
      let free : leb maximum_concurrent_sessions application.session_count ≡ false = ground arith in
      rw (free, e)
        (elim (Bool-cases (request.restrict_access)) [ inl b ↦ rw b refl | inr b ↦ rw b refl ])

  restored {ℓ} :
      {A : Type ℓ} (scope : Bool) (x y : A) → (if scope && not (0 == 0) then x else y) ≡ y
  restored true x y = refl
  restored false x y = refl

  released_first :
      (request : BrokerRequest) (application : Application)
      → find same_name request.profile_id application.sessions_by_account ≡ none
      → release_session same_name 0 request (record {
        sessions_by_account =
            put same_name request.profile_id (first_entry request) application.sessions_by_account;
        session_count = suc application.session_count;
      })
        ≡ (0, application)
  unfolding release_session finish_account first_entry
  released_first request application e =
      let accounts = application.sessions_by_account in
      rw (find-put request.profile_id (first_entry request) accounts, release_session)
        (ap (finished (suc application.session_count - 1))
            (restored (first_entry request).read_scope _ _)
          ∙ (ap (λ t. finished (suc application.session_count - 1) (0, t))
                (erase-put request.profile_id (first_entry request) accounts e)
              ∙ ap (λ n. finished n (0, accounts)) (omega arith)))

  -- Where the comparison of names is reflexive, the first session of an account is admitted while
  -- the broker has fewer than four, and its release brings the broker back to the state before, if
  -- the restorations succeed.
  pub release_session-try_reserve_session :
      (request : BrokerRequest) (application : Application)
      → has_active_session same_name request.profile_id application ≡ false
      → application.session_count < maximum_concurrent_sessions
      → ((try_reserve_session same_name 0 request application).0 ≡ true)
        × (release_session same_name 0 request
              (try_reserve_session same_name 0 request application).1
            ≡ (0, application))
  release_session-try_reserve_session request application h room =
      let e = is_new_account request.profile_id application h in
      rw (reserved_first request application e room) (refl, released_first request application e)
