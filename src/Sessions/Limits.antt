-- ===== src/Sessions/Limits.antt =====
-- src/broker/BrokerApplication.cpp: sequences of reservations and releases.
use launch_as.Base.{
  ℕ, suc, ◌+◌, ◌-◌, ◌≤◌, ◌<◌, ◌≡◌, refl, ap, inl, inr, Bool, true, false, not, ◌&&◌, ◌||◌, none,
  some, arith, ltb, leb, ◌==◌, Bool-cases, Option-cases, Wide,
}
use launch_as.Protocol.{BrokerRequest}
use launch_as.Sessions.{
  AccountSessions, Application, no_application, no_sessions, maximum_concurrent_sessions,
  maximum_concurrent_sessions_per_account, find, put, erase, observed, reserve, may_join,
  try_reserve_session, finish_account, release_session, finished, on_log, leave,
}
use launch_as.Sessions.Table.{
  total, count_of, total-put, total-erase, all_accounts, all_accounts-find, all_accounts-put,
  all_accounts-erase, are_distinct, are_distinct-put, are_distinct-erase,
}

abbrev pub is_open : AccountSessions → Bool
is_open sessions = elim (sessions.log) [ none ↦ false | some log ↦ true ]

-- An entry has one or two sessions, or none but a scope that could not be restored; and a scope
-- with sessions has a log.
abbrev pub is_entry : AccountSessions → Bool
is_entry sessions =
    leb sessions.count maximum_concurrent_sessions_per_account
    && (sessions.read_scope || ltb 0 sessions.count)
    && (not sessions.read_scope || sessions.count == 0 || is_open sessions)

pub record IsLimited (same_name : Wide → Wide → Bool) (application : Application) : Type 0 where
  pub counted : application.session_count ≡ total application.sessions_by_account
  pub limited : application.session_count ≤ maximum_concurrent_sessions
  pub entries : all_accounts same_name is_entry application.sessions_by_account ≡ true
  pub distinct : are_distinct same_name application.sessions_by_account ≡ true

-- A step of the broker: one of its two operations, whatever Restore reports.
pub data Step (same_name : Wide → Wide → Bool) : Application → Application → Type 0 where
  reserves :
      (restore_error : ℕ) (request : BrokerRequest) (application : Application)
      → Step same_name application
          ((try_reserve_session same_name restore_error request application).1)
  releases :
      (restore_error : ℕ) (request : BrokerRequest) (application : Application)
      → Step same_name application ((release_session same_name restore_error request application).1)

pub data Reachable (same_name : Wide → Wide → Bool) : Application → Type 0 where
  starts : Reachable same_name no_application
  continues :
      {before after : Application}
      → Reachable same_name before
      → Step same_name before after
      → Reachable same_name after

module _ (same_name : Wide → Wide → Bool)
    (symmetric : (a b : Wide) → same_name a b ≡ same_name b a) where
  -- The entry that replaces another, or is new.
  put-IsLimited :
      (name : Wide) (sessions : AccountSessions) (count : ℕ) (application : Application)
      → IsLimited same_name application
      → is_entry sessions ≡ true
      → count + count_of (find same_name name application.sessions_by_account)
        ≡ application.session_count + sessions.count
      → count ≤ maximum_concurrent_sessions
      → IsLimited same_name (record {
        sessions_by_account = put same_name name sessions application.sessions_by_account;
        session_count = count;
      })
  put-IsLimited name sessions count application v entry e few = record {
    counted =
        omega (arith, v.counted, total-put same_name name sessions application.sessions_by_account);
    limited = few;
    entries =
        all_accounts-put same_name is_entry name sessions application.sessions_by_account v.entries
          entry;
    distinct =
        are_distinct-put same_name symmetric name sessions application.sessions_by_account
          v.distinct;
  }

  erase-IsLimited :
      (name : Wide) (count : ℕ) (application : Application)
      → IsLimited same_name application
      → count + count_of (find same_name name application.sessions_by_account)
        ≡ application.session_count
      → IsLimited same_name (record {
        sessions_by_account = erase same_name name application.sessions_by_account;
        session_count = count;
      })
  erase-IsLimited name count application v e = record {
    counted = omega (arith, v.counted, total-erase same_name name application.sessions_by_account);
    limited = omega (arith, v.limited);
    entries = all_accounts-erase same_name is_entry name application.sessions_by_account v.entries;
    distinct = are_distinct-erase same_name name application.sessions_by_account v.distinct;
  }

  observed-is_entry :
      (request : BrokerRequest) (sessions : AccountSessions)
      → sessions.count < maximum_concurrent_sessions_per_account
      → (sessions.count == 0 || not sessions.read_scope || is_open sessions) ≡ true
      → is_entry (record (observed request sessions) { count = suc sessions.count }) ≡ true
  unfolding observed
  observed-is_entry request sessions few opened = ground arith

  abbrev opens : BrokerRequest → AccountSessions → AccountSessions
  opens request sessions = record sessions {
    read_scope = sessions.read_scope || request.restrict_access;
  }

  reserve-IsLimited :
      (restore_error : ℕ) (request : BrokerRequest) (sessions : AccountSessions)
      (application : Application)
      → IsLimited same_name application
      → application.session_count < maximum_concurrent_sessions
      → sessions.count < maximum_concurrent_sessions_per_account
      → (sessions.count == 0
          || not (sessions.read_scope || request.restrict_access)
          || is_open sessions)
        ≡ true
      → count_of (find same_name request.profile_id application.sessions_by_account)
        ≡ sessions.count
      → IsLimited same_name (reserve same_name restore_error request sessions application).1
  unfolding reserve
  reserve-IsLimited restore_error request sessions application v room few opened e =
      elim (Bool-cases (
        sessions.count == 0
        && (sessions.read_scope || request.restrict_access)
        && not (restore_error == 0))) [
          | inl b ↦ rw b (
              put-IsLimited request.profile_id (opens request sessions) application.session_count
                application v (ground arith) (omega (arith, e)) v.limited)
          | inr b ↦ rw b (
              put-IsLimited request.profile_id
                (record (observed request (opens request sessions)) { count = suc sessions.count })
                (suc application.session_count) application v
                (observed-is_entry request (opens request sessions) few opened) (omega (arith, e))
                room)
        ]

  entry :
      (name : Wide) (sessions : AccountSessions) (application : Application)
      → IsLimited same_name application
      → find same_name name application.sessions_by_account ≡ some sessions
      → is_entry sessions ≡ true
  entry name sessions application v e =
      all_accounts-find same_name is_entry name application.sessions_by_account sessions v.entries e

  joins-is_open :
      (request : BrokerRequest) (sessions : AccountSessions)
      → may_join request sessions ≡ true
      → is_entry sessions ≡ true
      → (sessions.count == 0
          || not (sessions.read_scope || request.restrict_access)
          || is_open sessions)
        ≡ true
  joins-is_open request sessions joins h = ground arith

  try_reserve_session-IsLimited :
      (restore_error : ℕ) (request : BrokerRequest) (application : Application)
      → IsLimited same_name application
      → IsLimited same_name (try_reserve_session same_name restore_error request application).1
  unfolding try_reserve_session
  try_reserve_session-IsLimited restore_error request application v =
      elim (Bool-cases (leb maximum_concurrent_sessions application.session_count)) [
        | inl full ↦ rw full v
        | inr room ↦
            elim (Option-cases
              (find same_name request.profile_id application.sessions_by_account)) [
                | inl e ↦
                    rw (room, e)
                      (reserve-IsLimited restore_error request no_sessions application v
                        (ground arith) (omega arith) refl (rw e refl))
                | inr (sessions, e) ↦ elim (Bool-cases (may_join request sessions)) [
                  | inl joins ↦
                      rw (room, e, joins)
                        (reserve-IsLimited restore_error request sessions application v
                          (ground arith) (ground arith)
                          (joins-is_open request sessions joins
                            (entry request.profile_id sessions application v e))
                          (rw e refl))
                  | inr b ↦ rw (room, e, b) v
                ]
              ]
      ]

  finish_account-IsLimited :
      (restore_error : ℕ) (request : BrokerRequest) (sessions : AccountSessions) (count : ℕ)
      (application : Application)
      → IsLimited same_name application
      → suc count ≡ application.session_count
      → count_of (find same_name request.profile_id application.sessions_by_account)
        ≡ suc sessions.count
      → is_entry (record sessions { count = suc sessions.count }) ≡ true
      → IsLimited same_name
          (finished count (
            finish_account same_name restore_error request sessions
              application.sessions_by_account)).1
  unfolding finish_account
  finish_account-IsLimited restore_error request sessions count application v c e h =
      elim (Bool-cases (sessions.count == 0)) [
        | inr b ↦ rw b (
            put-IsLimited request.profile_id
              (record sessions { log = on_log (leave request.request_id) sessions.log }) count
              application v (ground arith) (omega (arith, c, e)) (omega (arith, c, v.limited)))
        | inl b ↦ elim (Bool-cases (sessions.read_scope && not (restore_error == 0))) [
          | inl k ↦
              rw (b, k)
                (put-IsLimited request.profile_id
                  (record sessions { log = on_log (leave request.request_id) sessions.log }) count
                  application v (ground arith) (omega (arith, c, e)) (omega (arith, c, v.limited)))
          | inr k ↦
              rw (b, k) (erase-IsLimited request.profile_id count application v (ground arith))
        ]
      ]

  release_session-IsLimited :
      (restore_error : ℕ) (request : BrokerRequest) (application : Application)
      → IsLimited same_name application
      → IsLimited same_name (release_session same_name restore_error request application).1
  unfolding release_session
  release_session-IsLimited restore_error request application v =
      elim (Option-cases (find same_name request.profile_id application.sessions_by_account)) [
        | inl e ↦ rw (e, release_session) v
        | inr (sessions, e) ↦ elim (Bool-cases (sessions.count == 0)) [
          | inl b ↦ rw (e, release_session) (rw b v)
          | inr b ↦
              let h = entry request.profile_id sessions application v e in
              let counts =
                total-erase same_name request.profile_id application.sessions_by_account in
              let found = ap count_of e in
              rw (e, release_session)
                (rw b (
                  finish_account-IsLimited restore_error request
                    (record sessions { count = sessions.count - 1 }) (application.session_count - 1)
                    application v (ground (arith, v.counted)) (ground arith) (ground arith)))
        ]
      ]

  -- Where the comparison of names is symmetric: whatever the broker is asked for and whatever the
  -- restorations report, it never has more than four sessions and counts them right; each account
  -- stands in the table once, with one or two sessions, or with none but a scope that could not be
  -- restored; and the log that ReleaseSession dereferences is there.
  pub Reachable-IsLimited :
      (application : Application)
      → Reachable same_name application
      → IsLimited same_name application
  Reachable-IsLimited application starts = record {
    counted = refl;
    limited = omega arith;
    entries = refl;
    distinct = refl;
  }
  Reachable-IsLimited application (continues r (reserves restore_error request before)) =
      try_reserve_session-IsLimited restore_error request before (Reachable-IsLimited before r)
  Reachable-IsLimited application (continues r (releases restore_error request before)) =
      release_session-IsLimited restore_error request before (Reachable-IsLimited before r)
