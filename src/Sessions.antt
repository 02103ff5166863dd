-- ===== src/Sessions.antt =====
-- src/broker/BrokerApplication.h and BrokerApplication.cpp: which sessions the broker admits. The
-- mutex makes each operation one step. BrokerReadScope::Restore is an argument, its Win32 error.
pub mod Table
pub mod Limits
pub mod Release
pub mod Configure
use launch_as.Base.{
  ℕ, zero, suc, ◌+◌, ◌-◌, ◌*◌, ◌/◌, ◌%◌, ◌^◌, ◌≤◌, ◌<◌, bit_or, String, ◌≡◌, refl, sym, ap, ◌∙◌,
  subst, ◌≢◌, ◌↔◌, ◌⊎◌, inl, inr, Bool, true, false, not, ◌&&◌, ◌||◌, Option, none, some, List, [],
  ◌∷◌, ◌++◌, map, append_assoc, append-nil, arith, ltb, leb, ◌==◌, within, if◌then◌else◌, ==_iff,
  Bool-cases, Option-cases, Bytes, Wide, codes, length, is_empty, all_of, drop, All, length-append,
  text_eq, mem, starts_with, text_eq_refl, text_eq_sound, Outcome, ok, rejected, stuck, ◌>>=◌, ◌>>◌,
  guard, or_reject,
}
use launch_as.Protocol.{BrokerRequest}

abbrev pub maximum_concurrent_sessions : ℕ
maximum_concurrent_sessions = 4

abbrev pub maximum_concurrent_sessions_per_account : ℕ
maximum_concurrent_sessions_per_account = 2

-- `requests` is a set: an id stands in it once.
pub record ScopeLog : Type 0 where
  pub requests : List Wide
  pub last_request : Wide

without : Wide → List Wide → List Wide
without request_id [] = []
without request_id (x ∷ xs) =
    let rest = without request_id xs in if text_eq request_id x then rest else x ∷ rest

unfoldable pub join : Wide → ScopeLog → ScopeLog
unfolding without
join request_id log = record {
  requests = request_id ∷ without request_id log.requests;
  last_request = request_id;
}

unfoldable pub leave : Wide → ScopeLog → ScopeLog
unfolding without
leave request_id log = record log { requests = without request_id log.requests }

-- `read_scope` tells whether the pointer to the scope is set; `log` is the shared pointer.
pub record AccountSessions : Type 0 where
  pub count : ℕ
  pub read_scope : Bool
  pub log : Option ScopeLog

abbrev pub no_sessions : AccountSessions
no_sessions = record { count = 0; read_scope = false; log = none }

-- The map of accounts: a key stands in it once, as `same_name` sees it.
abbrev pub Accounts : Type 0
Accounts = List (Wide × AccountSessions)

pub record Application : Type 0 where
  pub sessions_by_account : Accounts
  pub session_count : ℕ

abbrev pub no_application : Application
no_application = record { sessions_by_account = []; session_count = 0 }

abbrev pub on_log : (ScopeLog → ScopeLog) → Option ScopeLog → Option ScopeLog
on_log f none = none
on_log f (some log) = some (f log)

-- The log of a scope starts with its first session.
unfoldable pub observed : BrokerRequest → AccountSessions → AccountSessions
unfolding join
observed request sessions =
    let log =
      if sessions.count == 0
      then some (record { requests = []; last_request = [] })
      else sessions.log in
    if sessions.read_scope
    then record sessions { log = if request.log then on_log (join request.request_id) log else log }
    else sessions

abbrev pub may_join : BrokerRequest → AccountSessions → Bool
may_join request sessions =
    not (leb maximum_concurrent_sessions_per_account sessions.count)
    && (if request.restrict_access then sessions.read_scope else not sessions.read_scope)

abbrev pub finished : ℕ → ℕ × Accounts → ℕ × Application
finished count (error, accounts) =
    (error, record { sessions_by_account = accounts; session_count = count })

-- `same_name` is `_wcsicmp(left, right) == 0`.
module _ (same_name : Wide → Wide → Bool) where
  unfoldable pub find : Wide → Accounts → Option AccountSessions
  find name [] = none
  find name ((key, sessions) ∷ rest) =
      let later = find name rest in if same_name name key then some sessions else later

  -- The reference `sessionsByAccount_[name]`, and a write through it.
  unfoldable pub put : Wide → AccountSessions → Accounts → Accounts
  put name sessions [] = (name, sessions) ∷ []
  put name sessions ((key, old) ∷ rest) =
      let later = put name sessions rest in
      if same_name name key then (key, sessions) ∷ rest else (key, old) ∷ later

  unfoldable pub erase : Wide → Accounts → Accounts
  erase name [] = []
  erase name ((key, old) ∷ rest) =
      let later = erase name rest in if same_name name key then rest else (key, old) ∷ later

  -- The part of TryReserveSession behind its guards, on the account's entry.
  unfoldable pub reserve : ℕ → BrokerRequest → AccountSessions → Application → Bool × Application
  unfolding put observed
  reserve restore_error request sessions application =
      let opened = record sessions {
        read_scope = sessions.read_scope || request.restrict_access;
      } in
      if opened.count == 0 && opened.read_scope && not (restore_error == 0)
      then (
        false,
        record application {
          sessions_by_account = put request.profile_id opened application.sessions_by_account;
        },
      )
      else (
        true,
        record {
          sessions_by_account =
              put request.profile_id (record (observed request opened) { count = suc opened.count })
                application.sessions_by_account;
          session_count = suc application.session_count;
        },
      )

  unfoldable pub try_reserve_session : ℕ → BrokerRequest → Application → Bool × Application
  unfolding find reserve
  try_reserve_session restore_error request application =
      if leb maximum_concurrent_sessions application.session_count
      then (false, application)
      else elim (find request.profile_id application.sessions_by_account) [
        | none ↦ reserve restore_error request no_sessions application
        | some sessions ↦
            if may_join request sessions
            then reserve restore_error request sessions application
            else (false, application)
      ]

  -- The entry of an account with one session less.
  unfoldable pub finish_account : ℕ → BrokerRequest → AccountSessions → Accounts → ℕ × Accounts
  unfolding put erase leave
  finish_account restore_error request sessions accounts =
      let left = record sessions { log = on_log (leave request.request_id) sessions.log } in
      if not (sessions.count == 0)
      then (0, put request.profile_id left accounts)
      else if sessions.read_scope && not (restore_error == 0)
      then (restore_error, put request.profile_id left accounts)
      else (0, erase request.profile_id accounts)

  -- Both counters are at least 1 where they are lowered, as the account has a session.
  unfoldable pub release_session : ℕ → BrokerRequest → Application → ℕ × Application
  unfolding find finish_account
  release_session restore_error request application =
      elim (find request.profile_id application.sessions_by_account) [
        | none ↦ (0, application)
        | some sessions ↦
            if sessions.count == 0
            then (0, application)
            else finished (application.session_count - 1) (
                finish_account restore_error request
                  (record sessions { count = sessions.count - 1 }) application.sessions_by_account)
      ]

  unfoldable pub has_active_session : Wide → Application → Bool
  unfolding find
  has_active_session name application = elim (find name application.sessions_by_account) [
    | none ↦ false
    | some sessions ↦ true
  ]
