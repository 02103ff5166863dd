-- ===== src/Sessions/Table.antt =====
-- The table of the accounts and their sessions.
use launch_as.Base.{
  ℕ, ◌+◌, ◌≡◌, refl, inl, inr, Bool, true, false, not, ◌&&◌, Option, none, some, [], ◌∷◌, arith,
  Bool-cases, Wide,
}
use launch_as.Sessions.{AccountSessions, Accounts, find, put, erase}

abbrev pub total : Accounts → ℕ
total [] = 0
total ((key, sessions) ∷ rest) = sessions.count + total rest

abbrev pub count_of : Option AccountSessions → ℕ
count_of none = 0
count_of (some sessions) = sessions.count

module _ (same_name : Wide → Wide → Bool) where
  pub total-put :
      (name : Wide) (sessions : AccountSessions) (accounts : Accounts)
      → total (put same_name name sessions accounts) + count_of (find same_name name accounts)
        ≡ total accounts + sessions.count
  unfolding put find
  total-put name sessions [] = omega arith
  total-put name sessions ((key, old) ∷ rest) =
      let later = total-put name sessions rest in
      elim (Bool-cases (same_name name key)) [
        | inl e ↦ rw e (omega arith)
        | inr e ↦ rw e (omega (arith, later))
      ]

  pub total-erase :
      (name : Wide) (accounts : Accounts)
      → total (erase same_name name accounts) + count_of (find same_name name accounts)
        ≡ total accounts
  unfolding erase find
  total-erase name [] = omega arith
  total-erase name ((key, old) ∷ rest) =
      let later = total-erase name rest in
      elim (Bool-cases (same_name name key)) [
        | inl e ↦ rw e (omega arith)
        | inr e ↦ rw e (omega (arith, later))
      ]

  -- A test that holds of every entry.
  module _ (test : AccountSessions → Bool) where
    abbrev pub all_accounts : Accounts → Bool
    all_accounts [] = true
    all_accounts ((key, sessions) ∷ rest) = test sessions && all_accounts rest

    pub all_accounts-find :
        (name : Wide) (accounts : Accounts) (sessions : AccountSessions)
        → all_accounts accounts ≡ true
        → find same_name name accounts ≡ some sessions
        → test sessions ≡ true
    unfolding find
    all_accounts-find name [] sessions h e = cc
    all_accounts-find name ((key, old) ∷ rest) sessions h e =
        ground (arith, all_accounts-find name rest sessions)

    pub all_accounts-put :
        (name : Wide) (sessions : AccountSessions) (accounts : Accounts)
        → all_accounts accounts ≡ true
        → test sessions ≡ true
        → all_accounts (put same_name name sessions accounts) ≡ true
    unfolding put
    all_accounts-put name sessions [] h t = ground arith
    all_accounts-put name sessions ((key, old) ∷ rest) h t =
        ground (arith, all_accounts-put name sessions rest)

    pub all_accounts-erase :
        (name : Wide) (accounts : Accounts)
        → all_accounts accounts ≡ true
        → all_accounts (erase same_name name accounts) ≡ true
    unfolding erase
    all_accounts-erase name [] h = refl
    all_accounts-erase name ((key, old) ∷ rest) h = ground (arith, all_accounts-erase name rest)

  -- No other key is the same name.
  abbrev pub is_new : Wide → Accounts → Bool
  is_new name [] = true
  is_new name ((key, sessions) ∷ rest) = not (same_name name key) && is_new name rest

  abbrev pub are_distinct : Accounts → Bool
  are_distinct [] = true
  are_distinct ((key, sessions) ∷ rest) = is_new key rest && are_distinct rest

  is_new-put :
      (other name : Wide) (sessions : AccountSessions) (accounts : Accounts)
      → same_name other name ≡ false
      → is_new other accounts ≡ true
      → is_new other (put same_name name sessions accounts) ≡ true
  unfolding put
  is_new-put other name sessions [] n h = ground arith
  is_new-put other name sessions ((key, old) ∷ rest) n h =
      ground (arith, is_new-put other name sessions rest)

  is_new-erase :
      (other name : Wide) (accounts : Accounts)
      → is_new other accounts ≡ true
      → is_new other (erase same_name name accounts) ≡ true
  unfolding erase
  is_new-erase other name [] h = refl
  is_new-erase other name ((key, old) ∷ rest) h = ground (arith, is_new-erase other name rest)

  pub are_distinct-put :
      ((a b : Wide) → same_name a b ≡ same_name b a)
      → (name : Wide) (sessions : AccountSessions) (accounts : Accounts)
      → are_distinct accounts ≡ true
      → are_distinct (put same_name name sessions accounts) ≡ true
  unfolding put
  are_distinct-put symmetric name sessions [] h = refl
  are_distinct-put symmetric name sessions ((key, old) ∷ rest) h = ground (
    arith,
    symmetric name key,
    is_new-put key name sessions rest,
    are_distinct-put symmetric name sessions rest,
  )

  pub are_distinct-erase :
      (name : Wide) (accounts : Accounts)
      → are_distinct accounts ≡ true
      → are_distinct (erase same_name name accounts) ≡ true
  unfolding erase
  are_distinct-erase name [] h = refl
  are_distinct-erase name ((key, old) ∷ rest) h =
      ground (arith, is_new-erase key name rest, are_distinct-erase name rest)
