-- ===== src/Passwords/Enough.antt =====
-- src/broker/BrokerPassword.cpp: how many random words are enough.
use launch_as.Base.{
  ℕ, zero, suc, ◌+◌, ◌-◌, ◌%◌, ◌^◌, ◌≤◌, ◌<◌, ◌≡◌, refl, inl, inr, true, false, some, List, [], ◌∷◌,
  map, arith, ltb, within, if◌then◌else◌, Bool-cases, Wide, length, all_of, Outcome, ok,
}
use launch_as.Base.{Ensures-ok}
use native.Mathlib.Nat.{mod-lt}
use launch_as.Passwords.{
  Reports, alphabets_of_password, get, random_index, select_character, select_characters, shuffle,
  swap, generate_broker_password,
}
use launch_as.Passwords.Generated.{IsPassword, generate-IsPassword}

-- How many of the words are below 2 ^ 31, which no bound up to 2 ^ 31 rejects. The others may be
-- rejected, so that a word is drawn again.
abbrev pub small_words : List ℕ → ℕ
small_words [] = 0
small_words (word ∷ words) =
    let rest = small_words words in if ltb word (2 ^ 31) then suc rest else rest

abbrev pub reported : List ℕ → Reports
reported words = map some words

-- The run ends with a result, and has used at most `used` of the small words.
record Runs {A : Type 0} (used : ℕ) (words : List ℕ) (result : Outcome (A × Reports)) : Type 0 where
  pub value : A
  pub left : List ℕ
  pub ends : result ≡ ok (value, reported left)
  pub counted : small_words words ≤ used + small_words left

small_word-accepted :
    (upper_bound word : ℕ)
    → 0 < upper_bound
    → upper_bound ≤ 2 ^ 31
    → ltb word (2 ^ 32 - 2 ^ 32 % upper_bound) ≡ false
    → ltb word (2 ^ 31) ≡ false
small_word-accepted upper_bound word h b e = let below = mod-lt (2 ^ 32) h in ground (arith, below)

random_index-Runs :
    (upper_bound : ℕ) (words : List ℕ)
    → 0 < upper_bound
    → upper_bound ≤ 2 ^ 31
    → 0 < small_words words
    → Runs 1 words (random_index upper_bound (reported words))
unfolding random_index
random_index-Runs upper_bound [] h b k = absurd (omega arith)
random_index-Runs upper_bound (word ∷ words) h b k =
    elim (Bool-cases (ltb word (2 ^ 32 - 2 ^ 32 % upper_bound))) [
      | inl e ↦ record {
        value = word % upper_bound;
        left = words;
        ends = rw e refl;
        counted = ground arith;
      }
      | inr e ↦
          let big = small_word-accepted upper_bound word h b e in
          let again = random_index-Runs upper_bound words h b (ground arith) in
          record {
            value = again.value;
            left = again.left;
            ends = rw e (again.ends);
            counted = ground (arith, again.counted);
          }
    ]

select_characters-Runs :
    (alphabets : List Wide) (words : List ℕ)
    → all_of (λ alphabet. within 1 100 (length alphabet)) alphabets ≡ true
    → length alphabets ≤ small_words words
    → Runs (length alphabets) words (select_characters alphabets (reported words))
unfolding select_characters select_character
select_characters-Runs [] words h enough = record {
  value = [];
  left = words;
  ends = refl;
  counted = omega arith;
}
select_characters-Runs (alphabet ∷ alphabets) words h enough =
    let first =
      random_index-Runs (length alphabet) words (ground arith) (ground arith)
        (omega (arith, enough)) in
    let rest =
      select_characters-Runs alphabets first.left (ground arith)
        (omega (arith, enough, first.counted)) in
    record {
      value = get first.value alphabet ∷ rest.value;
      left = rest.left;
      ends = rw (first.ends, rest.ends) refl;
      counted = omega (arith, first.counted, rest.counted);
    }

shuffle-Runs :
    (index : ℕ) (cs : Wide) (words : List ℕ)
    → index ≤ 100
    → index ≤ small_words words
    → Runs index words (shuffle index cs (reported words))
unfolding shuffle
shuffle-Runs zero cs words b enough = record {
  value = cs;
  left = words;
  ends = refl;
  counted = omega arith;
}
shuffle-Runs (suc index) cs words b enough =
    let first =
      random_index-Runs (suc (suc index)) words (omega arith) (omega (arith, b))
        (omega (arith, enough)) in
    let rest =
      shuffle-Runs index (swap (suc index) first.value cs) first.left (omega (arith, b))
        (omega (arith, enough, first.counted)) in
    record {
      value = rest.value;
      left = rest.left;
      ends = rw first.ends (rest.ends);
      counted = omega (arith, first.counted, rest.counted);
    }

generate-Runs :
    (words : List ℕ)
    → 63 ≤ small_words words
    → Runs 63 words (generate_broker_password (reported words))
unfolding generate_broker_password
generate-Runs words enough =
    let first = select_characters-Runs alphabets_of_password words refl (omega (arith, enough)) in
    let rest =
      shuffle-Runs 31 first.value first.left (omega arith) (omega (arith, enough, first.counted)) in
    record {
      value = rest.value;
      left = rest.left;
      ends = rw first.ends (rest.ends);
      counted = omega (arith, first.counted, rest.counted);
    }

-- Where at least 63 of the random words are below 2 ^ 31, whatever the others are and however many
-- of them are rejected and drawn again: GenerateBrokerPassword ends, and its password has 32
-- characters, all of them allowed, with an uppercase and a lowercase letter, a digit and a symbol
-- among them.
pub generate_broker_password-IsPassword :
    (words : List ℕ)
    → 63 ≤ small_words words
    → (password : Wide) × ((left : List ℕ) × ((generate_broker_password (reported words)
            ≡ ok (password, reported left))
          × IsPassword password))
generate_broker_password-IsPassword words enough =
    let run = generate-Runs words enough in
    (
      run.value,
      (run.left, (run.ends, Ensures-ok (generate-IsPassword (reported words)) (run.ends))),
    )
