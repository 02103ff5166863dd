-- ===== src/Passwords.antt =====
-- src/broker/BrokerPassword.cpp: GenerateBrokerPassword. BCryptGenRandom is a list of what its calls
-- report, nothing for a failure; a run for which the list is too short is stuck.
pub mod Swaps
pub mod Generated
pub mod Enough
use launch_as.Base.{
  ℕ, zero, suc, ◌+◌, ◌-◌, ◌*◌, ◌/◌, ◌%◌, ◌^◌, ◌≤◌, ◌<◌, bit_or, String, ◌≡◌, refl, sym, ap, ◌∙◌,
  subst, ◌≢◌, ◌↔◌, ◌⊎◌, inl, inr, Bool, true, false, not, ◌&&◌, ◌||◌, Option, none, some, List, [],
  ◌∷◌, ◌++◌, map, append_assoc, append-nil, arith, ltb, leb, ◌==◌, within, if◌then◌else◌, ==_iff,
  Bool-cases, Option-cases, Bytes, Wide, codes, length, is_empty, all_of, any_of, filter, drop, All,
  length-append, first_error, text_eq, mem, starts_with, text_eq_refl, text_eq_sound, Outcome, ok,
  rejected, stuck, ◌>>=◌, ◌>>◌, guard, or_reject,
}

abbrev pub password_length : ℕ
password_length = 32

abbrev pub uppercase : Wide
uppercase = codes "ABCDEFGHJKLMNPQRSTUVWXYZ"

abbrev pub lowercase : Wide
lowercase = codes "abcdefghijkmnopqrstuvwxyz"

abbrev pub digits : Wide
digits = codes "23456789"

abbrev pub symbols : Wide
symbols = codes "!#$%&*+-=?@"

abbrev pub allowed_characters : Wide
allowed_characters = codes "ABCDEFGHJKLMNPQRSTUVWXYZabcdefghijkmnopqrstuvwxyz23456789!#$%&*+-=?@"

abbrev pub Reports : Type 0
Reports = List (Option ℕ)

unfoldable pub random_index : ℕ → Reports → Outcome (ℕ × Reports)
random_index upper_bound [] = stuck
random_index upper_bound (none ∷ reports) = rejected
random_index upper_bound (some random ∷ reports) =
    let again = random_index upper_bound reports in
    if ltb random (2 ^ 32 - 2 ^ 32 % upper_bound) then ok (random % upper_bound, reports) else again

abbrev pub get : ℕ → Wide → ℕ
get index [] = 0
get zero (c ∷ cs) = c
get (suc index) (c ∷ cs) = get index cs

abbrev pub set : ℕ → ℕ → Wide → Wide
set index value [] = []
set zero value (c ∷ cs) = value ∷ cs
set (suc index) value (c ∷ cs) = c ∷ set index value cs

unfoldable pub select_character : Wide → Reports → Outcome (ℕ × Reports)
unfolding random_index
select_character alphabet reports = do
  (index, rest) ← random_index (length alphabet) reports
  ok (get index alphabet, rest)

-- The two loops that select the characters, one for each alphabet.
unfoldable pub select_characters : List Wide → Reports → Outcome (Wide × Reports)
unfolding select_character
select_characters [] reports = ok ([], reports)
select_characters (alphabet ∷ alphabets) reports = do
  (character, behind) ← select_character alphabet reports
  (characters, rest) ← select_characters alphabets behind
  ok (character ∷ characters, rest)

-- `std::swap`
unfoldable pub swap : ℕ → ℕ → Wide → Wide
swap i j characters = set i (get j characters) (set j (get i characters) characters)

-- The loop that shuffles, from the index down to 1.
unfoldable pub shuffle : ℕ → Wide → Reports → Outcome (Wide × Reports)
unfolding swap random_index
shuffle zero characters reports = ok (characters, reports)
shuffle (suc index) characters reports = do
  (swap_index, rest) ← random_index (suc (suc index)) reports
  shuffle index (swap (suc index) swap_index characters) rest

abbrev pub copies : ℕ → Wide → List Wide
copies zero alphabet = []
copies (suc n) alphabet = alphabet ∷ copies n alphabet

abbrev pub alphabets_of_password : List Wide
alphabets_of_password =
    uppercase ∷ lowercase ∷ digits ∷ symbols ∷ copies (password_length - 4) allowed_characters

unfoldable pub generate_broker_password : Reports → Outcome (Wide × Reports)
unfolding select_characters shuffle
generate_broker_password reports = do
  (characters, behind) ← select_characters alphabets_of_password reports
  shuffle (password_length - 1) characters behind
