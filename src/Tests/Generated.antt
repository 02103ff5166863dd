-- ===== src/Tests/Generated.antt =====
-- A password from sixty-three words, with a rejected word in front of each of them.
use launch_as.Base.{ℕ, zero, suc, ◌+◌, ◌*◌, ◌%◌, ◌≡◌, List, [], ◌∷◌, arith, Wide, ok}
use launch_as.Passwords.{generate_broker_password}
use launch_as.Passwords.Generated.{IsPassword}
use launch_as.Passwords.Enough.{reported, generate_broker_password-IsPassword}

abbrev words_from : ℕ → ℕ → List ℕ
words_from start zero = 4294967295 ∷ []
words_from start (suc n) = 4294967295 ∷ start ∷ words_from (start * 5 % 1000 + 7) n

generate_broker_password-IsPassword_example :
    (password : Wide) × ((left : List ℕ) × ((generate_broker_password (reported (words_from 1 63))
          ≡ ok (password, reported left))
        × IsPassword password))
generate_broker_password-IsPassword_example =
    generate_broker_password-IsPassword (words_from 1 63) (omega arith)
