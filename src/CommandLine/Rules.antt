-- ===== src/CommandLine/Rules.antt =====
-- The rules by which a Windows program splits its command line, as Microsoft documents them: a
-- reference for what the quoting is to achieve.
use launch_as.Base.{
  ℕ, suc, ◌/◌, ◌%◌, ◌≡◌, Bool, true, false, not, ◌&&◌, ◌||◌, Option, none, some, List, [], ◌∷◌,
  ◌==◌, if◌then◌else◌, Wide, codes, drop, starts_with,
}
use launch_as.CommandLine.{backslash, backslashes_then}

-- Space and tab stand between arguments.
abbrev pub is_separator : ℕ → Bool
is_separator c = c == 0x20 || c == 0x09

abbrev pub in_front : (Wide → Wide) → Wide × Wide → Wide × Wide
in_front f (argument, rest) = (f argument, rest)

-- One argument and what follows it. 2n backslashes and a quote are n backslashes, and the quote
-- opens or closes a quoted part; 2n + 1 backslashes and a quote are n backslashes and the quote
-- itself; other backslashes stand for themselves.
unfoldable pub read_argument : Bool → ℕ → Wide → Wide × Wide
read_argument quoted backslashes [] = (backslashes_then backslashes [], [])
read_argument quoted backslashes (c ∷ line) =
    let counted = read_argument quoted (suc backslashes) line in
    let toggled = read_argument (not quoted) 0 line in
    let next = read_argument quoted 0 line in
    if c == backslash
    then counted
    else if c == b'"'
    then (if backslashes % 2 == 0
        then in_front (λ a. backslashes_then (backslashes / 2) a) toggled
        else in_front (λ a. backslashes_then (backslashes / 2) (b'"' ∷ a)) next)
    else if not quoted && is_separator c
    then (backslashes_then backslashes [], c ∷ line)
    else in_front (λ a. backslashes_then backslashes (c ∷ a)) next

-- An argument begins with what is no separator.
abbrev pub begins : Wide → Bool
begins [] = false
begins (c ∷ line) = not (is_separator c)

-- The arguments of a line behind the program's name.
pub data Splits : Wide → List Wide → Type 0 where
  finished : Splits [] []
  next :
      {line rest argument : Wide} {arguments : List Wide}
      → begins line ≡ true
      → read_argument false 0 line ≡ (argument, rest)
      → Splits rest arguments
      → Splits (b' ' ∷ line) (argument ∷ arguments)

-- The name of the program stands in quotes, and backslashes in it stand for themselves.
unfoldable pub read_program : Wide → Option (Wide × Wide)
read_program [] = none
read_program (c ∷ line) =
    let more = read_program line in
    if c == b'"'
    then some ([], line)
    else elim more [ none ↦ none | some (name, rest) ↦ some (c ∷ name, rest) ]

pub record IsCommandLine (line program : Wide) (arguments : List Wide) : Type 0 where
  pub tail : Wide
  pub named : read_program (drop 1 line) ≡ some (program, tail)
  pub opened : starts_with (codes "\"") line ≡ true
  pub split : Splits tail arguments
