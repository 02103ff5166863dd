-- ===== src/CommandLine/Quoted.antt =====
-- src/common/WindowsCommandLine.cpp: the quoting, and the rules by which programs split the line.
use launch_as.Base.{
  ℕ, zero, suc, ◌+◌, ◌*◌, ◌/◌, ◌%◌, ◌≡◌, refl, sym, ap, ◌∙◌, inl, inr, Bool, true, false, not, ◌&&◌,
  some, List, [], ◌∷◌, ◌++◌, arith, ◌==◌, ==_iff, Bool-cases, Wide, mem,
}
use launch_as.CommandLine.{
  backslash, backslashes_then, is_plain, quote_loop, quote_windows_command_line_argument,
  append_arguments, build_windows_command_line,
}
use launch_as.CommandLine.Rules.{
  is_separator, in_front, read_argument, begins, Splits, finished, next, read_program,
  IsCommandLine,
}

-- What may follow an argument.
abbrev pub ends_argument : Wide → Bool
ends_argument [] = true
ends_argument (c ∷ line) = is_separator c

read_argument-backslashes :
    (quoted : Bool) (n count : ℕ) (line : Wide)
    → read_argument quoted n (backslashes_then count line) ≡ read_argument quoted (n + count) line
unfolding read_argument
read_argument-backslashes quoted n zero line = ap (λ k. read_argument quoted k line) (omega arith)
read_argument-backslashes quoted n (suc count) line =
    read_argument-backslashes quoted (suc n) count line
    ∙ ap (λ k. read_argument quoted k line) (omega arith)

backslashes_then-append :
    (count : ℕ) (a b : Wide) → backslashes_then count a ++ b ≡ backslashes_then count (a ++ b)
backslashes_then-append zero a b = refl
backslashes_then-append (suc count) a b =
    ap (λ w. backslash ∷ w) (backslashes_then-append count a b)

backslashes_then-suc :
    (count : ℕ) (a : Wide) → backslashes_then (suc count) a ≡ backslashes_then count (backslash ∷ a)
backslashes_then-suc zero a = refl
backslashes_then-suc (suc count) a = ap (λ w. backslash ∷ w) (backslashes_then-suc count a)

read_argument_end :
    (n : ℕ) (line : Wide)
    → ends_argument line ≡ true
    → read_argument false n line ≡ (backslashes_then n [], line)
unfolding read_argument
read_argument_end n [] h = refl
read_argument_end n (c ∷ line) h =
    let no_backslash : (c == backslash) ≡ false = ground arith in
    let no_quote : (c == b'"') ≡ false = ground arith in rw (no_backslash, no_quote, h) refl

close_quote :
    (n : ℕ) (line : Wide)
    → ends_argument line ≡ true
    → read_argument true (n * 2) (b'"' ∷ line) ≡ (backslashes_then n [], line)
unfolding read_argument
close_quote n line h =
    let even : (n * 2 % 2 == 0) ≡ true = ground arith in
    let half : n * 2 / 2 ≡ n = omega arith in rw (even, half, read_argument_end 0 line h) refl

literal_quote :
    (n : ℕ) (line : Wide)
    → read_argument true (n * 2 + 1) (b'"' ∷ line)
      ≡ in_front (λ a. backslashes_then n (b'"' ∷ a)) (read_argument true 0 line)
unfolding read_argument
literal_quote n line =
    let odd : ((n * 2 + 1) % 2 == 0) ≡ false = ground arith in
    let half : (n * 2 + 1) / 2 ≡ n = omega arith in rw (odd, half) refl

other_character :
    (quoted : Bool) (n c : ℕ) (line : Wide)
    → (c == backslash) ≡ false
    → (c == b'"') ≡ false
    → (not quoted && is_separator c) ≡ false
    → read_argument quoted n (c ∷ line)
      ≡ in_front (λ a. backslashes_then n (c ∷ a)) (read_argument quoted 0 line)
unfolding read_argument
other_character quoted n c line e f g = rw (e, f, g) refl

-- Backslashes that were written are counted.
counted :
    (n : ℕ) (a line : Wide)
    → read_argument true 0 (backslashes_then n a ++ line) ≡ read_argument true n (a ++ line)
counted n a line =
    ap (read_argument true 0) (backslashes_then-append n a line)
    ∙ (read_argument-backslashes true 0 n (a ++ line)
        ∙ ap (λ k. read_argument true k (a ++ line)) (omega arith))

read_argument-quote_loop :
    (n : ℕ) (argument line : Wide)
    → ends_argument line ≡ true
    → read_argument true 0 (quote_loop n argument ++ line) ≡ (backslashes_then n argument, line)
unfolding quote_loop
read_argument-quote_loop n [] line h = counted (n * 2) (b'"' ∷ []) line ∙ close_quote n line h
read_argument-quote_loop n (c ∷ argument) line h =
    let more = read_argument-quote_loop (suc n) argument line h in
    let rest = read_argument-quote_loop 0 argument line h in
    elim (Bool-cases (c == backslash)) [
      | inl e ↦
          let same : c ≡ backslash = (==_iff c backslash).0 e in
          rw e (
            more
            ∙ ap (λ a. (a, line))
                (backslashes_then-suc n argument
                  ∙ ap (λ x. backslashes_then n (x ∷ argument)) (sym same)))
      | inr e ↦ elim (Bool-cases (c == b'"')) [
        | inl f ↦
            let same : c ≡ b'"' = (==_iff c b'"').0 f in
            rw (e, f)
              (counted (n * 2 + 1) (b'"' ∷ quote_loop 0 argument) line
                ∙ (literal_quote n (quote_loop 0 argument ++ line)
                    ∙ (ap (in_front (λ a. backslashes_then n (b'"' ∷ a))) rest
                        ∙ ap (λ x. (backslashes_then n (x ∷ argument), line)) (sym same))))
        | inr f ↦
            rw (e, f)
              (counted n (c ∷ quote_loop 0 argument) line
                ∙ (other_character true n c (quote_loop 0 argument ++ line) e f refl
                    ∙ ap (in_front (λ a. backslashes_then n (c ∷ a))) rest))
      ]
    ]

-- An argument without special characters is written as it is.
read_argument_plain :
    (n : ℕ) (argument line : Wide)
    → is_plain argument ≡ true
    → ends_argument line ≡ true
    → read_argument false n (argument ++ line) ≡ (backslashes_then n argument, line)
unfolding read_argument
read_argument_plain n [] line p h = read_argument_end n line h
read_argument_plain n (c ∷ argument) line p h =
    let rest = read_argument_plain 0 argument line (ground arith) h in
    let more = read_argument_plain (suc n) argument line (ground arith) h in
    elim (Bool-cases (c == backslash)) [
      | inl e ↦
          let same : c ≡ backslash = (==_iff c backslash).0 e in
          rw e (
            more
            ∙ ap (λ a. (a, line))
                (backslashes_then-suc n argument
                  ∙ ap (λ x. backslashes_then n (x ∷ argument)) (sym same)))
      | inr e ↦
          other_character false n c (argument ++ line) e (ground arith) (ground arith)
          ∙ ap (in_front (λ a. backslashes_then n (c ∷ a))) rest
    ]

open_quote :
    (line : Wide)
    → read_argument false 0 (b'"' ∷ line) ≡ in_front (λ a. a) (read_argument true 0 line)
unfolding read_argument
open_quote line = refl

-- A program that splits its command line by the documented rules reads each argument as it was
-- given, whatever quotes, backslashes and blanks it has, where a separator or the end follows.
pub read_argument-quote_windows_command_line_argument :
    (argument line : Wide)
    → ends_argument line ≡ true
    → read_argument false 0 (quote_windows_command_line_argument argument ++ line)
      ≡ (argument, line)
unfolding quote_windows_command_line_argument
read_argument-quote_windows_command_line_argument [] line h =
    open_quote (b'"' ∷ line) ∙ ap (in_front (λ a. a)) (close_quote 0 line h)
read_argument-quote_windows_command_line_argument (c ∷ argument) line h =
    elim (Bool-cases (is_plain (c ∷ argument))) [
      | inl e ↦ rw e (read_argument_plain 0 (c ∷ argument) line e h)
      | inr e ↦ rw e (
          open_quote (quote_loop 0 (c ∷ argument) ++ line)
          ∙ ap (in_front (λ a. a)) (read_argument-quote_loop 0 (c ∷ argument) line h))
    ]

begins-quote :
    (argument line : Wide) → begins (quote_windows_command_line_argument argument ++ line) ≡ true
unfolding quote_windows_command_line_argument
begins-quote [] line = refl
begins-quote (c ∷ argument) line = elim (Bool-cases (is_plain (c ∷ argument))) [
  | inl e ↦ rw e (ground arith)
  | inr e ↦ rw e refl
]

ends_argument-append_arguments :
    (arguments : List Wide) → ends_argument (append_arguments arguments) ≡ true
unfolding append_arguments
ends_argument-append_arguments [] = refl
ends_argument-append_arguments (a ∷ arguments) = refl

Splits-append_arguments : (arguments : List Wide) → Splits (append_arguments arguments) arguments
unfolding append_arguments
Splits-append_arguments [] = finished
Splits-append_arguments (a ∷ arguments) =
    next (begins-quote a (append_arguments arguments))
      (read_argument-quote_windows_command_line_argument a (append_arguments arguments)
        (ends_argument-append_arguments arguments))
      (Splits-append_arguments arguments)

read_program-quoted :
    (program line : Wide)
    → mem b'"' program ≡ false
    → read_program (program ++ b'"' ∷ line) ≡ some (program, line)
unfolding read_program
read_program-quoted [] line h = refl
read_program-quoted (c ∷ program) line h =
    let no_quote : (c == b'"') ≡ false = ground arith in
    rw (no_quote, read_program-quoted program line (ground arith)) refl

-- The command line that BuildWindowsCommandLine writes for a program whose name has no quote is
-- split into that name and the arguments, each as it was given.
pub build_windows_command_line-IsCommandLine :
    (program : Wide) (arguments : List Wide)
    → mem b'"' program ≡ false
    → (line : Wide) × (build_windows_command_line program arguments ≡ some line)
      × IsCommandLine line program arguments
unfolding build_windows_command_line
build_windows_command_line-IsCommandLine program arguments h = (
  b'"' ∷ (program ++ b'"' ∷ append_arguments arguments),
  rw h refl,
  record {
    tail = append_arguments arguments;
    named = read_program-quoted program (append_arguments arguments) h;
    opened = refl;
    split = Splits-append_arguments arguments;
  },
)
