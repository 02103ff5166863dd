-- ===== src/Host/Lines.antt =====
-- src/broker/BrokerProcessLauncher.cpp and src/common/WindowsCommandLine.cpp: the console host's
-- command line as one text, which the host's start-up code splits.
use launch_as.Base.{
  ℕ, zero, suc, ◌+◌, ◌*◌, ◌≡◌, refl, sym, ap, ◌∙◌, subst, inl, inr, Bool, true, false, not, Option,
  some, List, [], ◌∷◌, ◌++◌, arith, ◌==◌, Bool-cases, Bytes, Wide, all_of, mem, ok,
}
use launch_as.CommandLine.{
  backslashes_then, is_plain, quote_loop, quote_windows_command_line_argument, append_arguments,
  build_windows_command_line,
}
use launch_as.CommandLine.Rules.{Splits, finished, next, IsCommandLine}
use launch_as.CommandLine.Quoted.{build_windows_command_line-IsCommandLine}
use launch_as.Utf8.{Win32Text}
use launch_as.Protocol.{BrokerRequest, console_launch}
use launch_as.Protocol.Parse.{parse_broker_request}
use launch_as.Host.{
  parse_pseudo_console_host_invocation, conhost_arguments, until_nul, terminated,
  conhost_command_line,
}
use launch_as.Host.Handed.{invocation_of, parse-conhost_arguments}

-- The text has no U+0000.
abbrev pub has_no_nul : Wide → Bool
has_no_nul text = all_of (λ c. not (c == 0)) text

until_nul_all : (line : Wide) → has_no_nul line ≡ true → until_nul line ≡ line
until_nul_all [] h = refl
until_nul_all (c ∷ line) h =
    let no_nul : (c == 0) ≡ false = ground arith in
    rw no_nul (ap (λ t. c ∷ t) (until_nul_all line (ground arith)))

has_no_nul-append :
    (a b : Wide) → has_no_nul a ≡ true → has_no_nul b ≡ true → has_no_nul (a ++ b) ≡ true
has_no_nul-append [] b g h = h
has_no_nul-append (c ∷ a) b g h = ground (arith, has_no_nul-append a b)

has_no_nul-backslashes_then :
    (n : ℕ) (rest : Wide) → has_no_nul rest ≡ true → has_no_nul (backslashes_then n rest) ≡ true
has_no_nul-backslashes_then zero rest h = h
has_no_nul-backslashes_then (suc n) rest h = has_no_nul-backslashes_then n rest h

has_no_nul-quote_loop :
    (n : ℕ) (argument : Wide)
    → has_no_nul argument ≡ true
    → has_no_nul (quote_loop n argument) ≡ true
unfolding quote_loop
has_no_nul-quote_loop n [] h = has_no_nul-backslashes_then (n * 2) (b'"' ∷ []) refl
has_no_nul-quote_loop n (c ∷ argument) h =
    let counted = has_no_nul-quote_loop (suc n) argument (ground arith) in
    let rest = has_no_nul-quote_loop 0 argument (ground arith) in
    ground (
      arith,
      counted,
      has_no_nul-backslashes_then (n * 2 + 1) (b'"' ∷ quote_loop 0 argument),
      has_no_nul-backslashes_then n (c ∷ quote_loop 0 argument),
      rest,
    )

has_no_nul-quote_windows_command_line_argument :
    (argument : Wide)
    → has_no_nul argument ≡ true
    → has_no_nul (quote_windows_command_line_argument argument) ≡ true
unfolding quote_windows_command_line_argument
has_no_nul-quote_windows_command_line_argument [] h = refl
has_no_nul-quote_windows_command_line_argument (c ∷ argument) h =
    elim (Bool-cases (is_plain (c ∷ argument))) [
      | inl e ↦ rw e h
      | inr e ↦ rw e (has_no_nul-quote_loop 0 (c ∷ argument) h)
    ]

has_no_nul-append_arguments :
    (arguments : List Wide)
    → all_of has_no_nul arguments ≡ true
    → has_no_nul (append_arguments arguments) ≡ true
unfolding append_arguments
has_no_nul-append_arguments [] h = refl
has_no_nul-append_arguments (argument ∷ arguments) h =
    has_no_nul-append (quote_windows_command_line_argument argument) (append_arguments arguments)
      (has_no_nul-quote_windows_command_line_argument argument (ground arith))
      (has_no_nul-append_arguments arguments (ground arith))

-- A line is split in one way only.
Splits-unique : {line : Wide} {a b : List Wide} → Splits line a → Splits line b → a ≡ b
Splits-unique finished finished = refl
Splits-unique (next {line} {rest} {argument} {arguments} b r s)
      (next {rest = rest2} {argument = argument2} {arguments = arguments2} b2 r2 s2) =
    let e : Path (Wide × Wide) (argument, rest) (argument2, rest2) = sym r ∙ r2 in
    let same : rest ≡ rest2 = ap (λ p. p.1) e in
    let more = Splits-unique (subst (λ l. Splits l arguments) same s) s2 in
    ap (λ p. p.0 ∷ arguments) e ∙ ap (λ later. argument2 ∷ later) more

IsCommandLine-unique :
    (line program program2 : Wide) (a b : List Wide)
    → IsCommandLine line program a
    → IsCommandLine line program2 b
    → (program ≡ program2) × (a ≡ b)
IsCommandLine-unique line program program2 a b first second =
    let e : Path (Option (Wide × Wide)) (some (program, first.tail))
        (some (program2, second.tail)) =
      sym (first.named) ∙ second.named in
    let same : Path (Wide × Wide) (program, first.tail) (program2, second.tail) = cc in
    (
      ap (λ p. p.0) same,
      Splits-unique (subst (λ l. Splits l a) (ap (λ p. p.1) same) (first.split)) (second.split),
    )

-- The line has no NUL in front of the one that ends it.
terminated-build_windows_command_line :
    (program : Wide) (arguments : List Wide)
    → has_no_nul program ≡ true
    → all_of has_no_nul arguments ≡ true
    → terminated (build_windows_command_line program arguments)
      ≡ build_windows_command_line program arguments
unfolding build_windows_command_line
terminated-build_windows_command_line program arguments g h = elim (Bool-cases (mem b'"' program)) [
  | inl e ↦ rw e refl
  | inr e ↦ rw e (
      ap some (
        until_nul_all (b'"' ∷ (program ++ b'"' ∷ append_arguments arguments)) (
          has_no_nul-append program (b'"' ∷ append_arguments arguments) g
            (has_no_nul-append_arguments arguments h))))
]

-- Where the path of the console host has no quote and neither it nor an argument has a U+0000:
-- whatever message the broker accepts as a console launch of a command, the command line that it
-- starts the console host with is split, by the documented rules, into arguments from which the
-- host reads the pipes, the cursor flag, the AppContainer options and the command of the request.
pub parse-conhost_command_line :
    (win32 : Win32Text) (message : Bytes) (q : BrokerRequest) (conhost_path executable : Wide)
    (rest : List Wide)
    → parse_broker_request win32 message ≡ ok q
    → q.operation ≡ console_launch
    → q.arguments ≡ executable ∷ rest
    → mem b'"' conhost_path ≡ false
    → has_no_nul conhost_path ≡ true
    → all_of has_no_nul (conhost_arguments q) ≡ true
    → (line : Wide) × ((arguments : List Wide) × ((conhost_command_line conhost_path q ≡ some line)
          × (IsCommandLine line conhost_path arguments
              × (parse_pseudo_console_host_invocation (conhost_path ∷ arguments)
                  ≡ ok (invocation_of q executable rest)))))
unfolding conhost_command_line
parse-conhost_command_line win32 message q conhost_path executable rest h console command named g
      whole =
    let (line, written, split) =
      build_windows_command_line-IsCommandLine conhost_path (conhost_arguments q) named in
    (
      line,
      (
        conhost_arguments q,
        (
          terminated-build_windows_command_line conhost_path (conhost_arguments q) g whole
              ∙ written,
          (
            split,
            parse-conhost_arguments win32 message q conhost_path executable rest h console command,
          ),
        ),
      ),
    )
