-- ===== src/CommandLine.antt =====
-- src/common/WindowsCommandLine.cpp: the command line of a new process.
pub mod Rules
pub mod Quoted
use launch_as.Base.{
  ℕ, zero, suc, ◌+◌, ◌-◌, ◌*◌, ◌/◌, ◌%◌, ◌^◌, ◌≤◌, ◌<◌, bit_or, String, ◌≡◌, refl, sym, ap, ◌∙◌,
  subst, ◌≢◌, ◌↔◌, ◌⊎◌, inl, inr, Bool, true, false, not, ◌&&◌, ◌||◌, Option, none, some, List, [],
  ◌∷◌, ◌++◌, map, append_assoc, append-nil, arith, ltb, leb, ◌==◌, within, if◌then◌else◌, ==_iff,
  Bool-cases, Option-cases, Bytes, Wide, codes, length, is_empty, all_of, drop, All, length-append,
  text_eq, mem, starts_with, text_eq_refl, text_eq_sound, Outcome, ok, rejected, stuck, ◌>>=◌, ◌>>◌,
  guard, or_reject,
}

abbrev pub backslash : ℕ
backslash = 0x5C

-- `quoted.append(count, L'\\')`, in front of what follows.
abbrev pub backslashes_then : ℕ → Wide → Wide
backslashes_then zero rest = rest
backslashes_then (suc count) rest = backslash ∷ backslashes_then count rest

-- The characters that ask for quotes: space, tab, line feed, vertical tab and the quote.
abbrev pub special : Wide
special = 0x20 ∷ 0x09 ∷ 0x0A ∷ 0x0B ∷ 0x22 ∷ []

-- The loop over the argument; the backslashes that it has counted are not written yet.
unfoldable pub quote_loop : ℕ → Wide → Wide
quote_loop backslashes [] = backslashes_then (backslashes * 2) (b'"' ∷ [])
quote_loop backslashes (c ∷ rest) =
    let counted = quote_loop (suc backslashes) rest in
    let next = quote_loop 0 rest in
    if c == backslash
    then counted
    else if c == b'"'
    then backslashes_then (backslashes * 2 + 1) (b'"' ∷ next)
    else backslashes_then backslashes (c ∷ next)

abbrev pub is_plain : Wide → Bool
is_plain argument = all_of (λ c. not (mem c special)) argument

unfoldable pub quote_windows_command_line_argument : Wide → Wide
unfolding quote_loop
quote_windows_command_line_argument [] = codes "\"\""
quote_windows_command_line_argument (c ∷ rest) =
    if is_plain (c ∷ rest) then c ∷ rest else b'"' ∷ quote_loop 0 (c ∷ rest)

unfoldable pub append_arguments : List Wide → Wide
unfolding quote_windows_command_line_argument
append_arguments [] = []
append_arguments (argument ∷ rest) =
    b' ' ∷ (quote_windows_command_line_argument argument ++ append_arguments rest)

-- `none` is the exception.
unfoldable pub build_windows_command_line : Wide → List Wide → Option Wide
unfolding append_arguments
build_windows_command_line executable arguments =
    if mem b'"' executable
    then none
    else some (b'"' ∷ (executable ++ b'"' ∷ append_arguments arguments))
