-- ===== src/Tests/CommandLines.antt =====
-- Command lines at concrete inputs.
use launch_as.Base.{◌≡◌, refl, false, some, [], ◌∷◌, ◌++◌, Wide, codes}
use launch_as.CommandLine.{quote_windows_command_line_argument, build_windows_command_line}
use launch_as.CommandLine.Rules.{read_argument, IsCommandLine}
use launch_as.CommandLine.Quoted.{
  read_argument-quote_windows_command_line_argument, build_windows_command_line-IsCommandLine,
}

-- A quote behind a backslash, a blank, and a backslash at the end.
abbrev argument : Wide
argument = codes "say \\\"hi there\\"

read_argument-quote_windows_command_line_argument_example :
    read_argument false 0 (quote_windows_command_line_argument argument ++ codes " next")
    ≡ (argument, codes " next")
read_argument-quote_windows_command_line_argument_example =
    read_argument-quote_windows_command_line_argument argument (codes " next") refl

build_windows_command_line-IsCommandLine_example :
    (line : Wide) × (build_windows_command_line
        (codes "C:\\my tools\\")
        (argument ∷ [] ∷ codes "plain" ∷ [])
      ≡ some line)
    × IsCommandLine line (codes "C:\\my tools\\") (argument ∷ [] ∷ codes "plain" ∷ [])
build_windows_command_line-IsCommandLine_example =
    build_windows_command_line-IsCommandLine (codes "C:\\my tools\\")
      (argument ∷ [] ∷ codes "plain" ∷ []) refl
