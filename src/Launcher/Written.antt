-- ===== src/Launcher/Written.antt =====
-- src/launcher/LauncherOptions.cpp: options spelled as a command line, and ParseOptions on it.
use launch_as.Base.{
  ◌≡◌, refl, sym, ap, ◌∙◌, Bool, true, false, List, [], ◌∷◌, ◌++◌, append_assoc, append-nil, Wide,
  codes, ok,
}
use launch_as.Launcher.{
  SessionMode, Options, Scan, first_scan, is_flag, set_flag, mode_of, set_value, scan, are_sound,
  split_command, parse_options,
}

abbrev pub flag_text : Bool → Wide → List Wide → List Wide
flag_text true name rest = name ∷ rest
flag_text false name rest = rest

abbrev pub mode_text : SessionMode → Wide
mode_text SessionMode.console = codes "console"
mode_text SessionMode.interactive = codes "interactive"

abbrev pub capability_texts : List Wide → List Wide → List Wide
capability_texts [] rest = rest
capability_texts (c ∷ cs) rest = codes "--appcontainer-capability" ∷ c ∷ capability_texts cs rest

abbrev pub flag_texts : Options → List Wide → List Wide
flag_texts o rest = flag_text o.restrict_access (codes "--restrict-access") (
    flag_text o.low_integrity (codes "--low-integrity") (
      flag_text o.log (codes "--log")
        (flag_text o.app_container.enabled (codes "--appcontainer-experimental") rest)))

abbrev pub command_texts : Options → List Wide
command_texts o =
    capability_texts o.app_container.capabilities
      (codes "--" ∷ o.executable_path ∷ o.process_arguments)

-- A command line for the options, as the usage text describes it.
abbrev pub command_line : Options → List Wide
command_line o =
    codes "--user"
    ∷ o.username
    ∷ codes "--mode"
    ∷ mode_text o.session_mode
    ∷ codes "--working-directory"
    ∷ o.working_directory
    ∷ flag_texts o (command_texts o)

-- The variables when the capabilities are read.
reading : Options → List Wide → Scan
reading o cs = record {
  options = record o {
    executable_path = [];
    process_arguments = [];
    app_container = record (o.app_container) { capabilities = cs };
  };
  process_arguments_started = false;
  mode_seen = true;
}

scan-capability_texts :
    (o : Options) (done cs rest : List Wide)
    → scan (capability_texts cs (codes "--" ∷ rest)) (reading o done)
      ≡ scan (codes "--" ∷ rest) (reading o (done ++ cs))
unfolding scan set_flag set_value is_flag reading
scan-capability_texts o done [] rest =
    ap (λ cs. scan (codes "--" ∷ rest) (reading o cs)) (sym (append-nil done))
scan-capability_texts o done (c ∷ cs) rest =
    scan-capability_texts o (done ++ c ∷ []) cs rest
    ∙ ap (λ ds. scan (codes "--" ∷ rest) (reading o ds)) (append_assoc done (c ∷ []) cs)

-- The variables when the flags are read one after the other.
with_flags : Options → Bool → Bool → Bool → Bool → Scan
with_flags o restrict_access low_integrity log enabled = record {
  options = record o {
    executable_path = [];
    process_arguments = [];
    restrict_access = restrict_access;
    low_integrity = low_integrity;
    log = log;
    app_container = record { enabled = enabled; capabilities = [] };
  };
  process_arguments_started = false;
  mode_seen = true;
}

scan-flag_text :
    (b : Bool) (name : Wide) (rest : List Wide) (state : Bool → Scan)
    → ((rest : List Wide) → scan (name ∷ rest) (state false) ≡ scan rest (state true))
    → scan (flag_text b name rest) (state false) ≡ scan rest (state b)
scan-flag_text true name rest state step = step rest
scan-flag_text false name rest state step = refl

module _ (o : Options) (a b c : Bool) where
  scan-restrict_access :
      (rest : List Wide)
      → scan (codes "--restrict-access" ∷ rest) (with_flags o false a b c)
        ≡ scan rest (with_flags o true a b c)
  unfolding scan is_flag set_flag with_flags
  scan-restrict_access [] = refl
  scan-restrict_access (x ∷ rest) = refl

  scan-low_integrity :
      (rest : List Wide)
      → scan (codes "--low-integrity" ∷ rest) (with_flags o a false b c)
        ≡ scan rest (with_flags o a true b c)
  unfolding scan is_flag set_flag with_flags
  scan-low_integrity [] = refl
  scan-low_integrity (x ∷ rest) = refl

  scan-log :
      (rest : List Wide)
      → scan (codes "--log" ∷ rest) (with_flags o a b false c) ≡ scan rest (with_flags o a b true c)
  unfolding scan is_flag set_flag with_flags
  scan-log [] = refl
  scan-log (x ∷ rest) = refl

  scan-app_container :
      (rest : List Wide)
      → scan (codes "--appcontainer-experimental" ∷ rest) (with_flags o a b c false)
        ≡ scan rest (with_flags o a b c true)
  unfolding scan is_flag set_flag with_flags
  scan-app_container [] = refl
  scan-app_container (x ∷ rest) = refl

scan_flags :
    (o : Options) (rest : List Wide)
    → scan (flag_texts o rest) (with_flags o false false false false)
      ≡ scan rest (with_flags o o.restrict_access o.low_integrity o.log o.app_container.enabled)
scan_flags o rest =
    scan-flag_text o.restrict_access (codes "--restrict-access") _
      (λ b. with_flags o b false false false) (scan-restrict_access o _ _ _)
    ∙ (scan-flag_text o.low_integrity (codes "--low-integrity") _
          (λ b. with_flags o o.restrict_access b false false) (scan-low_integrity o _ _ _)
        ∙ (scan-flag_text o.log (codes "--log") _
              (λ b. with_flags o o.restrict_access o.low_integrity b false) (scan-log o _ _ _)
            ∙ scan-flag_text o.app_container.enabled (codes "--appcontainer-experimental") rest
                (λ b. with_flags o o.restrict_access o.low_integrity o.log b)
                (scan-app_container o _ _ _)))

mode_of-mode_text : (m : SessionMode) → mode_of (mode_text m) ≡ ok m
unfolding mode_of
mode_of-mode_text SessionMode.console = refl
mode_of-mode_text SessionMode.interactive = refl

-- The options with a value come first.
scan_values :
    (o : Options) (rest : List Wide)
    → scan
        (codes "--user"
          ∷ o.username
          ∷ codes "--mode"
          ∷ mode_text o.session_mode
          ∷ codes "--working-directory"
          ∷ o.working_directory
          ∷ rest)
        first_scan
      ≡ scan rest (with_flags o false false false false)
unfolding scan is_flag set_value with_flags
scan_values o rest = rw (mode_of-mode_text o.session_mode) refl

-- Behind the options stand the program and its arguments.
scanned : Options → Scan
scanned o = record {
  options = record o {
    executable_path = [];
    process_arguments = o.executable_path ∷ o.process_arguments;
  };
  process_arguments_started = true;
  mode_seen = true;
}

scan-command_line : (o : Options) → scan (command_line o) first_scan ≡ ok (scanned o)
unfolding with_flags reading scan scanned
scan-command_line o =
    scan_values o (flag_texts o (command_texts o))
    ∙ (scan_flags o (command_texts o)
        ∙ (scan-capability_texts o [] o.app_container.capabilities
              (o.executable_path ∷ o.process_arguments)
            ∙ refl))

-- ParseOptions reads back the options from a command line that spells them, with or without the
-- word "run", if they satisfy its conditions; the program's arguments may look like options.
pub parse_options-command_line :
    (program : Wide) (o : Options)
    → are_sound o ≡ true
    → parse_options (program ∷ codes "run" ∷ command_line o) ≡ ok o
      × parse_options (program ∷ command_line o) ≡ ok o
unfolding parse_options split_command scanned
parse_options-command_line program o sound =
    (rw (scan-command_line o, sound) refl, rw (scan-command_line o, sound) refl)
