-- ===== src/Host/Handed.antt =====
-- src/broker/BrokerApplication.cpp and src/conhost/PseudoConsoleHostInvocation.cpp: the console
-- host's command line, from the broker that writes it to the host that parses it.
use launch_as.Base.{
  ℕ, ◌<◌, ◌≡◌, refl, sym, ap, ◌∙◌, subst, Bool, true, false, not, ◌||◌, List, [], ◌∷◌, ◌++◌,
  append_assoc, append-nil, arith, if◌then◌else◌, Bytes, Wide, codes, length, is_empty, all_of,
  drop, length-append, text_eq, ok, ◌>>=◌,
}
use launch_as.AppContainer.{
  AppContainerOptions, is_app_container_capability, are_capabilities,
  is_valid_app_container_options,
}
use launch_as.Utf8.{Win32Text}
use launch_as.Protocol.{BrokerRequest, console_launch, is_console_pipe_name}
use launch_as.Protocol.Parse.{parse_broker_request, are_console_pipes}
use launch_as.Protocol.Admission.{FitsOperation, parse_broker_request-IsAdmissible}
use launch_as.Host.{
  PseudoConsoleHostInvocation, no_invocation, set_host_option, host_options, host_command,
  host_argument, parse_pseudo_console_host_invocation, capability_arguments, conhost_arguments,
}

-- What the host is to see.
abbrev pub invocation_of : BrokerRequest → Wide → List Wide → PseudoConsoleHostInvocation
invocation_of q executable rest = record {
  inherit_cursor = q.console.inherit_cursor;
  app_container = q.app_container;
  executable = executable;
  process_arguments = rest;
  pipe_in = q.console.pipe_in;
  pipe_out = q.console.pipe_out;
  pipe_resize = q.console.pipe_resize;
}

-- The variables when the container's options are read.
with_container : Bool → Bool → List Wide → PseudoConsoleHostInvocation
with_container inherit_cursor enabled capabilities = record no_invocation {
  inherit_cursor = inherit_cursor;
  app_container = record { enabled = enabled; capabilities = capabilities };
}

abbrev pipe_arguments : Wide → Wide → Wide → List Wide → List Wide
pipe_arguments a b c command =
    codes "--pipe-in"
    ∷ a
    ∷ codes "--pipe-out"
    ∷ b
    ∷ codes "--pipe-resize"
    ∷ c
    ∷ codes "--"
    ∷ command

is_given : Wide → Bool
is_given value = not (is_empty value)

host_options-capability_arguments :
    (b : Bool) (done cs rest : List Wide)
    → all_of is_given cs ≡ true
    → host_options (capability_arguments cs ++ rest) (with_container b true done)
      ≡ host_options rest (with_container b true (done ++ cs))
unfolding host_options capability_arguments set_host_option with_container is_given
host_options-capability_arguments b done [] rest h =
    ap (λ ds. host_options rest (with_container b true ds)) (sym (append-nil done))
host_options-capability_arguments b done ([] ∷ cs) rest h = cc
host_options-capability_arguments b done ((x ∷ c) ∷ cs) rest h =
    host_options-capability_arguments b (done ++ (x ∷ c) ∷ []) cs rest h
    ∙ ap (λ ds. host_options rest (with_container b true ds)) (append_assoc done ((x ∷ c) ∷ []) cs)

host_options-pipe_arguments :
    (b e : Bool) (cs : List Wide) (x y z : ℕ) (pipe_in pipe_out pipe_resize : Wide)
    (command : List Wide)
    → host_options
        (pipe_arguments (x ∷ pipe_in) (y ∷ pipe_out) (z ∷ pipe_resize) command)
        (with_container b e cs)
      ≡ ok (
        record (with_container b e cs) {
          pipe_in = x ∷ pipe_in;
          pipe_out = y ∷ pipe_out;
          pipe_resize = z ∷ pipe_resize;
        },
        codes "--" ∷ command,
      )
unfolding host_options set_host_option with_container
host_options-pipe_arguments b e cs x y z pipe_in pipe_out pipe_resize [] = refl
host_options-pipe_arguments b e cs x y z pipe_in pipe_out pipe_resize (c ∷ command) = refl

-- The container's options stand in front of the pipes.
abbrev container_arguments : Bool → List Wide → List Wide → List Wide
container_arguments enabled capabilities rest =
    (if enabled
      then codes "--appcontainer-experimental" ∷ capability_arguments capabilities
      else [])
    ++ rest

enables :
    (b : Bool) (cs : List Wide) (first : Wide) (rest : List Wide)
    → host_options (container_arguments true cs (first ∷ rest)) (with_container b false [])
      ≡ host_options (capability_arguments cs ++ first ∷ rest) (with_container b true [])
unfolding host_options capability_arguments with_container
enables b [] first rest = refl
enables b (c ∷ cs) first rest = refl

host_options-container_arguments :
    (b e : Bool) (cs : List Wide) (first : Wide) (rest : List Wide)
    → all_of is_given cs ≡ true
    → (e || is_empty cs) ≡ true
    → host_options (container_arguments e cs (first ∷ rest)) (with_container b false [])
      ≡ host_options (first ∷ rest) (with_container b e cs)
host_options-container_arguments b true cs first rest h off =
    enables b cs first rest ∙ host_options-capability_arguments b [] cs (first ∷ rest) h
host_options-container_arguments b false [] first rest h off = refl
host_options-container_arguments b false (c ∷ cs) first rest h off = cc

parse_steps :
    (program first : Wide) (rest : List Wide)
    → 0 < length rest
    → parse_pseudo_console_host_invocation (program ∷ host_argument ∷ first ∷ rest) ≡ (
        host_options
          (if text_eq first (codes "--inherit-cursor") then rest else first ∷ rest)
          (with_container (text_eq first (codes "--inherit-cursor")) false [])
        >>= λ (r, behind). host_command r behind)
unfolding parse_pseudo_console_host_invocation with_container
parse_steps program first [] h = ground arith
parse_steps program first (x ∷ rest) h = refl

parse_arguments :
    (program : Wide) (b e : Bool) (cs : List Wide) (first second : Wide) (rest : List Wide)
    → text_eq first (codes "--inherit-cursor") ≡ false
    → parse_pseudo_console_host_invocation (
        program
        ∷ host_argument
        ∷ ((if b then codes "--inherit-cursor" ∷ [] else [])
            ++ container_arguments e cs (first ∷ second ∷ rest)))
      ≡ (host_options (container_arguments e cs (first ∷ second ∷ rest)) (with_container b false [])
          >>= λ (r, behind). host_command r behind)
parse_arguments program true true cs first second rest h =
    parse_steps program (codes "--inherit-cursor")
      (container_arguments true cs (first ∷ second ∷ rest)) (omega arith)
parse_arguments program true false cs first second rest h =
    parse_steps program (codes "--inherit-cursor") (first ∷ second ∷ rest) (omega arith)
parse_arguments program false true cs first second rest h =
    parse_steps program (codes "--appcontainer-experimental")
      (capability_arguments cs ++ first ∷ second ∷ rest)
      (omega (arith, length-append (capability_arguments cs) (first ∷ second ∷ rest)))
parse_arguments program false false cs first second rest h =
    parse_steps program first (second ∷ rest) (omega arith) ∙ rw h refl

-- The pipes of an accepted request have a name, and so has every capability.
is_given-pipe : (value : Wide) → is_console_pipe_name value ≡ true → is_given value ≡ true
unfolding is_given is_console_pipe_name
is_given-pipe [] h = cc
is_given-pipe (c ∷ value) h = refl

is_given-capabilities :
    (front cs : List Wide) → are_capabilities front cs ≡ true → all_of is_given cs ≡ true
unfolding are_capabilities is_given is_app_container_capability
is_given-capabilities front [] h = refl
is_given-capabilities front (c ∷ cs) h = ground (arith, is_given-capabilities (front ++ c ∷ []) cs)

is_valid-parts :
    (a : AppContainerOptions)
    → is_valid_app_container_options a ≡ true
    → (all_of is_given a.capabilities ≡ true) × ((a.enabled || is_empty a.capabilities) ≡ true)
unfolding is_valid_app_container_options
is_valid-parts a h = (is_given-capabilities [] a.capabilities (ground arith), ground arith)

-- The line of a command with its pipes, read by the host.
parse_pipes :
    (program : Wide) (b : Bool) (a : AppContainerOptions) (pipe_in pipe_out pipe_resize : Wide)
    (executable : Wide) (rest : List Wide)
    → is_valid_app_container_options a ≡ true
    → is_given pipe_in ≡ true
    → is_given pipe_out ≡ true
    → is_given pipe_resize ≡ true
    → parse_pseudo_console_host_invocation (
        program
        ∷ host_argument
        ∷ ((if b then codes "--inherit-cursor" ∷ [] else [])
            ++ container_arguments a.enabled a.capabilities
                (pipe_arguments pipe_in pipe_out pipe_resize (executable ∷ rest))))
      ≡ ok (record {
        inherit_cursor = b;
        app_container = a;
        executable = executable;
        process_arguments = rest;
        pipe_in = pipe_in;
        pipe_out = pipe_out;
        pipe_resize = pipe_resize;
      })
unfolding is_given host_command with_container
parse_pipes program b a [] po pr executable rest v i o r = cc
parse_pipes program b a pi [] pr executable rest v i o r = cc
parse_pipes program b a pi po [] executable rest v i o r = cc
parse_pipes program b a (x ∷ pi) (y ∷ po) (z ∷ pr) executable rest v i o r =
    let parts = is_valid-parts a v in
    let line = pipe_arguments (x ∷ pi) (y ∷ po) (z ∷ pr) (executable ∷ rest) in
    parse_arguments program b a.enabled a.capabilities (codes "--pipe-in") (x ∷ pi) (drop 2 line)
      refl
    ∙ (ap (λ m. m >>= λ (r, behind). host_command r behind)
          (host_options-container_arguments b a.enabled a.capabilities (codes "--pipe-in")
              (drop 1 line) parts.0 parts.1
            ∙ host_options-pipe_arguments b a.enabled a.capabilities x y z pi po pr
                (executable ∷ rest))
        ∙ rw v refl)

are_given :
    (a b c : Wide)
    → are_console_pipes a b c ≡ true
    → (is_given a ≡ true) × (is_given b ≡ true) × (is_given c ≡ true)
unfolding are_console_pipes
are_given a b c h =
    (is_given-pipe a (ground arith), is_given-pipe b (ground arith), is_given-pipe c (ground arith))

-- From the arguments that the broker hands over for a console launch of a command that it has
-- accepted, the console host reads the pipes, the cursor flag, the AppContainer options and the
-- command of the request.
pub parse-conhost_arguments :
    (win32 : Win32Text) (message : Bytes) (q : BrokerRequest) (program executable : Wide)
    (rest : List Wide)
    → parse_broker_request win32 message ≡ ok q
    → q.operation ≡ console_launch
    → q.arguments ≡ executable ∷ rest
    → parse_pseudo_console_host_invocation (program ∷ conhost_arguments q)
      ≡ ok (invocation_of q executable rest)
unfolding conhost_arguments
parse-conhost_arguments win32 message q program executable rest h console command =
    let v = parse_broker_request-IsAdmissible win32 message h in
    let fits = subst (λ o. FitsOperation o q) console v.fits in
    let given = are_given q.console.pipe_in q.console.pipe_out q.console.pipe_resize fits.1 in
    rw command (
      parse_pipes program q.console.inherit_cursor q.app_container q.console.pipe_in
        q.console.pipe_out q.console.pipe_resize executable rest v.container given.0 given.1
        given.2)
