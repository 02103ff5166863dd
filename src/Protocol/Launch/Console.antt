-- ===== src/Protocol/Launch/Console.antt =====
-- src/protocol/BrokerProtocol.cpp: console launches, from BuildConsoleLaunchRequest to
-- ParseBrokerRequest.
use launch_as.Base.{
  ◌≤◌, ◌<◌, ◌≡◌, refl, sym, ap, ◌∙◌, subst, Bool, true, false, not, ◌&&◌, ◌||◌, some, List, [], ◌∷◌,
  ◌++◌, append_assoc, arith, Bytes, Wide, codes, length, is_empty, all_of, All, Outcome, ok,
}
use launch_as.Utf8.{Win32Text, is_valid_utf16}
use launch_as.Utf8.Encoding.{IsStrict, IsUtf16}
use launch_as.Json.Writer.{json_string, json_strings, json_chars, json_char}
use launch_as.Json.Texts.{IsText, literal-IsText}
use launch_as.Json.Objects.{read_object, maximum_arguments}
use launch_as.AppContainer.{
  AppContainerOptions, is_app_container_capability, are_capabilities,
  is_valid_app_container_options,
}
use launch_as.Protocol.{
  BrokerRequest, console_launch, empty_interactive, is_console_pipe_name, is_pipe_name,
}
use launch_as.Protocol.Request.{Reading, no_reading, launch_mode_of}
use launch_as.Protocol.Fields.{request_field}
use launch_as.Protocol.Parse.{
  parse_broker_request, are_console_pipes, finish, is_sound, finish_profile, finish_launch,
  finish_mode, finish_console, is_account_operation,
}
use launch_as.Protocol.Admission.{IsAdmissible}
use launch_as.Protocol.Build.{launch_head, optional, console_tail, build_console_launch_request}
use launch_as.Protocol.Written.{app_container_written, capabilities_written}
use launch_as.Protocol.Walk.{Walks, walk, walk_end, parse_broker_request_reads}
use launch_as.Protocol.Management.{profile_id-IsText}
use launch_as.Protocol.Launch.{head_reading, flag_reading, reads_head, reads_flags}
use launch_as.Protocol.Launch.Built.{
  not_refused, within_message_lem, HasTexts, is_valid_utf16-IsUtf16, begin_launch_request_lem,
  arguments-IsText, capabilities-IsText,
}
use launch_as.Protocol.Launch.Member.{AreTexts, console_member_written}

module _ (win32 : Win32Text) (strict : IsStrict win32) where
  -- The AppContainer options, which are written if they are on.
  container_part :
      (enabled : Bool) (cs : List Wide) (r : Reading) (rest : Bytes)
      {result : Outcome (Reading × Bytes)}
      → r.app_container ≡ false
      → r.capabilities ≡ false
      → r.request.app_container ≡ record { enabled = false; capabilities = [] }
      → (enabled || is_empty cs) ≡ true
      → All IsText cs
      → all_of is_app_container_capability cs ≡ true
      → length cs ≤ maximum_arguments
      → Walks win32 strict
          (record r {
            request = record (r.request) {
              app_container = record { enabled = enabled; capabilities = cs };
            };
            app_container = enabled;
            capabilities = enabled;
          })
          rest
          result
      → Walks win32 strict r
          (optional enabled
              (codes ",\"appContainer\":true,\"capabilities\":[" ++ (json_strings cs ++ codes "]"))
            ++ rest)
          result
  unfolding json_string json_chars json_char
  container_part true cs r rest {result} a b c off t v few next =
      walk win32 strict (codes "appContainer") r _ refl
        (app_container_written win32 strict r _ true a)
        (walk win32 strict (codes "capabilities") _ _ refl
          (ap (request_field win32 _ (codes "capabilities"))
              (ap (λ w. b'[' ∷ w) (append_assoc (json_strings cs) (codes "]") rest))
            ∙ capabilities_written win32 strict _ rest cs b t v few)
          next)
  container_part false [] r rest {result} a b c off t v few next =
      subst (λ x. Walks win32 strict x rest result)
        (λ i. record r {
          request = record (r.request) { app_container = sym c i };
          app_container = sym a i;
          capabilities = sym b i;
        })
        next
  container_part false (x ∷ cs) r rest a b c off t v few next = absurd (ground arith)

-- The request that the broker is to see.
abbrev pub console_request : BrokerRequest → BrokerRequest
console_request q = record q {
  operation = console_launch;
  force = false;
  interactive = empty_interactive;
}

-- The variables behind the whole object.
abbrev console_reading : BrokerRequest → Reading
console_reading q =
    let head =
      flag_reading
        (head_reading q.request_id q.profile_id (codes "console") q.arguments q.working_directory)
        q.log q.restrict_access q.low_integrity in
    record head {
      request = record (head.request) { app_container = q.app_container; console = q.console };
      app_container = q.app_container.enabled;
      capabilities = q.app_container.enabled;
      console = true;
    }

finish-console_reading :
    (q : BrokerRequest)
    → IsAdmissible (console_request q)
    → finish (console_reading q) ≡ ok (console_request q)
unfolding finish is_sound finish_profile finish_launch finish_mode finish_console launch_mode_of
    is_account_operation
finish-console_reading q v =
    rw (v.container, v.container_alone, not_both q.app_container.enabled) (rw v.fits.1 refl)
  where
    not_both : (b : Bool) → (b && not b) ≡ false
    not_both true = refl
    not_both false = refl

pipe-IsText : (v : Wide) → IsUtf16 v → is_console_pipe_name v ≡ true → IsText v
unfolding is_console_pipe_name is_pipe_name
pipe-IsText v u h = (u, ground arith)

are_pipe_names :
    (a b c : Wide)
    → are_console_pipes a b c ≡ true
    → (is_console_pipe_name a ≡ true)
      × (is_console_pipe_name b ≡ true)
      × (is_console_pipe_name c ≡ true)
unfolding are_console_pipes
are_pipe_names a b c h = (ground arith, ground arith, ground arith)

length-valid_capabilities :
    (a : AppContainerOptions)
    → is_valid_app_container_options a ≡ true
    → ((a.enabled || is_empty a.capabilities) ≡ true)
      × (length a.capabilities ≤ maximum_arguments)
      × (are_capabilities [] a.capabilities ≡ true)
unfolding is_valid_app_container_options
length-valid_capabilities a h = (ground arith, ground arith, ground arith)

pub head_pos :
    (request_id profile_id mode : Wide) (arguments : List Wide) (directory : Wide) (more : Bytes)
    → 0 < length (launch_head request_id profile_id mode arguments directory more)
unfolding launch_head
head_pos request_id profile_id mode arguments directory more = omega arith

module _ (win32 : Win32Text) (strict : IsStrict win32) (q : BrokerRequest)
    (v : IsAdmissible (console_request q)) where
  abbrev tail_of : Bytes
  tail_of =
      console_tail q.console.pipe_in q.console.pipe_out q.console.pipe_resize
        q.console.inherit_cursor q.restrict_access q.low_integrity q.log q.app_container

  reads_console :
      HasTexts q.profile_id q.working_directory q.arguments
      → AreTexts q.console
      → read_object win32 (request_field win32) no_reading (
          launch_head q.request_id q.profile_id
            (codes "console")
            q.arguments
            q.working_directory
            tail_of)
        ≡ ok (console_reading q, [])
  unfolding console_tail json_string json_chars json_char
  reads_console t pipes =
      let l = v.fits.0 in
      let a = length-valid_capabilities q.app_container v.container in
      let caps = capabilities-IsText [] q.app_container.capabilities a.2 in
      reads_head win32 strict q.request_id q.profile_id (codes "console") q.arguments
        q.working_directory _ (λ rest. refl) (literal-IsText (codes "console") refl)
        (unfold launch_mode_of in refl) v.request_id
        (profile_id-IsText q.profile_id t.profile_id_text l.account) l.account
        (arguments-IsText q.arguments t.arguments_texts l.arguments_short) l.arguments_short
        l.arguments_few (t.working_directory_text, ground (arith, l.directory)) l.directory
        (reads_flags win32 strict _ q.log q.restrict_access q.low_integrity _ refl refl refl refl
          refl refl
          (container_part win32 strict q.app_container.enabled q.app_container.capabilities _ _ refl
            refl refl a.0 caps.0 caps.1 a.1
            (walk win32 strict (codes "console") _ _ refl
              (console_member_written win32 strict _ q.console (b'}' ∷ []) refl pipes)
              (walk_end win32 strict _ []))))

  -- Where the Win32 conversions are strict, the broker reads back every console launch that
  -- BuildConsoleLaunchRequest writes for a request that it may admit.
  pub parse-build_console_launch_request :
      (message : Bytes)
      → build_console_launch_request win32 q.request_id q.profile_id q.arguments q.working_directory
          q.console.pipe_in q.console.pipe_out q.console.pipe_resize q.console.inherit_cursor
          q.restrict_access q.low_integrity q.log q.app_container
        ≡ some message
      → parse_broker_request win32 message ≡ ok (console_request q)
  unfolding build_console_launch_request
  parse-build_console_launch_request message h =
      let split =
        not_refused
          (not (is_valid_app_container_options q.app_container)
            || q.app_container.enabled && (q.restrict_access || q.low_integrity)
            || is_empty q.console.pipe_in
            || is_empty q.console.pipe_out
            || is_empty q.console.pipe_resize
            || not (is_valid_utf16 win32 q.console.pipe_in)
            || not (is_valid_utf16 win32 q.console.pipe_out)
            || not (is_valid_utf16 win32 q.console.pipe_resize))
          _ message h in
      let (begun, small) = within_message_lem _ message split.1 in
      let (texts, e) =
        begin_launch_request_lem win32 strict q.request_id q.profile_id (codes "console")
          q.arguments q.working_directory tail_of message begun in
      let names =
        are_pipe_names q.console.pipe_in q.console.pipe_out q.console.pipe_resize v.fits.1 in
      let pipes : AreTexts q.console = record {
        pipe_in_text =
            pipe-IsText q.console.pipe_in
              (is_valid_utf16-IsUtf16 win32 strict q.console.pipe_in (ground (arith, split.0)))
              names.0;
        pipe_out_text =
            pipe-IsText q.console.pipe_out
              (is_valid_utf16-IsUtf16 win32 strict q.console.pipe_out (ground (arith, split.0)))
              names.1;
        pipe_resize_text =
            pipe-IsText q.console.pipe_resize
              (is_valid_utf16-IsUtf16 win32 strict q.console.pipe_resize (ground (arith, split.0)))
              names.2;
      } in
      parse_broker_request_reads win32 message
        (subst (λ m. 0 < length m) e
          (head_pos q.request_id q.profile_id (codes "console") q.arguments q.working_directory
            tail_of))
        small
        (subst
          (λ m. read_object win32 (request_field win32) no_reading m ≡ ok (console_reading q, [])) e
          (reads_console texts pipes))
        (finish-console_reading q v)
