-- ===== src/Protocol/Launch/Interactive.antt =====
-- src/protocol/BrokerProtocol.cpp: interactive launches, from BuildInteractiveLaunchRequest to
-- ParseBrokerRequest.
use launch_as.Base.{
  ◌<◌, ◌≡◌, refl, subst, true, false, not, ◌||◌, some, [], ◌∷◌, ◌++◌, arith, Bytes, Wide, codes,
  length, is_empty, ok,
}
use launch_as.Utf8.{Win32Text, is_valid_utf16}
use launch_as.Utf8.Encoding.{IsStrict, IsUtf16}
use launch_as.Json.Writer.{json_string, json_chars, json_char}
use launch_as.Json.Texts.{IsText, literal-IsText, string-written}
use launch_as.Json.Objects.{read_object}
use launch_as.Json.Members.{Continues-end, Continues-member, read_object-member}
use launch_as.AppContainer.{is_valid_app_container_options, are_capabilities}
use launch_as.Protocol.{
  BrokerRequest, InteractiveLaunchRequest, interactive_launch, empty_console,
  is_interactive_lease_pipe_name, is_pipe_name,
}
use launch_as.Protocol.Request
use launch_as.Protocol.Request.{
  InteractiveReading, Reading, no_reading, launch_mode_of, interactive_field,
  read_interactive_launch,
}
use launch_as.Protocol.Fields
use launch_as.Protocol.Fields.{request_field}
use launch_as.Protocol.Parse.{
  parse_broker_request, finish, is_sound, finish_profile, finish_launch, finish_mode,
  finish_interactive, is_account_operation,
}
use launch_as.Protocol.Admission.{IsAdmissible}
use launch_as.Protocol.Build.{launch_head, interactive_tail, build_interactive_launch_request}
use launch_as.Protocol.Termination.{interactive_field-Ends}
use launch_as.Protocol.Walk.{walk, walk_end, parse_broker_request_reads}
use launch_as.Protocol.Management.{profile_id-IsText, request_id-IsText}
use launch_as.Protocol.Launch.{head_reading, flag_reading, reads_head, reads_flags}
use launch_as.Protocol.Launch.Built.{
  not_refused, within_message_lem, HasTexts, is_valid_utf16-IsUtf16, begin_launch_request_lem,
  arguments-IsText,
}
use launch_as.Protocol.Launch.Console.{head_pos}

-- The value of the member as BuildInteractiveLaunchRequest writes it.
abbrev interactive_text : InteractiveLaunchRequest → Bytes → Bytes
interactive_text i rest =
    codes "{\"leasePipe\":"
    ++ (json_string i.lease_pipe ++ (codes ",\"nonce\":" ++ (json_string i.nonce ++ b'}' ∷ rest)))

module _ (win32 : Win32Text) (strict : IsStrict win32) where
  lease_pipe_written :
      (r : InteractiveReading) (v : Wide) (rest : Bytes)
      → r.lease_pipe ≡ false
      → IsText v
      → interactive_field win32 r (codes "leasePipe") (json_string v ++ rest)
        ≡ ok (
          record r { interactive = record (r.interactive) { lease_pipe = v }; lease_pipe = true },
          rest,
        )
  unfolding interactive_field Request.read_lease_pipe
  lease_pipe_written r v rest first t = rw (first, string-written win32 strict v rest t)

  nonce_written :
      (r : InteractiveReading) (v : Wide) (rest : Bytes)
      → r.nonce ≡ false
      → IsText v
      → interactive_field win32 r (codes "nonce") (json_string v ++ rest)
        ≡ ok (record r { interactive = record (r.interactive) { nonce = v }; nonce = true }, rest)
  unfolding interactive_field Request.read_nonce
  nonce_written r v rest first t = rw (first, string-written win32 strict v rest t)

  read_interactive_written :
      (start i : InteractiveLaunchRequest) (rest : Bytes)
      → IsText i.lease_pipe
      → IsText i.nonce
      → read_interactive_launch win32 start (interactive_text i rest) ≡ ok (i, rest)
  unfolding read_interactive_launch json_string json_chars json_char
  read_interactive_written start i rest t u = rw (
      read_object-member win32 strict (interactive_field win32) (interactive_field-Ends win32)
        (codes "leasePipe") (record { interactive = start; lease_pipe = false; nonce = false }) _
        refl (lease_pipe_written _ i.lease_pipe _ refl t)
        (Continues-member win32 strict (interactive_field win32) (interactive_field-Ends win32)
          (codes "nonce") _ _ refl (nonce_written _ i.nonce _ refl u)
          (Continues-end win32 strict (interactive_field win32) (interactive_field-Ends win32) _
            rest)))

  interactive_member_written :
      (r : Reading) (i : InteractiveLaunchRequest) (rest : Bytes)
      → r.interactive ≡ false
      → IsText i.lease_pipe
      → IsText i.nonce
      → request_field win32 r (codes "interactive") (interactive_text i rest)
        ≡ ok (
          record r { request = record (r.request) { interactive = i }; interactive = true },
          rest,
        )
  unfolding request_field Fields.read_interactive_member
  interactive_member_written r i rest first t u =
      rw (first, read_interactive_written r.request.interactive i rest t u)

-- The request that the broker is to see.
abbrev pub interactive_request : BrokerRequest → BrokerRequest
interactive_request q = record q {
  operation = interactive_launch;
  force = false;
  app_container = record { enabled = false; capabilities = [] };
  console = empty_console;
}

-- The variables behind the whole object.
abbrev interactive_reading : BrokerRequest → Reading
interactive_reading q =
    let head =
      flag_reading
        (head_reading q.request_id q.profile_id (codes "interactive") q.arguments
          q.working_directory)
        q.log q.restrict_access q.low_integrity in
    record head {
      request = record (head.request) { interactive = q.interactive };
      interactive = true;
    }

finish-interactive_reading :
    (q : BrokerRequest)
    → IsAdmissible (interactive_request q)
    → finish (interactive_reading q) ≡ ok (interactive_request q)
unfolding finish is_sound finish_profile finish_launch finish_mode finish_interactive launch_mode_of
    is_account_operation is_valid_app_container_options are_capabilities
finish-interactive_reading q v = rw (v.fits.2, v.fits.3) refl

lease_pipe-IsText : (v : Wide) → IsUtf16 v → is_interactive_lease_pipe_name v ≡ true → IsText v
unfolding is_interactive_lease_pipe_name is_pipe_name
lease_pipe-IsText v u h = (u, ground arith)

module _ (win32 : Win32Text) (strict : IsStrict win32) (q : BrokerRequest)
    (v : IsAdmissible (interactive_request q)) where
  abbrev tail_of : Bytes
  tail_of =
      interactive_tail q.interactive.lease_pipe q.interactive.nonce q.restrict_access
        q.low_integrity q.log

  reads_interactive :
      HasTexts q.profile_id q.working_directory q.arguments
      → IsUtf16 q.interactive.lease_pipe
      → read_object win32 (request_field win32) no_reading (
          launch_head q.request_id q.profile_id
            (codes "interactive")
            q.arguments
            q.working_directory
            tail_of)
        ≡ ok (interactive_reading q, [])
  unfolding interactive_tail json_string json_chars json_char
  reads_interactive t pipe =
      let l = v.fits.0 in
      reads_head win32 strict q.request_id q.profile_id (codes "interactive") q.arguments
        q.working_directory _ (λ rest. refl) (literal-IsText (codes "interactive") refl)
        (unfold launch_mode_of in refl) v.request_id
        (profile_id-IsText q.profile_id t.profile_id_text l.account) l.account
        (arguments-IsText q.arguments t.arguments_texts l.arguments_short) l.arguments_short
        l.arguments_few (t.working_directory_text, ground (arith, l.directory)) l.directory
        (reads_flags win32 strict _ q.log q.restrict_access q.low_integrity _ refl refl refl refl
          refl refl
          (walk win32 strict (codes "interactive") _ _ refl
            (interactive_member_written win32 strict _ q.interactive (b'}' ∷ []) refl
              (lease_pipe-IsText q.interactive.lease_pipe pipe v.fits.2)
              (request_id-IsText q.interactive.nonce v.fits.3))
            (walk_end win32 strict _ [])))

  -- Where the Win32 conversions are strict, the broker reads back every interactive launch that
  -- BuildInteractiveLaunchRequest writes for a request that it may admit.
  pub parse-build_interactive_launch_request :
      (message : Bytes)
      → build_interactive_launch_request win32 q.request_id q.profile_id q.arguments
          q.working_directory q.interactive.lease_pipe q.interactive.nonce q.restrict_access
          q.low_integrity q.log
        ≡ some message
      → parse_broker_request win32 message ≡ ok (interactive_request q)
  unfolding build_interactive_launch_request
  parse-build_interactive_launch_request message h =
      let split =
        not_refused
          (is_empty q.interactive.lease_pipe
            || is_empty q.interactive.nonce
            || not (is_valid_utf16 win32 q.interactive.lease_pipe)
            || not (is_valid_utf16 win32 q.interactive.nonce))
          _ message h in
      let (begun, small) = within_message_lem _ message split.1 in
      let (texts, e) =
        begin_launch_request_lem win32 strict q.request_id q.profile_id (codes "interactive")
          q.arguments q.working_directory tail_of message begun in
      let pipe =
        is_valid_utf16-IsUtf16 win32 strict q.interactive.lease_pipe (ground (arith, split.0)) in
      parse_broker_request_reads win32 message
        (subst (λ m. 0 < length m) e
          (head_pos q.request_id q.profile_id (codes "interactive") q.arguments q.working_directory
            tail_of))
        small
        (subst
          (λ m.
            read_object win32 (request_field win32) no_reading m ≡ ok (interactive_reading q, []))
          e (reads_interactive texts pipe))
        (finish-interactive_reading q v)
