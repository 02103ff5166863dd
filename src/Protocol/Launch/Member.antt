-- ===== src/Protocol/Launch/Member.antt =====
-- src/protocol/BrokerProtocol.cpp: the member of a console launch that names its pipes, and
-- ReadConsole on it.
use launch_as.Base.{◌≡◌, refl, Bool, true, false, ◌∷◌, ◌++◌, Bytes, Wide, codes, ok}
use launch_as.Utf8.{Win32Text}
use launch_as.Utf8.Encoding.{IsStrict}
use launch_as.Json.Writer.{json_string, json_chars, json_char, boolean_text}
use launch_as.Json.Numbers.{boolean-boolean_text}
use launch_as.Json.Texts.{IsText, string-written}
use launch_as.Json.Members.{Continues-end, Continues-member, read_object-member}
use launch_as.Protocol.{ConsoleRequest}
use launch_as.Protocol.Request
use launch_as.Protocol.Request.{
  ConsoleReading, Reading, no_reading, launch_mode_of, console_field, read_console,
}
use launch_as.Protocol.Fields
use launch_as.Protocol.Fields.{request_field}
use launch_as.Protocol.Termination.{console_field-Ends}

abbrev no_console_reading : ConsoleRequest → ConsoleReading
no_console_reading start = record {
  console = start;
  pipe_in = false;
  pipe_out = false;
  pipe_resize = false;
  inherit_cursor = false;
}

-- The value of the member as BuildConsoleLaunchRequest writes it.
abbrev pub console_text : ConsoleRequest → Bytes → Bytes
console_text c rest =
    codes "{\"pipeIn\":"
    ++ (json_string c.pipe_in
        ++ (codes ",\"pipeOut\":"
            ++ (json_string c.pipe_out
                ++ (codes ",\"pipeResize\":"
                    ++ (json_string c.pipe_resize
                        ++ (codes ",\"inheritCursor\":"
                            ++ (boolean_text c.inherit_cursor ++ b'}' ∷ rest)))))))

pub record AreTexts (c : ConsoleRequest) : Type 0 where
  pub pipe_in_text : IsText c.pipe_in
  pub pipe_out_text : IsText c.pipe_out
  pub pipe_resize_text : IsText c.pipe_resize

module _ (win32 : Win32Text) (strict : IsStrict win32) where
  pipe_in_written :
      (r : ConsoleReading) (v : Wide) (rest : Bytes)
      → r.pipe_in ≡ false
      → IsText v
      → console_field win32 r (codes "pipeIn") (json_string v ++ rest)
        ≡ ok (record r { console = record (r.console) { pipe_in = v }; pipe_in = true }, rest)
  unfolding console_field Request.read_pipe_in
  pipe_in_written r v rest first t = rw (first, string-written win32 strict v rest t)

  pipe_out_written :
      (r : ConsoleReading) (v : Wide) (rest : Bytes)
      → r.pipe_out ≡ false
      → IsText v
      → console_field win32 r (codes "pipeOut") (json_string v ++ rest)
        ≡ ok (record r { console = record (r.console) { pipe_out = v }; pipe_out = true }, rest)
  unfolding console_field Request.read_pipe_out
  pipe_out_written r v rest first t = rw (first, string-written win32 strict v rest t)

  pipe_resize_written :
      (r : ConsoleReading) (v : Wide) (rest : Bytes)
      → r.pipe_resize ≡ false
      → IsText v
      → console_field win32 r (codes "pipeResize") (json_string v ++ rest)
        ≡ ok (
          record r { console = record (r.console) { pipe_resize = v }; pipe_resize = true },
          rest,
        )
  unfolding console_field Request.read_pipe_resize
  pipe_resize_written r v rest first t = rw (first, string-written win32 strict v rest t)

  inherit_cursor_written :
      (r : ConsoleReading) (b : Bool) (rest : Bytes)
      → r.inherit_cursor ≡ false
      → console_field win32 r (codes "inheritCursor") (boolean_text b ++ rest)
        ≡ ok (
          record r { console = record (r.console) { inherit_cursor = b }; inherit_cursor = true },
          rest,
        )
  unfolding console_field Request.read_inherit_cursor
  inherit_cursor_written r b rest first = rw (first, boolean-boolean_text b rest)

  read_console_written :
      (start c : ConsoleRequest) (rest : Bytes)
      → AreTexts c
      → read_console win32 start (console_text c rest) ≡ ok (c, rest)
  unfolding read_console json_string json_chars json_char
  read_console_written start c rest t = rw (
      read_object-member win32 strict (console_field win32) (console_field-Ends win32)
        (codes "pipeIn") (no_console_reading start) _ refl
        (pipe_in_written _ c.pipe_in _ refl t.pipe_in_text)
        (Continues-member win32 strict (console_field win32) (console_field-Ends win32)
          (codes "pipeOut") _ _ refl (pipe_out_written _ c.pipe_out _ refl t.pipe_out_text)
          (Continues-member win32 strict (console_field win32) (console_field-Ends win32)
            (codes "pipeResize") _ _ refl
            (pipe_resize_written _ c.pipe_resize _ refl t.pipe_resize_text)
            (Continues-member win32 strict (console_field win32) (console_field-Ends win32)
              (codes "inheritCursor") _ _ refl (inherit_cursor_written _ c.inherit_cursor _ refl)
              (Continues-end win32 strict (console_field win32) (console_field-Ends win32) _
                rest)))))

  pub console_member_written :
      (r : Reading) (c : ConsoleRequest) (rest : Bytes)
      → r.console ≡ false
      → AreTexts c
      → request_field win32 r (codes "console") (console_text c rest)
        ≡ ok (record r { request = record (r.request) { console = c }; console = true }, rest)
  unfolding request_field Fields.read_console_member
  console_member_written r c rest first t =
      rw (first, read_console_written r.request.console c rest t)
