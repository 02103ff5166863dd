-- ===== src/Protocol/Launch.antt =====
-- src/protocol/BrokerProtocol.cpp: launch requests, from their builders to ParseBrokerRequest.
pub mod Member
pub mod Console
pub mod Interactive
pub mod Built
use launch_as.Base.{
  ℕ, zero, suc, ◌+◌, ◌-◌, ◌*◌, ◌/◌, ◌%◌, ◌^◌, ◌≤◌, ◌<◌, bit_or, String, ◌≡◌, refl, sym, ap, ◌∙◌,
  subst, ◌≢◌, ◌↔◌, ◌⊎◌, inl, inr, Bool, true, false, not, ◌&&◌, ◌||◌, Option, none, some, List, [],
  ◌∷◌, ◌++◌, map, append_assoc, append-nil, arith, ltb, leb, ◌==◌, within, if◌then◌else◌, ==_iff,
  Bool-cases, Option-cases, Bytes, Wide, codes, length, is_empty, all_of, drop, All, length-append,
  text_eq, mem, starts_with, text_eq_refl, text_eq_sound, Outcome, ok, rejected, stuck, ◌>>=◌, ◌>>◌,
  guard, or_reject,
}
use launch_as.Utf8.{Win32Text, is_valid_utf16}
use launch_as.Utf8.Encoding.{IsStrict, IsUtf16}
use launch_as.Json.Writer.{json_string, json_strings, json_chars, json_char}
use launch_as.Json.Texts.{IsText, literal-IsText}
use launch_as.Json.Objects.{read_object, maximum_arguments}
use launch_as.Protocol.{empty_request, is_request_id, is_valid_profile_id}
use launch_as.Protocol.Request.{
  LaunchMode, Reading, no_reading, launch_mode_of, is_missing, is_argument, is_working_directory,
}
use launch_as.Protocol.Fields.{request_field}
use launch_as.Protocol.Build.{launch_head, flags}
use launch_as.Protocol.Written.{
  operation_written, profile_id_written, mode_written, arguments_written, working_directory_written,
}
use launch_as.Protocol.Walk.{Walks, walk, log_flag, restrict_access_flag, low_integrity_flag}
use launch_as.Protocol.Management.{reads_version_and_id}

-- The variables behind the members that every launch request begins with.
abbrev pub head_reading : Wide → Wide → Wide → List Wide → Wide → Reading
head_reading request_id profile_id mode arguments working_directory = record no_reading {
  request = record empty_request {
    request_id = request_id;
    profile_id = profile_id;
    arguments = arguments;
    working_directory = working_directory;
  };
  operation_name = codes "launch";
  launch_mode = launch_mode_of mode;
  version = true;
  request_id = true;
  operation = true;
  profile = true;
  mode = true;
  arguments = true;
  working_directory = true;
}

-- The variables behind the flags.
abbrev pub flag_reading : Reading → Bool → Bool → Bool → Reading
flag_reading r log restrict_access low_integrity = record r {
  request = record (r.request) {
    log = log;
    restrict_access = restrict_access;
    low_integrity = low_integrity;
  };
  log = log;
  restrict_access = restrict_access;
  low_integrity = low_integrity;
}

module _ (win32 : Win32Text) (strict : IsStrict win32) where
  -- The mode, which the builders write without escapes.
  mode_member :
      (r : Reading) (mode : Wide) (rest : Bytes)
      → r.mode ≡ false
      → ((rest : Bytes) → b'"' ∷ (mode ++ b'"' ∷ rest) ≡ json_string mode ++ rest)
      → IsText mode
      → not (is_missing (launch_mode_of mode)) ≡ true
      → request_field win32 r (codes "mode") (b'"' ∷ (mode ++ b'"' ∷ rest))
        ≡ ok (record r { launch_mode = launch_mode_of mode; mode = true }, rest)
  mode_member r mode rest first quoted t valid =
      ap (request_field win32 r (codes "mode")) (quoted rest)
      ∙ mode_written win32 strict r rest mode first t valid

  pub reads_head :
      (request_id profile_id mode : Wide) (arguments : List Wide) (working_directory : Wide)
      (more : Bytes) {result : Outcome (Reading × Bytes)}
      → ((rest : Bytes) → b'"' ∷ (mode ++ b'"' ∷ rest) ≡ json_string mode ++ rest)
      → IsText mode
      → not (is_missing (launch_mode_of mode)) ≡ true
      → is_request_id request_id ≡ true
      → IsText profile_id
      → is_valid_profile_id profile_id ≡ true
      → All IsText arguments
      → all_of is_argument arguments ≡ true
      → length arguments ≤ maximum_arguments
      → IsText working_directory
      → is_working_directory working_directory ≡ true
      → Walks win32 strict
          (head_reading request_id profile_id mode arguments working_directory)
          more
          result
      → read_object win32
          (request_field win32)
          no_reading
          (launch_head request_id profile_id mode arguments working_directory more)
        ≡ result
  unfolding launch_head json_string json_chars json_char
  reads_head id p mode arguments directory more quoted mt mv iv pt pv at av few dt dv next =
      reads_version_and_id win32 strict id _ iv (
        walk win32 strict (codes "operation") _ _ refl
          (operation_written win32 strict _ _ (codes "launch") refl
            (literal-IsText (codes "launch") refl))
          (walk win32 strict (codes "profileId") _ _ refl
            (profile_id_written win32 strict _ _ p refl pt pv)
            (walk win32 strict (codes "mode") _ _ refl (mode_member _ mode _ refl quoted mt mv) (
              walk win32 strict (codes "arguments") _ _ refl
                (arguments_written win32 strict _ _ arguments refl at av few)
                (walk win32 strict (codes "workingDirectory") _ _ refl
                  (working_directory_written win32 strict _ _ directory refl dt dv) next)))))

  pub reads_flags :
      (r : Reading) (log restrict_access low_integrity : Bool) (more : Bytes)
      {result : Outcome (Reading × Bytes)}
      → r.log ≡ false
      → r.request.log ≡ false
      → r.restrict_access ≡ false
      → r.request.restrict_access ≡ false
      → r.low_integrity ≡ false
      → r.request.low_integrity ≡ false
      → Walks win32 strict (flag_reading r log restrict_access low_integrity) more result
      → Walks win32 strict r (flags log restrict_access low_integrity more) result
  reads_flags r log restrict_access low_integrity more a b c d e f next =
      log_flag win32 strict log r _ a b (
        restrict_access_flag win32 strict restrict_access _ _ c d
          (low_integrity_flag win32 strict low_integrity _ more e f next))
