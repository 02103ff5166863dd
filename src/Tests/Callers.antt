-- ===== src/Tests/Callers.antt =====
-- The policy of callers on a machine without one.
use launch_as.Base.{◌≡◌, refl, true, not, none, [], ◌∷◌, arith, length, is_empty}
use launch_as.CallerPolicy.{
  Sid, SidChecks, PolicyCalls, preserve, is_complete_sid, store_authorized_caller_sid,
  load_authorized_caller_sid, update_authorized_caller_policy,
}
use launch_as.CallerPolicy.Kept.{authorizes, update-authorizes}

abbrev pub sids : SidChecks
sids = record { is_valid_sid = λ sid. not (is_empty sid); length_sid = λ sid. length sid }

abbrev fine : PolicyCalls
fine = record {
  create_error = 0;
  write_error = 0;
  written = [];
  open_error = 0;
  size_error = 0;
  read_error = 0;
}

abbrev caller : Sid
caller = 1 ∷ 1 ∷ 0 ∷ 0 ∷ 0 ∷ 0 ∷ 0 ∷ 5 ∷ 18 ∷ 0 ∷ 0 ∷ 0 ∷ []

update-authorizes_example :
    authorizes sids fine ((update_authorized_caller_policy sids fine caller preserve none).1) caller
    ≡ true
unfolding update_authorized_caller_policy store_authorized_caller_sid load_authorized_caller_sid
    is_complete_sid
update-authorizes_example =
    update-authorizes sids fine fine (record { opens = refl; sizes = refl; reads = refl }) caller
      refl (omega arith) preserve none refl refl
