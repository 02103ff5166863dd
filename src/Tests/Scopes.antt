-- ===== src/Tests/Scopes.antt =====
-- The scope of denied folders on a disk with three folders.
use launch_as.Base.{
  String, ◌≡◌, refl, true, false, Option, some, [], ◌∷◌, ◌++◌, Wide, codes, any_of,
}
use launch_as.ReadScope.{Sid, Acl, is_within, is_access_ace, file_all_access}
use launch_as.ReadScope.Access.{
  AccessCalls, set_access, change_dacl, store_dacl, add_user, add_owner, add_traverse, deny_owner,
  updated, preserved, is_added, is_traverse_grant,
}
use launch_as.ReadScope.Entries.{find_entry, put_entry, text_less}
use launch_as.ReadScope.Scope.{
  Disk, State, new_scope, Child, access_at, access_found, emplace, restore, restore_entries,
}
use launch_as.ReadScope.Visit.{
  visit, visit_entry, visit_readable, visit_buffers, visit_children, visit_child, release_below,
  keys_below,
}
use launch_as.ReadScope.Roots.{
  Launch, sort_texts, insert_text, broadest, add_roots, find_volume, visit_new_volume, visit_volume,
  visit_volumes, ensure_allowed, ensure_roots,
}
use launch_as.ReadScope.Sequences.{Reachable, starts, continues, ensures_roots, restore-Reachable}
use launch_as.ReadScope.Broadest.{broadest-sort_texts}
use launch_as.ReadScope.Denied.{starts_with_deny}
use launch_as.ReadScope.Blocked.{visit-starts_with_deny}

abbrev account : Sid
account = 1 ∷ 5 ∷ 21 ∷ []

abbrev quiet : AccessCalls
quiet = record {
  owner = some account;
  get_security_info = 0;
  create_well_known_sid = 0;
  initialize_acl = 0;
  get_ace = 0;
  add_access_denied_ace = 0;
  add_ace = 0;
  add_access_allowed_ace = 0;
  get_security_descriptor_control = 0;
  reopen_pinned_file = 0;
  set_object_dacl = 0;
}

abbrev volume_root : Wide
volume_root = codes "\\\\?\\Volume{1}"

abbrev everyone : Acl
everyone = record { ace_type = 0; ace_flags = 3; mask = 2032127; sid = 1 ∷ 1 ∷ 0 ∷ [] } ∷ []

abbrev own_lists : Wide → Option Acl
own_lists path = some everyone

abbrev folder : String → Child
folder name = record { name = codes name; is_directory = true }

abbrev disk : Disk
disk = record {
  owner_rights = 1 ∷ 3 ∷ 4 ∷ [];
  calls = λ moment. quiet;
  is_late = λ moment. false;
  attributes = λ moment path. record { error = 0; is_directory = true; is_reparse_point = false };
  listing = λ moment path. record {
    buffers = (folder "." ∷ folder "W" ∷ folder "U" ∷ []) ∷ [];
    error = 18;
  };
  open_relative = λ moment path. 0;
}

abbrev launch : Launch
launch = record {
  user_error = 0;
  user = account;
  groups_error = 0;
  groups = [];
  canonical_error = λ path. 0;
  canonical = λ path. volume_root ++ 92 ∷ path;
  volume = λ name. record {
    error = 0;
    is_removable = false;
    has_persistent_acls = true;
    name_error = 0;
    name = volume_root;
  };
  session_error = 0;
  session_id = 1;
  open_directory = λ path. 0;
}

abbrev before : State
before = record { scope = new_scope; dacls = own_lists; moment = 0; remaining = 0 }

abbrev denied_folders : State
denied_folders =
    (ensure_roots disk launch (codes "C" ∷ []) [] (codes "W") (codes "W\\b") 10000 before).1

denied_folders-Reachable : Reachable disk own_lists denied_folders
denied_folders-Reachable =
    continues (starts 0 0)
      (ensures_roots launch (codes "C" ∷ []) [] (codes "W") (codes "W\\b") 10000 before refl)

denied_folders_lem :
    starts_with_deny account file_all_access (denied_folders.dacls (volume_root ++ codes "\\U"))
    ≡ true
unfolding ensure_roots ensure_allowed sort_texts insert_text broadest add_roots visit_volumes
    visit_volume visit_new_volume find_volume visit visit_entry visit_readable visit_buffers
    visit_children visit_child release_below keys_below emplace access_at access_found set_access
    change_dacl store_dacl add_user add_owner add_traverse deny_owner updated preserved is_added
    is_traverse_grant is_access_ace find_entry put_entry text_less is_within
denied_folders_lem = refl

denied_folders_restored : (restore disk denied_folders).0 ≡ 0
unfolding ensure_roots ensure_allowed sort_texts insert_text broadest add_roots visit_volumes
    visit_volume visit_new_volume find_volume visit visit_entry visit_readable visit_buffers
    visit_children visit_child release_below keys_below emplace access_at access_found set_access
    change_dacl store_dacl add_user add_owner add_traverse deny_owner updated preserved is_added
    is_traverse_grant is_access_ace find_entry put_entry text_less is_within restore restore_entries
denied_folders_restored = refl

restore-Reachable_example :
    ((restore disk denied_folders).1).dacls (volume_root ++ codes "\\U") ≡ some everyone
restore-Reachable_example =
    restore-Reachable disk own_lists denied_folders-Reachable denied_folders_restored
      (volume_root ++ codes "\\U")

broadest-sort_texts_example :
    any_of
      (λ root. is_within (codes "W\\b") root)
      (broadest [] (sort_texts (codes "W\\b\\c" ∷ codes "W" ∷ [])))
    ≡ any_of (λ root. is_within (codes "W\\b") root) (codes "W\\b\\c" ∷ codes "W" ∷ [])
broadest-sort_texts_example = broadest-sort_texts (codes "W\\b") (codes "W\\b\\c" ∷ codes "W" ∷ [])

abbrev allowed_folder : State
allowed_folder = record before {
  scope = record new_scope { user_sid = account; allowed = (volume_root ++ codes "\\W") ∷ [] };
  remaining = 10000;
}

visit-starts_with_deny_example :
    starts_with_deny account file_all_access (
      ((visit disk 1 (volume_root ++ codes "\\U") true allowed_folder).1).dacls
        (volume_root ++ codes "\\U"))
    ≡ true
unfolding visit visit_entry emplace access_at access_found set_access change_dacl store_dacl
    add_user add_owner add_traverse deny_owner updated preserved is_added is_access_ace find_entry
    put_entry is_within
visit-starts_with_deny_example =
    visit-starts_with_deny disk 1 (volume_root ++ codes "\\U") true allowed_folder refl refl refl
      refl refl
