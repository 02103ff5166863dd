-- ===== src/ReadScope/Roots.antt =====
-- src/broker/BrokerReadScope.cpp: EnsureRoots, EnsureNamespaceDirectories and
-- EnsureWindowsNamespace. CanonicalDirectory, OpenVolumeRoot with CanonicalName, the queries of the
-- token and NtOpenDirectoryObject are arguments: what they report.
use launch_as.Base.{
  ℕ, suc, Bool, true, false, not, ◌&&◌, Option, none, some, List, [], ◌∷◌, ◌++◌, ltb, ◌==◌,
  if◌then◌else◌, Wide, codes, length, is_empty, any_of, text_eq,
}
use launch_as.Json.Writer.{to_string}
use launch_as.ReadScope.{
  Sid, Entry, new_entry, is_within, directory_traverse, error_access_denied, error_not_enough_quota,
}
use launch_as.ReadScope.Access.{Group}
use launch_as.ReadScope.Entries.{find_entry, put_entry, text_less}
use launch_as.ReadScope.Scope.{Disk, State, access_at, with_entries, failing_at, emplace}
use launch_as.ReadScope.Visit.{visit, maximum_depth, maximum_entries}

abbrev pub error_not_ready : ℕ
error_not_ready = 21

abbrev pub error_not_supported : ℕ
error_not_supported = 50

abbrev pub error_invalid_state : ℕ
error_invalid_state = 5023

-- What opening the root of a volume reports.
pub record Volume : Type 0 where
  pub error : ℕ
  pub is_removable : Bool
  pub has_persistent_acls : Bool
  pub name_error : ℕ
  pub name : Wide

pub record Launch : Type 0 where
  pub user_error : ℕ
  pub user : Sid
  pub groups_error : ℕ
  pub groups : List Group
  pub canonical_error : Wide → ℕ
  pub canonical : Wide → Wide
  pub volume : Wide → Volume
  pub session_error : ℕ
  pub session_id : ℕ
  pub open_directory : Wide → ℕ

-- `std::ranges::sort`
unfoldable pub insert_text : Wide → List Wide → List Wide
insert_text text [] = text ∷ []
insert_text text (other ∷ rest) =
    let behind = insert_text text rest in
    if text_less other text then other ∷ behind else text ∷ other ∷ rest

unfoldable pub sort_texts : List Wide → List Wide
unfolding insert_text
sort_texts [] = []
sort_texts (text ∷ rest) = insert_text text (sort_texts rest)

-- Of the sorted folders, those that no earlier one contains.
unfoldable pub broadest : List Wide → List Wide → List Wide
broadest roots [] = roots
broadest roots (root ∷ rest) =
    let kept = broadest roots rest in
    let more = broadest (roots ++ root ∷ []) rest in
    if any_of (λ parent. is_within root parent) roots then kept else more

-- The canonical names, up to the first folder that has none.
unfoldable pub add_roots : Launch → List Wide → List Wide → State → ℕ × (List Wide × State)
add_roots launch [] allowed s = (0, (allowed, s))
add_roots launch (root ∷ rest) allowed s =
    let failing = failing_at root s in
    let behind = add_roots launch rest (allowed ++ launch.canonical root ∷ []) failing in
    if launch.canonical_error root == 0
    then behind
    else (launch.canonical_error root, (allowed, failing))

unfoldable pub find_volume : Wide → List (Wide × Wide) → Option Wide
find_volume name [] = none
find_volume name ((key, path) ∷ rest) =
    let behind = find_volume name rest in if text_eq name key then some path else behind

abbrev pub with_volume : Wide → Wide → State → State
with_volume name path s = record s {
  scope = record (s.scope) { volumes = (name, path) ∷ s.scope.volumes };
}

abbrev pub with_user : Sid → State → State
with_user user s = record s { scope = record (s.scope) { user_sid = user } }

abbrev pub with_groups : List Group → State → State
with_groups groups s = record s { scope = record (s.scope) { groups = groups } }

abbrev pub namespace_entry : Option Entry → Entry
namespace_entry none = record new_entry { namespace_directory = true }
namespace_entry (some entry) = record entry { namespace_directory = true }

module _ (disk : Disk) (launch : Launch) where
  -- A volume that is not known yet: the error, with whether the loop goes on.
  unfoldable pub visit_new_volume : Wide → State → ℕ × State
  visit_new_volume name s =
      let volume = launch.volume name in
      let here = visit disk (suc maximum_depth) volume.name true s in
      if not (volume.error == 0)
      then (if volume.error == error_not_ready && volume.is_removable then 0 else volume.error, s)
      else if not volume.has_persistent_acls
      then (error_not_supported, s)
      else if not (volume.name_error == 0)
      then (volume.name_error, s)
      else if here.0 == 0
      then (0, with_volume name volume.name (here.1))
      else here

  unfoldable pub visit_volume : Wide → Option Wide → State → ℕ × State
  unfolding visit_new_volume
  visit_volume name (some path) s = visit disk (suc maximum_depth) path false s
  visit_volume name none s = visit_new_volume name s

  unfoldable pub visit_volumes : List Wide → State → ℕ × State
  unfolding visit_volume find_volume
  visit_volumes [] s = (0, failing_at [] s)
  visit_volumes (name ∷ rest) s =
      let here = visit_volume name (find_volume name s.scope.volumes) (failing_at name s) in
      let behind = visit_volumes rest (here.1) in if here.0 == 0 then behind else here

  -- The folders that the account may read, and then the volumes.
  unfoldable pub ensure_allowed : List Wide → List Wide → ℕ → State → ℕ × State
  unfolding sort_texts broadest add_roots visit_volumes
  ensure_allowed volumes readable maximum_objects s =
      let (error, (allowed, after)) = add_roots launch readable s.scope.allowed s in
      let roots = broadest [] (sort_texts allowed) in
      let ready = record after {
        scope = record (after.scope) { allowed = roots };
        remaining = maximum_objects;
      } in
      if error == 0 then visit_volumes volumes ready else (error, after)

  unfoldable pub ensure_roots : List Wide → List Wide → Wide → Wide → ℕ → State → ℕ × State
  unfolding ensure_allowed
  ensure_roots volumes readable profile work maximum_objects s =
      let started = failing_at [] s in
      let known = with_user launch.user started in
      if not (launch.user_error == 0)
      then (launch.user_error, started)
      else if not (is_empty s.scope.user_sid) && not (text_eq s.scope.user_sid launch.user)
      then (error_access_denied, started)
      else if not (launch.groups_error == 0)
      then (launch.groups_error, known)
      else ensure_allowed volumes (readable ++ profile ∷ work ∷ []) maximum_objects
          (with_groups launch.groups known)

  -- A directory of the namespace: its entry is opened where it is not yet.
  unfoldable pub ensure_namespace_directory : Wide → State → ℕ × State
  ensure_namespace_directory path s =
      let failing = failing_at path s in
      let made = emplace path false failing in
      let entry = namespace_entry (find_entry path s.scope.entries) in
      let closed = with_entries (put_entry path entry s.scope.entries) failing in
      let opened =
        with_entries (put_entry path (record entry { is_open = true }) s.scope.entries) failing in
      if ltb maximum_entries (length made.scope.entries)
      then (error_not_enough_quota, made)
      else if not entry.is_open && not (launch.open_directory path == 0)
      then (launch.open_directory path, closed)
      else access_at disk path directory_traverse false opened

  unfoldable pub ensure_each : List Wide → State → ℕ × State
  unfolding ensure_namespace_directory
  ensure_each [] s = (0, failing_at [] s)
  ensure_each (path ∷ rest) s =
      let here = ensure_namespace_directory path s in
      let behind = ensure_each rest (here.1) in if here.0 == 0 then behind else here

  unfoldable pub ensure_namespace_directories : List Wide → State → ℕ × State
  unfolding ensure_each
  ensure_namespace_directories paths s =
      if is_empty s.scope.user_sid then (error_invalid_state, s) else ensure_each paths s

  unfoldable pub ensure_windows_namespace : State → ℕ × State
  unfolding ensure_namespace_directories
  ensure_windows_namespace s =
      let sessions = codes "\\Sessions" in
      let session = sessions ++ 92 ∷ to_string launch.session_id in
      if not (launch.session_error == 0)
      then (launch.session_error, s)
      else if launch.session_id == 0
      then (0, s)
      else ensure_namespace_directories (sessions ∷ session ∷ (session ++ codes "\\Windows") ∷ []) s

  -- Ensure, with the volumes and the folders that Windows reports.
  unfoldable pub ensure : List Wide → List Wide → Wide → Wide → State → ℕ × State
  unfolding ensure_roots ensure_windows_namespace
  ensure volumes readable profile work s =
      let roots = ensure_roots volumes readable profile work 10000 s in
      if roots.0 == 0 then ensure_windows_namespace (roots.1) else roots
