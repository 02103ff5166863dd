-- ===== src/ReadScope/Visit.antt =====
-- src/broker/BrokerReadScope.cpp: Visit, which denies the directories beside the allowed ones. It
-- descends at most 128 levels: the recursion is on the levels that are left.
use launch_as.Base.{
  ℕ, zero, suc, ◌-◌, Bool, true, false, not, ◌||◌, Option, none, some, List, [], ◌∷◌, ◌++◌, ltb,
  ◌==◌, if◌then◌else◌, Wide, codes, length, any_of, text_eq,
}
use launch_as.ReadScope.{
  Entry, is_within, ancestor_deny, file_all_access, error_access_denied, error_directory,
  error_timeout, error_not_enough_quota,
}
use launch_as.ReadScope.Entries.{Entries, find_entry, erase_entry, keys, text_less}
use launch_as.ReadScope.Scope.{
  Disk, State, Child, access_at, tick, is_known, emplace, with_entries, failing_at,
}

abbrev pub maximum_depth : ℕ
maximum_depth = 128

abbrev pub maximum_entries : ℕ
maximum_entries = 10000

abbrev pub error_no_more_files : ℕ
error_no_more_files = 18

abbrev pub Visitor : Type 0
Visitor = Wide → Bool → State → ℕ × State

-- The keys from `path\` on, as long as they lie below the path.
below : Wide → List Wide → List Wide
below path [] = []
below path (key ∷ rest) =
    let behind = below path rest in if is_within key path then key ∷ behind else []

unfoldable pub keys_below : Wide → List Wide → List Wide
unfolding below
keys_below path [] = []
keys_below path (key ∷ rest) =
    let behind = keys_below path rest in
    if text_less key (path ++ 92 ∷ []) then behind else below path (key ∷ rest)

abbrev pub has_grant : Option Entry → Bool
has_grant none = false
has_grant (some entry) = entry.added_traverse_grant

abbrev pub keeps_grant : Wide → Entries → Bool
keeps_grant path entries = has_grant (find_entry path entries)

module _ (disk : Disk) where
  -- The loop over the folders below a readable one.
  unfoldable pub release_below : List Wide → State → ℕ × State
  release_below [] s = (0, s)
  release_below (path ∷ rest) s =
      let here = access_at disk path 0 true s in
      let kept = release_below rest (here.1) in
      let released =
        release_below rest (with_entries (erase_entry path (here.1).scope.entries) (here.1)) in
      if not (here.0 == 0)
      then (here.0, failing_at path (here.1))
      else if keeps_grant path (here.1).scope.entries
      then kept
      else released

  unfoldable pub visit_readable : Wide → State → ℕ × State
  unfolding release_below keys_below
  visit_readable path s =
      let here = access_at disk path 0 true s in
      if not (here.0 == 0)
      then here
      else release_below (keys_below path (keys (here.1).scope.entries)) (here.1)

  -- A record of the enumeration.
  unfoldable pub visit_child : Visitor → Wide → Child → State → ℕ × State
  visit_child visitor path child s =
      let child_path = path ++ 92 ∷ child.name in
      let opened = disk.open_relative s.moment child_path in
      if text_eq child.name (codes ".") || text_eq child.name (codes "..") || not child.is_directory
      then (0, s)
      else if is_known child_path s.scope.entries
      then visitor child_path false s
      else if not (opened == 0)
      then (opened, tick (failing_at child_path s))
      else visitor child_path true (tick (failing_at child_path s))

  -- The records of a buffer.
  unfoldable pub visit_children : Visitor → Wide → List Child → State → ℕ × State
  unfolding visit_child
  visit_children visitor path [] s = (0, s)
  visit_children visitor path (child ∷ rest) s =
      let started = record (tick s) { remaining = s.remaining - 1 } in
      let here = visit_child visitor path child started in
      let behind = visit_children visitor path rest (here.1) in
      if disk.is_late s.moment
      then (error_timeout, tick s)
      else if s.remaining == 0
      then (error_not_enough_quota, tick s)
      else if not (here.0 == 0)
      then here
      else behind

  -- The buffers; behind the last one the siblings are denied and the folder is made traversable.
  unfoldable pub visit_buffers : Visitor → Wide → ℕ → List (List Child) → State → ℕ × State
  unfolding visit_children
  visit_buffers visitor path end_error [] s =
      let here = access_at disk path ancestor_deny false (tick s) in
      if disk.is_late s.moment
      then (error_timeout, tick s)
      else if end_error == error_no_more_files
      then here
      else (end_error, tick s)
  visit_buffers visitor path end_error (buffer ∷ rest) s =
      let here = visit_children visitor path buffer (tick s) in
      let behind = visit_buffers visitor path end_error rest (here.1) in
      if disk.is_late s.moment
      then (error_timeout, tick s)
      else if not (here.0 == 0)
      then here
      else behind

  -- What is done with an entry, by its place beside the allowed folders.
  unfoldable pub visit_entry : Visitor → Wide → State → ℕ × State
  unfolding visit_readable visit_buffers
  visit_entry visitor path s =
      let attributes = disk.attributes s.moment path in
      let listing = disk.listing s.moment path in
      let readable = any_of (λ root. is_within path root) s.scope.allowed in
      let ancestor = any_of (λ root. is_within root path) s.scope.allowed in
      if not (attributes.error == 0)
      then (attributes.error, tick s)
      else if not attributes.is_directory
      then (error_directory, tick s)
      else if readable
      then visit_readable path (tick s)
      else if not ancestor
      then access_at disk path file_all_access false (tick s)
      else if attributes.is_reparse_point
      then (error_access_denied, tick s)
      else visit_buffers visitor path listing.error listing.buffers (tick s)

  unfoldable pub visit : ℕ → Wide → Bool → State → ℕ × State
  unfolding visit_entry emplace
  visit zero path is_open s =
      let started = failing_at path (tick s) in
      if disk.is_late s.moment then (error_timeout, started) else (error_not_enough_quota, started)
  visit (suc levels) path is_open s =
      let started = failing_at path (tick s) in
      let counted = record started { remaining = s.remaining - 1 } in
      let closed = emplace path false counted in
      let visited = visit_entry (visit levels) path (emplace path is_open counted) in
      if disk.is_late s.moment
      then (error_timeout, started)
      else if s.remaining == 0
      then (error_not_enough_quota, started)
      else if ltb maximum_entries (length closed.scope.entries)
      then (error_not_enough_quota, closed)
      else visited
