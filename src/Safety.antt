-- ===== src/Safety.antt =====
-- internal/fsafety/path.go: paths that are resolved without following a symbolic link.
pub mod Resolved
use git_memo.Base.{
  ℕ, Bool, true, false, not, ◌&&◌, ◌||◌, Option, none, some, List, [], ◌∷◌, ◌++◌, is_some,
  if◌then◌else◌,
}
use git_memo.Base.Text.{Text, text, ◌==◌, is_empty, trim_space, split_on, strip_prefix}
use git_memo.Base.Result.{Result, ok, err, ◌>>=◌, ◌>>◌, reject_if}

-- What `os.Lstat` answers: `absent` is the error that `os.IsNotExist` tells apart, `failed` another,
-- and `special` an object that is neither a link, nor a folder, nor a regular file.
pub data Stat : Type 0 where
  absent failed symlink folder regular special : Stat

-- A file system under a root. Paths are relative to the root, whose own path is []; `entries` are the
-- objects that `filepath.WalkDir` meets below a folder, `clean` is `filepath.Clean`.
pub record FileSystem : Type 0 where
  pub clean : Text → Text
  pub stat : Text → Stat
  pub entries : Text → List Text
  pub read : Text → Option Text

pub data SafetyError : Type 0 where
  empty_path unsafe_root not_relative escapes : SafetyError
  not_found is_symlink not_a_folder not_regular : Text → SafetyError

-- `filepath.Join` of a clean path and a name.
unfoldable pub join_path : Text → Text → Text
join_path [] part = part
join_path (c ∷ dir) part = (c ∷ dir) ++ b'/' ∷ part

-- `RequireDirectory`
unfoldable pub require_directory : Stat → SafetyError → Result SafetyError (Unit {0})
require_directory folder e = ok tt
require_directory absent e = err e
require_directory failed e = err e
require_directory symlink e = err e
require_directory regular e = err e
require_directory special e = err e

-- What the last part must be: a folder, or else a regular file.
unfoldable pub check_last : Bool → Text → Stat → Result SafetyError Text
check_last want current absent = err (not_found current)
check_last want current failed = err (not_found current)
check_last want current symlink = err (is_symlink current)
check_last true current folder = ok current
check_last true current regular = err (not_a_folder current)
check_last true current special = err (not_a_folder current)
check_last false current folder = err (not_regular current)
check_last false current regular = ok current
check_last false current special = err (not_regular current)

-- What a part before the last must be.
unfoldable pub check_ancestor : Text → Stat → Result SafetyError (Unit {0})
check_ancestor current absent = err (not_found current)
check_ancestor current failed = err (not_found current)
check_ancestor current symlink = err (is_symlink current)
check_ancestor current folder = ok tt
check_ancestor current regular = err (not_a_folder current)
check_ancestor current special = err (not_a_folder current)

unfoldable pub is_skipped : Text → Bool
unfolding is_empty
is_skipped part = is_empty part || part == text "."

unfoldable pub is_upward : Text → Bool
unfolding strip_prefix
is_upward path = path == text "." || path == text ".." || is_some (strip_prefix (text "../") path)

module _ (fs : FileSystem) where
  -- The loop of `objectUnder` over the parts.
  unfoldable pub walk_parts : Bool → Text → List Text → Result SafetyError Text
  unfolding is_skipped join_path check_last check_ancestor
  walk_parts want current [] = ok current
  walk_parts want current (part ∷ []) =
      let next = join_path current part in
      if is_skipped part then ok current else check_last want next (fs.stat next)
  walk_parts want current (part ∷ more ∷ parts) =
      let next = join_path current part in
      let skip = walk_parts want current (more ∷ parts) in
      let rest = walk_parts want next (more ∷ parts) in
      if is_skipped part then skip else check_ancestor next (fs.stat next) >> rest

  -- The checks that `objectUnder` and `RequireSafeWritePath` share: the clean path.
  unfoldable pub clean_path : Text → Result SafetyError Text
  unfolding is_empty require_directory is_upward strip_prefix
  clean_path rel = do
    reject_if (is_empty (trim_space rel)) empty_path
    require_directory (fs.stat []) unsafe_root
    reject_if (is_some (strip_prefix (text "/") rel)) not_relative
    reject_if (is_upward (fs.clean rel)) escapes
    ok (fs.clean rel)

  -- `objectUnder`
  unfoldable pub object_under : Text → Bool → Result SafetyError Text
  unfolding clean_path walk_parts split_on
  object_under rel want = do path ← clean_path rel; walk_parts want [] (split_on b'/' path)

  -- `DirectoryUnder`
  unfoldable pub directory_under : Text → Result SafetyError Text
  unfolding object_under
  directory_under rel = object_under rel true

  -- `RegularFileUnder`
  unfoldable pub regular_file_under : Text → Result SafetyError Text
  unfolding object_under
  regular_file_under rel = object_under rel false

  -- The loop of `RequireSafeWritePath`: from a part that is absent on, all may be created.
  unfoldable pub walk_write : Text → List Text → Result SafetyError (Unit {0})
  unfolding is_skipped join_path check_last check_ancestor
  walk_write current [] = ok tt
  walk_write current (part ∷ []) =
      let next = join_path current part in
      if is_skipped part then ok tt else elim (fs.stat next) [
        | absent ↦ ok tt
        | stat ↦ check_last false next stat >>= λ path. ok tt
      ]
  walk_write current (part ∷ more ∷ parts) =
      let next = join_path current part in
      let skip = walk_write current (more ∷ parts) in
      let rest = walk_write next (more ∷ parts) in
      if is_skipped part
      then skip
      else elim (fs.stat next) [ absent ↦ ok tt | stat ↦ check_ancestor next stat >> rest ]

  -- `RequireSafeWritePath`
  unfoldable pub require_safe_write_path : Text → Result SafetyError (Unit {0})
  unfolding clean_path walk_write split_on
  require_safe_write_path rel = do path ← clean_path rel; walk_write [] (split_on b'/' path)

  -- The callback of `RequireTree`, on the entries below the folder.
  unfoldable pub check_entry : Text → Stat → Result SafetyError (Unit {0})
  check_entry path absent = err (not_found path)
  check_entry path failed = err (not_found path)
  check_entry path symlink = err (is_symlink path)
  check_entry path folder = ok tt
  check_entry path regular = ok tt
  check_entry path special = err (not_regular path)

  unfoldable pub check_entries : List Text → Result SafetyError (Unit {0})
  unfolding check_entry
  check_entries [] = ok tt
  check_entries (path ∷ paths) = check_entry path (fs.stat path) >> check_entries paths

  -- `RequireTree`
  unfoldable pub require_tree : Text → Result SafetyError (Unit {0})
  unfolding directory_under check_entries
  require_tree rel = do base ← directory_under rel; check_entries (fs.entries base)

  -- `ReadRegularFileUnder`
  unfoldable pub read_regular_file_under : Text → Result SafetyError Text
  unfolding regular_file_under
  read_regular_file_under rel = do
    path ← regular_file_under rel
    elim (fs.read path) [ none ↦ err (not_found path) | some bytes ↦ ok bytes ]

  -- `requireOptionalRegularTree` of internal/indexer/indexer.go
  unfoldable pub require_optional_tree : Text → Result SafetyError (Unit {0})
  unfolding require_tree
  require_optional_tree rel = elim (fs.stat rel) [
    | absent ↦ ok tt
    | failed ↦ err (not_found rel)
    | _ ↦ require_tree rel
  ]
