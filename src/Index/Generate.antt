-- ===== src/Index/Generate.antt =====
-- internal/indexer/indexer.go: `Generate`, `Write`, `Check` and the marker of a stale index.
pub mod Replace
pub mod Fresh
pub mod Kept
pub mod Replaced
use git_memo.Base.{
  ℕ, Bool, true, false, not, ◌&&◌, ◌||◌, Option, none, some, List, [], ◌∷◌, ◌++◌, if◌then◌else◌,
  sort, map, is_some,
}
use git_memo.Base.Text.{Text, text, ◌==◌, text_le, strip_prefix, contains}
use git_memo.Base.Dict.{Dict, lookup, insert}
use git_memo.Base.Result.{Result, ok, err, ◌>>=◌, ◌>>◌, reject_if}
use git_memo.Memory.{Record}
use git_memo.Index.Chunks.{Files}
use git_memo.Index.Terms.{Unicode}
use git_memo.Index.Machine.{Codecs}
use git_memo.Index.Machine.Render.{render_machine_indexes}
use git_memo.Index.Human.{ProjectTree, render_projects, render_open_loops, render_preferences}

-- The order of the records: by ID, then by path.
unfoldable pub record_le : Record → Record → Bool
record_le a b =
    if not (a.memory.id == b.memory.id)
    then text_le a.memory.id b.memory.id
    else text_le a.path b.path

-- `Generate`, below the loading of the records; the trees are regular.
unfoldable pub generate :
    Codecs → (Text → Text) → Unicode → ProjectTree → List Record → Option Files
unfolding record_le render_machine_indexes render_projects render_open_loops render_preferences
    insert
generate codecs sha256_hex unicode tree records =
    let sorted = sort record_le records in
    elim (render_machine_indexes codecs sha256_hex unicode tree.read sorted) [
      | none ↦ none
      | some files ↦ some (
          insert (text "index/preferences.md") (render_preferences tree sorted) (
            insert (text "index/open-loops.md") (render_open_loops tree sorted)
              (insert (text "index/projects.md") (render_projects tree) files)))
    ]

-- The keys of a map of files, unordered.
unfoldable pub paths_of : Files → List Text
paths_of [] = []
paths_of ((path, bytes) ∷ files) = path ∷ paths_of files

-- `GeneratedPaths`, of what was generated.
unfoldable pub generated_paths : Files → List Text
unfolding paths_of
generated_paths files = sort text_le (paths_of files)

-- The paths of files that cannot be read or are not as expected.
unfoldable pub differing : (Text → Option Text) → Files → List Text
differing read [] = []
differing read ((path, expected) ∷ files) =
    let rest = differing read files in
    elim (read path) [
      | none ↦ path ∷ rest
      | some actual ↦ if actual == expected then rest else path ∷ rest
    ]

-- What `actualSet` is left with.
unfoldable pub surplus : List Text → Files → List Text
unfolding lookup
surplus [] files = []
surplus (path ∷ paths) files =
    let rest = surplus paths files in if is_some (lookup path files) then rest else path ∷ rest

-- The loop of `uniqueStrings`, behind the first string.
unfoldable pub unique_behind : Text → List Text → List Text
unique_behind previous [] = []
unique_behind previous (s ∷ rest) =
    let others = unique_behind s rest in if s == previous then others else s ∷ others

-- `uniqueStrings`
unfoldable pub unique_strings : List Text → List Text
unfolding unique_behind
unique_strings [] = []
unique_strings (s ∷ rest) = s ∷ unique_behind s rest

-- `Check`, of what was generated and of the paths that exist.
unfoldable pub check : Files → List Text → (Text → Option Text) → List Text
unfolding differing surplus unique_strings
check generated actual_paths read =
    unique_strings (sort text_le (differing read generated ++ surplus actual_paths generated))

-- `StaleMarkerPath`
abbrev pub stale_marker_path : Text
stale_marker_path = text "index/STALE"

abbrev pub stale_marker_text : Text
stale_marker_text =
    text "Runethread generated indexes are stale."
    ++ 10 ∷ text "Canonical memories and project files remain authoritative."
    ++ 10 ∷ text "Regenerate with: runethread index --write ."
    ++ 10 ∷ []

-- `MarkStale`, when the folder cannot be made, when the file cannot be written, and else.
unfoldable pub mark_stale : Bool → Bool → Files → Option Files
unfolding insert
mark_stale mkdir_fails write_fails files =
    if mkdir_fails || write_fails
    then none
    else some (insert stale_marker_path stale_marker_text files)

-- `IsMarkedStale`; `unsafe_tree` is that `ExistingPaths` fails.
unfoldable pub is_marked_stale : Bool → Files → Bool
unfolding lookup
is_marked_stale unsafe_tree files = unsafe_tree || is_some (lookup stale_marker_path files)
