-- ===== src/Service/Paths.antt =====
-- internal/memoryservice/mutation.go: `titleSlug` and `canonicalPaths`, where a memory is filed.
pub mod Laws
pub mod Canonical
use git_memo.Base.{
  ℕ, zero, ◌+◌, Bool, true, false, not, ◌&&◌, ◌||◌, List, [], ◌∷◌, ◌++◌, ltb, leb, nat_eq,
  if◌then◌else◌, take,
}
use git_memo.Base.Text.{Text, text, is_empty, to_lower, trim_space}
use git_memo.Base.Result.{Result, ok, err}
use git_memo.Memory.{Memory}
use git_memo.Memory.Pattern.{is_slug_byte, is_memory_id, is_slug}

-- The loop of `titleSlug`: what it writes from here on, when `size` bytes stand in the builder and
-- `last_dash` says whether the last is a dash. Every byte of a character that is not ASCII counts
-- as one that is no letter, and of a run of those only the first can write a dash.
unfoldable pub slug_bytes : ℕ → Bool → Text → Text
unfolding is_slug_byte
slug_bytes size last_dash [] = []
slug_bytes size last_dash (c ∷ s) =
    let keep = slug_bytes (size + 1) false s in
    let mark = slug_bytes (size + 1) true s in
    let skip = slug_bytes size last_dash s in
    if is_slug_byte c
    then c ∷ (if leb 80 (size + 1) then [] else keep)
    else if ltb 0 size && not last_dash
    then b'-' ∷ (if leb 80 (size + 1) then [] else mark)
    else if leb 80 size
    then []
    else skip

unfoldable pub trim_dashes_left : Text → Text
trim_dashes_left [] = []
trim_dashes_left (c ∷ s) = if nat_eq c b'-' then trim_dashes_left s else c ∷ s

unfoldable pub trim_dashes_right : Text → Text
unfolding is_empty
trim_dashes_right [] = []
trim_dashes_right (c ∷ s) =
    let rest = trim_dashes_right s in if nat_eq c b'-' && is_empty rest then [] else c ∷ rest

-- `titleSlug`
unfoldable pub title_slug : Text → Text
unfolding slug_bytes trim_dashes_left trim_dashes_right is_empty
title_slug title =
    let slug =
      trim_dashes_right (trim_dashes_left (slug_bytes 0 false (to_lower (trim_space title)))) in
    if is_empty slug then text "memory" else slug

pub data PathError : Type 0 where
  bad_id bad_project : PathError

-- The paths of the Markdown file and of the sidecar.
pub record DocumentPaths : Type 0 where
  pub markdown : Text
  pub sidecar : Text

paths_in : Text → Memory → DocumentPaths
paths_in dir m =
    let base = title_slug m.title ++ text "--" ++ take 8 m.id in
    record {
      markdown = dir ++ text "/" ++ base ++ text ".md";
      sidecar = dir ++ text "/" ++ base ++ text ".json";
    }

-- The folder, from the first project.
memory_dir : List Text → Result PathError Text
memory_dir [] = ok (text "memories/general")
memory_dir (first ∷ projects) =
    let project = trim_space first in
    if is_slug project then ok (text "memories/projects/" ++ project) else err bad_project

-- `canonicalPaths`
unfoldable pub canonical_paths : Memory → Result PathError DocumentPaths
unfolding paths_in memory_dir
canonical_paths m =
    if not (is_memory_id m.id)
    then err bad_id
    else elim (memory_dir m.projects) [ err e ↦ err e | ok dir ↦ ok (paths_in dir m) ]
