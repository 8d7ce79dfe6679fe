-- ===== src/Validation/Documents.antt =====
-- internal/validation/validation.go: what `Validate` says of one document, its path, its Markdown and
-- its times.
use git_memo.Base.{
  ℕ, ◌+◌, ◌-◌, Bool, true, false, not, ◌&&◌, ◌||◌, Option, none, some, List, [], ◌∷◌, ◌++◌, ltb,
  leb, nat_eq, length, take, drop, is_some, if◌then◌else◌,
}
use git_memo.Base.Text.{
  Text, text, ◌==◌, contains, strip_prefix, split_on, trim_space, trim_suffix, is_empty,
}
use git_memo.Memory.{Record, Memory}
use git_memo.Memory.Fields.{TimeFormat}
use git_memo.Memory.Pattern.{is_slug, matches, stem_places}
use git_memo.Validation.{Issue, error}
use git_memo.Validation.Relations.{error_if}

-- The text without the ending, if it has it.
unfoldable pub strip_suffix : Text → Text → Option Text
strip_suffix part s =
    let n = length s - length part in
    if leb (length part) (length s) && drop n s == part then some (take n s) else none

-- `[slug]--[0-9a-f]{8}`, of which the last 8 bytes are the group `short`.
unfoldable pub short_of_stem : Text → Option Text
unfolding is_slug matches
short_of_stem stem =
    let n = length stem - 10 in
    if leb 10 (length stem) && is_slug (take n stem) && matches stem_places (drop n stem)
    then some (drop (n + 2) stem)
    else none

-- `filenameRE`: the group `short`. A stem has no full stop.
unfoldable pub short_of_name : Text → Option Text
unfolding strip_suffix short_of_stem
short_of_name name = elim (strip_suffix (text ".json") name) [
  | some stem ↦ short_of_stem stem
  | none ↦ elim (strip_suffix (text ".md") name) [ some stem ↦ short_of_stem stem | none ↦ none ]
]

-- `filepath.Base` of a path that ends in a name.
unfoldable pub base_name : List Text → Text
base_name [] = []
base_name (part ∷ []) = part
base_name (part ∷ next ∷ parts) = base_name (next ∷ parts)

-- `strings.TrimSuffix(path, ".json") + ".md"`
unfoldable pub markdown_path : Text → Text
unfolding trim_suffix
markdown_path path = trim_suffix (text ".json") path ++ text ".md"

-- What the file system and `fmt` say: the path of a text joined to the root and taken relative to
-- it, that a path is a regular file, the bytes of a file, and the verb %q.
pub record Surroundings : Type 0 where
  pub relative : Text → Option Text
  pub is_regular : Text → Bool
  pub read : Text → Option Text
  pub quote : Text → Text

unfoldable pub is_escape : Option Text → Bool
unfolding strip_prefix
is_escape none = true
is_escape (some path) = is_some (strip_prefix (text "../") path) || path == text ".."

-- `templateMarkers`
abbrev pub template_markers : List Text
template_markers =
    text "<Canonical title>"
    ∷ text "<full UUID>"
    ∷ text "<memory type>"
    ∷ text "<State "
    ∷ text "<Explain "
    ∷ text "<Describe "
    ∷ text "<Record "
    ∷ text "<Provide "
    ∷ text "<Preserve "
    ∷ text "<List "
    ∷ text "<Add "
    ∷ text "<Give "
    ∷ []

-- `strings.Contains`
unfoldable pub has_part : Text → Text → Bool
unfolding strip_prefix
has_part part [] = is_empty part
has_part part (c ∷ s) = is_some (strip_prefix part (c ∷ s)) || has_part part s

-- The first marker in the text.
unfoldable pub find_marker : List Text → Text → Option Text
unfolding has_part
find_marker [] s = none
find_marker (marker ∷ markers) s =
    let rest = find_marker markers s in if has_part marker s then some marker else rest

-- What stands before the next backtick, and what behind it.
unfoldable pub until_tick : Text → Option (Text × Text)
until_tick [] = none
until_tick (c ∷ s) =
    let rest = until_tick s in
    if nat_eq c b'`'
    then some ([], s)
    else elim rest [ none ↦ none | some (field, behind) ↦ some (c ∷ field, behind) ]

-- `\s*$` with (?m): nothing but white space up to the end of the line.
unfoldable pub is_blank_line : Text → Bool
is_blank_line [] = true
is_blank_line (c ∷ s) =
    nat_eq c 10 || ((nat_eq c 9 || nat_eq c 12 || nat_eq c 13 || nat_eq c 32) && is_blank_line s)

-- A match at the beginning of a line: the label, then `([^`]+)` in backticks to its end.
unfoldable pub field_here : Text → Text → Option Text
unfolding strip_prefix until_tick is_empty is_blank_line
field_here label s = elim (strip_prefix label s) [
  | none ↦ none
  | some rest ↦ elim (until_tick rest) [
    | none ↦ none
    | some (field, behind) ↦
        if not (is_empty field) && is_blank_line behind then some field else none
  ]
]

-- `FindStringSubmatch`: the first line with a match. `at_start` is that a line begins here.
unfoldable pub field_from : Bool → Text → Text → Option Text
unfolding field_here
field_from at_start label [] = none
field_from at_start label (c ∷ s) =
    let rest = field_from (nat_eq c 10) label s in
    let here = field_here label (c ∷ s) in if at_start && is_some here then here else rest

unfoldable pub is_field : Option Text → Text → Bool
is_field none wanted = false
is_field (some found) wanted = found == wanted

-- `headings`
unfoldable pub headings_of : List Text → List Text
unfolding strip_prefix
headings_of [] = []
headings_of (line ∷ lines) =
    let rest = headings_of lines in
    if is_some (strip_prefix (text "## ") line) then trim_space line ∷ rest else rest

abbrev pub open_headings : List Text
open_headings =
    text "## Open question or task"
    ∷ text "## Why it remains open"
    ∷ text "## Next useful action"
    ∷ []

abbrev pub closed_headings : List Text
closed_headings =
    text "## Original question or task" ∷ text "## Outcome" ∷ text "## Closure basis" ∷ []

-- `lines[0]`
unfoldable pub first_line : List Text → Text
first_line [] = []
first_line (s ∷ lines) = s

unfoldable pub marker_issues : Text → Option Text → List Issue
unfolding error
marker_issues path none = []
marker_issues path (some marker) =
    error (text "TEMPLATE_SCAFFOLD") path
      (text "finalized memory contains template placeholder: " ++ marker)
    ∷ []

module _ (env : Surroundings) where
  -- `checkFilenameAndPath`: what it says of the file name.
  unfoldable pub name_issues : Record → List Issue
  unfolding short_of_name base_name error error_if
  name_issues r = elim (short_of_name (base_name (split_on b'/' r.path))) [
    | none ↦
        error (text "FILENAME_FORMAT") r.path (text "sidecar filename must be <slug>--<8 hex>.json")
        ∷ []
    | some short ↦
        let prefix = take 8 r.memory.id in
        error_if (leb 8 (length r.memory.id) && not (short == prefix)) (text "UUID_FILENAME") r.path
          (text "filename UUID suffix " ++ short ++ text " does not match UUID prefix " ++ prefix)
  ]

  -- `checkFilenameAndPath`
  unfoldable pub check_filename_and_path : Record → List Issue
  unfolding name_issues markdown_path error_if is_escape
  check_filename_and_path r =
      let expected = markdown_path r.path in
      name_issues r
      ++ error_if (not (r.memory.content_path == expected)) (text "CONTENT_PATH_MISMATCH") r.path
          (text "content_path must be " ++ env.quote expected)
      ++ (if is_escape (env.relative r.memory.content_path)
          then error (text "CONTENT_PATH_ESCAPE") r.path
              (text "content_path escapes repository root")
            ∷ []
          else error_if (not (env.is_regular r.memory.content_path)) (text "CONTENT_PATH_MISSING")
              r.path (text "content_path does not resolve to a regular repository file"))

  heading_message : Text → Text → Text → Text
  heading_message status verb heading =
      text "status " ++ env.quote status ++ verb ++ env.quote heading

  -- `require`
  unfoldable pub require_headings : Text → Text → List Text → List Text → List Issue
  unfolding error_if contains heading_message
  require_headings path status headings [] = []
  require_headings path status headings (h ∷ names) =
      error_if (not (contains headings h)) (text "OPEN_LOOP_MARKDOWN_FORM") path
        (heading_message status (text " requires heading ") h)
      ++ require_headings path status headings names

  -- `forbid`
  unfoldable pub forbid_headings : Text → Text → List Text → List Text → List Issue
  unfolding error_if contains heading_message
  forbid_headings path status headings [] = []
  forbid_headings path status headings (h ∷ names) =
      error_if (contains headings h) (text "OPEN_LOOP_MARKDOWN_FORM") path
        (heading_message status (text " must not use heading ") h)
      ++ forbid_headings path status headings names

  -- `checkOpenLoopForm`
  unfoldable pub check_open_loop_form : Text → Text → Text → List Issue
  unfolding headings_of require_headings forbid_headings
  check_open_loop_form path status body =
      let headings = headings_of (split_on 10 body) in
      if status == text "open" || status == text "blocked" || status == text "deferred"
      then require_headings path status headings open_headings
        ++ forbid_headings path status headings closed_headings
      else if status == text "resolved" || status == text "cancelled"
      then require_headings path status headings closed_headings
        ++ forbid_headings path status headings open_headings
      else []

  loop_issues : Text → Option Text → Text → List Issue
  unfolding check_open_loop_form
  loop_issues path none body = []
  loop_issues path (some status) body = check_open_loop_form path status body

  -- The part of `checkMarkdown` below the reading of the file.
  unfoldable pub markdown_issues : Text → Memory → Text → List Issue
  unfolding error_if error field_from is_field has_part find_marker marker_issues loop_issues
      first_line
  markdown_issues path m body =
      error_if (not (first_line (split_on 10 body) == text "# " ++ m.title)) (text "MARKDOWN_TITLE")
        path (text "Markdown H1 must exactly equal JSON title")
      ++ error_if (not (is_field (field_from true (text "**Memory ID:** `") body) m.id))
          (text "MARKDOWN_UUID") path (text "Markdown Memory ID must equal JSON id")
      ++ error_if (not (is_field (field_from true (text "**Type:** `") body) m.kind))
          (text "MARKDOWN_TYPE") path (text "Markdown Type must equal JSON type")
      ++ error_if (has_part (text "<!--") body || has_part (text "-->") body)
          (text "TEMPLATE_SCAFFOLD") path
          (text "finalized memory contains instructional HTML comments")
      ++ marker_issues path (find_marker template_markers body)
      ++ (if m.kind == text "open_loop" then loop_issues path m.open_loop_status body else [])

  -- `checkMarkdown`
  unfoldable pub check_markdown : Record → List Issue
  unfolding markdown_path markdown_issues
  check_markdown r = elim (env.read (markdown_path r.path)) [
    | none ↦ []
    | some body ↦ markdown_issues (markdown_path r.path) r.memory body
  ]

-- `e1 == nil && e2 == nil && later.Before(earlier)`
unfoldable pub is_before : Option ℕ → Option ℕ → Bool
is_before (some later) (some earlier) = ltb later earlier
is_before (some later) none = false
is_before none earlier = false

module _ (time : TimeFormat) where
  unfoldable pub range_issues : Text → Option Text → Option Text → List Issue
  unfolding error_if is_before
  range_issues path (some from) (some until) =
      error_if (is_before (time.iso_date until) (time.iso_date from))
        (text "EFFECTIVE_RANGE_REVERSED") path
        (text "effective_until is earlier than effective_from")
  range_issues path (some from) none = []
  range_issues path none until = []

  -- `checkTemporal`
  unfoldable pub check_temporal : List Record → List Issue
  unfolding error_if is_before range_issues
  check_temporal [] = []
  check_temporal (r ∷ records) =
      let t = r.memory.temporal in
      error_if (is_before (time.rfc3339 t.updated_at) (time.rfc3339 t.created_at))
        (text "UPDATED_BEFORE_CREATED") r.path (text "updated_at is earlier than created_at")
      ++ range_issues r.path t.effective_from t.effective_until
      ++ check_temporal records
