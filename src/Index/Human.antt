-- ===== src/Index/Human.antt =====
-- internal/indexer/indexer.go: the indexes for readers, projects.md, open-loops.md and
-- preferences.md.
use git_memo.Base.{
  ℕ, ◌-◌, Bool, ◌&&◌, Option, none, some, List, [], ◌∷◌, ◌++◌, leb, if◌then◌else◌, sort, is_some,
  map,
}
use git_memo.Base.Text.{
  Text, text, ◌==◌, text_le, is_empty, trim_space, split_on, join, strip_prefix, trim_suffix,
}
use git_memo.Base.Dict.{Dict}
use git_memo.Memory.{Memory, Record}
use git_memo.Index.Machine.{append_at}
use git_memo.Service.Operation.{is_unresolved}

-- `root` and `projects/` as these functions see them: what a path reads as, whether `os.Stat` finds
-- it, and the names of the folders in `projects`.
pub record ProjectTree : Type 0 where
  pub read : Text → Option Text
  pub exists : Text → Bool
  pub folders : List Text

-- The text before the first occurrence of `part`; the whole, if there is none.
unfoldable pub before : Text → Text → Text
unfolding strip_prefix
before part [] = []
before part (c ∷ s) =
    let rest = before part s in if is_some (strip_prefix part (c ∷ s)) then [] else c ∷ rest

-- " —"
abbrev pub long_dash : Text
long_dash = 32 ∷ 226 ∷ 128 ∷ 148 ∷ []

-- `strings.ToUpper` of one byte: a byte above 127 is no character, and turns to U+FFFD.
unfoldable pub upper_byte : ℕ → Text
upper_byte c =
    if leb b'a' c && leb c b'z'
    then (c - 32) ∷ []
    else if leb 128 c
    then 239 ∷ 191 ∷ 189 ∷ []
    else c ∷ []

unfoldable pub capitalize : Text → Text
unfolding upper_byte
capitalize [] = []
capitalize (c ∷ s) = upper_byte c ++ s

-- `strings.Join(parts, " ")` of the capitalised parts of the slug.
unfoldable pub title_of_slug : Text → Text
unfolding capitalize
title_of_slug slug = join b' ' (map capitalize (split_on b'-' slug))

-- The title in the first line of overview.md, if it has one.
unfoldable pub overview_title : Text → Option Text
unfolding before is_empty
overview_title bytes = elim (split_on 10 bytes) [
  | [] ↦ none
  | line ∷ lines ↦ elim (strip_prefix (text "# ") line) [
    | none ↦ none
    | some title ↦
        let short = trim_space (before (text " - ") (before long_dash title)) in
        if is_empty short then none else some short
  ]
]

-- `projectDisplayName`
unfoldable pub project_display_name : ProjectTree → Text → Text
unfolding title_of_slug overview_title
project_display_name tree slug =
    elim (tree.read (text "projects/" ++ slug ++ text "/overview.md")) [
      | none ↦ title_of_slug slug
      | some bytes ↦ elim (overview_title bytes) [ none ↦ title_of_slug slug | some title ↦ title ]
    ]

unfoldable pub line : Text → Text
line s = s ++ 10 ∷ []

unfoldable pub project_item : ProjectTree → Text → Text → Text → Text
unfolding line
project_item tree slug label file =
    let path = text "projects/" ++ slug ++ text "/" ++ file in
    if tree.exists path then line (text "- " ++ label ++ text ": `" ++ path ++ text "`") else []

-- The part of one project.
unfoldable pub render_project : ProjectTree → Text → Text
unfolding line project_display_name project_item
render_project tree slug =
    10
    ∷ (line (text "## " ++ project_display_name tree slug)
        ++ 10 ∷ line (text "- Project slug: `" ++ slug ++ text "`")
        ++ project_item tree slug (text "Overview") (text "overview.md")
        ++ project_item tree slug (text "Current state") (text "current-state.md")
        ++ project_item tree slug (text "Roadmap") (text "roadmap.md"))

unfoldable pub concat_map : {A : Type 0} → (A → Text) → List A → Text
concat_map f [] = []
concat_map f (a ∷ rest) = f a ++ concat_map f rest

-- `renderProjects`
unfoldable pub render_projects : ProjectTree → Text
unfolding concat_map render_project line
render_projects tree = line (text "# Projects") ++ elim (sort text_le tree.folders) [
  | [] ↦ 10 ∷ line (text "No projects have been registered yet.")
  | slug ∷ slugs ↦ concat_map (render_project tree) (slug ∷ slugs)
]

-- `groups[p] = append(groups[p], m)` for the projects of a memory; "" if it has none.
unfoldable pub add_to_projects : Memory → List Text → Dict (List Memory) → Dict (List Memory)
unfolding append_at
add_to_projects m [] groups = groups
add_to_projects m (p ∷ projects) groups = add_to_projects m projects (append_at p m groups)

unfoldable pub group_of : Memory → Dict (List Memory) → Dict (List Memory)
unfolding add_to_projects append_at
group_of m groups = elim m.projects [
  | [] ↦ append_at [] m groups
  | p ∷ projects ↦ add_to_projects m (p ∷ projects) groups
]

unfoldable pub is_open_loop : Memory → Bool
unfolding is_unresolved
is_open_loop m =
    m.kind == text "open_loop" && m.lifecycle == text "active" && is_unresolved m.open_loop_status

unfoldable pub is_preference : Memory → Bool
is_preference m = m.kind == text "preference" && m.lifecycle == text "active"

-- The loop of `renderOpenLoops` and of `renderPreferences` over the records.
unfoldable pub groups_of : (Memory → Bool) → List Record → Dict (List Memory) → Dict (List Memory)
unfolding group_of
groups_of wanted [] groups = groups
groups_of wanted (r ∷ records) groups =
    groups_of wanted records (if wanted r.memory then group_of r.memory groups else groups)

-- The bullet of a memory: `status` is the line that only open loops have.
unfoldable pub render_bullet : (Memory → Text) → Memory → Text
unfolding line trim_suffix
render_bullet status m =
    line (
      text "- `"
      ++ m.id
      ++ text "`"
      ++ long_dash
      ++ text " "
      ++ trim_suffix (text ".") m.title
      ++ text ".")
    ++ status m
    ++ line (text "  - Memory: `" ++ m.content_path ++ text "`")

unfoldable pub status_line : Memory → Text
unfolding line
status_line m = elim m.open_loop_status [
  | none ↦ []
  | some status ↦ line (text "  - Status: `" ++ status ++ text "`")
]

unfoldable pub by_id : Memory → Memory → Bool
by_id a b = text_le a.id b.id

-- The part of one group.
unfoldable pub render_group : ProjectTree → (Memory → Text) → Text × List Memory → Text
unfolding line project_display_name concat_map render_bullet by_id is_empty
render_group tree status (project, memories) =
    let title = if is_empty project then text "General" else project_display_name tree project in
    10
    ∷ (line (text "## " ++ title) ++ 10 ∷ concat_map (render_bullet status) (sort by_id memories))

-- The groups in the order of `sortedKeys`.
unfoldable pub key_le : Text × List Memory → Text × List Memory → Bool
key_le (a, memories) (b, others) = text_le a b

-- `renderOpenLoops`
unfoldable pub render_open_loops : ProjectTree → List Record → Text
unfolding line groups_of is_open_loop concat_map render_group status_line key_le
render_open_loops tree records =
    line (text "# Open Loops") ++ elim (sort key_le (groups_of is_open_loop records [])) [
      | [] ↦
          10 ∷ line (text "No unresolved open-loop memories.")
          ++ 10
            ∷ line (
                text
                  "Resolved/cancelled open-loop memories remain discoverable through the sharded machine indexes and atomic memory retrieval.")
      | group ∷ groups ↦
          concat_map (render_group tree status_line) (group ∷ groups)
          ++ 10
            ∷ line (
                text
                  "Resolved/cancelled open-loop memories are intentionally omitted from this active-work index and remain discoverable through the sharded machine indexes and atomic memory retrieval.")
    ]

-- `renderPreferences`
unfoldable pub render_preferences : ProjectTree → List Record → Text
unfolding line groups_of is_preference concat_map render_group key_le
render_preferences tree records =
    line (text "# Preferences") ++ elim (sort key_le (groups_of is_preference records [])) [
      | [] ↦
          10 ∷ line (text "No atomic preference memories have been imported yet.")
          ++ 10
            ∷ line (
                text
                  "This index is intentionally empty rather than populated from unreviewed historical context.")
      | group ∷ groups ↦ concat_map (render_group tree (λ m. [])) (group ∷ groups)
    ]
