-- ===== src/Memory/Fields/Valid.antt =====
-- internal/memory/model.go: what a memory that `validateFields` finds no problem in is like.
use git_memo.Base.{
  ◌≤◌, ◌≡◌, ◌≢◌, inl, inr, true, Option, none, some, List, [], ◌∷◌, length, All, arith, Bool-cases,
}
use git_memo.Base.Text.{Text, text, ◌==◌, eq_iff}
use git_memo.Base.Int.{pos, int_eq}
use git_memo.Memory.{Memory}
use git_memo.Memory.Pattern.{is_memory_id, is_content_path}
use git_memo.Memory.Fields.{
  TimeFormat, SchemaProblem, rune_count, memory_types, lifecycles, loop_statuses, sensitivities,
  importances, gather, check_loop_status, validate_head, validate_labels, validate_origin,
  validate_links, validate_fields,
}
use git_memo.Memory.Fields.Laws.{
  Among, AllSlugs, Distinct, append-eq-nil_iff, require_iff, check_string_iff, check_enum_iff,
  check_slug_array_iff,
}

-- The status that goes with a type: one of five for an open loop, none for any other type.
abbrev pub StatusFits : Text → Option Text → Type 0
StatusFits kind none = kind ≢ text "open_loop"
StatusFits kind (some status) = (kind ≡ text "open_loop") × Among status loop_statuses

pub record IsValidMemory (m : Memory) : Type 0 where
  pub version : int_eq m.schema_version (pos 1) ≡ true
  pub id : is_memory_id m.id ≡ true
  pub title : (1 ≤ rune_count m.title) × (rune_count m.title ≤ 200)
  pub kind : Among m.kind memory_types
  pub lifecycle : Among m.lifecycle lifecycles
  pub summary : (1 ≤ rune_count m.summary) × (rune_count m.summary ≤ 1000)
  pub projects : (length m.projects ≤ 20) × AllSlugs m.projects × Distinct m.projects
  pub topics : (length m.topics ≤ 30) × AllSlugs m.topics × Distinct m.topics
  pub tags : (length m.tags ≤ 50) × AllSlugs m.tags × Distinct m.tags
  pub importance : Among m.importance importances
  pub content_path : is_content_path m.content_path ≡ true
  pub sensitivity : Among m.sensitivity sensitivities
  pub status : StatusFits m.kind m.open_loop_status

check_loop_status-StatusFits :
    (kind : Text) (status : Option Text)
    → check_loop_status kind status ≡ []
    → StatusFits kind status
unfolding check_loop_status
check_loop_status-StatusFits kind none h = λ e. ground (arith, eq_iff kind (text "open_loop"))
check_loop_status-StatusFits kind (some status) h = elim (Bool-cases (kind == text "open_loop")) [
  | inl same ↦ ((eq_iff _ _).0 same, (check_enum_iff _ status loop_statuses).0 (rw same at h))
  | inr apart ↦ ground arith
]

gather-eq-nil :
    (found : List (List SchemaProblem)) → gather found ≡ [] → All (λ problems. problems ≡ []) found
unfolding gather
gather-eq-nil [] h = tt
gather-eq-nil (problems ∷ found) h =
    let both = (append-eq-nil_iff problems (gather found)).0 h in
    (both.0, gather-eq-nil found both.1)

-- A memory in which `validateFields` finds no problem has schema version 1, a UUID as its ID, a
-- known type, lifecycle, importance and sensitivity, a title and a summary of bounded length,
-- distinct slugs as projects, topics and tags within their limits, a content path of the
-- canonical form, and an open-loop status exactly if it is an open loop.
pub validate_fields-IsValidMemory :
    (time : TimeFormat) (m : Memory) → validate_fields time m ≡ [] → IsValidMemory m
unfolding validate_fields validate_head validate_labels validate_origin validate_links
validate_fields-IsValidMemory time m h =
    let (heads, (labelled, (origins, (linked, _)))) = gather-eq-nil _ h in
    let (version, (id, (title, (kind, (lifecycle, (summary, _)))))) = gather-eq-nil _ heads in
    let (projects, (topics, (tags, _))) = gather-eq-nil _ labelled in
    let (importance, _) = gather-eq-nil _ origins in
    let (_, (_, (path, (sensitivity, (status, _))))) = gather-eq-nil _ linked in
    record {
      version = (require_iff _ _ _).0 version;
      id = (require_iff _ _ _).0 id;
      title = (check_string_iff _ m.title 1 200).0 title;
      kind = (check_enum_iff _ m.kind memory_types).0 kind;
      lifecycle = (check_enum_iff _ m.lifecycle lifecycles).0 lifecycle;
      summary = (check_string_iff _ m.summary 1 1000).0 summary;
      projects = (check_slug_array_iff _ m.projects 20).0 projects;
      topics = (check_slug_array_iff _ m.topics 30).0 topics;
      tags = (check_slug_array_iff _ m.tags 50).0 tags;
      importance = (check_enum_iff _ m.importance importances).0 importance;
      content_path = (require_iff _ _ _).0 path;
      sensitivity = (check_enum_iff _ m.sensitivity sensitivities).0 sensitivity;
      status = check_loop_status-StatusFits m.kind m.open_loop_status status;
    }
