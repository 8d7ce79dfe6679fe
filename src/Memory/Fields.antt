-- ===== src/Memory/Fields.antt =====
-- internal/memory/model.go: `validateFields` and the checks it is made of. A check returns the
-- problems that the source appends.
pub mod Laws
pub mod Valid
use git_memo.Base.{
  ℕ, suc, ◌+◌, Bool, true, false, not, ◌&&◌, ◌||◌, Option, none, some, List, [], ◌∷◌, ◌++◌, ltb,
  leb, nat_eq, if◌then◌else◌, length, is_some,
}
use git_memo.Base.Text.{Text, text, ◌==◌, contains}
use git_memo.Base.Int.{pos, int_eq}
use git_memo.Memory.{Entity, Source, Relationship, Memory}
use git_memo.Memory.Pattern.{is_memory_id, is_slug, is_content_path}

-- The field of a problem: its name, with the place in a list where there is one.
pub data Field : Type 0 where
  field : Text → Field
  item : Text → ℕ → Field
  item_field : Text → ℕ → Text → Field

pub data Message : Type 0 where
  must_equal_one must_be_uuid must_be_slug must_be_entity_slug duplicates must_be_date_time :
      Message
  must_be_date bad_content_path status_required status_forbidden : Message
  length_between : ℕ → ℕ → Message
  invalid_value : Text → Message
  at_most : ℕ → Message
  sources_between : Message
  bad_object root_not_object strict_failed multiple_values bad_rest missing must_not_be_null :
      Message

pub record SchemaProblem : Type 0 where
  pub field : Field
  pub message : Message

abbrev pub problem : Field → Message → List SchemaProblem
problem f m = record { field = f; message = m } ∷ []

-- The problem, unless the test holds.
abbrev pub require : Bool → Field → Message → List SchemaProblem
require test f m = if test then [] else problem f m

-- `utf8.RuneCountInString` of UTF-8: the bytes that do not continue a character.
unfoldable pub rune_count : Text → ℕ
rune_count [] = 0
rune_count (c ∷ s) = if leb 128 c && ltb c 192 then rune_count s else suc (rune_count s)

unfoldable pub check_string : Field → Text → ℕ → ℕ → List SchemaProblem
check_string f value least most =
    let n = rune_count value in
    if ltb n least || ltb most n then problem f (length_between least most) else []

unfoldable pub check_optional_string : Field → Option Text → ℕ → ℕ → List SchemaProblem
unfolding check_string
check_optional_string f none least most = []
check_optional_string f (some value) least most = check_string f value least most

unfoldable pub check_enum : Field → Text → List Text → List SchemaProblem
check_enum f value [] = problem f (invalid_value value)
check_enum f value (candidate ∷ allowed) =
    if value == candidate then [] else check_enum f value allowed

-- The test of one slug.
unfoldable pub is_short_slug : Text → Bool
is_short_slug value = is_slug value && leb (rune_count value) 100

unfoldable pub check_slugs : Text → List Text → ℕ → List Text → List SchemaProblem
check_slugs name [] i seen = []
check_slugs name (value ∷ values) i seen =
    require (is_short_slug value) (item name i) must_be_slug
    ++ (require (not (contains seen value)) (field name) duplicates
        ++ check_slugs name values (i + 1) (value ∷ seen))

unfoldable pub check_slug_array : Text → List Text → ℕ → List SchemaProblem
unfolding check_slugs
check_slug_array name values most =
    require (leb (length values) most) (field name) (at_most most) ++ check_slugs name values 0 []

unfoldable pub check_strings : Text → List Text → ℕ → ℕ → ℕ → List Text → List SchemaProblem
check_strings name [] least most i seen = []
check_strings name (value ∷ values) least most i seen =
    check_string (item name i) value least most
    ++ (require (not (contains seen value)) (field name) duplicates
        ++ check_strings name values least most (i + 1) (value ∷ seen))

unfoldable pub check_string_array : Text → List Text → ℕ → ℕ → ℕ → List SchemaProblem
unfolding check_strings
check_string_array name values most least longest =
    require (leb (length values) most) (field name) (at_most most)
    ++ check_strings name values least longest 0 []

unfoldable pub contains_entity : List Entity → Entity → Bool
contains_entity [] e = false
contains_entity (d ∷ seen) e = d.kind == e.kind && d.name == e.name || contains_entity seen e

unfoldable pub check_entities : List Entity → ℕ → List Entity → List SchemaProblem
check_entities [] i seen = []
check_entities (e ∷ entities) i seen =
    require (is_short_slug e.kind) (item_field (text "entities") i (text "kind"))
      must_be_entity_slug
    ++ (check_string (item_field (text "entities") i (text "name")) e.name 1 200
        ++ (require (not (contains_entity seen e)) (field (text "entities")) duplicates
            ++ check_entities entities (i + 1) (e ∷ seen)))

abbrev pub source_kinds : List Text
source_kinds =
    text "conversation"
    ∷ text "project_repository"
    ∷ text "external"
    ∷ text "file"
    ∷ text "migration"
    ∷ text "other"
    ∷ []

unfoldable pub check_sources : List Source → ℕ → List SchemaProblem
check_sources [] i = []
check_sources (s ∷ sources) i =
    let at = item_field (text "provenance.sources") i in
    check_enum (at (text "kind")) s.kind source_kinds
    ++ (check_string (at (text "locator")) s.locator 1 1000
        ++ (check_optional_string (at (text "revision")) s.revision 1 200
            ++ (check_optional_string (at (text "note")) s.note 1 1000
                ++ check_sources sources (i + 1))))

abbrev pub relation_types : List Text
relation_types =
    text "related_to"
    ∷ text "depends_on"
    ∷ text "supersedes"
    ∷ text "corrects"
    ∷ text "conflicts_with"
    ∷ []

unfoldable pub check_relationships : List Relationship → ℕ → List SchemaProblem
check_relationships [] i = []
check_relationships (r ∷ relationships) i =
    let at = item_field (text "relationships") i in
    check_enum (at (text "type")) r.relation relation_types
    ++ (require (is_memory_id r.target_id) (at (text "target_id")) must_be_uuid
        ++ (check_optional_string (at (text "note")) r.note 1 1000
            ++ check_relationships relationships (i + 1)))

-- `time.Parse` at the two layouts that the program uses: an instant, or a failure.
pub record TimeFormat : Type 0 where
  pub rfc3339 : Text → Option ℕ
  pub iso_date : Text → Option ℕ

abbrev pub memory_types : List Text
memory_types =
    text "fact"
    ∷ text "preference"
    ∷ text "decision"
    ∷ text "state"
    ∷ text "open_loop"
    ∷ text "correction"
    ∷ text "milestone"
    ∷ text "reference"
    ∷ []

abbrev pub lifecycles : List Text
lifecycles = text "active" ∷ text "superseded" ∷ text "withdrawn" ∷ []

abbrev pub importances : List Text
importances = text "normal" ∷ text "high" ∷ text "critical" ∷ []

abbrev pub bases : List Text
bases =
    text "user_stated"
    ∷ text "project_verified"
    ∷ text "external_verified"
    ∷ text "derived"
    ∷ text "inferred"
    ∷ text "migrated"
    ∷ []

abbrev pub confidences : List Text
confidences = text "high" ∷ text "medium" ∷ text "low" ∷ []

abbrev pub sensitivities : List Text
sensitivities = text "routine" ∷ text "private" ∷ text "sensitive" ∷ []

abbrev pub loop_statuses : List Text
loop_statuses =
    text "open" ∷ text "blocked" ∷ text "deferred" ∷ text "resolved" ∷ text "cancelled" ∷ []

-- `open_loop_status` is there for an open loop, with a known value, and for nothing else.
unfoldable pub check_loop_status : Text → Option Text → List SchemaProblem
check_loop_status kind none =
    if kind == text "open_loop"
    then problem (field (text "open_loop_status")) status_required
    else []
check_loop_status kind (some status) =
    if kind == text "open_loop"
    then check_enum (field (text "open_loop_status")) status loop_statuses
    else problem (field (text "open_loop_status")) status_forbidden

-- The problems of a row of checks.
unfoldable pub gather : List (List SchemaProblem) → List SchemaProblem
gather [] = []
gather (found ∷ rest) = found ++ gather rest

-- `validateFields` in its four parts, in the source's order.
unfoldable pub validate_head : Memory → List SchemaProblem
validate_head m = gather (
    require (int_eq m.schema_version (pos 1)) (field (text "schema_version")) must_equal_one
    ∷ require (is_memory_id m.id) (field (text "id")) must_be_uuid
    ∷ check_string (field (text "title")) m.title 1 200
    ∷ check_enum (field (text "type")) m.kind memory_types
    ∷ check_enum (field (text "lifecycle")) m.lifecycle lifecycles
    ∷ check_string (field (text "summary")) m.summary 1 1000
    ∷ [])

unfoldable pub validate_labels : Memory → List SchemaProblem
validate_labels m = gather (
    check_slug_array (text "projects") m.projects 20
    ∷ check_slug_array (text "topics") m.topics 30
    ∷ check_slug_array (text "tags") m.tags 50
    ∷ check_string_array (text "aliases") m.aliases 50 1 200
    ∷ require (leb (length m.entities) 50) (field (text "entities")) (at_most 50)
    ∷ check_entities m.entities 0 []
    ∷ [])

unfoldable pub validate_links : Memory → List SchemaProblem
validate_links m = gather (
    require (leb (length m.relationships) 100) (field (text "relationships")) (at_most 100)
    ∷ check_relationships m.relationships 0
    ∷ require (is_content_path m.content_path) (field (text "content_path")) bad_content_path
    ∷ check_enum (field (text "sensitivity")) m.sensitivity sensitivities
    ∷ check_loop_status m.kind m.open_loop_status
    ∷ [])

module _ (time : TimeFormat) where
  unfoldable pub check_date_time : Text → Text → List SchemaProblem
  check_date_time name value = require (is_some (time.rfc3339 value)) (field name) must_be_date_time

  unfoldable pub check_optional_date : Text → Option Text → List SchemaProblem
  check_optional_date name none = []
  check_optional_date name (some value) =
      require (is_some (time.iso_date value)) (field name) must_be_date

  unfoldable pub validate_origin : Memory → List SchemaProblem
  validate_origin m =
      let sources = m.provenance.sources in
      gather (
        check_enum (field (text "importance")) m.importance importances
        ∷ check_date_time (text "temporal.created_at") m.temporal.created_at
        ∷ check_date_time (text "temporal.updated_at") m.temporal.updated_at
        ∷ check_optional_date (text "temporal.effective_from") m.temporal.effective_from
        ∷ check_optional_date (text "temporal.effective_until") m.temporal.effective_until
        ∷ check_enum (field (text "provenance.basis")) m.provenance.basis bases
        ∷ check_enum (field (text "provenance.confidence")) m.provenance.confidence confidences
        ∷ require (leb 1 (length sources) && leb (length sources) 50)
            (field (text "provenance.sources")) sources_between
        ∷ check_sources sources 0
        ∷ [])

  -- `validateFields`
  unfoldable pub validate_fields : Memory → List SchemaProblem
  validate_fields m =
      gather (validate_head m ∷ validate_labels m ∷ validate_origin m ∷ validate_links m ∷ [])
