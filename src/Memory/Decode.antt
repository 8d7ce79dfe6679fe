-- ===== src/Memory/Decode.antt =====
-- internal/memory/model.go: `Decode` and `validateRequired`, over JSON that `encoding/json` parses.
use git_memo.Base.{
  ℕ, ◌+◌, Bool, true, false, not, ◌&&◌, Option, none, some, List, [], ◌∷◌, ◌++◌, if◌then◌else◌,
}
use git_memo.Base.Text.{Text, text, ◌==◌, contains}
use git_memo.Memory.{Memory}
use git_memo.Memory.Fields.{
  Field, field, item_field, SchemaProblem, problem, TimeFormat, validate_fields, bad_object,
  root_not_object, strict_failed, multiple_values, bad_rest, missing, must_not_be_null,
}

mutual
  pub data Json : Type 0 where
    null : Json
    scalar : Text → Json
    array : Items → Json
    object : Members → Json

  pub data Items : Type 0 where
    no_items : Items
    item : Json → Items → Items

  pub data Members : Type 0 where
    no_members : Members
    member : Text → Json → Members → Members

-- What a decoder finds behind the first value of a text.
pub data Rest : Type 0 where
  end_of_input another_value unreadable : Rest

-- `encoding/json` at the type `Memory`. `parse` reads a whole text as one value; `decode_strict` is
-- the decoder with `DisallowUnknownFields`, and gives what stands behind the value too.
pub record MemoryJson : Type 0 where
  pub parse : Text → Option Json
  pub decode_strict : Text → Option (Memory × Rest)
  pub encode : Memory → Option Text

unfoldable pub get_member : Text → Members → Option Json
get_member name no_members = none
get_member name (member other value ms) = if other == name then some value else get_member name ms

unfoldable pub is_null : Json → Bool
is_null null = true
is_null (scalar s) = false
is_null (array xs) = false
is_null (object ms) = false

abbrev pub nullable : List Text
nullable = text "effective_from" ∷ text "effective_until" ∷ text "revision" ∷ text "note" ∷ []

-- The closure `require` of `validateRequired`.
unfoldable pub require_names : Members → (Text → Field) → List Text → List SchemaProblem
unfolding get_member is_null contains
require_names ms at [] = []
require_names ms at (name ∷ names) =
    elim (get_member name ms) [
      | none ↦ problem (at name) missing
      | some value ↦
          if is_null value && not (contains nullable name)
          then problem (at name) must_not_be_null
          else []
    ]
    ++ require_names ms at names

abbrev pub root_names : List Text
root_names =
    text "schema_version"
    ∷ text "id"
    ∷ text "title"
    ∷ text "type"
    ∷ text "lifecycle"
    ∷ text "summary"
    ∷ text "projects"
    ∷ text "topics"
    ∷ text "tags"
    ∷ text "aliases"
    ∷ text "entities"
    ∷ text "importance"
    ∷ text "temporal"
    ∷ text "provenance"
    ∷ text "relationships"
    ∷ text "content_path"
    ∷ text "sensitivity"
    ∷ []

-- A member that is an object, or null inside a list, where Go's map is nil and lacks every name.
unfoldable pub members_of : Json → Option Members
members_of null = some no_members
members_of (scalar s) = none
members_of (array xs) = none
members_of (object ms) = some ms

-- `json.Unmarshal` into a slice of maps fails as a whole if an item is no object.
unfoldable pub all_members : Items → Option (List Members)
unfolding members_of
all_members no_items = some []
all_members (item j items) = elim (members_of j) [
  | none ↦ none
  | some ms ↦ elim (all_members items) [ none ↦ none | some rest ↦ some (ms ∷ rest) ]
]

unfoldable pub require_each : List Members → Text → ℕ → List Text → List SchemaProblem
unfolding require_names
require_each [] name i names = []
require_each (ms ∷ items) name i names =
    require_names ms (item_field name i) names ++ require_each items name (i + 1) names

-- A member that is a list of objects: each has the names. Null has no items.
unfoldable pub require_list : Text → Text → List Text → Members → List SchemaProblem
unfolding require_each all_members
require_list key name names ms = elim (get_member key ms) [
  | none ↦ []
  | some (array items) ↦ elim (all_members items) [
    | none ↦ []
    | some maps ↦ require_each maps name 0 names
  ]
  | some _ ↦ []
]

-- A member that is an object has the names.
unfoldable pub require_object : Text → List Text → Members → List SchemaProblem
unfolding require_names
require_object key names ms = elim (get_member key ms) [
  | some (object ms) ↦ require_names ms (λ name. field (key ++ text "." ++ name)) names
  | _ ↦ []
]

-- The sources inside `provenance`.
unfoldable pub require_sources : Members → List SchemaProblem
unfolding require_list
require_sources ms = elim (get_member (text "provenance") ms) [
  | some (object ms) ↦
      require_list (text "sources") (text "provenance.sources")
        (text "kind" ∷ text "locator" ∷ text "revision" ∷ text "note" ∷ []) ms
  | _ ↦ []
]

-- `validateRequired`
unfoldable pub validate_required : Members → List SchemaProblem
unfolding require_names require_object require_sources require_list
validate_required root =
    require_names root field root_names
    ++ (require_object (text "temporal")
          (text "created_at"
            ∷ text "updated_at"
            ∷ text "effective_from"
            ∷ text "effective_until"
            ∷ [])
          root
        ++ (require_object (text "provenance")
              (text "basis"
                ∷ text "confidence"
                ∷ text "explicit_memory_request"
                ∷ text "sources"
                ∷ [])
              root
            ++ (require_sources root
                ++ (require_list (text "relationships") (text "relationships")
                      (text "type" ∷ text "target_id" ∷ text "note" ∷ []) root
                    ++ require_list (text "entities") (text "entities")
                        (text "kind" ∷ text "name" ∷ []) root))))

-- A memory, or the problems for which it is not used.
pub data Decoded : Type 0 where
  valid : Memory → Decoded
  invalid : List SchemaProblem → Decoded

decoded : Memory → List SchemaProblem → Decoded
decoded m [] = valid m
decoded m (p ∷ problems) = invalid (p ∷ problems)

module _ (json : MemoryJson) (time : TimeFormat) where
  -- The end of `Decode`, for a root that is an object.
  decode_object : Text → Members → Decoded
  unfolding decoded
  decode_object bytes root = elim (json.decode_strict bytes) [
    | none ↦ invalid (problem (field []) strict_failed)
    | some (m, another_value) ↦ invalid (problem (field []) multiple_values)
    | some (m, unreadable) ↦ invalid (problem (field []) bad_rest)
    | some (m, end_of_input) ↦ decoded m (validate_required root ++ validate_fields time m)
  ]

  -- `Decode`. Callers use the memory only if there is no problem.
  unfoldable pub decode : Text → Decoded
  unfolding decode_object
  decode bytes = elim (json.parse bytes) [
    | none ↦ invalid (problem (field []) bad_object)
    | some null ↦ invalid (problem (field []) root_not_object)
    | some (object root) ↦ decode_object bytes root
    | some _ ↦ invalid (problem (field []) bad_object)
  ]
