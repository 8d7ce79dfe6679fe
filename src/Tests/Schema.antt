-- ===== src/Tests/Schema.antt =====
-- The schema's checks on one memory.
use git_memo.Base.Int.{int_eq}
use git_memo.Base.Text.{contains, split_on}
use git_memo.Memory.Fields.{
  validate_origin, check_date_time, check_string, check_sources, validate_links, check_loop_status,
  check_optional_string, check_optional_date, validate_labels, rune_count, check_entities,
  check_relationships, validate_head, is_short_slug, gather, check_string_array,
}
use git_memo.Memory.Pattern.{is_memory_id, is_content_path, is_slug, are_content_parts}
use git_memo.Base.{◌≡◌, ◌↔◌, ◌≤◌, refl, [], ◌∷◌, all_of}
use git_memo.Base.Text.{text, ◌==◌}
use git_memo.Memory.Fields.{field, validate_fields, check_enum, check_slug_array, lifecycles}
use git_memo.Memory.Fields.Laws.{Among, AllSlugs, Distinct, check_enum_iff, check_slug_array_iff}
use git_memo.Memory.Fields.Valid.{IsValidMemory, validate_fields-IsValidMemory}
use git_memo.Tests.Data.{one_memory, any_time}

one_memory_test : validate_fields any_time one_memory ≡ []
unfolding validate_fields validate_head validate_labels validate_origin validate_links
    check_date_time check_optional_date check_string check_enum check_slug_array check_string_array
    check_entities check_sources check_relationships check_loop_status is_content_path split_on
    gather rune_count is_memory_id int_eq is_short_slug is_slug check_optional_string
    are_content_parts ◌==◌ all_of contains
one_memory_test = refl

validate_fields-IsValidMemory_example : IsValidMemory one_memory
validate_fields-IsValidMemory_example =
    validate_fields-IsValidMemory any_time one_memory one_memory_test

check_enum_iff_example :
    (check_enum (field (text "lifecycle")) (text "gone") lifecycles ≡ [])
    ↔ Among (text "gone") lifecycles
check_enum_iff_example = check_enum_iff (field (text "lifecycle")) (text "gone") lifecycles

check_slug_array_iff_example :
    (check_slug_array (text "tags") (text "tea" ∷ text "tea" ∷ []) 50 ≡ [])
    ↔ ((2 ≤ 50) × AllSlugs (text "tea" ∷ text "tea" ∷ []) × Distinct (text "tea" ∷ text "tea" ∷ []))
check_slug_array_iff_example = check_slug_array_iff (text "tags") (text "tea" ∷ text "tea" ∷ []) 50
